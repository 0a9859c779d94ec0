-- ===== src/Errors/Laws.antt =====
-- What the search in an error chain finds, and the statuses that the codes map to.
use aloqa_claude.Prelude.{◌≤◌, ◌<◌, String, ◌≡◌, refl, true, false, List, [], ◌∷◌, arith}
use aloqa_claude.Errors.{
  Code, Error, foreign, wraps, as_app_error, is_not_found, is_forbidden, http_status_of,
  internal_error,
}

-- `fmt.Errorf("…: %w", err)`, several times over.
abbrev pub wrap_all : List String → Error → Error
wrap_all [] e = e
wrap_all (m ∷ ms) e = foreign m (wraps (wrap_all ms e))

-- Foreign wrappers, however many, do not hide an application error: the search through the chain
-- still finds it, with its code, message and cause.
pub as_app_error-wrap_all :
    (ms : List String) (e : Error) → as_app_error (wrap_all ms e) ≡ as_app_error e
unfolding as_app_error
as_app_error-wrap_all [] e = refl
as_app_error-wrap_all (m ∷ ms) e = as_app_error-wrap_all ms e

-- `Internal` masks what it wraps: whatever the wrapped error, the result is neither a
-- not-found nor a forbidden error.
pub internal_error_masks :
    (message : String) (e : Error)
    → (is_not_found (internal_error message e) ≡ false)
      × (is_forbidden (internal_error message e) ≡ false)
unfolding is_not_found is_forbidden as_app_error
internal_error_masks message e = (refl, refl)

-- No error is both.
pub not_found-forbidden : (e : Error) → is_not_found e ≡ true → is_forbidden e ≡ false
unfolding is_not_found is_forbidden
not_found-forbidden e h = ground arith

-- Every status that an error maps to is a client or a server error.
pub http_status_of_bounds : (c : Code) → (400 ≤ http_status_of c) × (http_status_of c < 600)
unfolding http_status_of
http_status_of_bounds c = ground arith
