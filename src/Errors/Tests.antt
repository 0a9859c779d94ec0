-- ===== src/Errors/Tests.antt =====
-- The search in an error chain, on a concrete chain.
use aloqa_claude.Prelude.{◌≡◌, refl, List, [], ◌∷◌, String, true}
use aloqa_claude.Errors.{not_found, as_app_error, is_not_found, http_status_of, not_found_error}
use aloqa_claude.Errors.Laws.{wrap_all}

abbrev two_wrappers : List String
two_wrappers = "loading the user" ∷ "query" ∷ []

wrapped_not_found : is_not_found (wrap_all two_wrappers (not_found_error "user not found")) ≡ true
unfolding is_not_found as_app_error
wrapped_not_found = refl

status_not_found : http_status_of not_found ≡ 404
unfolding http_status_of
status_not_found = refl
