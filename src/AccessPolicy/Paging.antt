-- ===== src/AccessPolicy/Paging.antt =====
-- The paging loop of `ListChannels`: what one round does, and that the rounds come to an end.
use aloqa_claude.Prelude.{
  ℕ, zero, suc, ◌+◌, ◌≤◌, ◌<◌, ◌≡◌, refl, sym, ◌∙◌, ◌⊎◌, inl, inr, ◌||◌, some, List, [], ◌∷◌,
  number_key, ◌==◌, length, take, ltb, leb, filter_by, All, arith, Bool-cases,
}
use aloqa_claude.Errors.{Error, Result, ok, err, internal_error, Result-cases}
use aloqa_claude.Entity.Roles.{Channel}
use aloqa_claude.Pagination.{max_limit, normalize_limit}
use aloqa_claude.AccessPolicy.Listing.{
  Access, Pages, collect_page, last_id, paging_loop, rows_below, list_by_workspace, list_workspace,
  deduped, access_of,
}
use aloqa_claude.AccessPolicy.{Capability, Checker}

module _ (fuel : ℕ) (access : Access) (pages : Pages) (cursor : ℕ) (all page : List Channel)
    (answered : pages cursor ≡ ok page) where
  pub paging_loop-refused :
      (e : Error)
      → collect_page access all page ≡ err e
      → paging_loop (suc fuel) access pages cursor all ≡ some (err e)
  unfolding paging_loop
  paging_loop-refused e q = ground (arith, answered, q)

  pub paging_loop-last :
      (all' : List Channel)
      → collect_page access all page ≡ ok all'
      → length page ≤ max_limit
      → paging_loop (suc fuel) access pages cursor all ≡ some (ok all')
  unfolding paging_loop
  paging_loop-last all' q h = ground (arith, answered, q, h)

-- Behind a cursor, a page ends with a row below it.
abbrev pub IsKeyset : Pages → Type 0
IsKeyset pages = (k : ℕ) (page : List Channel) → pages (suc k) ≡ ok page → last_id page ≤ k

zero_or_suc : (n : ℕ) → (n ≡ 0) ⊎ ((k : ℕ) × (n ≡ suc k))
zero_or_suc zero = inl refl
zero_or_suc (suc k) = inr (k, refl)

-- Behind a page that was answered and collected, the loop ends or goes on from the page's last row.
round_cases :
    (fuel : ℕ) (access : Access) (pages : Pages) (cursor : ℕ) (all all' page : List Channel)
    → pages cursor ≡ ok page
    → collect_page access all page ≡ ok all'
    → (paging_loop (suc fuel) access pages cursor all ≡ some (ok all'))
      ⊎ ((k : ℕ) × (last_id page ≡ suc k)
          × (paging_loop (suc fuel) access pages cursor all
              ≡ paging_loop fuel access pages (suc k) all'))
unfolding paging_loop
round_cases fuel access pages cursor all all' page answered q =
    elim (Bool-cases
      (leb (length page) max_limit || (last_id page == 0 || last_id page == cursor))) [
        | inl over ↦ inl (ground (arith, answered, q, over))
        | inr on ↦ elim (zero_or_suc (last_id page)) [
          | inl none_left ↦ absurd (ground (arith, on, none_left))
          | inr (k, e) ↦ inr (k, e, ground (arith, answered, q, on, e))
        ]
      ]

module _ (access : Access) (pages : Pages) (keyset : IsKeyset pages) where
  -- The cursor falls from page to page.
  paging_loop_ends :
      (n fuel cursor : ℕ) (all : List Channel)
      → ((page : List Channel) → pages cursor ≡ ok page → last_id page ≤ n)
      → n < fuel
      → (r : Result (List Channel)) × (paging_loop fuel access pages cursor all ≡ some r)
  unfolding paging_loop
  paging_loop_ends n zero cursor all low h = absurd (omega (arith, h))
  paging_loop_ends n (suc fuel) cursor all low h = elim (Result-cases (pages cursor)) [
    | inl (e, p) ↦ (err (internal_error "failed to list workspace channels" e), ground (arith, p))
    | inr (page, p) ↦ elim (Result-cases (collect_page access all page)) [
      | inl (e, q) ↦ (err e, paging_loop-refused fuel access pages cursor all page p e q)
      | inr (all', q) ↦ elim (round_cases fuel access pages cursor all all' page p q) [
        | inl over ↦ (ok all', over)
        | inr (k, e, on) ↦
            let lower : suc k ≤ n = rw (sym e) (low page p) in
            let (r, ends) =
              paging_loop_ends k fuel (suc k) all' (keyset k) (omega (arith, lower, h)) in
            (r, on ∙ ends)
      ]
    ]
  ]

-- A page of the program's store is one of rows below the cursor.
last_below : (k : ℕ) (rows : List Channel) → All (λ ch. ch.id ≤ k) rows → last_id rows ≤ k
last_below k [] h = omega arith
last_below k (ch ∷ []) h = h.0
last_below k (ch ∷ ch' ∷ rows) h = last_below k (ch' ∷ rows) h.1

below_cursor :
    (k : ℕ) (rows : List Channel) → All (λ ch. ch.id ≤ k) (filter_by (λ ch. ltb ch.id (suc k)) rows)
below_cursor k [] = tt
below_cursor k (ch ∷ rows) = elim (Bool-cases (ltb ch.id (suc k))) [
  | inl less ↦ rw less (ground arith, below_cursor k rows)
  | inr more ↦ rw more (below_cursor k rows)
]

All-take :
    (k n : ℕ) (rows : List Channel)
    → All (λ ch. ch.id ≤ k) rows
    → All (λ ch. ch.id ≤ k) (take n rows)
All-take k zero rows h = tt
All-take k (suc n) [] h = tt
All-take k (suc n) (ch ∷ rows) h = (h.0, All-take k n rows h.1)

pub list_by_workspace-IsKeyset :
    (rows : List Channel) (limit : ℕ)
    → IsKeyset (λ cursor. ok (list_by_workspace rows cursor limit))
unfolding list_by_workspace
list_by_workspace-IsKeyset rows limit k page h =
    let below = below_cursor k rows in
    elim (Bool-cases (
      ltb (normalize_limit limit)
        (length (take (normalize_limit limit + 1) (rows_below (suc k) rows))))) [
          | inl more ↦
              let cut : page
                  ≡ take (normalize_limit limit)
                      (take (normalize_limit limit + 1) (rows_below (suc k) rows)) =
                ground (arith, more, h) in
              rw cut (
                last_below k _ (
                  All-take k (normalize_limit limit) _
                    (All-take k (normalize_limit limit + 1) _ below)))
          | inr few ↦
              let whole : page ≡ take (normalize_limit limit + 1) (rows_below (suc k) rows) =
                ground (arith, few, h) in
              rw whole (last_below k _ (All-take k (normalize_limit limit + 1) _ below))
        ]

-- Over a store whose pages behind a cursor end with a row below it, as those of `ListByWorkspace` do,
-- the walk through a workspace ends, however many rows each page has: with fuel above the
-- identifier of the last row of the first page there is an answer, be it channels or an error.
pub list_workspace_ends :
    (c : Checker) (path workspace user n fuel : ℕ) (capability : Capability)
    → IsKeyset (λ cursor. c.channels.list_by_workspace workspace cursor max_limit)
    → ((page : List Channel)
        → c.channels.list_by_workspace workspace 0 max_limit ≡ ok page
        → last_id page ≤ n)
    → n < fuel
    → (r : Result (List Channel)) × (list_workspace fuel c path workspace user capability ≡ some r)
unfolding list_workspace
list_workspace_ends c path workspace user n fuel capability keyset low h =
    let pages : Pages = λ cursor. c.channels.list_by_workspace workspace cursor max_limit in
    let (r, ends) =
      paging_loop_ends (access_of c path user capability) pages keyset n fuel 0 [] low h in
    (deduped r, rw ends refl)
