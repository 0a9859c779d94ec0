-- ===== src/AccessPolicy/Truncation.antt =====
-- What `ListChannels` makes of the pages that the store really answers with.
use aloqa_claude.Prelude.{
  ℕ, zero, suc, ◌≡◌, refl, ap, sym, ◌∙◌, ◌≤◌, false, inl, inr, some, List, [], ◌∷◌, length, take,
  ltb, arith, ltb-false, length-take, Bool-cases,
}
use aloqa_claude.Errors.{ok, Result-cases}
use aloqa_claude.Entity.Roles.{Channel}
use aloqa_claude.Pagination.{max_limit, normalize_limit}
use aloqa_claude.AccessPolicy.{Capability, Checker}
use aloqa_claude.AccessPolicy.Listing.{
  Pages, collect_page, list_workspace, list_by_workspace, access_of, deduped, deduped_option,
}
use aloqa_claude.AccessPolicy.Paging.{paging_loop-refused, paging_loop-last}

take-take : (n : ℕ) (rows : List Channel) → take n (take (suc n) rows) ≡ take n rows
take-take zero rows = refl
take-take (suc n) [] = refl
take-take (suc n) (ch ∷ rows) = ap (◌∷◌ ch) (take-take n rows)

take_few : (n : ℕ) (rows : List Channel) → length rows ≤ n → take n rows ≡ take (suc n) rows
take_few zero [] h = refl
take_few zero (ch ∷ rows) h = absurd (omega arith)
take_few (suc n) [] h = refl
take_few (suc n) (ch ∷ rows) h = ap (◌∷◌ ch) (take_few n rows (omega arith))

few_rows : (rows : List Channel) → ltb 100 (length (take 101 rows)) ≡ false → length rows ≤ 100
few_rows rows h = omega (arith, length-take 101 rows, ltb-false 100 (length (take 101 rows)) h)

first_page : (rows : List Channel) → list_by_workspace rows 0 max_limit ≡ take 100 rows
unfolding list_by_workspace normalize_limit
first_page rows = elim (Bool-cases (ltb 100 (length (take 101 rows)))) [
  | inl more ↦ rw more (take-take 100 rows)
  | inr few ↦ rw few (sym (take_few 100 rows (few_rows rows few)))
]

-- Where the store pages as `ListByWorkspace` does, which cuts its answer to the limit, the listing
-- stops after one page: its answer is that of a pass over the first 100 of the rows, which the store
-- keeps in descending order of their identifiers, whatever rows follow.
pub list_workspace_newest_only :
    (c : Checker) (path workspace user fuel : ℕ) (capability : Capability) (rows : List Channel)
    → ((cursor : ℕ)
        → c.channels.list_by_workspace workspace cursor max_limit
          ≡ ok (list_by_workspace rows cursor max_limit))
    → list_workspace (suc fuel) c path workspace user capability
      ≡ some (deduped (collect_page (access_of c path user capability) [] (take 100 rows)))
unfolding list_workspace
list_workspace_newest_only c path workspace user fuel capability rows paged =
    let access = access_of c path user capability in
    let pages : Pages = λ cursor. c.channels.list_by_workspace workspace cursor max_limit in
    let page : pages 0 ≡ ok (take 100 rows) = paged 0 ∙ ap ok (first_page rows) in
    elim (Result-cases (collect_page access [] (take 100 rows))) [
      | inl (e, q) ↦
          ap deduped_option
            (paging_loop-refused fuel access pages 0 [] (take 100 rows) page e q ∙ ap some (sym q))
      | inr (all, q) ↦ ap deduped_option (
          paging_loop-last fuel access pages 0 [] (take 100 rows) page all q
            (omega (arith, length-take 100 rows))
          ∙ ap some (sym q))
    ]
