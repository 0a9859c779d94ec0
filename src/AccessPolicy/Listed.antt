-- ===== src/AccessPolicy/Listed.antt =====
-- Every listed channel is one that the access check allows, and is listed once.
use aloqa_claude.Prelude.{
  ℕ, zero, suc, ◌≡◌, refl, false, Option, some, List, [], ◌∷◌, ◌++◌, inl, inr, number_key, contains,
  All, arith, Bool-cases, subst,
}
use aloqa_claude.Errors.{Result, ok, Result-cases}
use aloqa_claude.Entity.Roles.{Channel}
use aloqa_claude.Pagination.{max_limit}
use aloqa_claude.AccessPolicy.{Capability, is_participate, ChannelDecision, Checker, member_of}
use aloqa_claude.AccessPolicy.Listing.{
  Access, Pages, dedupe_loop, dedupe_channels, filter_channels, collect_page, last_id, paging_loop,
  access_of, list_workspace, list_channels, list_channels_by, deduped_option,
}

-- The access check led to this channel.
abbrev pub AllowedBy : Access → Channel → Type 0
AllowedBy access ch =
    (asked : Channel) × (d : ChannelDecision) × (access asked ≡ ok d) × (d.channel ≡ ch)

-- No channel stands twice, and none of them has a seen identifier.
abbrev pub Fresh : List ℕ → List Channel → Type 0
Fresh seen [] = Unit
Fresh seen (ch ∷ chs) = (contains seen ch.id ≡ false) × Fresh (ch.id ∷ seen) chs

dedupe_loop-Fresh : (seen : List ℕ) (chs : List Channel) → Fresh seen (dedupe_loop seen chs)
unfolding dedupe_loop
dedupe_loop-Fresh seen [] = tt
dedupe_loop-Fresh seen (ch ∷ chs) = elim (Bool-cases (contains seen ch.id)) [
  | inl met ↦ rw met (dedupe_loop-Fresh seen chs)
  | inr new ↦ rw new (new, dedupe_loop-Fresh (ch.id ∷ seen) chs)
]

module _ (access : Access) where
  abbrev Good : List Channel → Type 0
  Good = All (AllowedBy access)

  dedupe_loop-Good : (seen : List ℕ) (chs : List Channel) → Good chs → Good (dedupe_loop seen chs)
  unfolding dedupe_loop
  dedupe_loop-Good seen [] g = tt
  dedupe_loop-Good seen (ch ∷ chs) g = elim (Bool-cases (contains seen ch.id)) [
    | inl met ↦ rw met (dedupe_loop-Good seen chs g.1)
    | inr new ↦ rw new (g.0, dedupe_loop-Good (ch.id ∷ seen) chs g.1)
  ]

  filter_channels-Good : (chs : List Channel) → Good (filter_channels access chs)
  unfolding filter_channels
  filter_channels-Good [] = tt
  filter_channels-Good (ch ∷ chs) = elim (Result-cases (access ch)) [
    | inl (e, q) ↦ rw (q, filter_channels) (filter_channels-Good chs)
    | inr (d, q) ↦ rw (q, filter_channels) ((ch, d, q, refl), filter_channels-Good chs)
  ]

  Good-snoc :
      (all : List Channel) (ch : Channel) → Good all → AllowedBy access ch → Good (all ++ ch ∷ [])
  Good-snoc [] ch g a = (a, tt)
  Good-snoc (x ∷ all) ch g a = (g.0, Good-snoc all ch g.1 a)

  collect_page-Good :
      (page all all' : List Channel) → Good all → collect_page access all page ≡ ok all' → Good all'
  unfolding collect_page
  collect_page-Good [] all all' g h = ground arith
  collect_page-Good (ch ∷ page) all all' g h = elim (Result-cases (access ch)) [
    | inr (d, q) ↦
        collect_page-Good page (all ++ d.channel ∷ []) all'
          (Good-snoc all d.channel g (ch, d, q, refl)) (ground (arith, q, h))
    | inl (e, q) ↦ collect_page-Good page all all' g (ground (arith, q, h))
  ]

  paging_loop-Good :
      (fuel cursor : ℕ) (pages : Pages) (all all' : List Channel)
      → Good all
      → paging_loop fuel access pages cursor all ≡ some (ok all')
      → Good all'
  unfolding paging_loop
  paging_loop-Good zero cursor pages all all' g h = cc
  paging_loop-Good (suc fuel) cursor pages all all' g h = elim (Result-cases (pages cursor)) [
    | inl (e, q) ↦ absurd (ground (arith, q, h))
    | inr (page, q) ↦ elim (Result-cases (collect_page access all page)) [
      | inl (e, k) ↦ absurd (ground (arith, q, k, h))
      | inr (more, k) ↦ ground (
        arith,
        q,
        k,
        h,
        collect_page-Good page all more g k,
        paging_loop-Good fuel (last_id page) pages more all' (collect_page-Good page all more g k),
      )
    ]
  ]

-- What a listing by the access check promises.
abbrev pub IsListing : Access → List Channel → Type 0
IsListing access chs = All (AllowedBy access) chs × Fresh [] chs

dedupe_channels-IsListing :
    (access : Access) (all : List Channel)
    → All (AllowedBy access) all
    → IsListing access (dedupe_channels all)
unfolding dedupe_channels
dedupe_channels-IsListing access all g =
    (dedupe_loop-Good access [] all g, dedupe_loop-Fresh [] all)

deduped-IsListing :
    (access : Access) (fuel : ℕ) (pages : Pages) (o : Option (Result (List Channel)))
    (chs : List Channel)
    → paging_loop fuel access pages 0 [] ≡ o
    → deduped_option o ≡ some (ok chs)
    → IsListing access chs
deduped-IsListing access fuel pages (some (ok all)) chs q h =
    let same : dedupe_channels all ≡ chs = cc in
    subst (IsListing access) same
      (dedupe_channels-IsListing access all (paging_loop-Good access fuel 0 pages [] all tt q))
deduped-IsListing access fuel pages _ chs q h = cc

-- Whatever the stores answer, a listing that succeeds holds only channels that the access check
-- allowed for this user, this capability and this path, and none of them twice.
pub list_channels_allowed :
    (c : Checker) (fuel path workspace user : ℕ) (capability : Capability) (chs : List Channel)
    → list_channels fuel (some c) path workspace user capability ≡ some (ok chs)
    → IsListing (access_of c path user capability) chs
unfolding list_channels list_channels_by list_workspace
list_channels_allowed c fuel path workspace user capability chs h =
    let access = access_of c path user capability in
    let whole =
      deduped-IsListing access fuel
        (λ cursor. c.channels.list_by_workspace workspace cursor max_limit) _ chs refl in
    elim (Bool-cases (is_participate capability)) [
      | inr all_seen ↦ whole (ground (arith, all_seen, h))
      | inl own ↦ elim (Result-cases (member_of c.workspaces workspace user)) [
        | inl (e, q) ↦ whole (ground (arith, own, q, h))
        | inr (m, q) ↦ elim (Result-cases (c.channels.list_by_user workspace user)) [
          | inl (e, k) ↦ absurd (ground (arith, own, q, k, h))
          | inr (found, k) ↦
              let same : dedupe_channels (filter_channels access found) ≡ chs =
                ground (arith, own, q, k, h) in
              subst (IsListing access) same
                (dedupe_channels-IsListing access _ (filter_channels-Good access found))
        ]
      ]
    ]
