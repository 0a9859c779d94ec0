-- ===== src/AccessPolicy/Listing.antt =====
-- internal/security/accesspolicy/checker.go: `ListChannels`, its paging loop on fuel, and
-- internal/repository/postgres/channel.go: the pages that `ListByWorkspace` answers with.
use aloqa_claude.Prelude.{
  ℕ, zero, suc, ◌+◌, not, ◌||◌, Option, none, some, List, [], ◌∷◌, ◌++◌, if◌then◌else◌, ◌==◌,
  number_key, length, take, leb, ltb, contains, filter_by,
}
use aloqa_claude.Errors.{
  Result, ok, err, is_not_found, is_forbidden, forbidden_error, internal_error,
}
use aloqa_claude.Entity.Roles.{Channel}
use aloqa_claude.Pagination.{max_limit, normalize_limit}
use aloqa_claude.AccessPolicy.{Capability, is_participate, ChannelDecision, Checker, member_of}
use aloqa_claude.AccessPolicy.Channels.{channel_access}

-- `dedupeChannels`; `seen` is the set of the identifiers met so far.
unfoldable pub dedupe_loop : List ℕ → List Channel → List Channel
dedupe_loop seen [] = []
dedupe_loop seen (ch ∷ chs) =
    if contains seen ch.id then dedupe_loop seen chs else ch ∷ dedupe_loop (ch.id ∷ seen) chs

unfoldable pub dedupe_channels : List Channel → List Channel
dedupe_channels = dedupe_loop []

-- A decision on one channel of a list.
abbrev pub Access : Type 0
Access = Channel → Result ChannelDecision

-- The loop over the user's own channels drops every channel that is refused, for whatever reason.
unfoldable pub filter_channels : Access → List Channel → List Channel
filter_channels access [] = []
filter_channels access (ch ∷ chs) = elim (access ch) [
  | ok d ↦ d.channel ∷ filter_channels access chs
  | err _ ↦ filter_channels access chs
]

-- The loop over one page: a refusal is skipped, any other error ends the listing.
unfoldable pub collect_page : Access → List Channel → List Channel → Result (List Channel)
collect_page access all [] = ok all
collect_page access all (ch ∷ page) = elim (access ch) [
  | ok d ↦ collect_page access (all ++ d.channel ∷ []) page
  | err e ↦ if is_forbidden e || is_not_found e then collect_page access all page else err e
]

-- `page[len(page)-1].ID`
abbrev pub last_id : List Channel → ℕ
last_id [] = 0
last_id (ch ∷ []) = ch.id
last_id (ch ∷ page) = last_id page

-- The rows of one page from the cursor, one more than the limit.
abbrev pub Pages : Type 0
Pages = ℕ → Result (List Channel)

-- The `for` of `ListChannels`: `none` is fuel that ran out.
unfoldable pub paging_loop : ℕ → Access → Pages → ℕ → List Channel → Option (Result (List Channel))
paging_loop zero access pages cursor all = none
paging_loop (suc fuel) access pages cursor all = elim (pages cursor) [
  | err e ↦ some (err (internal_error "failed to list workspace channels" e))
  | ok page ↦ elim (collect_page access all page) [
    | err e ↦ some (err e)
    | ok all' ↦
        let next = paging_loop fuel access pages (last_id page) all' in
        if leb (length page) max_limit
        then some (ok all')
        else if last_id page == 0 || last_id page == cursor
        then some (ok all')
        else next
  ]
]

abbrev pub deduped : Result (List Channel) → Result (List Channel)
deduped (ok all) = ok (dedupe_channels all)
deduped (err e) = err e

abbrev pub deduped_option : Option (Result (List Channel)) → Option (Result (List Channel))
deduped_option none = none
deduped_option (some r) = some (deduped r)

abbrev pub access_of : Checker → ℕ → ℕ → Capability → Access
access_of c path user capability ch = channel_access (some c) path ch.id user capability

-- The listing that walks the whole workspace.
unfoldable pub list_workspace :
    ℕ → Checker → ℕ → ℕ → ℕ → Capability → Option (Result (List Channel))
list_workspace fuel c path workspace user capability = deduped_option (
    paging_loop fuel (access_of c path user capability)
      (λ cursor. c.channels.list_by_workspace workspace cursor max_limit) 0 [])

unfoldable pub list_channels_by :
    ℕ → Checker → ℕ → ℕ → ℕ → Capability → Option (Result (List Channel))
list_channels_by fuel c path workspace user capability =
    let whole = list_workspace fuel c path workspace user capability in
    if not (is_participate capability)
    then whole
    else elim (member_of c.workspaces workspace user) [
      | err _ ↦ whole
      | ok _ ↦ elim (c.channels.list_by_user workspace user) [
        | err e ↦ some (err (internal_error "failed to list user channels" e))
        | ok channels ↦
            some
              (ok (dedupe_channels (filter_channels (access_of c path user capability) channels)))
      ]
    ]

-- `ListChannels`
unfoldable pub list_channels :
    ℕ → Option Checker → ℕ → ℕ → ℕ → Capability → Option (Result (List Channel))
unfolding list_channels_by
list_channels fuel none path workspace user capability =
    some (err (forbidden_error "channel access is not configured"))
list_channels fuel (some c) path workspace user capability =
    list_channels_by fuel c path workspace user capability

-- `WHERE id < cursor`, where there is a cursor.
abbrev pub rows_below : ℕ → List Channel → List Channel
rows_below zero rows = rows
rows_below (suc k) rows = filter_by (λ ch. ltb ch.id (suc k)) rows

-- `ListByWorkspace`, over the rows that its `WHERE` keeps (those of the workspace that hold no saved
-- messages), in descending order of their identifiers: the query asks for one row more than the
-- limit, and the answer is cut to the limit.
unfoldable pub list_by_workspace : List Channel → ℕ → ℕ → List Channel
list_by_workspace rows cursor limit =
    let channels = take (normalize_limit limit + 1) (rows_below cursor rows) in
    if ltb (normalize_limit limit) (length channels)
    then take (normalize_limit limit) channels
    else channels
