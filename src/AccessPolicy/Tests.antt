-- ===== src/AccessPolicy/Tests.antt =====
-- A workspace with two channels, a member, and stores that answer from lists.
use aloqa_claude.Prelude.{
  ◌≤◌, arith, take, ℕ, ◌≡◌, refl, ◌↔◌, false, none, some, List, [], ◌∷◌, ◌==◌, number_key,
  if◌then◌else◌,
}
use aloqa_claude.Errors.{ok, err, not_found_error, is_not_found, as_app_error}
use aloqa_claude.Entity.Roles.{
  member, WorkspaceMember, public_channel, private_channel, Channel, ChannelMember, is_self_channel,
}
use aloqa_claude.Repository.{WorkspaceRepository, ChannelRepository}
use aloqa_claude.AccessPolicy.{
  view, participate, manage, ChannelDecision, Checker, as_member, member_of,
}
use aloqa_claude.AccessPolicy.Channels.{channel_access, find_channel_member}
use aloqa_claude.AccessPolicy.Grounds.{Unarchived, Grounds}
use aloqa_claude.AccessPolicy.Decisions.{channel_access_exact, participant_may_view}
use aloqa_claude.Pagination.{normalize_limit}
use aloqa_claude.Errors.{Result}
use aloqa_claude.AccessPolicy.Listing.{
  list_by_workspace, last_id, list_workspace, list_channels, collect_page, deduped, access_of,
  dedupe_channels, dedupe_loop, filter_channels,
}
use aloqa_claude.AccessPolicy.Paging.{list_workspace_ends, list_by_workspace-IsKeyset}
use aloqa_claude.AccessPolicy.{workspace_access, as_guest}
use aloqa_claude.AccessPolicy.Workspaces.{Entry, workspace_access_exact}
use aloqa_claude.AccessPolicy.Guests.{guest_interface, call_guest_reaches_nothing}
use aloqa_claude.Entity.Guests.{GuestAccessGrant}
use aloqa_claude.Repository.{GuestAccessRepository}
use aloqa_claude.AccessPolicy.Truncation.{list_workspace_newest_only}
use aloqa_claude.AccessPolicy.Listed.{IsListing, list_channels_allowed}

abbrev ann : WorkspaceMember
ann = record { workspace_id = 1; user_id = 7; role = member }

abbrev general : Channel
general = record {
  id = 20;
  workspace_id = some 1;
  type = public_channel;
  owner_user_id = none;
  archived = false;
}

abbrev board : Channel
board = record {
  id = 21;
  workspace_id = some 1;
  type = private_channel;
  owner_user_id = none;
  archived = false;
}

abbrev rows : List Channel
rows = board ∷ general ∷ []

abbrev ann_in_general : ChannelMember
ann_in_general = record { channel_id = 20; user_id = 7 }

abbrev channels : (ℕ → ℕ → List Channel) → ChannelRepository
channels pages = record {
  get_by_id = λ channel. if channel == 20 then ok general else ok board;
  get_member = λ channel user.
      if channel == 20 then ok ann_in_general else err (not_found_error "no member");
  list_by_user = λ workspace user. ok (general ∷ general ∷ board ∷ []);
  list_by_workspace = λ workspace cursor limit. ok (pages cursor limit);
}

abbrev checker_of : (ℕ → ℕ → List Channel) → WorkspaceRepository → Checker
checker_of pages w = record {
  workspaces = some w;
  channels = channels pages;
  guests = none;
  collab = none;
}

abbrev people : WorkspaceRepository
people = record { get_member = λ workspace user. ok ann }

abbrev checker : Checker
checker = checker_of (list_by_workspace rows) people

abbrev in_general : ChannelDecision
in_general = record {
  subject = as_member;
  channel = general;
  workspace_member = some ann;
  channel_member = some ann_in_general;
}

takes_part : channel_access (some checker) 1 20 7 participate ≡ ok in_general
unfolding channel_access member_of find_channel_member is_self_channel
takes_part = refl

channel_access_exact_example :
    (channel_access (some checker) 1 20 7 participate ≡ ok in_general) ↔ (
      (ch : Channel) × (checker.channels.get_by_id 20 ≡ ok ch)
      × Unarchived ch participate
      × Grounds checker 1 ch 7 participate in_general)
channel_access_exact_example = channel_access_exact checker 1 20 7 participate in_general

participant_may_view_example :
    (channel_access (some checker) 1 20 7 view ≡ ok in_general)
    × (channel_access (some checker) 1 20 7 manage ≡ ok in_general)
participant_may_view_example = participant_may_view checker 1 20 7 in_general takes_part

first_page_low :
    (page : List Channel) → ok (list_by_workspace rows 0 100) ≡ ok page → last_id page ≤ 30
unfolding list_by_workspace normalize_limit
first_page_low page h = let whole : page ≡ rows = ground (arith, h) in rw whole (omega arith)

list_workspace_ends_example :
    (r : Result (List Channel)) × (list_workspace 31 checker 1 1 7 view ≡ some r)
list_workspace_ends_example =
    list_workspace_ends checker 1 1 7 30 31 view (list_by_workspace-IsKeyset rows 100)
      first_page_low (omega arith)

list_workspace_newest_only_example :
    list_workspace 1 checker 1 1 7 view
    ≡ some (deduped (collect_page (access_of checker 1 7 view) [] (take 100 rows)))
list_workspace_newest_only_example =
    list_workspace_newest_only checker 1 1 7 0 view rows (λ cursor. refl)

takes_part_in : list_channels 3 (some checker) 1 1 7 participate ≡ some (ok (general ∷ []))
unfolding list_channels member_of filter_channels dedupe_channels dedupe_loop channel_access
    find_channel_member is_self_channel is_not_found as_app_error
takes_part_in = refl

list_channels_allowed_example : IsListing (access_of checker 1 7 participate) (general ∷ [])
list_channels_allowed_example =
    list_channels_allowed checker 3 1 1 7 participate (general ∷ []) takes_part_in

workspace_access_exact_example :
    (workspace_access (some checker) 1 7 ≡ ok as_member) ↔ Entry checker 1 7 as_member
workspace_access_exact_example = workspace_access_exact checker 1 7 as_member

abbrev call_grant : GuestAccessGrant
call_grant = record {
  workspace_id = 1;
  user_id = 7;
  channel_ids = 20 ∷ [];
  call_id = some 30;
  expires_at = 100;
}

abbrev grants : GuestAccessRepository
grants = record { list_active_by_user_workspace = λ user workspace now. ok (call_grant ∷ []) }

abbrev guest_checker : Checker
guest_checker = record {
  workspaces = some (record { get_member = λ workspace user. err (not_found_error "no member") });
  channels = channels (list_by_workspace rows);
  guests = some (guest_interface (some (record { grants = some grants })) 50);
  collab = none;
}

call_guest_reaches_nothing_example :
    (¬ (workspace_access (some guest_checker) 1 7 ≡ ok as_guest))
    × (¬ (
        (d : ChannelDecision) × (channel_access (some guest_checker) 1 20 7 view ≡ ok d)
        × (d.subject ≡ as_guest)))
call_guest_reaches_nothing_example =
    call_guest_reaches_nothing guest_checker grants 1 7 50 1 (call_grant ∷ []) general view refl
      refl refl refl refl
