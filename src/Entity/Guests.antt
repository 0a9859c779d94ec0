-- ===== src/Entity/Guests.antt =====
-- internal/domain/entity/guest.go and guest_access.go. The current time is an argument.
use aloqa_claude.Prelude.{
  ℕ, Bool, true, false, Option, none, some, List, [], ◌∷◌, contains, leb, ltb, ◌&&◌, if◌then◌else◌,
  not, is_some, ◌==◌, number_key,
}

pub data GuestInviteStatus : Type 0 where
  invite_active invite_used invite_expired invite_revoked : GuestInviteStatus

abbrev is_invite_active : GuestInviteStatus → Bool
is_invite_active invite_active = true
is_invite_active _ = false

pub record GuestInvite : Type 0 where
  pub channel_ids : List ℕ
  pub call_id : Option ℕ
  pub max_uses : ℕ
  pub use_count : ℕ
  pub status : GuestInviteStatus
  pub expires_at : ℕ

-- `GuestInvite.IsValid`
unfoldable pub is_valid : ℕ → GuestInvite → Bool
is_valid now g =
    if not (is_invite_active g.status)
    then false
    else if ltb g.expires_at now
    then false
    else if ltb 0 g.max_uses && leb g.max_uses g.use_count
    then false
    else true

pub record GuestAccessGrant : Type 0 where
  pub workspace_id : ℕ
  pub user_id : ℕ
  pub channel_ids : List ℕ
  pub call_id : Option ℕ
  pub expires_at : ℕ

unfoldable pub is_active : ℕ → GuestAccessGrant → Bool
is_active now g = not (ltb g.expires_at now)

abbrev pub is_empty : List ℕ → Bool
is_empty [] = true
is_empty (_ ∷ _) = false

-- `AllowsChannel`: the loop over `ChannelIDs` asks for equality with the wanted channel.
unfoldable pub allows_channel : GuestAccessGrant → ℕ → Bool
allows_channel g channel =
    if is_some g.call_id
    then false
    else if is_empty g.channel_ids
    then true
    else contains g.channel_ids channel

abbrev pub points_to : Option ℕ → ℕ → Bool
points_to none k = false
points_to (some j) k = j == k

unfoldable pub allows_call : GuestAccessGrant → ℕ → Bool
allows_call g call = points_to g.call_id call
