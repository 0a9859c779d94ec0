-- ===== src/Collaboration.antt =====
-- internal/service/collaboration/service.go: connections between workspaces, and who may contact
-- whom across one. The store of connections is a state `S` behind an interface
-- (internal/domain/repository/interfaces.go, WorkspaceCollaborationRepository).
pub mod Store
pub mod Contact
pub mod Lifecycle
mod Tests
use aloqa_claude.Prelude.{
  ℕ, String, Bool, true, false, not, ◌&&◌, ◌||◌, Option, none, some, List, [], ◌∷◌, if◌then◌else◌,
  leb, ◌==◌, number_key,
}
use aloqa_claude.Errors.{
  Error, Result, ok, err, ◌>>=◌, ◌>>◌, not_found_error, forbidden_error, invalid_input_error,
  conflict_error, internal_error,
}
use aloqa_claude.Entity.Roles.{WorkspaceRole, WorkspaceMember}
use aloqa_claude.Entity.Connections.{
  WorkspaceConnectionStatus, pending, active, is_pending, is_active_status, DirectoryVisibility,
  other_directory, ContactPolicy, role_based, other_contact, WorkspaceConnectionPolicy,
  WorkspaceConnection, can_contact,
}
use aloqa_claude.Repository.{WorkspaceRepository}
use aloqa_claude.Rbac.{Permission, has, default_workspace_role}

pub record ConnectionStore (S : Type 0) : Type 0 where
  pub get_connection : S → ℕ → ℕ → Result WorkspaceConnection
  pub create_connection : S → WorkspaceConnection → Result S
  pub update_connection_status : S → ℕ → WorkspaceConnectionStatus → Option ℕ → Result S

-- `permissions` is the `Require` of an rbac.Checker, or nil.
pub record Service (S : Type 0) : Type 0 where
  pub workspaces : WorkspaceRepository
  pub collaboration : ConnectionStore S
  pub permissions : Option (ℕ → ℕ → Permission → Result (Unit {0}))

-- The first error, if any, of a chain of checks.
abbrev pub check : Bool → Error → Result (Unit {0})
check true e = ok tt
check false e = err e

abbrev or_else {ℓ} : {A : Type ℓ} → Result A → Error → Result A
or_else (ok a) e = ok a
or_else (err _) e = err e

abbrev valid_directory : DirectoryVisibility → Bool
valid_directory (other_directory _) = false
valid_directory _ = true

abbrev valid_contact : ContactPolicy → Bool
valid_contact (other_contact _) = false
valid_contact _ = true

abbrev is_role_based : ContactPolicy → Bool
is_role_based role_based = true
is_role_based _ = false

abbrev no_roles : List WorkspaceRole → Bool
no_roles [] = true
no_roles (_ ∷ _) = false

unfoldable pub validate_policy : WorkspaceConnectionPolicy → Result (Unit {0})
validate_policy p = do
  check (valid_directory p.directory_visibility)
      (invalid_input_error "invalid directory visibility")
  check (valid_contact p.contact_policy) (invalid_input_error "invalid contact policy")
  check
      (not (
        is_role_based p.contact_policy
        && (no_roles p.allowed_source_roles || no_roles p.allowed_target_roles)))
      (invalid_input_error "role-based contact policy requires source and target roles")

-- `ExpiresAt != nil && !ExpiresAt.After(now)`
abbrev pub expired : Option ℕ → ℕ → Bool
expired none now = false
expired (some t) now = leb t now

module _ {S : Type 0} (s : Service S) where
  require_permission_by :
      Option (ℕ → ℕ → Permission → Result (Unit {0})) → ℕ → ℕ → Permission → Result (Unit {0})
  require_permission_by (some require) workspace user permission = require workspace user permission
  require_permission_by none workspace user permission = do
    m ←
        or_else (s.workspaces.get_member workspace user)
          (forbidden_error "user is not a workspace member")
    check (has (default_workspace_role m.role) permission)
        (forbidden_error "workspace role does not have required permission")

  unfoldable pub require_permission : ℕ → ℕ → Permission → Result (Unit {0})
  unfolding require_permission_by
  require_permission = require_permission_by s.permissions

  -- `id` is the identifier that `id.New()` gives, `now` the current time.
  unfoldable pub request_connection :
      S
      → (id now source target actor : ℕ) → WorkspaceConnectionPolicy
      → Result (WorkspaceConnection × S)
  request_connection st id now source target actor policy = do
    check (not (source == target)) (invalid_input_error "cannot connect a workspace to itself")
    require_permission source actor "collaboration.manage"
    validate_policy policy
    let connection : WorkspaceConnection = record {
      id = id;
      source_workspace_id = source;
      target_workspace_id = target;
      status = pending;
      policy = policy;
      created_by = actor;
      approved_by = none;
      created_at = now;
      updated_at = now;
    }
    elim (s.collaboration.create_connection st connection) [
      | err e ↦ err (internal_error "failed to create workspace connection" e)
      | ok st' ↦ ok (connection, st')
    ]

  unfoldable pub approve_connection : S → (source target actor : ℕ) → Result S
  approve_connection st source target actor = do
    require_permission target actor "collaboration.manage"
    connection ←
        or_else (s.collaboration.get_connection st source target)
          (not_found_error "workspace connection not found")
    check (is_pending connection.status) (conflict_error "workspace connection is not pending")
    s.collaboration.update_connection_status st connection.id active (some actor)

  unfoldable pub active_connection : S → (now source target : ℕ) → Result WorkspaceConnection
  active_connection st now source target = do
    connection ←
        or_else (s.collaboration.get_connection st source target)
          (forbidden_error "workspace connection is not active")
    check (is_active_status connection.status)
        (forbidden_error "workspace connection is not active")
    check (not (expired connection.policy.expires_at now))
        (forbidden_error "workspace connection has expired")
    ok connection

  unfoldable pub authorize_contact :
      WorkspaceConnection → (source target source_user target_user : ℕ) → Result (Unit {0})
  authorize_contact connection source target source_user target_user = do
    source_member ←
        or_else (s.workspaces.get_member source source_user)
          (forbidden_error "source user is not a workspace member")
    target_member ←
        or_else (s.workspaces.get_member target target_user)
          (forbidden_error "target user is not a workspace member")
    check (can_contact connection.policy source_member.role target_member.role)
        (forbidden_error "cross-workspace contact is not permitted by policy")

  unfoldable pub can_contact_users :
      S → (now source target source_user target_user : ℕ) → Result (Unit {0})
  can_contact_users st now source target source_user target_user = do
    connection ← active_connection st now source target
    authorize_contact connection source target source_user target_user

  unfoldable pub can_share_channel :
      S → (now source target source_user target_user : ℕ) → Result (Unit {0})
  can_share_channel st now source target source_user target_user = do
    connection ← active_connection st now source target
    check connection.policy.shared_channels
        (forbidden_error "workspace connection does not allow shared channels")
    authorize_contact connection source target source_user target_user

  unfoldable pub can_share_call :
      S → (now source target source_user target_user : ℕ) → Result (Unit {0})
  can_share_call st now source target source_user target_user = do
    connection ← active_connection st now source target
    check connection.policy.shared_calls
        (forbidden_error "workspace connection does not allow shared calls")
    authorize_contact connection source target source_user target_user
