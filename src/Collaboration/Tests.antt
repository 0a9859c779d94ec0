-- ===== src/Collaboration/Tests.antt =====
-- Two workspaces that connect, and their users.
use aloqa_claude.Prelude.{◌≡◌, refl, ◌↔◌, true, false, none, some, [], ◌∷◌, number_key}
use aloqa_claude.Errors.{ok, err, is_forbidden, conflict_error, forbidden_error}
use aloqa_claude.Entity.Roles.{member, owner}
use aloqa_claude.Entity.Connections.{
  pending, active, basic, role_based, WorkspaceConnectionPolicy, WorkspaceConnection, can_contact,
  can_contact_by, role_allowed,
}
use aloqa_claude.Repository.{WorkspaceRepository}
use aloqa_claude.Rbac.{
  default_workspace_role, default_workspace_permissions, grant_all, admin_permissions,
  member_permissions,
}
use aloqa_claude.Collaboration.{
  Service, request_connection, approve_connection, can_contact_users, can_share_channel,
  can_share_call, require_permission, validate_policy, active_connection, authorize_contact,
}
use aloqa_claude.Collaboration.Store.{
  Table, connection_table, get_connection, create_connection, has_id, update_connection_status,
  update_rows,
}
use aloqa_claude.Collaboration.Contact.{Connected, sharing_exact, sharing_refusals_forbidden}
use aloqa_claude.Collaboration.Lifecycle.{
  service, IsTable, here, next, requested, approved, reached_tables_consented,
  approve_connection_once,
}

-- Every user owns every workspace.
abbrev owners : WorkspaceRepository
owners = record {
  get_member =
      λ workspace user. ok (record { workspace_id = workspace; user_id = user; role = owner });
}

abbrev policy : WorkspaceConnectionPolicy
policy = record {
  directory_visibility = basic;
  contact_policy = role_based;
  allowed_source_roles = owner ∷ [];
  allowed_target_roles = owner ∷ member ∷ [];
  shared_channels = true;
  shared_calls = false;
  expires_at = some 500;
}

abbrev connection : WorkspaceConnection
connection = record {
  id = 9;
  source_workspace_id = 1;
  target_workspace_id = 2;
  status = pending;
  policy = policy;
  created_by = 7;
  approved_by = none;
  created_at = 100;
  updated_at = 100;
}

abbrev approved_connection : WorkspaceConnection
approved_connection = record connection { status = active; approved_by = some 8 }

abbrev system : Service Table
system = service owners none

requests : request_connection system [] 9 100 1 2 7 policy ≡ ok (connection, connection ∷ [])
unfolding request_connection require_permission validate_policy connection_table create_connection
    get_connection has_id default_workspace_role default_workspace_permissions grant_all
    admin_permissions member_permissions
requests = refl

approves : approve_connection system (connection ∷ []) 1 2 8 ≡ ok (approved_connection ∷ [])
unfolding approve_connection require_permission connection_table get_connection
    update_connection_status has_id update_rows default_workspace_role default_workspace_permissions
    grant_all admin_permissions member_permissions
approves = refl

reached_tables_consented_example : IsTable owners none (approved_connection ∷ [])
reached_tables_consented_example = reached_tables_consented owners none (
    next (next here (requested [] (connection ∷ []) 9 100 1 2 7 policy connection requests))
      (approved (connection ∷ []) (approved_connection ∷ []) 1 2 8 approves))

approve_connection_once_example :
    (c : WorkspaceConnection) × (get_connection (connection ∷ []) 1 2 ≡ ok c)
    × (c.status ≡ pending)
    × (get_connection (approved_connection ∷ []) 1 2
        ≡ ok (record c { status = active; approved_by = some 8 }))
    × (approve_connection system (approved_connection ∷ []) 1 2 8
        ≡ err (conflict_error "workspace connection is not pending"))
approve_connection_once_example =
    approve_connection_once owners none (connection ∷ []) (approved_connection ∷ []) 1 2 8 approves

shares_channel : can_share_channel system (approved_connection ∷ []) 200 1 2 7 8 ≡ ok tt
unfolding can_share_channel active_connection connection_table get_connection authorize_contact
    can_contact can_contact_by role_allowed
shares_channel = refl

sharing_exact_example :
    ((can_contact_users system (approved_connection ∷ []) 200 1 2 7 8 ≡ ok tt)
      ↔ Connected system (approved_connection ∷ []) 200 1 2 7 8 (λ _. true))
    × ((can_share_channel system (approved_connection ∷ []) 200 1 2 7 8 ≡ ok tt)
        ↔ Connected system (approved_connection ∷ []) 200 1 2 7 8 (λ p. p.shared_channels))
    × ((can_share_call system (approved_connection ∷ []) 200 1 2 7 8 ≡ ok tt)
        ↔ Connected system (approved_connection ∷ []) 200 1 2 7 8 (λ p. p.shared_calls))
sharing_exact_example = sharing_exact system (approved_connection ∷ []) 200 1 2 7 8

sharing_refusals_forbidden_example :
    (can_share_channel system [] 200 1 2 7 8
        ≡ err (forbidden_error "workspace connection is not active")
      → is_forbidden (forbidden_error "workspace connection is not active") ≡ true)
    × (can_share_call system [] 200 1 2 7 8
          ≡ err (forbidden_error "workspace connection is not active")
        → is_forbidden (forbidden_error "workspace connection is not active") ≡ true)
sharing_refusals_forbidden_example =
    sharing_refusals_forbidden system [] 200 1 2 7 8
      (forbidden_error "workspace connection is not active")
