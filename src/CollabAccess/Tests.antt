-- ===== src/CollabAccess/Tests.antt =====
-- A channel that is shared over one connection.
use aloqa_claude.Prelude.{◌≡◌, refl, true, false, Option, none, some, [], ◌∷◌, any}
use aloqa_claude.Errors.{ok, err, not_found_error}
use aloqa_claude.Entity.Connections.{ChannelAccessGrant}
use aloqa_claude.Repository.{WorkspaceRepository, ChannelAccessGrantRepository}
use aloqa_claude.Collaboration.{Service, ConnectionStore}
use aloqa_claude.CollabAccess.{Checker, authorize_channel, authorize_call}
use aloqa_claude.CollabAccess.Laws.{some_grant, admits, authorize_exact}

abbrev no_members : WorkspaceRepository
no_members = record { get_member = λ workspace user. err (not_found_error "no member") }

abbrev no_connections : ConnectionStore (Unit {0})
no_connections = record {
  get_connection = λ st source target. err (not_found_error "no connection");
  create_connection = λ st c. ok st;
  update_connection_status = λ st id status by. ok st;
}

abbrev system : Service (Unit {0})
system = record { workspaces = no_members; collaboration = no_connections; permissions = none }

abbrev grant : ChannelAccessGrant
grant = record {
  channel_id = 20;
  workspace_id = 1;
  user_id = 8;
  source_user_id = 7;
  remote_workspace_id = 2;
  allow_calls = false;
}

abbrev grants : ChannelAccessGrantRepository
grants = record { list_by_channel = λ channel. ok (grant ∷ []) }

abbrev checker : Option (Checker (Unit {0}))
checker = some (record { grants = some grants; collaboration = some system })

authorize_exact_example :
    (authorize_channel checker tt 100 20 8
      ≡ ok (record {
        managed = some_grant (grant ∷ []);
        allowed = any (admits system tt 100 8 false) (grant ∷ []);
      }))
    × (authorize_call checker tt 100 20 8
        ≡ ok (record {
          managed = some_grant (grant ∷ []);
          allowed = any (admits system tt 100 8 true) (grant ∷ []);
        }))
authorize_exact_example = authorize_exact system tt 100 8 grants 20 (grant ∷ []) refl
