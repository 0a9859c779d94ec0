-- ===== src/Lib.antt =====
-- Aloqa: access, calls, delivery and retries of a workspace messenger.
--
-- The program is a Go server (cmd/server) over Postgres. Its handlers and services ask the
-- packages under internal/security whether a user may do something; those read the stores behind
-- the interfaces of internal/domain/repository. This library models that layer, the service for
-- connections between workspaces on which it stands, the life of a call, the WebSocket hub that
-- delivers events, and the retries around the stores.
--
-- Prelude: tests, lists, maps and Go's int (Prelude.Int) that the parts share.
-- Errors (internal/pkg/cerrors/errors.go): application errors, their codes, and `AsAppError`.
-- Entity (internal/domain/entity): roles, channels, guest grants, connections, calls and policies.
-- Repository (internal/domain/repository/interfaces.go): the stores as records of functions.
-- Pagination (internal/pkg/pagination/pagination.go): the limit of a page.
-- Rbac (internal/security/rbac): permissions, default roles, and `PermissionChecker`. A map from
--   permissions is an association list, and its laws do not depend on the order of the list.
-- GuestAccess (internal/security/guestaccess/checker.go): what the grants of a guest open.
-- Collaboration (internal/service/collaboration/service.go): connections between workspaces, over
--   any store; Collaboration.Store is the table of
--   internal/repository/postgres/workspace_collaboration.go, and Collaboration.Lifecycle runs
--   requests and approvals on it as steps.
-- CollabAccess (internal/security/collabaccess/checker.go): channels shared over a connection.
-- AccessPolicy (internal/security/accesspolicy/checker.go): `Channel` is `channel_access`,
--   `ListChannels` is `list_channels`; AccessPolicy.Listing also has the pages of
--   internal/repository/postgres/channel.go.
-- Calls (internal/service/call/service.go, over internal/domain/entity/call.go and
--   internal/repository/postgres/call.go): the life of one call. Calls.Store has the tables of a
--   call and their statements, Calls.Transactions the handlers, where a failed `WithinTx` leaves
--   the tables as it found them. `StartCallWithAccess` is `start_call` of Calls.Starting, with the
--   settings in Calls.Settings; Calls.Access has `requireCallAccess`; `JoinCall` is in
--   Calls.Joining, `AdmitParticipant`, `AdmitAll`, `RejectParticipant` and `DeclineCall` in
--   Calls.Waiting, `InviteParticipants` in Calls.Inviting, `LeaveCall`, `EndCall` and `CancelCall`
--   in Calls.Leaving, `UpdateParticipantRole`, `TransferHost` and `RemoveParticipant` in
--   Calls.Hosting and Calls.HostActions, `UpdateMedia` in Calls.MediaChecks and Calls.Media,
--   `SetPinnedParticipant` (internal/service/call/sharing.go) in Calls.Pinning;
--   Calls.Patching (internal/service/call/settings.go) has the settings that `UpdateCallSettings`
--   makes of a patch, without its writes. A handler that first reads the call hands it on:
--   `join_found` takes the call as it was read, which may be older than the tables. Calls.Steps
--   has the statements as steps, which interleave freely in `Reach`; Calls.Runs and Calls.Handled
--   break each handler into steps; Calls.Requests runs handlers one after another. Calls.OneHost,
--   Calls.Ended, Calls.Quiet and Calls.Closed hold the invariants, the other modules what single
--   operations do.
-- Hub (internal/platform/ws/hub.go): the clients and rooms of the WebSocket hub. A critical
--   section is a function on the state; Hub.Invariant lets them follow one another in any order.
--   Hub.StateStore (internal/platform/ws/state.go) is over a Redis that is a parameter.
-- Reliability (internal/platform/reliability/policy.go): `DoValue` is `do_value`, with the number
--   of attempts left as its fuel, which the policy bounds.
--
-- A Go error result is `Result`, a nil pointer or interface is `none`, `uuid.UUID` is a number
-- with `uuid.Nil` as 0, the current time is an argument, and the request's context is left out but
-- for the workspace of its path. What a store answers is a parameter, the same for all calls of
-- one check. `ListChannels` loops over pages:
-- `paging_loop` runs on fuel, and fuel above the identifier of the last row of the first page is
-- enough over any store that answers with rows below the cursor.
--
-- In a call, the hash of a password, the JSON of the settings, the media room, the limit of the
-- control plane and the other calls of the workspace are parameters. Events, LiveKit, and failures
-- of the database other than a missing or duplicate row are left out, and so are the branches for
-- a service without a transaction manager, which the server always sets. A Go `int` is an
-- unbounded ℤ, since the calls only compare it.
--
-- Not modelled: breakout rooms, shares, webhooks and the writes of changed settings in a call; the
-- services for chat, recordings, files, calendars and sessions; the SQL of the other stores; the
-- HTTP and WebSocket handlers, configuration, and the frontend.
pub mod Prelude
pub mod Errors
pub mod Entity
pub mod Repository
pub mod Pagination
pub mod Rbac
pub mod GuestAccess
pub mod Collaboration
pub mod CollabAccess
pub mod AccessPolicy
pub mod Hub
pub mod Reliability
pub mod Calls
