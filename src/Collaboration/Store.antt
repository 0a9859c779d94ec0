-- ===== src/Collaboration/Store.antt =====
-- internal/repository/postgres/workspace_collaboration.go: the table of workspace connections. The
-- database keeps at most one row for a pair of workspaces (its unique constraint, error 23505). A
-- statement that fails for another reason is left out, and so is the trigger that sets `updated_at`.
use aloqa_claude.Prelude.{
  ℕ, ◌≡◌, Bool, true, false, ◌&&◌, Option, List, [], ◌∷◌, if◌then◌else◌, ◌==◌, number_key, arith,
  Bool-cases, inl, inr,
}
use aloqa_claude.Errors.{Result, ok, err, not_found_error, app, already_exists, nothing}
use aloqa_claude.Entity.Connections.{WorkspaceConnection, WorkspaceConnectionStatus}
use aloqa_claude.Collaboration.{ConnectionStore}

abbrev pub Table : Type 0
Table = List WorkspaceConnection

abbrev pub joins : WorkspaceConnection → ℕ → ℕ → Bool
joins c source target = c.source_workspace_id == source && c.target_workspace_id == target

unfoldable pub get_connection : Table → ℕ → ℕ → Result WorkspaceConnection
get_connection [] source target = err (not_found_error "workspace connection not found")
get_connection (c ∷ t) source target =
    if joins c source target then ok c else get_connection t source target

unfoldable pub has_id : Table → ℕ → Bool
has_id [] id = false
has_id (c ∷ t) id = if c.id == id then true else has_id t id

-- The primary key and the unique pair both answer with 23505.
unfoldable pub create_connection : Table → WorkspaceConnection → Result Table
create_connection t c = elim (get_connection t c.source_workspace_id c.target_workspace_id) [
  | ok _ ↦ err (app already_exists "workspace connection already exists" nothing)
  | err _ ↦
      if has_id t c.id
      then err (app already_exists "workspace connection already exists" nothing)
      else ok (c ∷ t)
]

-- The rows after the `UPDATE`, and whether it met one.
unfoldable pub update_rows : Table → ℕ → WorkspaceConnectionStatus → Option ℕ → Table
update_rows [] id status by = []
update_rows (c ∷ t) id status by =
    (if c.id == id then record c { status = status; approved_by = by } else c)
    ∷ update_rows t id status by

unfoldable pub update_connection_status :
    Table → ℕ → WorkspaceConnectionStatus → Option ℕ → Result Table
update_connection_status t id status by =
    if has_id t id
    then ok (update_rows t id status by)
    else err (not_found_error "workspace connection not found")

unfoldable pub connection_table : ConnectionStore Table
connection_table = record {
  get_connection = get_connection;
  create_connection = create_connection;
  update_connection_status = update_connection_status;
}

pub get_connection-update_rows :
    (t : Table) (c : WorkspaceConnection) (source target id : ℕ)
    (status : WorkspaceConnectionStatus) (by : Option ℕ)
    → get_connection t source target ≡ ok c
    → get_connection (update_rows t id status by) source target
      ≡ ok (if c.id == id then record c { status = status; approved_by = by } else c)
unfolding get_connection update_rows
get_connection-update_rows [] c source target id status by h = cc
get_connection-update_rows (d ∷ t) c source target id status by h =
    elim (Bool-cases (joins d source target)) [
      | inl hit ↦ elim (Bool-cases (d.id == id)) [
        | inl same ↦ ground (arith)
        | inr other ↦ ground arith
      ]
      | inr miss ↦ ground (arith, get_connection-update_rows t c source target id status by)
    ]

pub get_connection-joins :
    (t : Table) (c : WorkspaceConnection) (source target : ℕ)
    → get_connection t source target ≡ ok c
    → (c.source_workspace_id ≡ source) × (c.target_workspace_id ≡ target)
unfolding get_connection
get_connection-joins [] c source target h = cc
get_connection-joins (d ∷ t) c source target h = elim (Bool-cases (joins d source target)) [
  | inl hit ↦ (ground arith, ground arith)
  | inr miss ↦ get_connection-joins t c source target (ground arith)
]

pub get_connection-has_id :
    (t : Table) (c : WorkspaceConnection) (source target : ℕ)
    → get_connection t source target ≡ ok c
    → has_id t c.id ≡ true
unfolding get_connection has_id
get_connection-has_id [] c source target h = cc
get_connection-has_id (d ∷ t) c source target h =
    ground (arith, get_connection-has_id t c source target)
