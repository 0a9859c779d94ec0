-- ===== src/Collaboration/Lifecycle.antt =====
-- The life of a connection over the table: requested by one workspace, approved by the other.
use aloqa_claude.Prelude.{
  ℕ, ◌≡◌, refl, ◌∙◌, false, Option, none, some, [], ◌∷◌, ◌==◌, number_key, nat_beq_iff, arith, ◌≢◌,
  ◌⊎◌, same_key_refl, Bool-cases, inl, inr,
}
use aloqa_claude.Errors.{Result, ok, err, conflict_error, Result-cases}
use aloqa_claude.Entity.Connections.{
  WorkspaceConnection, WorkspaceConnectionStatus, pending, active, WorkspaceConnectionPolicy,
  is_pending,
}
use aloqa_claude.Repository.{WorkspaceRepository}
use aloqa_claude.Rbac.{Permission}
use aloqa_claude.Collaboration.{Service, require_permission, request_connection, approve_connection}
use aloqa_claude.Collaboration.Store.{
  Table, joins, get_connection, create_connection, has_id, update_rows, update_connection_status,
  connection_table, get_connection-update_rows, get_connection-has_id,
}

module _ (workspaces : WorkspaceRepository)
    (permissions : Option (ℕ → ℕ → Permission → Result (Unit {0}))) where
  abbrev pub service : Service Table
  service = record {
    workspaces = workspaces;
    collaboration = connection_table;
    permissions = permissions;
  }

  -- The user may manage the collaborations of the workspace.
  abbrev pub Manages : ℕ → ℕ → Type 0
  Manages workspace actor =
      require_permission service workspace actor "collaboration.manage" ≡ ok tt

  -- A step of the service that succeeds.
  pub data Step : Table → Table → Type 0 where
    requested :
        (t t' : Table) (id now source target actor : ℕ) (p : WorkspaceConnectionPolicy)
        (c : WorkspaceConnection)
        → request_connection service t id now source target actor p ≡ ok (c, t')
        → Step t t'
    approved :
        (t t' : Table) (source target actor : ℕ)
        → approve_connection service t source target actor ≡ ok t'
        → Step t t'

  pub data Reach (t : Table) : Table → Type 0 where
    here : Reach t t
    next : {u v : Table} → Reach t u → Step u v → Reach t v

  -- A pending connection was approved by nobody, an active one by a user who manages the
  -- collaborations of the target workspace.
  abbrev pub Consented : WorkspaceConnection → Type 0
  Consented c =
      ((c.status ≡ pending) × (c.approved_by ≡ none))
      ⊎ ((c.status ≡ active)
          × ((actor : ℕ) × (c.approved_by ≡ some actor) × Manages c.target_workspace_id actor))

  -- Identifiers differ, no workspace is connected to itself, and every connection is consented to.
  abbrev pub IsTable : Table → Type 0
  IsTable [] = Unit
  IsTable (c ∷ t) =
      (has_id t c.id ≡ false)
      × (c.source_workspace_id ≢ c.target_workspace_id)
      × Consented c
      × IsTable t

  has_id-update_rows :
      (t : Table) (j id : ℕ) (status : WorkspaceConnectionStatus) (by : Option ℕ)
      → has_id (update_rows t id status by) j ≡ has_id t j
  unfolding has_id update_rows
  has_id-update_rows [] j id status by = refl
  has_id-update_rows (c ∷ t) j id status by = ground (arith, has_id-update_rows t j id status by)

  -- The rows with the identifier have the target.
  abbrev Aims : Table → ℕ → ℕ → Type 0
  Aims [] id target = Unit
  Aims (c ∷ t) id target = (c.id ≡ id → c.target_workspace_id ≡ target) × Aims t id target

  no_id-Aims : (t : Table) (id target : ℕ) → has_id t id ≡ false → Aims t id target
  unfolding has_id
  no_id-Aims [] id target h = tt
  no_id-Aims (c ∷ t) id target h = (λ e. ground arith, no_id-Aims t id target (ground arith))

  get_connection-Aims :
      (t : Table) (c : WorkspaceConnection) (source target : ℕ)
      → IsTable t
      → get_connection t source target ≡ ok c
      → Aims t c.id target
  unfolding get_connection
  get_connection-Aims [] c source target v h = tt
  get_connection-Aims (d ∷ t) c source target v h = elim (Bool-cases (joins d source target)) [
    | inl hit ↦ (λ e. ground arith, no_id-Aims t c.id target (ground arith))
    | inr miss ↦
        let found : get_connection t source target ≡ ok c = ground arith in
        (
          λ e. ground (arith, get_connection-has_id t c source target found),
          get_connection-Aims t c source target v.3 found,
        )
  ]

  update_rows-IsTable :
      (t : Table) (id target actor : ℕ)
      → Manages target actor
      → Aims t id target
      → IsTable t
      → IsTable (update_rows t id active (some actor))
  unfolding update_rows
  update_rows-IsTable [] id target actor m a v = tt
  update_rows-IsTable (c ∷ t) id target actor m a v = elim (Bool-cases (c.id == id)) [
    | inl same ↦ rw same (
      has_id-update_rows t c.id id active (some actor) ∙ v.0,
      v.1,
      inr (refl, (actor, refl, rw (a.0 ((nat_beq_iff c.id id).0 same)) m)),
      update_rows-IsTable t id target actor m a.1 v.3,
    )
    | inr other ↦ rw other (
      has_id-update_rows t c.id id active (some actor) ∙ v.0,
      v.1,
      v.2,
      update_rows-IsTable t id target actor m a.1 v.3,
    )
  ]

  approve_connection_ok :
      (t t' : Table) (source target actor : ℕ)
      → approve_connection service t source target actor ≡ ok t'
      → (c : WorkspaceConnection) × (get_connection t source target ≡ ok c)
        × (c.status ≡ pending)
        × Manages target actor
        × (t' ≡ update_rows t c.id active (some actor))
  unfolding approve_connection connection_table update_connection_status
  approve_connection_ok t t' source target actor h =
      elim (Result-cases (require_permission service target actor "collaboration.manage")) [
        | inl (e, q) ↦ absurd (ground (arith, q, h))
        | inr (done, q) ↦ elim (Result-cases (get_connection t source target)) [
          | inl (e, q') ↦ absurd (ground (arith, q, q', h))
          | inr (c, q') ↦ (c, q', ground (arith, q, q', h), q, ground (arith, q, q', h))
        ]
      ]

  request_connection_ok :
      (t t' : Table) (id now source target actor : ℕ) (p : WorkspaceConnectionPolicy)
      (c : WorkspaceConnection)
      → request_connection service t id now source target actor p ≡ ok (c, t')
      → (t' ≡ c ∷ t)
        × (has_id t c.id ≡ false)
        × (source ≢ target)
        × (c.source_workspace_id ≡ source)
        × (c.target_workspace_id ≡ target)
        × (c.status ≡ pending)
        × (c.approved_by ≡ none)
        × Manages source actor
  unfolding request_connection connection_table create_connection
  request_connection_ok t t' id now source target actor p c h =
      elim (Result-cases (require_permission service source actor "collaboration.manage")) [
        | inl (e, q) ↦ absurd (ground (arith, q, h))
        | inr (done, q) ↦ ground (arith, q, h)
      ]

  Step-IsTable : {t t' : Table} → Step t t' → IsTable t → IsTable t'
  Step-IsTable (requested t t' id now source target actor p c h) v =
      let r = request_connection_ok t t' id now source target actor p c h in
      rw r.0 (r.1, rw (r.3, r.4) r.2, inl (r.5, r.6), v)
  Step-IsTable (approved t t' source target actor h) v =
      let (c, found, _, manages, e) = approve_connection_ok t t' source target actor h in
      rw e (
        update_rows-IsTable t c.id target actor manages
          (get_connection-Aims t c source target v found) v)

  -- In every table that requests and approvals lead to from the empty one, no workspace is
  -- connected to itself, and each connection is pending or was approved by a user who manages the
  -- collaborations of the workspace on the other side.
  pub reached_tables_consented : {t : Table} → Reach [] t → IsTable t
  reached_tables_consented here = tt
  reached_tables_consented (next r step) = Step-IsTable step (reached_tables_consented r)

  approve_connection-conflict :
      (t : Table) (c : WorkspaceConnection) (source target actor : ℕ)
      → Manages target actor
      → get_connection t source target ≡ ok c
      → is_pending c.status ≡ false
      → approve_connection service t source target actor
        ≡ err (conflict_error "workspace connection is not pending")
  unfolding approve_connection connection_table
  approve_connection-conflict t c source target actor m f p = ground arith

  -- An approval that succeeds found a pending connection, leaves it active in the approver's name and
  -- otherwise as it was (the time of its update is not modelled), and a second approval is a conflict.
  pub approve_connection_once :
      (t t' : Table) (source target actor : ℕ)
      → approve_connection service t source target actor ≡ ok t'
      → (c : WorkspaceConnection) × (get_connection t source target ≡ ok c)
        × (c.status ≡ pending)
        × (get_connection t' source target
            ≡ ok (record c { status = active; approved_by = some actor }))
        × (approve_connection service t' source target actor
            ≡ err (conflict_error "workspace connection is not pending"))
  approve_connection_once t t' source target actor h =
      let (c, found, waiting, manages, e) = approve_connection_ok t t' source target actor h in
      let c' : WorkspaceConnection = record c { status = active; approved_by = some actor } in
      let found' : get_connection t' source target ≡ ok c' = rw e (
        get_connection-update_rows t c source target c.id active (some actor) found
        ∙ rw (same_key_refl c.id) refl) in
      (
        c,
        found,
        waiting,
        found',
        approve_connection-conflict t' c' source target actor manages found' refl,
      )
