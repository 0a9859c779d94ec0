-- ===== src/Calls/Started.antt =====
-- What `StartCallWithAccess` leaves in the tables, and what becomes of it.
use aloqa_claude.Prelude.{ℕ, ◌≡◌, refl, String, false, Option, List, any, inl, inr, arith}
use aloqa_claude.Errors.{ok, Result-cases}
use aloqa_claude.Entity.Calls.{CallType, CallSettings, Call}
use aloqa_claude.Calls.{Service}
use aloqa_claude.Calls.Store.{Tables}
use aloqa_claude.Calls.Starting.{
  OtherCalls, Passwords, AccessOptions, new_tables, check_start, start_call,
}
use aloqa_claude.Calls.Rows.{host_count, DistinctUsers}
use aloqa_claude.Calls.KeepsHosts.{add_invited_members-participants}
use aloqa_claude.Calls.Requests.{Request, may_delete, run, run_leaves_one_host}

new_tables-one_host :
    (call : Call) (row_id now : ℕ) (users : List ℕ)
    → DistinctUsers (new_tables call row_id now users).participants
      × (host_count (new_tables call row_id now users).participants ≡ 1)
unfolding new_tables
new_tables-one_host call row_id now users =
    rw (add_invited_members-participants _ _) ((refl, tt), refl)

module _ (s : Service) (others : OtherCalls) (passwords : Passwords)
    (workspace user call_id row_id now : ℕ) (type : CallType) (channel : Option ℕ)
    (settings : CallSettings) (join_password : String) (options : AccessOptions) (t : Tables)
    (started : start_call s others passwords workspace user call_id row_id now type channel settings
        join_password options
      ≡ ok t) where
  start_call_lem : (call : Call) × (users : List ℕ) × (t ≡ new_tables call row_id now users)
  unfolding start_call
  start_call_lem =
      elim (Result-cases (
        check_start s others passwords workspace user call_id row_id now type channel settings
          join_password options)) [
            | inl (e, q) ↦ absurd (ground (arith, q, started))
            | inr ((call, users), q) ↦ elim (Result-cases (s.media_room call)) [
              | inl (e, r) ↦ absurd (ground (arith, q, r, started))
              | inr (ready, r) ↦ (call, users, ground (arith, q, r, started))
            ]
          ]

  -- A call that was started, followed by any requests without a rejection among them, answered or
  -- refused: each user has one row, and the call exactly one host.
  pub started_call_keeps_its_host :
      (rs : List Request)
      → any may_delete rs ≡ false
      → DistinctUsers (run s rs t).participants × (host_count (run s rs t).participants ≡ 1)
  started_call_keeps_its_host rs safe =
      let (call, users, e) = start_call_lem in
      let fresh = new_tables-one_host call row_id now users in
      rw e
        (rw safe at (run_leaves_one_host s rs (new_tables call row_id now users) fresh.0 fresh.1))
