-- ===== src/CollabAccess/Laws.antt =====
-- What the collaboration checks of a channel decide.
use aloqa_claude.Prelude.{
  ℕ, ◌≡◌, refl, Bool, true, false, not, ◌&&◌, ◌||◌, Option, some, List, [], ◌∷◌, ◌==◌, number_key,
  any, arith, inl, inr,
}
use aloqa_claude.Errors.{Error, Result, ok, err, is_forbidden, Result-cases}
use aloqa_claude.Entity.Connections.{ChannelAccessGrant}
use aloqa_claude.Repository.{ChannelAccessGrantRepository}
use aloqa_claude.Collaboration.{Service}
use aloqa_claude.Collaboration.Contact.{sharing_refusals_forbidden}
use aloqa_claude.CollabAccess.{
  Checker, grant_check, authorize_loop, authorize, authorize_by, authorize_channel, authorize_call,
}

abbrev pub passes : Result (Unit {0}) → Bool
passes (ok _) = true
passes (err _) = false

abbrev pub some_grant : List ChannelAccessGrant → Bool
some_grant [] = false
some_grant (_ ∷ _) = true

module _ {S : Type 0} (s : Service S) (st : S) (now user : ℕ) where
  grant_check_forbidden :
      (require_calls : Bool) (g : ChannelAccessGrant) (e : Error)
      → grant_check s st now require_calls g ≡ err e
      → is_forbidden e ≡ true
  unfolding grant_check
  grant_check_forbidden true g e h =
      (sharing_refusals_forbidden s st now g.workspace_id g.remote_workspace_id g.source_user_id
          g.user_id e).1
        h
  grant_check_forbidden false g e h =
      (sharing_refusals_forbidden s st now g.workspace_id g.remote_workspace_id g.source_user_id
          g.user_id e).0
        h

  -- The grant is the user's, allows what is asked for, and its connection still does.
  abbrev pub admits : Bool → ChannelAccessGrant → Bool
  admits require_calls g =
      (user == g.user_id || user == g.source_user_id)
      && (not require_calls || g.allow_calls)
      && passes (grant_check s st now require_calls g)

  authorize_loop_lem :
      (require_calls : Bool) (gs : List ChannelAccessGrant)
      → authorize_loop s st now user require_calls gs
        ≡ ok (record { managed = true; allowed = any (admits require_calls) gs })
  unfolding authorize_loop
  authorize_loop_lem require_calls [] = refl
  authorize_loop_lem require_calls (g ∷ gs) =
      elim (Result-cases (grant_check s st now require_calls g)) [
        | inl (e, h) ↦ ground (
          arith,
          h,
          grant_check_forbidden require_calls g e h,
          authorize_loop_lem require_calls gs,
        )
        | inr (done, h) ↦ ground (arith, h, authorize_loop_lem require_calls gs)
      ]

  -- Once the grants of a channel are loaded the decision cannot fail: the channel is managed exactly
  -- if it has grants, and then the user is admitted exactly if some grant of the user's still
  -- stands, with calls allowed by the grant where a call is asked for.
  pub authorize_exact :
      (repo : ChannelAccessGrantRepository) (channel : ℕ) (gs : List ChannelAccessGrant)
      → repo.list_by_channel channel ≡ ok gs
      → let c : Option (Checker S) = some (record { grants = some repo; collaboration = some s }) in
        (authorize_channel c st now channel user
          ≡ ok (record { managed = some_grant gs; allowed = any (admits false) gs }))
        × (authorize_call c st now channel user
            ≡ ok (record { managed = some_grant gs; allowed = any (admits true) gs }))
  unfolding authorize authorize_channel authorize_call
  authorize_exact repo channel [] h = (rw (h, authorize_by), rw (h, authorize_by))
  authorize_exact repo channel (g ∷ gs) h = (
    rw (h, authorize_by) (authorize_loop_lem false (g ∷ gs)),
    rw (h, authorize_by) (authorize_loop_lem true (g ∷ gs)),
  )
