-- ===== src/Calls/OneHost.antt =====
-- However the statements follow one another, a call keeps its one host.
use aloqa_claude.Prelude.{◌≤◌, ◌≡◌, refl, ◌∙◌, false, arith}
use aloqa_claude.Calls.Store.{Tables, set_pinned_participant, activate_ringing}
use aloqa_claude.Calls.Rows.{host_count, DistinctUsers}
use aloqa_claude.Calls.Steps.{
  Powers, Step, added, invited_added, status_set, dropped, role_set, swapped, media_set, pinned,
  activated, over, called_off, deleted, Reach, here, next,
}
use aloqa_claude.Calls.KeepsHosts.{
  KeepsHosts, kept, add_invited_members-participants, added-KeepsHosts, status_set-KeepsHosts,
  unchanged-KeepsHosts, dropped-KeepsHosts, role_set-KeepsHosts, swapped-KeepsHosts,
  media_set-KeepsHosts, deleted-KeepsHosts, ends-KeepsHosts, cancels-KeepsHosts,
}

Step-KeepsHosts :
    (w : Powers) (t u : Tables)
    → DistinctUsers t.participants
    → Step w t u
    → KeepsHosts w.removes t.participants u.participants
unfolding set_pinned_participant activate_ringing
Step-KeepsHosts w t u v (added p no_host _ h) = added-KeepsHosts w.removes t u v p no_host h
Step-KeepsHosts w t u v (invited_added users h) =
    unchanged-KeepsHosts w.removes t u v (rw h (add_invited_members-participants users t))
Step-KeepsHosts w t u v (status_set id status now _ h) =
    status_set-KeepsHosts w.removes t u v id status now h
Step-KeepsHosts w t u v (dropped id reason now met h) =
    dropped-KeepsHosts w.removes t u v id reason now met h
Step-KeepsHosts w t u v (role_set id role no_host h) =
    role_set-KeepsHosts w.removes t u v id role no_host h
Step-KeepsHosts w t u v (swapped from to h) = swapped-KeepsHosts w.removes t u v from to h
Step-KeepsHosts w t u v (media_set id audio video screen h) =
    media_set-KeepsHosts w.removes t u v id audio video screen h
Step-KeepsHosts w t u v (pinned user h) = unchanged-KeepsHosts w.removes t u v (rw h refl)
Step-KeepsHosts w t u v (activated h) = unchanged-KeepsHosts w.removes t u v (rw h (ground arith))
Step-KeepsHosts w t u v (over reason now _ h) = ends-KeepsHosts w.removes t u v reason now h
Step-KeepsHosts w t u v (called_off reason now _ h) =
    cancels-KeepsHosts w.removes t u v reason now h
Step-KeepsHosts w t u v (deleted user allowed h) = deleted-KeepsHosts w.removes t u v user allowed h

pub reached_calls_keep_hosts :
    (w : Powers) (t : Tables) {u : Tables}
    → DistinctUsers t.participants
    → Reach w t u
    → DistinctUsers u.participants
      × (host_count u.participants ≤ host_count t.participants)
      × (w.removes ≡ false → host_count u.participants ≡ host_count t.participants)
reached_calls_keep_hosts w t v here = kept w.removes t.participants v
reached_calls_keep_hosts w t v (next {u = x} {v = y} r step) =
    let before = reached_calls_keep_hosts w t v r in
    let after = Step-KeepsHosts w x y before.0 step in
    (after.0, omega arith, λ safe. after.2 safe ∙ before.2 safe)

-- Whatever statements of the handlers run, in whatever order and however often, as long as none deletes
-- a row: users stay distinct, and the call that had one host still has exactly one.
pub reached_calls_have_one_host :
    (w : Powers) (t : Tables) {u : Tables}
    → DistinctUsers t.participants
    → host_count t.participants ≡ 1
    → w.removes ≡ false
    → Reach w t u
    → DistinctUsers u.participants × (host_count u.participants ≡ 1)
reached_calls_have_one_host w t v one safe r =
    let kept_hosts = reached_calls_keep_hosts w t v r in (kept_hosts.0, kept_hosts.2 safe ∙ one)
