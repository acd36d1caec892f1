-- ===== src/Service/Pull/Sync.antt =====
-- The limiter's table of users through the application of a result.
use cpanelde.Prelude.{
  refl, Bool, true, false, not, ◌||◌, List, arith, if◌then◌else◌, Text, Option, none, some, ◌==◌,
  nat_eq, text_eq, codes, Option-cases, inl, inr, nat_eq,
}
use cpanelde.Model.Types.{NodeSpec, UserSpec}
use cpanelde.Limiter.Users.{update_users}
use cpanelde.Service.{Kernel, Service}
use cpanelde.Service.Users.{restore_user_state, start_kernel}
use cpanelde.Service.Pull.{
  PullResult, check, reloaded, apply_changes, with_config, with_users, users_in_effect, roll_back,
  refuse, settle, has_new_config, apply_parts, apply_pull_result, desired,
}
use cpanelde.Service.Users.Sync.{
  InSync, if-InSync, prepare-InSync, report-InSync, confirm-InSync, started-InSync, update-InSync,
}

module _ {K : Type 0} (k : Kernel K) (digest : Text → Text) (config_hash : NodeSpec → Text)
    (validate overrides : NodeSpec → Option Text) where
  reloaded-InSync :
      (s : Service K) (o : K × Option Text)
      → InSync s
      → InSync (reloaded k digest config_hash validate overrides s o).0
  reloaded-InSync s (kernel, none) i = i
  reloaded-InSync s (kernel, some e) i = i

  changes-InSync :
      (s : Service K)
      → InSync s
      → InSync (apply_changes k digest config_hash validate overrides s).0
  unfolding apply_changes start_kernel
  changes-InSync s i = ground (
    arith,
    i,
    reloaded-InSync s (k.reload s.kernel s.last_config s.last_users) i,
    started-InSync k digest overrides s s.last_config s.last_users
        (k.start s.kernel s.last_config s.last_users) i,
  )

  configured-InSync :
      (s : Service K) (r : PullResult) (c : Option NodeSpec)
      → InSync s
      → InSync (with_config k digest config_hash validate overrides s r c)
  configured-InSync s r none i = i
  configured-InSync s r (some c) i = i

  users-InSync :
      (s : Service K) (r : PullResult) (changed : Bool) (us : Option (List UserSpec))
      → InSync s
      → InSync (with_users k digest config_hash validate overrides s r changed us)
  users-InSync s r changed none i = i
  users-InSync s r changed (some us) i = if-InSync (r.user_hash == s.last_user_hash) _ _ i (
      if-InSync changed _ _ (prepare-InSync digest s us)
        (update-InSync k digest overrides s us r.user_hash i))

  changes_if-InSync :
      (b : Bool) (s : Service K)
      → InSync s
      → InSync (if b then apply_changes k digest config_hash validate overrides s else (s, true)).0
  changes_if-InSync true s i = changes-InSync s i
  changes_if-InSync false s i = i

  roll_back-InSync :
      (before s : Service K) → InSync (roll_back k digest config_hash validate overrides before s)
  unfolding roll_back restore_user_state update_users
  roll_back-InSync before s = refl

  settle-InSync :
      (before : Service K) (r : PullResult) (parts : Service K × Bool)
      → InSync parts.0
      → InSync (settle k digest config_hash validate overrides before r parts)
  settle-InSync before r (s, succeeded) i =
      if-InSync (not succeeded || not (users_in_effect k digest config_hash validate overrides s r))
        _ _ (roll_back-InSync before s) (confirm-InSync k digest overrides s i)

  refuse-InSync :
      (before s : Service K) (stage e : Text)
      → InSync s
      → InSync (refuse k digest config_hash validate overrides before s stage e)
  refuse-InSync before s stage e i =
      report-InSync (record s { reconcile_needed = true }) (codes "failed") stage (some e) i

  pub pull-InSync :
      (s : Service K) (r : PullResult)
      → InSync s
      → InSync (apply_pull_result k digest config_hash validate overrides s r)
  unfolding apply_pull_result
  pull-InSync s r i =
      elim (Option-cases (check k digest config_hash validate overrides validate r.config)) [
        | inr (e, invalid) ↦
            rw (invalid, apply_pull_result) (refuse-InSync s begun (codes "validate") e i)
        | inl valid ↦
            elim (Option-cases (check k digest config_hash validate overrides overrides r.config)) [
              | inr (e, uncertified) ↦
                  rw (valid, uncertified, apply_pull_result)
                    (refuse-InSync s begun (codes "certificate") e i)
              | inl certified ↦
                  rw (valid, certified, apply_pull_result)
                    (settle-InSync s r (apply_parts k digest config_hash validate overrides begun r)
                      parts)
            ]
      ]
    where
      begun : Service K
      begun = record s {
        resync_pending = false;
        desired_revision =
            desired k digest config_hash validate overrides r.revision s.desired_revision;
      }

      new : Bool
      new = has_new_config k digest config_hash validate overrides r

      parts : InSync (apply_parts k digest config_hash validate overrides begun r).0
      parts = changes_if-InSync new _ (
          users-InSync (with_config k digest config_hash validate overrides begun r r.config) r new
            r.users (configured-InSync begun r r.config i))
