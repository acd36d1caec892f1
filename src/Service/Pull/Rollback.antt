-- ===== src/Service/Pull/Rollback.antt =====
-- What a result of a poll or an event leaves behind.
use cpanelde.Prelude.{
  ◌≡◌, ◌⊎◌, refl, sym, ap, ◌∙◌, Bool, true, false, not, ◌||◌, List, arith, if◌then◌else◌, Text,
  Option, none, some, ◌==◌, nat_eq, text_eq, codes, Bool-cases, Option-cases, inl, inr, eq_of_beq,
}
use cpanelde.Model.Types.{NodeSpec, UserSpec}
use cpanelde.Model.Users.{or_else}
use cpanelde.Service.{Kernel, Service, report_application}
use cpanelde.Service.Users.{confirm_application, restore_user_state}
use cpanelde.Service.Pull.{
  PullResult, check, apply_changes, desired, with_config, users_in_effect, roll_back, refuse,
  settle, has_new_config, apply_parts, apply_pull_result,
}
use cpanelde.Service.Pull.Keeps.{
  Keeps, Keeps-trans, confirm-Keeps, confirm_hash, changes-Keeps, users-Keeps,
}
use cpanelde.Service.Kernels.{StaysDown}
use cpanelde.Service.Pull.Taken.{confirm_keeps}
use cpanelde.Service.Pull.Effect.{
  Took, Effect, Effect-same, Effect-begun, wanted_users, parts-Effect,
}

-- The configuration, the users and the revision that are wanted are those from before, and the next
-- poll is not skipped.
pub record Untouched {K : Type 0} (before after : Service K) : Type 0 where
  pub config : after.last_config ≡ before.last_config
  pub config_hash : after.last_config_hash ≡ before.last_config_hash
  pub users : after.last_users ≡ before.last_users
  pub user_hash : after.last_user_hash ≡ before.last_user_hash
  pub revision : after.desired_revision ≡ before.desired_revision
  pub reconcile : after.reconcile_needed ≡ true

-- The result is in effect: its configuration is the current one; the current users are its own, if
-- it has any under a new hash, and those from before if not; the kernel has taken them without an
-- error; and if the kernel runs, the revision is confirmed.
pub record InEffect {K : Type 0} (k : Kernel K) (r : PullResult) (before after : Service K)
    : Type 0 where
  pub config : after.last_config ≡ or_else r.config before.last_config
  pub users : after.last_users ≡ wanted_users r before
  pub user_hash : (us : List UserSpec) → r.users ≡ some us → after.last_user_hash ≡ r.user_hash
  pub kernel : Took k r before after.last_config after.last_users after.kernel
  pub revision :
      after.desired_revision ≡ (if r.revision == 0 then before.desired_revision else r.revision)
  pub reconcile : k.is_running after.kernel ≡ true → after.reconcile_needed ≡ false
  pub applied :
      k.is_running after.kernel ≡ true
      → (after.desired_revision == 0) ≡ false
      → after.applied_revision ≡ after.desired_revision

module _ {K : Type 0} (k : Kernel K) (digest : Text → Text) (config_hash : NodeSpec → Text)
    (validate overrides : NodeSpec → Option Text) where
  refuse-Untouched :
      (before s : Service K) (stage e : Text)
      → s.last_config ≡ before.last_config
      → s.last_config_hash ≡ before.last_config_hash
      → s.last_users ≡ before.last_users
      → s.last_user_hash ≡ before.last_user_hash
      → Untouched before (refuse k digest config_hash validate overrides before s stage e)
  unfolding report_application
  refuse-Untouched before s stage e c h u uh = record {
    config = ground (arith, c);
    config_hash = ground (arith, h);
    users = ground (arith, u);
    user_hash = ground (arith, uh);
    revision = refl;
    reconcile = ground arith;
  }

  roll_back-Untouched :
      (before s : Service K)
      → Untouched before (roll_back k digest config_hash validate overrides before s)
  unfolding roll_back report_application restore_user_state
  roll_back-Untouched before s = record {
    config = ground arith;
    config_hash = ground arith;
    users = refl;
    user_hash = refl;
    revision = refl;
    reconcile = ground arith;
  }

  confirm_running :
      (s : Service K)
      → k.is_running (confirm_application k digest overrides s).kernel ≡ true
      → ((confirm_application k digest overrides s).reconcile_needed ≡ false)
        × ((s.desired_revision == 0) ≡ false
            → (confirm_application k digest overrides s).applied_revision ≡ s.desired_revision)
  unfolding confirm_application report_application
  confirm_running s runs = elim (Bool-cases (k.is_running s.kernel)) [
    | inr stopped ↦ cc (rw (stopped, confirm_application) at runs, stopped)
    | inl running ↦
        rw (running, confirm_application)
          (
            ground arith,
            λ wanted. ground (arith, wanted, eq_of_beq s.desired_revision s.applied_revision),
          )
  ]

  with_config-Config :
      (s : Service K) (r : PullResult) (c : Option NodeSpec)
      → (with_config k digest config_hash validate overrides s r c).last_config
        ≡ or_else c s.last_config
  with_config-Config s r none = refl
  with_config-Config s r (some c) = refl

  with_config-revision :
      (s : Service K) (r : PullResult) (c : Option NodeSpec)
      → (with_config k digest config_hash validate overrides s r c).desired_revision
        ≡ s.desired_revision
  with_config-revision s r none = refl
  with_config-revision s r (some c) = refl

  changes_if-Keeps :
      (b : Bool) (t u : Service K)
      → Keeps t u
      → Keeps t (if b then apply_changes k digest config_hash validate overrides u else (u, true)).0
  changes_if-Keeps true t u p =
      Keeps-trans t u _ p (changes-Keeps k digest config_hash validate overrides u)
  changes_if-Keeps false t u p = p

  parts-Keeps :
      (s : Service K) (r : PullResult)
      → Keeps
          (with_config k digest config_hash validate overrides s r r.config)
          (apply_parts k digest config_hash validate overrides s r).0
  parts-Keeps s r =
      changes_if-Keeps (has_new_config k digest config_hash validate overrides r) _ _ (
        users-Keeps k digest config_hash validate overrides
          (with_config k digest config_hash validate overrides s r r.config) r
          (has_new_config k digest config_hash validate overrides r) r.users)

  both_fine : (a b : Bool) → (not a || not b) ≡ false → (a ≡ true) × (b ≡ true)
  both_fine true true h = (refl, refl)
  both_fine true false h = cc
  both_fine false b h = cc

  -- The parts of a result are settled in one of two ways.
  settle_lem :
      (before s : Service K) (r : PullResult) (parts : Service K × Bool)
      → s.last_config ≡ before.last_config
      → s.desired_revision
        ≡ desired k digest config_hash validate overrides r.revision before.desired_revision
      → Keeps (with_config k digest config_hash validate overrides s r r.config) parts.0
      → (parts.1 ≡ true
          → users_in_effect k digest config_hash validate overrides parts.0 r ≡ true
          → Effect k r before parts.0)
      → Untouched before (settle k digest config_hash validate overrides before r parts)
        ⊎ InEffect k r before (settle k digest config_hash validate overrides before r parts)
  settle_lem before s r (t, succeeded) c v p f =
      elim (Bool-cases
        (not succeeded || not (users_in_effect k digest config_hash validate overrides t r))) [
          | inl bad ↦ inl (rw bad (roll_back-Untouched before t))
          | inr fine ↦
              let q = confirm-Keeps k digest config_hash validate overrides t in
              let (kernel, users, h) = confirm_keeps k digest config_hash validate overrides t in
              let (ok, current) = both_fine succeeded _ fine in
              let (set, took) =
                Effect-same k r before t (confirm_application k digest overrides t) kernel users
                  q.config (f ok current) in
              inr (
                rw fine (record {
                  config =
                      q.config
                      ∙ p.config
                      ∙ with_config-Config s r r.config
                      ∙ ap (or_else r.config) c;
                  users = set;
                  kernel = took;
                  user_hash = λ us e.
                      confirm_hash k digest config_hash validate overrides t
                      ∙ sym (eq_of_beq r.user_hash t.last_user_hash (ground (arith, fine, e)));
                  revision = q.revision ∙ p.revision ∙ with_config-revision s r r.config ∙ v;
                  reconcile = λ runs. (confirm_running t runs).0;
                  applied = λ runs wanted.
                      (confirm_running t runs).1 (ap (λ n. n == 0) (sym q.revision) ∙ wanted)
                      ∙ sym q.revision;
                }))
        ]

  -- If a kernel that does not run and fails to start does not run afterwards, a result of a poll or
  -- an event has one of two outcomes. Either the configuration, the users and the wanted revision
  -- are those from before, and another poll is asked for; or the result is in effect. Then its
  -- configuration, if it has one, is the current one, and the current users are its own, if it has
  -- any under a new hash, and else those from before; the kernel has taken what is new, without an
  -- error; and if it runs, no poll is asked for, and a wanted revision is the applied one.
  pub apply_pull_result_all_or_nothing :
      StaysDown k
      → (before : Service K) (r : PullResult)
      → Untouched before (apply_pull_result k digest config_hash validate overrides before r)
        ⊎ InEffect k r before (apply_pull_result k digest config_hash validate overrides before r)
  unfolding apply_pull_result
  apply_pull_result_all_or_nothing down before r =
      elim (Option-cases (check k digest config_hash validate overrides validate r.config)) [
        | inr (e, invalid) ↦ inl (
            rw (invalid, apply_pull_result)
              (refuse-Untouched before begun (codes "validate") e refl refl refl refl))
        | inl valid ↦
            elim (Option-cases (check k digest config_hash validate overrides overrides r.config)) [
              | inr (e, uncertified) ↦ inl (
                  rw (valid, uncertified, apply_pull_result)
                    (refuse-Untouched before begun (codes "certificate") e refl refl refl refl))
              | inl certified ↦
                  rw (valid, certified, apply_pull_result)
                    (settle_lem before begun r
                      (apply_parts k digest config_hash validate overrides begun r) refl refl
                      (parts-Keeps begun r) parts_effect)
            ]
      ]
    where
      begun : Service K
      begun = record before {
        resync_pending = false;
        desired_revision =
            desired k digest config_hash validate overrides r.revision before.desired_revision;
      }

      parts_effect :
          (apply_parts k digest config_hash validate overrides begun r).1 ≡ true
          → users_in_effect k digest config_hash validate overrides
              (apply_parts k digest config_hash validate overrides begun r).0
              r
            ≡ true
          → Effect k r before (apply_parts k digest config_hash validate overrides begun r).0
      parts_effect ok fine =
          Effect-begun k r before (apply_parts k digest config_hash validate overrides begun r).0
            begun.desired_revision
            (parts-Effect k digest config_hash validate overrides down begun r ok fine)
