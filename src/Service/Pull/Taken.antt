-- ===== src/Service/Pull/Taken.antt =====
-- What the kernel takes when the service applies a configuration or users.
use cpanelde.Prelude.{
  ◌≡◌, ◌⊎◌, refl, sym, ap, ◌∙◌, Bool, true, false, not, ◌&&◌, List, [], ◌∷◌, arith, if◌then◌else◌,
  Text, Option, none, some, nat_eq, text_eq, codes, is_some, is_empty, Bool-cases, Option-cases,
  inl, inr,
}
use cpanelde.Model.Types.{NodeSpec, UserSpec}
use cpanelde.Service.{Kernel, Service, report_application, no_users}
use cpanelde.Service.Users.{
  prepare_user_state, restore_user_state, confirm_application, started, start_kernel,
  start_or_restore, certificate_error, launched, concluded, update_stopped, updated,
  apply_user_update,
}
use cpanelde.Service.Pull.Keeps.{report_hash}
use cpanelde.Service.Pull.{reloaded, apply_changes}
use cpanelde.Service.Kernels.{
  Configured, by_reload, by_start, by_stop, without_config, by_update, by_restart, by_launch,
  not_yet, StaysDown, Updated, taken, taken_back,
}

-- A start with new users that succeeds, or after which the users are those from before.
data Restarted {K : Type 0} (k : Kernel K) (before s : Service K) (us : List UserSpec)
    (t : Service K) : Type 0 where
  went :
      k.start s.kernel s.last_config us ≡ (t.kernel, none)
      → t.last_users ≡ s.last_users
      → Restarted k before s us t
  came_back :
      {e : Text}
      → (k.start s.kernel s.last_config us).1 ≡ some e
      → t.kernel ≡ (k.start s.kernel s.last_config us).0
      → t.last_user_hash ≡ before.last_user_hash
      → Restarted k before s us t

module _ {K : Type 0} (k : Kernel K) (digest : Text → Text) (config_hash : NodeSpec → Text)
    (validate overrides : NodeSpec → Option Text) where
  pub confirm_keeps :
      (s : Service K)
      → let t = confirm_application k digest overrides s in
        (t.kernel ≡ s.kernel)
        × (t.last_users ≡ s.last_users)
        × (t.last_user_hash ≡ s.last_user_hash)
  unfolding confirm_application report_application
  confirm_keeps s = (ground arith, ground arith, ground arith)

  start-Restarted :
      (before s : Service K) (us : List UserSpec) (o : K × Option Text)
      → k.start s.kernel s.last_config us ≡ o
      → Restarted k before s us (
          let (t, ok) = started k digest overrides s s.last_config us o in
          if ok then t else restore_user_state t before.last_users before.last_user_hash)
  unfolding restore_user_state
  start-Restarted before s us (kernel, none) e = went e refl
  start-Restarted before s us (kernel, some x) e =
      came_back (ap (λ o. o.1) e) (ap (λ o. o.0) (sym e)) refl

  restart-Restarted :
      (before s : Service K) (us : List UserSpec)
      → Restarted k before s us (start_or_restore k digest overrides before s us)
  unfolding start_kernel
  restart-Restarted before s us =
      start-Restarted before s us (k.start s.kernel s.last_config us) refl

  unfoldable pub Changed : Service K → Service K × Bool → Type 0
  Changed s (t, ok) =
      ok ≡ true
      → (t.last_users ≡ s.last_users)
        × (t.last_user_hash ≡ s.last_user_hash)
        × Configured k s.kernel s.last_config s.last_users t.kernel

  reloaded-Changed :
      (s : Service K) (o : K × Option Text)
      → k.is_running s.kernel ≡ true
      → k.reload s.kernel s.last_config s.last_users ≡ o
      → Changed s (reloaded k digest config_hash validate overrides s o)
  unfolding Changed
  reloaded-Changed s (kernel, none) runs e ok = (refl, refl, by_reload runs e)
  reloaded-Changed s (kernel, some x) runs e ok = cc

  started-Changed :
      (s : Service K) (o : K × Option Text)
      → k.is_running s.kernel ≡ false
      → k.start s.kernel s.last_config s.last_users ≡ o
      → Changed s (started k digest overrides s s.last_config s.last_users o)
  unfolding Changed
  started-Changed s (kernel, none) down e ok = (refl, refl, by_start down e)
  started-Changed s (kernel, some x) down e ok = cc

  empty_of : (us : List UserSpec) → no_users us ≡ true → us ≡ []
  empty_of [] h = refl
  empty_of (u ∷ us) h = cc

  absent_of : (c : Option NodeSpec) → is_some c ≡ false → c ≡ none
  absent_of none h = refl
  absent_of (some c) h = cc

  -- A change of the configuration that reports no error.
  pub changes-Changed :
      (s : Service K) → Changed s (apply_changes k digest config_hash validate overrides s)
  unfolding apply_changes start_kernel Changed
  changes-Changed s = elim (Bool-cases (no_users s.last_users)) [
    | inl empty ↦
        rw (empty, apply_changes) (λ ok. (refl, refl, by_stop (empty_of s.last_users empty) refl))
    | inr full ↦ elim (Bool-cases (is_some s.last_config)) [
      | inr absent ↦
          rw (full, absent, apply_changes)
            (λ ok. (refl, refl, without_config (absent_of s.last_config absent) refl))
      | inl present ↦ elim (Bool-cases (k.is_running s.kernel)) [
        | inl runs ↦
            rw (full, present, runs, apply_changes)
              (reloaded-Changed s (k.reload s.kernel s.last_config s.last_users) runs refl)
        | inr down ↦
            rw (full, present, down, apply_changes)
              (started-Changed s (k.start s.kernel s.last_config s.last_users) down refl)
      ]
    ]
  ]

  updated-Updated :
      (s : Service K) (us : List UserSpec) (hash : Text) (o : K × Option Text)
      → k.is_running s.kernel ≡ true
      → k.update_users s.kernel us ≡ o
      → Updated k s us (updated k digest overrides s (prepare_user_state digest s us) us hash o)
  unfolding prepare_user_state
  updated-Updated s us hash (kernel, none) running e =
      let (same, users, h) = confirm_keeps (record (prepare_user_state digest s us) {
        kernel = kernel;
        last_user_hash =
            if not (is_empty hash) then hash else (prepare_user_state digest s us).last_user_hash;
      }) in
      taken users (by_update running (e ∙ ap (λ κ. (κ, none)) (sym same)))
  updated-Updated s us hash (kernel, some x) running e =
      elim (restart-Restarted s (record (prepare_user_state digest s us) { kernel = kernel }) us) [
        | went start users ↦ taken users (by_restart running e start)
        | came_back failed same h ↦ taken_back h
      ]

  launched-Restarted :
      (s : Service K) (us : List UserSpec)
      → (not (no_users us) && is_some s.last_config) ≡ true
      → Restarted k s (prepare_user_state digest s us) us (launched k digest overrides s us)
  launched-Restarted s us go = rw go (restart-Restarted s (prepare_user_state digest s us) us)

  concluded_keeps :
      (t : Service K) (us : List UserSpec) (hash : Text)
      → let u = concluded k digest overrides t us hash in
        (u.kernel ≡ t.kernel)
        × (u.last_users ≡ t.last_users)
        × (k.is_running t.kernel ≡ false → u.last_user_hash ≡ t.last_user_hash)
  concluded_keeps t us hash =
      elim (Bool-cases (not (is_empty hash) && (not (no_users us) && k.is_running t.kernel))) [
        | inr idle ↦ rw idle (refl, refl, λ stopped. refl)
        | inl go ↦
            let (kernel, users, h) = confirm_keeps (record t { last_user_hash = hash }) in
            rw go (kernel, users, λ stopped. absurd (ground (arith, go, stopped)))
      ]

  idle_launch :
      (s : Service K) (us : List UserSpec)
      → (not (no_users us) && is_some s.last_config) ≡ false
      → ((launched k digest overrides s us).kernel ≡ s.kernel)
        × ((launched k digest overrides s us).last_users ≡ us)
        × ((us ≡ []) ⊎ (s.last_config ≡ none))
  unfolding prepare_user_state
  idle_launch s [] idle = (refl, refl, inl refl)
  idle_launch s (u ∷ us) idle = (rw idle refl, rw idle refl, inr (absent_of s.last_config idle))

  concluded-Updated :
      StaysDown k
      → (s : Service K) (us : List UserSpec) (hash : Text) → k.is_running s.kernel ≡ false
      → Updated k s us (concluded k digest overrides (launched k digest overrides s us) us hash)
  unfolding prepare_user_state
  concluded-Updated down s us hash stopped =
      let t = launched k digest overrides s us in
      let (kernel, users, same_hash) = concluded_keeps t us hash in
      elim (Bool-cases (not (no_users us) && is_some s.last_config)) [
        | inr idle ↦
            let (k_kept, set, why) = idle_launch s us idle in
            taken (users ∙ set) (not_yet stopped why (kernel ∙ k_kept))
        | inl go ↦ elim (launched-Restarted s us go) [
          | went start set ↦
              taken (users ∙ set) (by_launch stopped (start ∙ ap (λ κ. (κ, none)) (sym kernel)))
          | came_back {e} failed same h ↦ taken_back (
              same_hash (ap k.is_running same ∙ down s.kernel s.last_config us e stopped failed)
              ∙ h)
        ]
      ]

  pub update-Updated :
      StaysDown k
      → (s : Service K) (us : List UserSpec) (hash : Text)
      → Updated k s us (apply_user_update k digest overrides s us hash)
  unfolding apply_user_update update_stopped report_application
  update-Updated down s us hash = elim (Bool-cases (k.is_running s.kernel)) [
    | inl running ↦
        rw (running, apply_user_update)
          (updated-Updated s us hash (k.update_users s.kernel us) running refl)
    | inr stopped ↦ elim (Option-cases (certificate_error k digest overrides s us)) [
      | inr (e, bad) ↦
          rw (stopped, bad, apply_user_update, update_stopped)
            (taken_back (
              report_hash (record s { last_kernel_error = some e; reconcile_needed = true })
                (codes "failed") (codes "certificate") (some e)))
      | inl fine ↦
          rw (stopped, fine, apply_user_update, update_stopped)
            (concluded-Updated down s us hash stopped)
    ]
  ]
