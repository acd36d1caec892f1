-- ===== src/Service/Users/Sync.antt =====
-- The limiter's table of users through the operations on users.
use cpanelde.Prelude.{
  ◌≡◌, refl, Bool, true, false, not, ◌&&◌, List, [], ◌∷◌, arith, if◌then◌else◌, Text, Option, none,
  some, ◌==◌, nat_eq, text_eq, codes, is_some, Bool-cases, Option-cases, inl, inr, is_empty,
}
use cpanelde.Model.Types.{NodeSpec, UserSpec}
use cpanelde.Limiter.Users.{users_by_id, update_users}
use cpanelde.Service.{Kernel, Service, report_application, no_users, merge_users, subtract_users}
use cpanelde.Service.Users.{
  set_users, prepare_user_state, restore_user_state, confirm_application, started, start_kernel,
  start_or_restore, certificate_error, launched, concluded, update_stopped, updated,
  apply_user_update, reinstalled, fall_back, remove_replaced, add_delta, remove_delta,
  apply_user_delta,
}
use cpanelde.Service.Hashes.{compute_user_hash}

-- The limiter has exactly the users that the service holds, by their ids.
abbrev pub InSync : {K : Type 0} → Service K → Type 0
InSync s = s.limiter.users ≡ users_by_id s.last_users []

pub if-InSync :
    {K : Type 0} (b : Bool) (s t : Service K) → InSync s → InSync t → InSync (if b then s else t)
if-InSync true s t i j = i
if-InSync false s t i j = j

pub set_users-InSync :
    {K : Type 0} (s : Service K) (us : List UserSpec) (hash : Text) → InSync (set_users s us hash)
unfolding update_users
set_users-InSync s us hash = refl

pub prepare-InSync :
    {K : Type 0} (digest : Text → Text) (s : Service K) (us : List UserSpec)
    → InSync (prepare_user_state digest s us)
unfolding prepare_user_state
prepare-InSync digest s us = set_users-InSync s us (compute_user_hash digest us)

pub restore-InSync :
    {K : Type 0} (s : Service K) (us : List UserSpec) (hash : Text)
    → InSync (restore_user_state s us hash)
unfolding restore_user_state
restore-InSync s us hash = set_users-InSync s us hash

pub report-InSync :
    {K : Type 0} (s : Service K) (status stage : Text) (error : Option Text)
    → InSync s
    → InSync (report_application s status stage error)
unfolding report_application
report-InSync s status stage error i = ground (arith, i)

module _ {K : Type 0} (k : Kernel K) (digest : Text → Text)
    (overrides : NodeSpec → Option Text) where
  pub confirm-InSync :
      (s : Service K) → InSync s → InSync (confirm_application k digest overrides s)
  unfolding confirm_application report_application
  confirm-InSync s i = ground (arith, i)

  pub started-InSync :
      (s : Service K) (nc : Option NodeSpec) (us : List UserSpec) (o : K × Option Text)
      → InSync s
      → InSync (started k digest overrides s nc us o).0
  started-InSync s nc us (kernel, none) i = i
  started-InSync s nc us (kernel, some e) i = i

  restart-InSync :
      (before s : Service K) (us : List UserSpec)
      → InSync s
      → InSync (start_or_restore k digest overrides before s us)
  unfolding start_kernel
  restart-InSync before s us i =
      let o = k.start s.kernel s.last_config us in
      elim (Bool-cases (started k digest overrides s s.last_config us o).1) [
        | inl ok ↦ rw ok (started-InSync s s.last_config us o i)
        | inr failed ↦ rw failed (
            restore-InSync (started k digest overrides s s.last_config us o).0 before.last_users
              before.last_user_hash)
      ]

  launched-InSync : (s : Service K) (us : List UserSpec) → InSync (launched k digest overrides s us)
  launched-InSync s us = elim (Bool-cases (not (no_users us) && is_some s.last_config)) [
    | inr idle ↦ rw idle (prepare-InSync digest s us)
    | inl go ↦
        rw go (restart-InSync s (prepare_user_state digest s us) us (prepare-InSync digest s us))
  ]

  concluded-InSync :
      (s : Service K) (us : List UserSpec) (hash : Text)
      → InSync s
      → InSync (concluded k digest overrides s us hash)
  concluded-InSync s us hash i =
      elim (Bool-cases (not (is_empty hash) && (not (no_users us) && k.is_running s.kernel))) [
        | inr idle ↦ rw idle i
        | inl go ↦ rw go (confirm-InSync (record s { last_user_hash = hash }) i)
      ]

  updated-InSync :
      (before s : Service K) (us : List UserSpec) (hash : Text) (o : K × Option Text)
      → InSync s
      → InSync (updated k digest overrides before s us hash o)
  updated-InSync before s us hash (kernel, none) i = confirm-InSync _ i
  updated-InSync before s us hash (kernel, some e) i =
      restart-InSync before (record s { kernel = kernel }) us i

  pub update-InSync :
      (s : Service K) (us : List UserSpec) (hash : Text)
      → InSync s
      → InSync (apply_user_update k digest overrides s us hash)
  unfolding apply_user_update update_stopped
  update-InSync s us hash i = elim (Bool-cases (k.is_running s.kernel)) [
    | inl running ↦
        rw (running, apply_user_update)
          (updated-InSync s (prepare_user_state digest s us) us hash
            (k.update_users (prepare_user_state digest s us).kernel us)
            (prepare-InSync digest s us))
    | inr stopped ↦ elim (Option-cases (certificate_error k digest overrides s us)) [
      | inl fine ↦
          rw (stopped, fine, apply_user_update, update_stopped)
            (concluded-InSync (launched k digest overrides s us) us hash (launched-InSync s us))
      | inr (e, bad) ↦
          rw (stopped, bad, apply_user_update, update_stopped)
            (report-InSync (record s { last_kernel_error = some e; reconcile_needed = true })
              (codes "failed") (codes "certificate") (some e) i)
    ]
  ]

  reinstalled-InSync :
      (before s : Service K) (o : K × Option Text)
      → InSync s
      → InSync (reinstalled k digest overrides before s o)
  reinstalled-InSync before s (kernel, none) i = i
  reinstalled-InSync before s (kernel, some e) i =
      restore-InSync (record s { kernel = kernel }) before.last_users before.last_user_hash

  fall_back-InSync :
      (before s : Service K) (us : List UserSpec) (o : K × Option Text)
      → InSync s
      → InSync (fall_back k digest overrides before s us o)
  fall_back-InSync before s us (kernel, none) i = i
  fall_back-InSync before s us (kernel, some e) i =
      reinstalled-InSync before s (k.update_users kernel us) i

  added-InSync :
      (s : Service K) (delta : List UserSpec)
      → InSync s
      → InSync (add_delta k digest overrides s delta)
  unfolding add_delta
  added-InSync s delta i =
      let merged = merge_users s.last_users delta in
      let cleared : Service K = record s {
        kernel = remove_replaced k digest overrides s.last_users delta s.kernel;
      } in
      let t = prepare_user_state digest cleared merged in
      if-InSync (not (k.is_running s.kernel)) _ _
        (update-InSync s merged (compute_user_hash digest merged) i)
        (fall_back-InSync s t merged (k.add_users t.kernel delta)
          (prepare-InSync digest cleared merged))

  removed-InSync :
      (s : Service K) (delta : List UserSpec)
      → InSync s
      → InSync (remove_delta k digest overrides s delta)
  unfolding remove_delta
  removed-InSync s delta i =
      let t = prepare_user_state digest s (subtract_users s.last_users delta) in
      if-InSync (not (k.is_running s.kernel)) _ _ i (
        fall_back-InSync s t (subtract_users s.last_users delta) (k.remove_users t.kernel delta)
          (prepare-InSync digest s (subtract_users s.last_users delta)))

  pub delta-InSync :
      (s : Service K) (action : Text) (us : List UserSpec)
      → InSync s
      → InSync (apply_user_delta k digest overrides s action us)
  unfolding apply_user_delta
  delta-InSync s action [] i = i
  delta-InSync s action (d ∷ us) i =
      if-InSync (action == codes "add") _ _ (added-InSync s (d ∷ us) i)
        (if-InSync (action == codes "remove") _ _ (removed-InSync s (d ∷ us) i) i)
