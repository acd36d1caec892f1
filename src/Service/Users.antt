-- ===== src/Service/Users.antt =====
-- internal/service/service.go: what the service does with the users that the panel sends.
pub mod Sync
use cpanelde.Prelude.{
  ℕ, Bool, true, false, not, ◌||◌, ◌&&◌, List, [], ◌∷◌, any, if◌then◌else◌, Text, Option, none,
  some, ◌==◌, nat_eq, text_eq, codes, is_empty, is_some,
}
use cpanelde.Model.Types.{NodeSpec, UserSpec}
use cpanelde.Limiter.Users.{update_users}
use cpanelde.Limiter.Speed.{update_buckets}
use cpanelde.Service.{Kernel, Service, report_application, no_users, merge_users, subtract_users}
use cpanelde.Service.Hashes.{compute_user_hash}

-- The limiter, the buckets and the list of users, under a hash.
abbrev pub set_users : {K : Type 0} → Service K → List UserSpec → Text → Service K
set_users s users hash =
    let limiter = (update_users s.limiter users).0 in
    record s {
      limiter = limiter;
      speed = update_buckets s.speed limiter.users;
      last_users = users;
      last_user_hash = hash;
    }

unfoldable pub prepare_user_state :
    {K : Type 0} → (Text → Text) → Service K → List UserSpec → Service K
prepare_user_state digest s users = set_users s users (compute_user_hash digest users)

unfoldable pub restore_user_state : {K : Type 0} → Service K → List UserSpec → Text → Service K
restore_user_state s users hash = set_users s users hash

module _ {K : Type 0} (k : Kernel K) (digest : Text → Text)
    (overrides : NodeSpec → Option Text) where
  unfoldable pub confirm_application : Service K → Service K
  unfolding report_application
  confirm_application s =
      if not (k.is_running s.kernel)
      then s
      else let t = record s { reconcile_needed = false } in
        if (s.desired_revision == 0) || (s.desired_revision == s.applied_revision)
        then t
        else report_application (record t { applied_revision = s.desired_revision })
            (codes "applied") (codes "kernel") none

  abbrev pub started :
      Service K → Option NodeSpec → List UserSpec → K × Option Text → Service K × Bool
  started s nc users (kernel, none) = (
    record s {
      kernel = kernel;
      last_kernel_error = none;
      applied_config = nc;
      applied_users = users;
    },
    true,
  )
  started s nc users (kernel, some e) =
      (record s { kernel = kernel; last_kernel_error = some e }, false)

  unfoldable pub start_kernel : Service K → Option NodeSpec → List UserSpec → Service K × Bool
  start_kernel s nc users = started s nc users (k.start s.kernel nc users)

  -- The start with new users, which are taken back if it fails.
  abbrev pub start_or_restore : Service K → Service K → List UserSpec → Service K
  start_or_restore before s users =
      let (t, ok) = start_kernel s s.last_config users in
      if ok then t else restore_user_state t before.last_users before.last_user_hash

  abbrev pub certificate_error : Service K → List UserSpec → Option Text
  certificate_error s [] = none
  certificate_error s (u ∷ users) = elim s.last_config [ none ↦ none | some c ↦ overrides c ]

  abbrev pub launched : Service K → List UserSpec → Service K
  launched s users =
      let t = prepare_user_state digest s users in
      if not (no_users users) && is_some s.last_config then start_or_restore s t users else t

  abbrev pub concluded : Service K → List UserSpec → Text → Service K
  concluded s users new_hash =
      if not (is_empty new_hash) && (not (no_users users) && k.is_running s.kernel)
      then confirm_application (record s { last_user_hash = new_hash })
      else s

  -- The case of a kernel that is not running.
  unfoldable pub update_stopped : Service K → List UserSpec → Text → Service K
  unfolding prepare_user_state restore_user_state start_kernel confirm_application
      report_application
  update_stopped s users new_hash = elim (certificate_error s users) [
    | some e ↦
        report_application (record s { last_kernel_error = some e; reconcile_needed = true })
          (codes "failed") (codes "certificate") (some e)
    | none ↦ concluded (launched s users) users new_hash
  ]

  abbrev pub updated : Service K → Service K → List UserSpec → Text → K × Option Text → Service K
  updated before s users new_hash (kernel, some e) =
      start_or_restore before (record s { kernel = kernel }) users
  updated before s users new_hash (kernel, none) = confirm_application (record s {
    kernel = kernel;
    last_user_hash = if not (is_empty new_hash) then new_hash else s.last_user_hash;
  })

  unfoldable pub apply_user_update : Service K → List UserSpec → Text → Service K
  unfolding update_stopped prepare_user_state restore_user_state start_kernel confirm_application
  apply_user_update s users new_hash =
      if not (k.is_running s.kernel)
      then update_stopped s users new_hash
      else let t = prepare_user_state digest s users in
        updated s t users new_hash (k.update_users t.kernel users)

  -- An old user whose UUID a delta replaces.
  abbrev pub replaced : UserSpec → List UserSpec → Option UserSpec
  replaced d [] = none
  replaced d (old ∷ olds) =
      if (old.id == d.id) && not (old.uuid == d.uuid) then some old else replaced d olds

  abbrev pub drop_old : K → Option UserSpec → K
  drop_old kernel none = kernel
  drop_old kernel (some old) = (k.remove_users kernel (old ∷ [])).0

  unfoldable pub remove_replaced : List UserSpec → List UserSpec → K → K
  remove_replaced olds [] kernel = kernel
  remove_replaced olds (d ∷ delta) kernel =
      remove_replaced olds delta (drop_old kernel (replaced d olds))

  -- The whole set of users is installed instead when the delta fails.
  abbrev pub reinstalled : Service K → Service K → K × Option Text → Service K
  reinstalled before s (kernel, none) = record s { kernel = kernel }
  reinstalled before s (kernel, some e) =
      restore_user_state (record s { kernel = kernel }) before.last_users before.last_user_hash

  abbrev pub fall_back : Service K → Service K → List UserSpec → K × Option Text → Service K
  fall_back before s users (kernel, none) = record s { kernel = kernel }
  fall_back before s users (kernel, some e) = reinstalled before s (k.update_users kernel users)

  unfoldable pub add_delta : Service K → List UserSpec → Service K
  unfolding apply_user_update prepare_user_state restore_user_state remove_replaced
  add_delta s delta =
      let merged = merge_users s.last_users delta in
      if not (k.is_running s.kernel)
      then apply_user_update s merged (compute_user_hash digest merged)
      else (let cleared = record s { kernel = remove_replaced s.last_users delta s.kernel } in
          let t = prepare_user_state digest cleared merged in
          fall_back s t merged (k.add_users t.kernel delta))

  unfoldable pub remove_delta : Service K → List UserSpec → Service K
  unfolding prepare_user_state restore_user_state
  remove_delta s delta =
      let filtered = subtract_users s.last_users delta in
      if not (k.is_running s.kernel)
      then s
      else (let t = prepare_user_state digest s filtered in
          fall_back s t filtered (k.remove_users t.kernel delta))

  unfoldable pub apply_user_delta : Service K → Text → List UserSpec → Service K
  unfolding add_delta remove_delta
  apply_user_delta s action [] = s
  apply_user_delta s action (d ∷ delta) =
      if action == codes "add"
      then add_delta s (d ∷ delta)
      else if action == codes "remove"
      then remove_delta s (d ∷ delta)
      else s
