-- ===== src/Service/Pull.antt =====
-- internal/service/service.go: what the service does with a new configuration, from a poll of the
-- panel or from an event. What the answer of a poll becomes is `pull_result`. `validate` and
-- `overrides` answer an error or none.
pub mod Keeps
pub mod Taken
pub mod Effect
pub mod Rollback
pub mod Sync
use cpanelde.Prelude.{
  ℕ, suc, Bool, true, false, not, ◌||◌, ◌&&◌, List, [], ◌∷◌, if◌then◌else◌, Text, Option, none,
  some, ◌==◌, nat_eq, text_eq, codes, Map, is_some,
}
use cpanelde.Model.Types.{NodeSpec, UserSpec}
use cpanelde.Service.{Kernel, Service, report_application, no_users}
use cpanelde.Service.Users.{
  prepare_user_state, restore_user_state, confirm_application, start_kernel, apply_user_update,
  apply_user_delta,
}
use cpanelde.Service.Hashes.{compute_user_hash}

-- Fields that may be nil are options.
pub record PullResult : Type 0 where
  pub revision : ℕ
  pub config : Option NodeSpec
  pub users : Option (List UserSpec)
  pub config_hash : Text
  pub user_hash : Text
  pub cert_changed : Bool

pub record Snapshot : Type 0 where
  pub revision : ℕ
  pub config : Option NodeSpec
  pub users : Option (List UserSpec)

module _ (digest : Text → Text) (config_hash : NodeSpec → Text) where
  abbrev pub hash_or_empty : Option NodeSpec → Text
  hash_or_empty none = []
  hash_or_empty (some c) = config_hash c

  abbrev pub user_hash_or_empty : Option (List UserSpec) → Text
  user_hash_or_empty none = []
  user_hash_or_empty (some us) = compute_user_hash digest us

  -- The part of `pullViaAPIAsync` that runs when the poll succeeds: a configuration that is current
  -- is left out.
  unfoldable pub pull_result : Text → Bool → Snapshot → PullResult
  pull_result current_hash cert_changed snapshot =
      let hash = hash_or_empty snapshot.config in
      record {
        revision = snapshot.revision;
        config = if (hash == current_hash) && not cert_changed then none else snapshot.config;
        users = snapshot.users;
        config_hash = hash;
        user_hash = user_hash_or_empty snapshot.users;
        cert_changed = cert_changed;
      }

module _ {K : Type 0} (k : Kernel K) (digest : Text → Text) (config_hash : NodeSpec → Text)
    (validate overrides : NodeSpec → Option Text) where
  abbrev pub check : (NodeSpec → Option Text) → Option NodeSpec → Option Text
  check f none = none
  check f (some c) = f c

  abbrev pub reloaded : Service K → K × Option Text → Service K × Bool
  reloaded s (kernel, none) = (
    record s {
      kernel = kernel;
      last_kernel_error = none;
      applied_config = s.last_config;
      applied_users = s.last_users;
    },
    true,
  )
  reloaded s (kernel, some e) = (record s { kernel = kernel; last_kernel_error = some e }, false)

  -- A change of the configuration: without users the kernel stops.
  unfoldable pub apply_changes : Service K → Service K × Bool
  unfolding start_kernel
  apply_changes s =
      if no_users s.last_users
      then (record s { kernel = k.stop s.kernel; applied_users = [] }, true)
      else if not (is_some s.last_config)
      then (s, true)
      else if k.is_running s.kernel
      then reloaded s (k.reload s.kernel s.last_config s.last_users)
      else start_kernel k digest overrides s s.last_config s.last_users

  abbrev pub desired : ℕ → ℕ → ℕ
  desired revision previous = if revision == 0 then previous else revision

  abbrev pub with_config : Service K → PullResult → Option NodeSpec → Service K
  with_config s r none = s
  with_config s r (some c) = record s { last_config = some c; last_config_hash = r.config_hash }

  -- The users of the result, where they are new: with a new configuration they wait for it.
  abbrev pub with_users : Service K → PullResult → Bool → Option (List UserSpec) → Service K
  with_users s r changed none = s
  with_users s r changed (some us) =
      if r.user_hash == s.last_user_hash
      then s
      else if changed
      then prepare_user_state digest s us
      else apply_user_update k digest overrides s us r.user_hash

  -- Whether the users of the result are those that are now in effect.
  abbrev pub users_in_effect : Service K → PullResult → Bool
  users_in_effect s r = not (is_some r.users) || (r.user_hash == s.last_user_hash)

  abbrev pub failure : Option Text → Text
  failure none = codes "user authorization update failed"
  failure (some e) = e

  abbrev pub restarted : K → Option NodeSpec → List UserSpec → K × Option Text → K
  restarted kernel c us (kernel', none) = kernel'
  restarted kernel c us (kernel', some e) = (k.start kernel' c us).0

  abbrev pub restored_kernel : K → Option NodeSpec → List UserSpec → K
  restored_kernel kernel c us =
      if is_some c && not (no_users us)
      then restarted kernel c us (k.reload kernel c us)
      else kernel

  -- The last good state comes back: `before` is the service before the result.
  unfoldable pub roll_back : Service K → Service K → Service K
  unfolding report_application restore_user_state
  roll_back before s =
      let t =
        report_application (record s { reconcile_needed = true }) (codes "failed") (codes "kernel")
          (some (failure s.last_kernel_error)) in
      let u =
        restore_user_state
          (record t {
            last_config = before.last_config;
            last_config_hash = before.last_config_hash;
          })
          before.last_users before.last_user_hash in
      record u {
        desired_revision = before.desired_revision;
        kernel = restored_kernel u.kernel before.last_config before.last_users;
      }

  -- A result that is refused before anything of it is in effect.
  abbrev pub refuse : Service K → Service K → Text → Text → Service K
  refuse before s stage e =
      record (report_application (record s { reconcile_needed = true }) (codes "failed") stage
        (some e)) { desired_revision = before.desired_revision }

  abbrev pub settle : Service K → PullResult → Service K × Bool → Service K
  settle before r (s, succeeded) =
      if not succeeded || not (users_in_effect s r)
      then roll_back before s
      else confirm_application k digest overrides s

  abbrev pub has_new_config : PullResult → Bool
  has_new_config r = r.cert_changed || is_some r.config

  -- The result with its configuration and its users.
  abbrev pub apply_parts : Service K → PullResult → Service K × Bool
  apply_parts s r =
      let t = with_users (with_config s r r.config) r (has_new_config r) r.users in
      if has_new_config r then apply_changes t else (t, true)

  unfoldable pub apply_pull_result : Service K → PullResult → Service K
  unfolding report_application roll_back prepare_user_state apply_user_update apply_changes
      confirm_application
  apply_pull_result before r =
      let s = record before {
        resync_pending = false;
        desired_revision = desired r.revision before.desired_revision;
      } in
      elim (check validate r.config) [
        | some e ↦ refuse before s (codes "validate") e
        | none ↦ elim (check overrides r.config) [
          | some e ↦ refuse before s (codes "certificate") e
          | none ↦ settle before r (apply_parts s r)
        ]
      ]
