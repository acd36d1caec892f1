-- ===== src/Service.antt =====
-- internal/service/service.go: the node service, which applies what the panel sends to the kernel.
-- The kernel is the interface of internal/kernel/kernel.go, a parameter; an error is its text. The
-- checks of a configuration (`validateNodeRuntime`, which Runtime models) and the certificate and
-- log settings that it brings (`applyRemoteOverrides`) are arguments of the operations that answer
-- an error or none; the settings themselves are left out. The control plane is one that polls and reports applications. A
-- revision that is not positive is the number 0.
pub mod Backoff
pub mod Reports
pub mod Hashes
pub mod Runtime
pub mod Kernels
pub mod Users
pub mod Pull
pub mod Events
pub mod Setup
use cpanelde.Prelude.{
  ℕ, Bool, true, false, not, ◌||◌, ◌&&◌, List, [], ◌∷◌, filter, map, if◌then◌else◌, Text, Option,
  none, some, ◌==◌, nat_eq, text_eq, codes, Map, has_key, is_empty, is_some,
}
use cpanelde.Model.Types.{NodeSpec, UserSpec}
use cpanelde.Limiter.Users.{Limiter, update_users, users_by_id}
use cpanelde.Limiter.Speed.{SpeedTracker, update_buckets}
use cpanelde.ControlPlane.Platform.{ApplicationResult}

-- An operation that may fail answers the kernel that it leaves and its error.
pub record Kernel (K : Type 0) : Type 0 where
  pub is_running : K → Bool
  pub start : K → Option NodeSpec → List UserSpec → K × Option Text
  pub reload : K → Option NodeSpec → List UserSpec → K × Option Text
  pub stop : K → K
  pub add_users : K → List UserSpec → K × Option Text
  pub remove_users : K → List UserSpec → K × Option Text
  pub update_users : K → List UserSpec → K × Option Text
  pub update_global_devices : K → Map ℕ (List Text) → K
  pub clear_global_devices : K → K

pub record Service (K : Type 0) : Type 0 where
  pub kernel : K
  pub limiter : Limiter
  pub speed : SpeedTracker
  pub last_config : Option NodeSpec
  pub last_config_hash : Text
  pub last_users : List UserSpec
  pub last_user_hash : Text
  pub last_kernel_error : Option Text
  pub applied_config : Option NodeSpec
  pub applied_users : List UserSpec
  pub desired_revision : ℕ
  pub applied_revision : ℕ
  pub reconcile_needed : Bool
  pub resync_pending : Bool
  pub pulls : ℕ
  pub reports : List ApplicationResult

abbrev pub message : Option Text → Text
message none = []
message (some e) = e

abbrev pub no_users : List UserSpec → Bool
no_users [] = true
no_users (u ∷ us) = false

-- The reports are kept, the last one first.
unfoldable pub report_application : {K : Type 0} → Service K → Text → Text → Option Text → Service K
report_application s status stage error = if s.desired_revision == 0 then s else record s {
  reports =
      record {
        revision = s.desired_revision;
        status = status;
        stage = stage;
        error = message error;
      }
      ∷ s.reports;
}

abbrev pub values : Map ℕ UserSpec → List UserSpec
values = map (λ e. e.1)

-- A Go map has no order; here the users of `base` come first, in their order.
unfoldable pub merge_users : List UserSpec → List UserSpec → List UserSpec
merge_users base delta = values (users_by_id delta (users_by_id base []))

unfoldable pub subtract_users : List UserSpec → List UserSpec → List UserSpec
subtract_users base delta = filter (λ u. not (has_key u.id (users_by_id delta []))) base
