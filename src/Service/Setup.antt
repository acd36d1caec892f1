-- ===== src/Service/Setup.antt =====
-- internal/service/service.go: `initialSetup`, which starts the node service from the first snapshot
-- of the panel, with the mailbox that a machine gives it. What the control plane fetches is an
-- argument, and so are the checks, as in Pull. A revision that is not positive is the number 0.
pub mod Life
pub mod Outcome
use cpanelde.Prelude.{
  ℕ, zero, suc, Bool, true, false, not, ◌||◌, ◌&&◌, List, [], ◌∷◌, ◌++◌, if◌then◌else◌, Text,
  Option, none, some, ◌==◌, nat_eq, text_eq, codes, is_some,
}
use cpanelde.Prelude.Int.{ℤ, pos, negsuc}
use cpanelde.Model.Types.{NodeSpec, UserSpec}
use cpanelde.ControlPlane.Mailbox.{NodeMailbox, mark_ready, seed_baseline, drain_if_ready}
use cpanelde.Limiter.Users.{new_limiter}
use cpanelde.Limiter.Speed.{new_speed_tracker}
use cpanelde.Service.{Kernel, Service, report_application, no_users, message}
use cpanelde.Service.Users.{prepare_user_state, confirm_application, start_kernel}
use cpanelde.Service.Events.{apply_mailbox_state}

-- `push` is whether there is a client for events.
pub record Bootstrap : Type 0 where
  pub revision : ℕ
  pub push_interval : ℤ
  pub pull_interval : ℤ
  pub push : Bool
  pub config : Option NodeSpec
  pub users : List UserSpec
  pub mailbox : Option NodeMailbox

-- What the setup leaves: the service, its mailbox and an error or none.
pub record Setup (K : Type 0) : Type 0 where
  pub service : Service K
  pub mailbox : Option NodeMailbox
  pub error : Option Text

unfoldable pub new_service : {K : Type 0} → K → Service K
new_service kernel = record {
  kernel = kernel;
  limiter = new_limiter;
  speed = new_speed_tracker;
  last_config = none;
  last_config_hash = [];
  last_users = [];
  last_user_hash = [];
  last_kernel_error = none;
  applied_config = none;
  applied_users = [];
  desired_revision = 0;
  applied_revision = 0;
  reconcile_needed = false;
  resync_pending = false;
  pulls = 0;
  reports = [];
}

abbrev pub chosen : ℤ → ℤ → ℤ
chosen (pos zero) (pos n) = pos n
chosen (pos zero) (negsuc n) = pos 0
chosen (pos (suc n)) given = pos (suc n)
chosen (negsuc n) given = negsuc n

abbrev pub defaulted : ℤ → ℤ
defaulted (pos zero) = pos 60
defaulted (pos (suc n)) = pos (suc n)
defaulted (negsuc n) = negsuc n

-- The interval of a ticker in seconds, from the file's and from what the panel gives.
unfoldable pub interval : ℤ → ℤ → ℤ
interval configured given = defaulted (chosen configured given)

module _ {K : Type 0} (k : Kernel K) (digest : Text → Text) (config_hash : NodeSpec → Text)
    (validate overrides : NodeSpec → Option Text) where
  unfoldable pub drain_machine_mailbox :
      Service K → Option NodeMailbox → Service K × Option NodeMailbox
  unfolding apply_mailbox_state
  drain_machine_mailbox s none = (s, none)
  drain_machine_mailbox s (some m) =
      let (m', state) = drain_if_ready m in
      (apply_mailbox_state k digest config_hash validate overrides s state, some m')

  unfoldable pub mark_mailbox_ready_and_drain :
      Service K → Option NodeMailbox → Service K × Option NodeMailbox
  unfolding drain_machine_mailbox
  mark_mailbox_ready_and_drain s none = (s, none)
  mark_mailbox_ready_and_drain s (some m) =
      drain_machine_mailbox s
        (some (mark_ready (seed_baseline m (some s.last_users) s.last_config)))

  abbrev pub set_up : Service K → Option NodeMailbox → Setup K
  set_up s mailbox =
      let (t, m) = mark_mailbox_ready_and_drain s mailbox in
      record { service = t; mailbox = m; error = none }

  abbrev pub setup_failed : Service K → Option NodeMailbox → Text → Text → Text → Setup K
  setup_failed s mailbox stage e shown = record {
    service = report_application s (codes "failed") stage (some e);
    mailbox = mailbox;
    error = some shown;
  }

  -- The snapshot becomes the current one.
  abbrev pub with_snapshot : Service K → NodeSpec → List UserSpec → Service K
  with_snapshot s c users =
      prepare_user_state digest
        (record s { last_config = some c; last_config_hash = config_hash c }) users

  abbrev pub kernel_started : Service K × Bool → Option NodeMailbox → Setup K
  kernel_started (s, true) mailbox = set_up (confirm_application k digest overrides s) mailbox
  kernel_started (s, false) mailbox =
      setup_failed s mailbox (codes "kernel") (message s.last_kernel_error)
        (codes "start kernel: " ++ message s.last_kernel_error)

  -- The start, unless the certificate failed.
  abbrev pub certified :
      Service K → NodeSpec → List UserSpec → Option NodeMailbox → Option Text → Setup K
  certified s c users mailbox (some e) = setup_failed s mailbox (codes "certificate") e e
  certified s c users mailbox none =
      kernel_started (start_kernel k digest overrides s (some c) users) mailbox

  -- Without users the kernel is not started.
  abbrev pub populated : Service K → NodeSpec → List UserSpec → Option NodeMailbox → Setup K
  populated s c [] mailbox = set_up (record s { reconcile_needed = true }) mailbox
  populated s c (u ∷ us) mailbox = certified s c (u ∷ us) mailbox (overrides c)

  abbrev pub validated :
      Service K → NodeSpec → List UserSpec → Option NodeMailbox → Option Text → Setup K
  validated s c users mailbox (some e) = setup_failed s mailbox (codes "validate") e e
  validated s c users mailbox none = populated (with_snapshot s c users) c users mailbox

  abbrev pub from_config : Service K → Bootstrap → Option NodeSpec → Setup K
  from_config s b none = record {
    service = s;
    mailbox = b.mailbox;
    error = if b.push then none else some (codes "initial config is nil");
  }
  from_config s b (some c) =
      validated (record s { desired_revision = b.revision }) c b.users b.mailbox (validate c)

  unfoldable pub initial_setup : Service K → Bootstrap → Setup K
  unfolding mark_mailbox_ready_and_drain prepare_user_state confirm_application start_kernel
      report_application
  initial_setup s b = from_config s b b.config
