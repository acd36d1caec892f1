-- ===== src/Service/Setup/Life.antt =====
-- The life of a node service: its setup, then what the loop of `Run` handles, in any order.
use cpanelde.Prelude.{refl, Bool, true, false, List, [], ◌∷◌, Text, Option, none, some, codes}
use cpanelde.Model.Types.{NodeSpec, UserSpec}
use cpanelde.ControlPlane.Mailbox.{NodeMailbox, Event, mark_ready, seed_baseline, drain_if_ready}
use cpanelde.Limiter.Users.{users_by_id, new_limiter}
use cpanelde.Service.{Kernel, Service, message}
use cpanelde.Service.Users.{confirm_application, start_kernel}
use cpanelde.Service.Pull.{PullResult, apply_pull_result}
use cpanelde.Service.Events.{handle_ws_event, handle_ws_status, pull_failed}
use cpanelde.Service.Users.Sync.{
  InSync, prepare-InSync, report-InSync, confirm-InSync, started-InSync,
}
use cpanelde.Service.Pull.Sync.{pull-InSync}
use cpanelde.Service.Events.Sync.{event-InSync, mailbox-InSync, status-InSync}
use cpanelde.Service.Setup.{
  Bootstrap, new_service, initial_setup, from_config, validated, populated, certified,
  kernel_started, set_up, with_snapshot, mark_mailbox_ready_and_drain, drain_machine_mailbox,
}

module _ {K : Type 0} (k : Kernel K) (digest : Text → Text) (config_hash : NodeSpec → Text)
    (validate overrides : NodeSpec → Option Text) where
  -- The states that a service reaches. The kernel may change by itself at any time.
  pub data Life : Service K → Type 0 where
    created : (kernel : K) → Life (new_service kernel)
    sets_up :
        {s : Service K} (b : Bootstrap)
        → Life s
        → Life (initial_setup k digest config_hash validate overrides s b).service
    handles :
        {s : Service K} (e : Event)
        → Life s
        → Life (handle_ws_event k digest config_hash validate overrides s e)
    polls :
        {s : Service K} (r : PullResult)
        → Life s
        → Life (apply_pull_result k digest config_hash validate overrides s r)
    fails_poll :
        {s : Service K} → Life s → Life (pull_failed k digest config_hash validate overrides s)
    drains :
        {s : Service K} (m : NodeMailbox)
        → Life s
        → Life (drain_machine_mailbox k digest config_hash validate overrides s (some m)).0
    switches :
        {s : Service K} (connected needs_resync : Bool)
        → Life s
        → Life (handle_ws_status k digest config_hash validate overrides s connected needs_resync)
    runs : {s : Service K} (kernel : K) → Life s → Life (record s { kernel = kernel })

  drained-InSync :
      (s : Service K) (m : Option NodeMailbox)
      → InSync s
      → InSync (drain_machine_mailbox k digest config_hash validate overrides s m).0
  unfolding drain_machine_mailbox
  drained-InSync s none i = i
  drained-InSync s (some m) i =
      mailbox-InSync k digest config_hash validate overrides s (drain_if_ready m).1 i

  set_up-InSync :
      (s : Service K) (m : Option NodeMailbox)
      → InSync s
      → InSync (set_up k digest config_hash validate overrides s m).service
  unfolding mark_mailbox_ready_and_drain
  set_up-InSync s none i = i
  set_up-InSync s (some m) i =
      drained-InSync s (some (mark_ready (seed_baseline m (some s.last_users) s.last_config))) i

  kernel_started-InSync :
      (o : Service K × Bool) (m : Option NodeMailbox)
      → InSync o.0
      → InSync (kernel_started k digest config_hash validate overrides o m).service
  kernel_started-InSync (s, true) m i =
      set_up-InSync (confirm_application k digest overrides s) m
        (confirm-InSync k digest overrides s i)
  kernel_started-InSync (s, false) m i =
      report-InSync s (codes "failed") (codes "kernel") (some (message s.last_kernel_error)) i

  certified-InSync :
      (s : Service K) (c : NodeSpec) (us : List UserSpec) (m : Option NodeMailbox) (e : Option Text)
      → InSync s
      → InSync (certified k digest config_hash validate overrides s c us m e).service
  unfolding start_kernel
  certified-InSync s c us m (some e) i =
      report-InSync s (codes "failed") (codes "certificate") (some e) i
  certified-InSync s c us m none i =
      kernel_started-InSync (start_kernel k digest overrides s (some c) us) m
        (started-InSync k digest overrides s (some c) us (k.start s.kernel (some c) us) i)

  populated-InSync :
      (s : Service K) (c : NodeSpec) (us : List UserSpec) (m : Option NodeMailbox)
      → InSync s
      → InSync (populated k digest config_hash validate overrides s c us m).service
  populated-InSync s c [] m i = set_up-InSync (record s { reconcile_needed = true }) m i
  populated-InSync s c (u ∷ us) m i = certified-InSync s c (u ∷ us) m (overrides c) i

  validated-InSync :
      (s : Service K) (c : NodeSpec) (us : List UserSpec) (m : Option NodeMailbox) (e : Option Text)
      → InSync s
      → InSync (validated k digest config_hash validate overrides s c us m e).service
  validated-InSync s c us m (some e) i =
      report-InSync s (codes "failed") (codes "validate") (some e) i
  validated-InSync s c us m none i =
      populated-InSync (with_snapshot k digest config_hash validate overrides s c us) c us m (
        prepare-InSync digest (record s { last_config = some c; last_config_hash = config_hash c })
          us)

  from_config-InSync :
      (s : Service K) (b : Bootstrap) (c : Option NodeSpec)
      → InSync s
      → InSync (from_config k digest config_hash validate overrides s b c).service
  from_config-InSync s b none i = i
  from_config-InSync s b (some c) i =
      validated-InSync (record s { desired_revision = b.revision }) c b.users b.mailbox (validate c)
        i

  -- Whatever the service is set up with and whatever it handles then, in any order and whichever
  -- call of the kernel fails, the limiter's table of users has exactly the users that the
  -- service holds.
  pub Life-InSync : {s : Service K} → Life s → InSync s
  unfolding new_service new_limiter users_by_id initial_setup pull_failed
  Life-InSync (created kernel) = refl
  Life-InSync (sets_up {s} b l) = from_config-InSync s b b.config (Life-InSync l)
  Life-InSync (handles {s} e l) =
      event-InSync k digest config_hash validate overrides s e (Life-InSync l)
  Life-InSync (polls {s} r l) =
      pull-InSync k digest config_hash validate overrides s r (Life-InSync l)
  Life-InSync (fails_poll {s} l) = Life-InSync l
  Life-InSync (drains {s} m l) = drained-InSync s (some m) (Life-InSync l)
  Life-InSync (switches {s} connected needs_resync l) =
      status-InSync k digest config_hash validate overrides s connected needs_resync (Life-InSync l)
  Life-InSync (runs {s} kernel l) = Life-InSync l
