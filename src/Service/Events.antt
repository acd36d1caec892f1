-- ===== src/Service/Events.antt =====
-- internal/service/service.go: the events of the panel, the drained mailbox, the status of the
-- connection. The calls of `pullViaAPIAsync` are counted in `pulls`; whether one of them makes a
-- request is the part of Backoff.
pub mod Sync
pub mod Lost
use cpanelde.Prelude.{
  ℕ, suc, Bool, true, false, not, ◌||◌, ◌&&◌, List, [], ◌∷◌, if◌then◌else◌, Text, Option, none,
  some, ◌==◌, nat_eq, text_eq, codes, Map, is_some,
}
use cpanelde.Model.Types.{NodeSpec, UserSpec}
use cpanelde.ControlPlane.Mailbox.{
  EventType, sync_config, sync_users, sync_user_delta, sync_devices, Event, MailboxState,
}
use cpanelde.Service.{Kernel, Service}
use cpanelde.Service.Users.{apply_user_update, apply_user_delta}
use cpanelde.Service.Hashes.{compute_user_hash}
use cpanelde.Service.Pull.{apply_pull_result}

module _ {K : Type 0} (k : Kernel K) (digest : Text → Text) (config_hash : NodeSpec → Text)
    (validate overrides : NodeSpec → Option Text) where
  unfoldable pub pull_via_api : Service K → Service K
  pull_via_api s = record s { pulls = suc s.pulls }

  -- One request is made until a result or a failed poll ends it.
  unfoldable pub request_resync : Service K → Service K
  unfolding pull_via_api
  request_resync s =
      if s.resync_pending
      then record s { reconcile_needed = true }
      else pull_via_api (record s { reconcile_needed = true; resync_pending = true })

  -- What a poll that fails leaves.
  unfoldable pub pull_failed : Service K → Service K
  pull_failed s = record s { reconcile_needed = true; resync_pending = false }

  abbrev pub config_event : Service K → Option NodeSpec → Service K
  config_event s none = s
  config_event s (some c) =
      if config_hash c == s.last_config_hash
      then s
      else apply_pull_result k digest config_hash validate overrides s (record {
        revision = 0;
        config = some c;
        users = none;
        config_hash = config_hash c;
        user_hash = [];
        cert_changed = false;
      })

  abbrev pub users_event : Service K → Option (List UserSpec) → Service K
  users_event s none = s
  users_event s (some us) =
      let hash = compute_user_hash digest us in
      if hash == s.last_user_hash then s else apply_user_update k digest overrides s us hash

  abbrev pub devices_event : Service K → Option (Map ℕ (List Text)) → Service K
  devices_event s none = s
  devices_event s (some ds) = record s { kernel = k.update_global_devices s.kernel ds }

  unfoldable pub handle_ws_typed : EventType → Service K → Event → Service K
  unfolding apply_pull_result apply_user_update apply_user_delta
  handle_ws_typed sync_config s e = config_event s e.config
  handle_ws_typed sync_users s e = users_event s e.users
  handle_ws_typed sync_user_delta s e =
      apply_user_delta k digest overrides s e.delta_action e.delta_users
  handle_ws_typed sync_devices s e = devices_event s e.device_users

  unfoldable pub handle_ws_event : Service K → Event → Service K
  unfolding handle_ws_typed
  handle_ws_event s e = handle_ws_typed e.type s e

  -- What a drained mailbox holds, in the order of the code.
  unfoldable pub apply_mailbox_state : Service K → MailboxState → Service K
  unfolding request_resync
  apply_mailbox_state s m =
      let a = if m.has_config then config_event s m.config else s in
      let b = if m.has_users then users_event a m.users else a in
      let c = if m.has_devices then devices_event b m.device_users else b in
      if m.needs_reconcile then request_resync c else c

  -- Status changes of the connection: true is connected. Losing it drops the devices of the other
  -- nodes.
  unfoldable pub handle_ws_status : Service K → Bool → Bool → Service K
  unfolding request_resync pull_via_api
  handle_ws_status s connected needs_resync =
      let t = if needs_resync then request_resync s else s in
      if connected
      then pull_via_api t
      else pull_via_api (record t { kernel = k.clear_global_devices t.kernel })
