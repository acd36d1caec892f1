-- ===== src/Service/Events/Sync.antt =====
-- The limiter's table of users through the handling of events.
use cpanelde.Prelude.{
  ℕ, Bool, List, arith, if◌then◌else◌, Text, Option, none, some, ◌==◌, nat_eq, text_eq, Map,
}
use cpanelde.Model.Types.{NodeSpec, UserSpec}
use cpanelde.ControlPlane.Mailbox.{
  Event, EventType, MailboxState, sync_config, sync_users, sync_user_delta, sync_devices,
}
use cpanelde.Service.{Kernel, Service}
use cpanelde.Service.Hashes.{compute_user_hash}
use cpanelde.Service.Users.Sync.{InSync, if-InSync, update-InSync, delta-InSync}
use cpanelde.Service.Pull.Sync.{pull-InSync}
use cpanelde.Service.Events.{
  config_event, users_event, devices_event, handle_ws_event, handle_ws_typed, request_resync,
  pull_via_api, apply_mailbox_state, handle_ws_status,
}

module _ {K : Type 0} (k : Kernel K) (digest : Text → Text) (config_hash : NodeSpec → Text)
    (validate overrides : NodeSpec → Option Text) where
  config-InSync :
      (s : Service K) (c : Option NodeSpec)
      → InSync s
      → InSync (config_event k digest config_hash validate overrides s c)
  config-InSync s none i = i
  config-InSync s (some c) i =
      if-InSync (config_hash c == s.last_config_hash) _ _ i
        (pull-InSync k digest config_hash validate overrides s _ i)

  listed-InSync :
      (s : Service K) (us : Option (List UserSpec))
      → InSync s
      → InSync (users_event k digest config_hash validate overrides s us)
  listed-InSync s none i = i
  listed-InSync s (some us) i =
      let hash = compute_user_hash digest us in
      if-InSync (hash == s.last_user_hash) _ _ i (update-InSync k digest overrides s us hash i)

  devices-InSync :
      (s : Service K) (ds : Option (Map ℕ (List Text)))
      → InSync s
      → InSync (devices_event k digest config_hash validate overrides s ds)
  devices-InSync s none i = i
  devices-InSync s (some ds) i = i

  typed-InSync :
      (t : EventType) (s : Service K) (e : Event)
      → InSync s
      → InSync (handle_ws_typed k digest config_hash validate overrides t s e)
  unfolding handle_ws_typed
  typed-InSync sync_config s e i = config-InSync s e.config i
  typed-InSync sync_users s e i = listed-InSync s e.users i
  typed-InSync sync_user_delta s e i =
      delta-InSync k digest overrides s e.delta_action e.delta_users i
  typed-InSync sync_devices s e i = devices-InSync s e.device_users i

  pub event-InSync :
      (s : Service K) (e : Event)
      → InSync s
      → InSync (handle_ws_event k digest config_hash validate overrides s e)
  unfolding handle_ws_event
  event-InSync s e i = typed-InSync e.type s e i

  request-InSync :
      (s : Service K) → InSync s → InSync (request_resync k digest config_hash validate overrides s)
  unfolding request_resync pull_via_api
  request-InSync s i = ground (arith, i)

  pub mailbox-InSync :
      (s : Service K) (m : MailboxState)
      → InSync s
      → InSync (apply_mailbox_state k digest config_hash validate overrides s m)
  unfolding apply_mailbox_state
  mailbox-InSync s m i =
      let a =
        if m.has_config
        then config_event k digest config_hash validate overrides s m.config
        else s in
      let b =
        if m.has_users then users_event k digest config_hash validate overrides a m.users else a in
      let c =
        if m.has_devices
        then devices_event k digest config_hash validate overrides b m.device_users
        else b in
      let j : InSync a = if-InSync m.has_config _ _ (config-InSync s m.config i) i in
      let l : InSync b = if-InSync m.has_users _ a (listed-InSync a m.users j) j in
      let d : InSync c = if-InSync m.has_devices _ b (devices-InSync b m.device_users l) l in
      if-InSync m.needs_reconcile _ c (request-InSync c d) d

  pub status-InSync :
      (s : Service K) (connected needs_resync : Bool)
      → InSync s
      → InSync (handle_ws_status k digest config_hash validate overrides s connected needs_resync)
  unfolding handle_ws_status pull_via_api
  status-InSync s connected needs_resync i =
      let j = if-InSync needs_resync _ _ (request-InSync s i) i in if-InSync connected _ _ j j
