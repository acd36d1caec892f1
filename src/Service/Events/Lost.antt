-- ===== src/Service/Events/Lost.antt =====
-- Events of the panel that the service may not take up.
use cpanelde.Prelude.{
  ◌≡◌, refl, sym, ap, ◌∙◌, true, false, List, [], map, Text, Option, none, some, ◌==◌, text_eq,
  ==_refl,
}
use cpanelde.Model.Types.{NodeSpec, UserSpec}
use cpanelde.ControlPlane.Mailbox.{Event, sync_users}
use cpanelde.Service.{Kernel, Service}
use cpanelde.Service.Users.{
  prepare_user_state, restore_user_state, start_kernel, start_or_restore, apply_user_update,
}
use cpanelde.Service.Hashes.{compute_user_hash, scoped, compute_user_hash-scoped}
use cpanelde.Service.Events.{handle_ws_event, handle_ws_typed}

abbrev pub users_of : List UserSpec → Event
users_of us = record {
  type = sync_users;
  config = none;
  users = some us;
  delta_action = [];
  delta_users = [];
  device_users = none;
}

module _ {K : Type 0} (k : Kernel K) (digest : Text → Text) (config_hash : NodeSpec → Text)
    (validate overrides : NodeSpec → Option Text) where
  -- An event that changes nothing but the route scopes of the users that are in effect is ignored.
  pub handle_ws_event-scoped :
      (s : Service K) (scope : UserSpec → Text)
      → s.last_user_hash ≡ compute_user_hash digest s.last_users
      → handle_ws_event k digest config_hash validate overrides s
          (users_of (map (scoped scope) s.last_users))
        ≡ s
  unfolding handle_ws_event handle_ws_typed
  handle_ws_event-scoped s scope current =
      let same : (compute_user_hash digest (map (scoped scope) s.last_users) == s.last_user_hash)
          ≡ true =
        ap (λ h. h == s.last_user_hash)
          (compute_user_hash-scoped digest scope s.last_users ∙ sym current)
        ∙ ==_refl s.last_user_hash in
      rw same refl

  restart_lost :
      (before s : Service K) (us : List UserSpec) (kernel : K) (e : Text)
      → k.start s.kernel s.last_config us ≡ (kernel, some e)
      → let t = start_or_restore k digest overrides before s us in
        (t.last_users ≡ before.last_users)
        × (t.last_user_hash ≡ before.last_user_hash)
        × (t.reconcile_needed ≡ s.reconcile_needed)
        × (t.pulls ≡ s.pulls)
        × (t.reports ≡ s.reports)
  unfolding start_kernel restore_user_state
  restart_lost before s us kernel e fails = rw (fails, start_kernel) (refl, refl, refl, refl, refl)

  -- When a running kernel cannot take the users of an event and cannot be started with them either,
  -- the service goes back to the users from before, but it asks for no poll and reports no failure:
  -- what the event said is lost until the panel sends something else.
  pub handle_ws_event_lost :
      (s : Service K) (us : List UserSpec) (kernel again : K) (e e' : Text)
      → k.is_running s.kernel ≡ true
      → (compute_user_hash digest us == s.last_user_hash) ≡ false
      → k.update_users s.kernel us ≡ (kernel, some e)
      → k.start kernel s.last_config us ≡ (again, some e')
      → let t = handle_ws_event k digest config_hash validate overrides s (users_of us) in
        (t.last_users ≡ s.last_users)
        × (t.last_user_hash ≡ s.last_user_hash)
        × (t.reconcile_needed ≡ s.reconcile_needed)
        × (t.pulls ≡ s.pulls)
        × (t.reports ≡ s.reports)
  unfolding handle_ws_event handle_ws_typed apply_user_update prepare_user_state
  handle_ws_event_lost s us kernel again e e' running new refused failed =
      rw (new, running, refused, apply_user_update)
        (restart_lost s (record (prepare_user_state digest s us) { kernel = kernel }) us again e'
          failed)
