-- ===== src/ControlPlane/Mailbox.antt =====
-- internal/controlplane/mailbox.go: `NodeMailbox`, which coalesces events until the node service
-- drains them. A slice or map that may be nil is an `Option`; the copies that the code makes of
-- what it stores and hands out are the values themselves. `notified` is whether the channel of
-- capacity one holds its token.
pub mod Coalesce
pub mod Users
use cpanelde.Prelude.{
  ℕ, Bool, true, false, not, ◌&&◌, ◌||◌, List, [], ◌∷◌, if◌then◌else◌, Text, Option, none, some,
  Map, is_some,
}
use cpanelde.Model.Types.{NodeSpec, UserSpec}
use cpanelde.ControlPlane.Delta.{apply_user_delta}

pub data EventType : Type 0 where
  sync_config sync_users sync_user_delta sync_devices : EventType

pub record Event : Type 0 where
  pub type : EventType
  pub config : Option NodeSpec
  pub users : Option (List UserSpec)
  pub delta_action : Text
  pub delta_users : List UserSpec
  pub device_users : Option (Map ℕ (List Text))

pub record MailboxState : Type 0 where
  pub config : Option NodeSpec
  pub users : Option (List UserSpec)
  pub device_users : Option (Map ℕ (List Text))
  pub has_config : Bool
  pub has_users : Bool
  pub has_devices : Bool
  pub needs_reconcile : Bool

pub record NodeMailbox : Type 0 where
  pub ready : Bool
  pub config : Option NodeSpec
  pub users : Option (List UserSpec)
  pub device_users : Option (Map ℕ (List Text))
  pub dirty_config : Bool
  pub dirty_users : Bool
  pub dirty_devices : Bool
  pub needs_reconcile : Bool
  pub has_full_user_state : Bool
  pub notified : Bool

unfoldable pub new_mailbox : NodeMailbox
new_mailbox = record {
  ready = false;
  config = none;
  users = none;
  device_users = none;
  dirty_config = false;
  dirty_users = false;
  dirty_devices = false;
  needs_reconcile = false;
  has_full_user_state = false;
  notified = false;
}

-- The send into the channel, which is skipped when the channel is full.
abbrev pub notify : NodeMailbox → NodeMailbox
notify m = record m { notified = true }

unfoldable pub mark_ready : NodeMailbox → NodeMailbox
mark_ready m = notify (record m { ready = true })

unfoldable pub seed_baseline : NodeMailbox → Option (List UserSpec) → Option NodeSpec → NodeMailbox
seed_baseline m users config =
    let m' =
      if is_some users && not m.has_full_user_state
      then record m { users = users; has_full_user_state = true }
      else m in
    if is_some config && not (is_some m'.config) then record m' { config = config } else m'

-- The case of a user delta: a delta that cannot be applied asks for a reconciliation.
unfoldable pub apply_delta : NodeMailbox → Text → List UserSpec → NodeMailbox
apply_delta m action [] = m
apply_delta m action (u ∷ delta) =
    if not m.has_full_user_state
    then notify (record m { needs_reconcile = true })
    else elim (apply_user_delta m.users action (u ∷ delta)) [
      | none ↦ notify (record m { needs_reconcile = true })
      | some users ↦ notify (record m { users = users; dirty_users = true })
    ]

unfoldable pub apply_typed : EventType → Event → NodeMailbox → NodeMailbox
unfolding apply_delta
apply_typed sync_config e m = elim e.config [
  | none ↦ m
  | some c ↦ notify (record m { config = some c; dirty_config = true })
]
apply_typed sync_users e m = elim e.users [
  | none ↦ m
  | some us ↦ notify (record m { users = some us; dirty_users = true; has_full_user_state = true })
]
apply_typed sync_devices e m = elim e.device_users [
  | none ↦ m
  | some ds ↦ notify (record m { device_users = some ds; dirty_devices = true })
]
apply_typed sync_user_delta e m = apply_delta m e.delta_action e.delta_users

unfoldable pub apply : NodeMailbox → Event → NodeMailbox
unfolding apply_typed
apply m e = apply_typed e.type e m

abbrev pub empty_state : MailboxState
empty_state = record {
  config = none;
  users = none;
  device_users = none;
  has_config = false;
  has_users = false;
  has_devices = false;
  needs_reconcile = false;
}

unfoldable pub drain_if_ready : NodeMailbox → NodeMailbox × MailboxState
drain_if_ready m =
    if not m.ready
    then (m, empty_state)
    else let with_config = m.dirty_config && is_some m.config in
      let with_devices = m.dirty_devices && is_some m.device_users in
      (
        record m {
          dirty_config = if with_config then false else m.dirty_config;
          dirty_users = false;
          dirty_devices = if with_devices then false else m.dirty_devices;
          needs_reconcile = false;
        },
        record {
          config = if with_config then m.config else none;
          users = if m.dirty_users then m.users else none;
          device_users = if with_devices then m.device_users else none;
          has_config = with_config;
          has_users = m.dirty_users;
          has_devices = with_devices;
          needs_reconcile = m.needs_reconcile;
        },
      )
