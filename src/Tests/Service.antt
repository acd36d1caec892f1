-- ===== src/Tests/Service.antt =====
-- The node service over a kernel of which only is known whether it runs.
use cpanelde.Prelude.{
  ◌≡◌, ◌⊎◌, refl, arith, Bool, true, false, [], ◌∷◌, Text, codes, Option, some, none, nat_eq,
  text_eq, lookup, map, ◌↔◌, to_lower, trim_space, ◌==◌,
}
use cpanelde.Prelude.Int.{pos}
use cpanelde.Model.Types.{UserSpec, NodeSpec, CertConfig}
use cpanelde.Limiter.Speed.{new_speed_tracker}
use cpanelde.Tracker.{Bytes, zero_bytes, ◌+B◌, get, new_tracker, process}
use cpanelde.Service.{Kernel, Service}
use cpanelde.Service.Runtime.Needs.{Runnable}
use cpanelde.Service.Runtime.Runnable.{validate_node_runtime-Runnable}
use cpanelde.Service.Runtime.{
  has_usable_tls_config, validate_tls_requirements, validate_runtime_cert_config,
  brings_certificate, needs_cert, needs_certificate, validate_node_runtime,
}
use cpanelde.Service.Backoff.{
  Poller, new_poller, tick, answer, finish_request, unused, called, replied, ended, tick_twice,
}
use cpanelde.Service.Reports.{
  Reporter, new_reporter, push_report, count, Ledger, begun, tracked, arrived,
}
use cpanelde.Service.Reports.Exact.{outstanding, Life-exact}
use cpanelde.Service.Hashes.{compute_user_hash, scoped, sort_by_id, insert_by_id}
use cpanelde.Service.Pull.{PullResult, apply_pull_result}
use cpanelde.Service.Events.{handle_ws_event}
use cpanelde.Service.Pull.Rollback.{Untouched, InEffect, apply_pull_result_all_or_nothing}
use cpanelde.Service.Events.Lost.{users_of, handle_ws_event-scoped, handle_ws_event_lost}
use cpanelde.Service.Users.Sync.{InSync}
use cpanelde.Service.Setup.{Bootstrap, new_service, initial_setup}
use cpanelde.Service.Setup.Outcome.{Outcome, initial_setup-Outcome}
use cpanelde.Service.Setup.Life.{Life, created, sets_up, handles, polls, Life-InSync}

-- A kernel that takes no users and never starts: its state is whether it runs.
abbrev refusing : Kernel Bool
refusing = record {
  is_running = λ k. k;
  start = λ k c us. (false, some (codes "refused"));
  reload = λ k c us. (k, none);
  stop = λ k. false;
  add_users = λ k us. (k, none);
  remove_users = λ k us. (k, none);
  update_users = λ k us. (k, some (codes "refused"));
  update_global_devices = λ k ds. k;
  clear_global_devices = λ k. k;
}

abbrev same_text : Text → Text
same_text t = t

abbrev no_error : NodeSpec → Option Text
no_error c = none

abbrev config_name : NodeSpec → Text
config_name c = c.protocol

abbrev alice : UserSpec
alice = record {
  id = 1;
  uuid = codes "a";
  speed_limit = pos 0;
  device_limit = pos 2;
  route_scope = [];
}

abbrev service : Service Bool
service = record {
  kernel = true;
  limiter = record { users = []; uuid_device_limit = []; device_limit_events = 0 };
  speed = new_speed_tracker;
  last_config = none;
  last_config_hash = [];
  last_users = [];
  last_user_hash = [];
  last_kernel_error = none;
  applied_config = none;
  applied_users = [];
  desired_revision = 3;
  applied_revision = 3;
  reconcile_needed = false;
  resync_pending = false;
  pulls = 0;
  reports = [];
}

abbrev new_users : PullResult
new_users = record {
  revision = 4;
  config = none;
  users = some (alice ∷ []);
  config_hash = [];
  user_hash = codes "h";
  cert_changed = false;
}

apply_pull_result_all_or_nothing_example :
    Untouched service
      (apply_pull_result refusing same_text config_name no_error no_error service new_users)
    ⊎ InEffect refusing new_users service
        (apply_pull_result refusing same_text config_name no_error no_error service new_users)
apply_pull_result_all_or_nothing_example =
    apply_pull_result_all_or_nothing refusing same_text config_name no_error no_error
      (λ κ c us e stopped failed. refl) service new_users

-- A DNS challenge for the certificate that TUIC needs.
abbrev dns_cert : CertConfig
dns_cert = record {
  cert_mode = codes " DNS ";
  domain = codes "a.b";
  cert_content = [];
  key_content = [];
  cert_file = [];
  key_file = [];
  dns_provider = codes "cloudflare";
}

abbrev tuic_node : NodeSpec
tuic_node = record {
  protocol = codes "tuic";
  network = [];
  kernel_type = codes "singbox";
  custom_outbounds = [];
  custom_route_rules = [];
  route_profiles = [];
  default_outbound_tag = [];
  transport = [];
  cert_config = some dns_cert;
  tls = 1;
  tls_settings = none;
}

-- The setup of a service whose kernel starts, and of one whose kernel refuses.
abbrev willing : Kernel Bool
willing = record refusing { start = λ k c us. (true, none) }

-- A revision with a configuration for one user.
abbrev first_snapshot : Bootstrap
first_snapshot = record {
  revision = 3;
  push_interval = pos 0;
  pull_interval = pos 0;
  push = true;
  config = some tuic_node;
  users = alice ∷ [];
  mailbox = none;
}

initial_setup-Outcome_example :
    Outcome willing same_text config_name no_error no_error
      (new_service false)
      3
      tuic_node
      (alice ∷ [])
      (initial_setup willing same_text config_name no_error no_error
        (new_service false)
        first_snapshot)
initial_setup-Outcome_example =
    initial_setup-Outcome willing same_text config_name no_error no_error (new_service false)
      first_snapshot tuic_node refl refl (λ fine. refl)

-- Set up without its kernel, then given users, then polled.
abbrev Lives : Service Bool → Type 0
Lives = Life refusing same_text config_name no_error no_error

abbrev after_users : Service Bool
after_users =
    handle_ws_event refusing same_text config_name no_error no_error
      (initial_setup refusing same_text config_name no_error no_error (new_service true)
        first_snapshot).service
      (users_of (alice ∷ []))

lived :
    Lives (apply_pull_result refusing same_text config_name no_error no_error after_users new_users)
lived = polls new_users (handles (users_of (alice ∷ [])) (sets_up first_snapshot (created true)))

Life-InSync_example :
    InSync
      (apply_pull_result refusing same_text config_name no_error no_error after_users new_users)
Life-InSync_example = Life-InSync refusing same_text config_name no_error no_error lived

handle_ws_event_lost_example :
    let t =
      handle_ws_event refusing same_text config_name no_error no_error service
        (users_of (alice ∷ [])) in
    (t.last_users ≡ [])
    × (t.last_user_hash ≡ [])
    × (t.reconcile_needed ≡ false)
    × (t.pulls ≡ 0)
    × (t.reports ≡ [])
unfolding compute_user_hash sort_by_id insert_by_id
handle_ws_event_lost_example =
    handle_ws_event_lost refusing same_text config_name no_error no_error service (alice ∷ []) true
      false (codes "refused") (codes "refused") refl refl refl refl

abbrev holding : Service Bool
holding = record service {
  last_users = alice ∷ [];
  last_user_hash = compute_user_hash same_text (alice ∷ []);
}

abbrev gold : UserSpec → Text
gold u = codes "gold"

handle_ws_event-scoped_example :
    handle_ws_event refusing same_text config_name no_error no_error holding
      (users_of (map (scoped gold) (alice ∷ [])))
    ≡ holding
handle_ws_event-scoped_example =
    handle_ws_event-scoped refusing same_text config_name no_error no_error holding gold refl

-- A request that failed and whose goroutine has ended, and one that is under way.
abbrev after_failure : Poller
after_failure = finish_request (answer false (tick true new_poller).0)

abbrev under_way : Poller
under_way = (tick true new_poller).0

tick_twice_example :
    let failed = finish_request (answer false under_way) in
    (((tick true after_failure).1 ≡ true) ⊎ ((tick true (tick true after_failure).0).1 ≡ true))
    × (tick true under_way ≡ (under_way, false))
    × ((tick true failed).1 ≡ false)
    × ((tick true (tick true failed).0).1 ≡ true)
unfolding tick answer finish_request new_poller
tick_twice_example =
    tick_twice (ended refl (replied false refl (called true unused))) refl (called true unused) refl

abbrev ten : Bytes
ten = record { up = 10; down = 3 }

abbrev busy : Reporter
busy = record new_reporter { tracker = process new_tracker ((5, ten) ∷ []) [] 1 }

abbrev fresh_ledger : Ledger
fresh_ledger = record { seen = []; counted = zero_bytes }

-- The report arrives and its confirmation is lost.
abbrev unconfirmed : Reporter
unconfirmed = (push_report same_text busy 3 100 false).0

abbrev counted_once : Ledger
counted_once = count 5 (push_report same_text busy 3 100 false).1 fresh_ledger

Life-exact_example :
    (counted_once.counted +B outstanding 5 unconfirmed.pending_report counted_once.seen)
      +B get 5 unconfirmed.tracker.pending_traffic
    ≡ get 5 unconfirmed.tracker.last_seen
unfolding lookup new_tracker
Life-exact_example =
    Life-exact {digest = same_text} {j = 5} (
      arrived 3 100 false
        (tracked ((5, ten) ∷ []) [] 1 (refl, tt) (omega arith, omega arith) begun))

abbrev only_cloudflare : Text → Bool
only_cloudflare p = p == codes "cloudflare"

validate_node_runtime-Runnable_example :
    (validate_node_runtime only_cloudflare (codes "tuic" ∷ []) false tuic_node ≡ none)
    ↔ Runnable only_cloudflare (codes "tuic" ∷ []) false tuic_node
validate_node_runtime-Runnable_example =
    validate_node_runtime-Runnable only_cloudflare (codes "tuic" ∷ []) false tuic_node

-- Without a certificate TUIC is refused.
tuic_refused :
    validate_node_runtime only_cloudflare
      (codes "tuic" ∷ [])
      false
      (record tuic_node { cert_config = none })
    ≡ some needs_certificate
unfolding validate_node_runtime validate_tls_requirements has_usable_tls_config needs_cert
tuic_refused = refl

tuic_accepted : validate_node_runtime only_cloudflare (codes "tuic" ∷ []) false tuic_node ≡ none
unfolding validate_node_runtime validate_tls_requirements validate_runtime_cert_config
    has_usable_tls_config needs_cert brings_certificate to_lower trim_space
tuic_accepted = refl
