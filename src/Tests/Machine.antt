-- ===== src/Tests/Machine.antt =====
-- internal/deviceplatform on two nodes and one upgrade.
use cpanelde.Prelude.{
  ℕ, ◌≡◌, refl, true, false, [], ◌∷◌, Text, codes, Option, none, some, nat_eq, text_eq, lookup,
  has_key, trim_space, is_digit, to_lower,
}
use cpanelde.DevicePlatform.Nodes.{
  Node, NodeHandle, SpecReply, Orchestrator, desired_kernel, rediscover, reconcile_node_spec,
}
use cpanelde.DevicePlatform.Discovery.{has_node, has_key-rediscover}
use cpanelde.DevicePlatform.Restart.{reconcile_node_spec-desired}
use cpanelde.DevicePlatform.Upgrade.{
  UpgradeState, UpgradeResult, stored, missing, Files, World, shell_quote, validate_upgrade_version,
  matches_numbers, load_upgrade_state, sanitize_unit_suffix, timed_out,
}
use cpanelde.DevicePlatform.Commands.{report_pending_upgrade, fail_upgrade}
use cpanelde.DevicePlatform.Reports.{
  read_word, unquoted, read_word-shell_quote, fail_upgrade_unsaved, KeepsOrEnds,
  report_pending_upgrade-KeepsOrEnds,
}

abbrev node_one : Node
node_one = record { id = 1; type = codes "vless"; name = codes "one" }

abbrev node_two : Node
node_two = record { id = 2; type = codes "trojan"; name = codes "two" }

abbrev handle_one : NodeHandle
handle_one = record { done = 0; node = node_one; kernel_type = codes "singbox" }

abbrev running : Orchestrator
running = record {
  nodes =
      (1, handle_one)
      ∷ (3, record { done = 1; node = record node_two { id = 3 }; kernel_type = [] })
      ∷ [];
  statuses = (1, tt) ∷ [];
  stopping = false;
  next_done = 2;
}

abbrev singbox : Node → Text
singbox n = codes "singbox"

abbrev no_specs : ℕ → Option SpecReply
no_specs id = none

has_key-rediscover_example :
    has_key 3 (rediscover running false singbox no_specs (some (node_one ∷ node_two ∷ []))).nodes
    ≡ has_node 3 (node_one ∷ node_two ∷ [])
has_key-rediscover_example =
    has_key-rediscover singbox no_specs running (node_one ∷ node_two ∷ []) 3 refl

abbrev xhttp_spec : SpecReply
xhttp_spec = record { kernel_type = codes "singbox"; transport = codes "xhttp" }

reconcile_node_spec-desired_example :
    (h' : NodeHandle) × (lookup 1
        (reconcile_node_spec running 1
          (codes "singbox")
          (some xhttp_spec)
          (some xhttp_spec)).0.nodes
      ≡ some h')
    × (h'.kernel_type ≡ desired_kernel (codes "singbox") xhttp_spec)
unfolding lookup
reconcile_node_spec-desired_example =
    reconcile_node_spec-desired running (codes "singbox") xhttp_spec handle_one refl refl

read_word-shell_quote_example :
    read_word unquoted (shell_quote (codes "it's; rm -rf /")) ≡ some (codes "it's; rm -rf /")
read_word-shell_quote_example = read_word-shell_quote (codes "it's; rm -rf /")

abbrev task : UpgradeState
task = record {
  task_id = codes "t1";
  target_version = codes "v1.2.3";
  status = codes "acknowledged";
  error = [];
  updated_at = some 100;
}

abbrev success : UpgradeResult
success = record { task_id = codes "t1"; status = codes "succeeded"; code = 0; message = [] }

abbrev files : Files
files = record { state = stored task; result = missing }

-- The panel cannot be reached.
abbrev offline : World
offline = record {
  now = 1000;
  disk = true;
  send = λ r. false;
  version = codes "1.2.2";
  schedule = none;
}

fail_upgrade_unsaved_example :
    fail_upgrade offline (codes "t1") timed_out (codes "late") files ≡ files
fail_upgrade_unsaved_example =
    fail_upgrade_unsaved offline (codes "t1") (codes "late") timed_out files refl

report_pending_upgrade-KeepsOrEnds_example :
    KeepsOrEnds offline (codes "t1") files (report_pending_upgrade offline files)
unfolding load_upgrade_state sanitize_unit_suffix trim_space to_lower
report_pending_upgrade-KeepsOrEnds_example =
    report_pending_upgrade-KeepsOrEnds offline files task refl

versions_that_match : validate_upgrade_version (codes "v1.20.3+build-7") ≡ true
unfolding validate_upgrade_version matches_numbers is_digit
versions_that_match = refl

versions_that_do_not : validate_upgrade_version (codes "v1.2;ls") ≡ false
unfolding validate_upgrade_version matches_numbers is_digit
versions_that_do_not = refl
