-- ===== src/DevicePlatform/Commands.antt =====
-- The course of an agent upgrade: `handleCommands`, `failUpgrade`, `classifyUpgradeResult` and
-- `reportPendingUpgrade` of internal/deviceplatform/orchestrator.go.
use cpanelde.Prelude.{
  ℕ, ◌+◌, Bool, false, not, ◌||◌, ◌&&◌, List, [], ◌∷◌, if◌then◌else◌, Text, Option, none, some,
  ◌==◌, nat_eq, text_eq, leb, codes, trim_space, is_empty,
}
use cpanelde.DevicePlatform.Upgrade.{
  UpgradeState, UpgradeResult, Stored, missing, unreadable, stored, Files, Message, no_message,
  version_mismatch, unreadable_result, timed_out, no_scheduler, not_persisted, exit_status, plain,
  Report, World, target_version_matches, save_upgrade_state, load_upgrade_state,
  load_upgrade_result,
}

unfoldable pub classify_upgrade_result : UpgradeState → UpgradeResult → Text → Text × Message
classify_upgrade_result state result version =
    if result.status == codes "succeeded"
      && (not (is_empty state.target_version)
          && not (target_version_matches version state.target_version))
    then (codes "failed", version_mismatch)
    else if result.status == codes "failed"
    then (
      result.status,
      if is_empty (trim_space result.message)
          then exit_status result.code
          else plain (trim_space result.message),
    )
    else (result.status, no_message)

abbrev pub report_of : UpgradeState → Text × Message → Report
report_of s (status, message) = record { task_id = s.task_id; status = status; message = message }

-- A terminal report, after which `cleared` are the files, if the panel has received it.
abbrev pub finish : World → Files → Files → Report → Files × Option Report
finish w files cleared r = (if w.send r then cleared else files, some r)

abbrev pub no_state : Files → Files
no_state files = record files { state = missing }

abbrev pub no_files : Files
no_files = record { state = missing; result = missing }

abbrev pub is_due : Option ℕ → ℕ → Bool
is_due none now = false
is_due (some at) now = leb (at + 720) now

-- The part of `reportPendingUpgrade` after the result file.
unfoldable pub report_without_result : World → Files → UpgradeState → Files × Option Report
report_without_result w files s =
    if s.status == codes "failed"
    then finish w files (no_state files) (report_of s (codes "failed", plain s.error))
    else if s.status == codes "acknowledged"
    then (if is_due s.updated_at w.now
        then finish w files (no_state files) (report_of s (codes "failed", timed_out))
        else (files, some (report_of s (codes "acknowledged", no_message))))
    else (files, none)

unfoldable pub report_with_result :
    World → Files → UpgradeState → Stored UpgradeResult → Files × Option Report
report_with_result w files s missing = report_without_result w files s
report_with_result w files s unreadable =
    finish w files no_files (report_of s (codes "failed", unreadable_result))
report_with_result w files s (stored r) =
    if r.task_id == s.task_id
    then finish w files no_files (report_of s (classify_upgrade_result s r w.version))
    else report_without_result w files s

abbrev pub report_state : World → Files → Stored UpgradeState → Files × Option Report
report_state w files missing = (files, none)
report_state w files unreadable = (files, none)
report_state w files (stored s) = report_with_result w files s (load_upgrade_result files.result)

-- The files afterwards, with the report that was tried.
unfoldable pub report_pending_upgrade : World → Files → Files × Option Report
report_pending_upgrade w files = report_state w files (load_upgrade_state files.state)

abbrev pub failed_state : Text → Text → UpgradeState
failed_state task message = record {
  task_id = task;
  target_version = [];
  status = codes "failed";
  error = message;
  updated_at = none;
}

-- `text` is what the message prints as.
unfoldable pub fail_upgrade : World → Text → Message → Text → Files → Files
fail_upgrade w task message text files =
    let files' = (save_upgrade_state w (failed_state task text) files).0 in
    let r : Report = record { task_id = task; status = codes "failed"; message = message } in
    if w.send r then no_state files' else files'

pub record AgentCommand : Type 0 where
  pub id : Text
  pub type : Text
  pub target_version : Text

abbrev pub run_schedule : World → AgentCommand → Files → Files
run_schedule w c files = elim w.schedule [
  | none ↦ fail_upgrade w c.id no_scheduler (codes "Agent upgrade scheduler is unavailable") files
  | some f ↦ elim (f c.id c.target_version) [
    | none ↦ files
    | some e ↦ fail_upgrade w c.id (plain e) e files
  ]
]

abbrev pub acknowledged_state : AgentCommand → UpgradeState
acknowledged_state c = record {
  task_id = c.id;
  target_version = c.target_version;
  status = codes "acknowledged";
  error = [];
  updated_at = none;
}

-- One command; the outcome of sending the acknowledgement is only logged.
unfoldable pub handle_command : World → AgentCommand → Files → Files
handle_command w c files =
    if not (c.type == codes "agent.upgrade") || is_empty (trim_space c.id)
    then files
    else let (files', saved) = save_upgrade_state w (acknowledged_state c) files in
      if saved
      then run_schedule w c files'
      else fail_upgrade w c.id not_persisted (codes "could not persist Agent upgrade state") files'

unfoldable pub handle_commands : World → List AgentCommand → Files → Files
handle_commands w [] files = files
handle_commands w (c ∷ cs) files = handle_commands w cs (handle_command w c files)
