-- ===== src/DevicePlatform/Reports.antt =====
-- What an agent upgrade keeps and reports: `shellQuote`, `classifyUpgradeResult`, `failUpgrade` and
-- `reportPendingUpgrade` of internal/deviceplatform.
use cpanelde.Prelude.{
  ℕ, ◌≡◌, refl, Bool, true, false, ◌||◌, List, [], ◌∷◌, ◌++◌, arith, if◌then◌else◌, Text, Option,
  none, some, ◌==◌, nat_eq, text_eq, codes, is_empty, ◌⊎◌, inl, inr, Bool-cases, eq_of_beq,
}
use cpanelde.Prelude.Int.{ℤ}
use cpanelde.Model.Ports.{atoi}
use cpanelde.DevicePlatform.Upgrade.{
  UpgradeState, UpgradeResult, Stored, missing, unreadable, stored, ResultFile, Files, Message,
  Report, World, quote, backslash, quote_body, shell_quote, target_version_matches,
  validate_upgrade_version, save_upgrade_state, load_upgrade_state, load_upgrade_result,
  parse_result, with_code,
}
use cpanelde.DevicePlatform.Commands.{
  is_due, classify_upgrade_result, report_of, finish, report_without_result, report_with_result,
  report_pending_upgrade, fail_upgrade, no_files,
}

-- How a POSIX shell reads a word, for the characters that a quoted word is made of: a plain part
-- may only hold quotes and escaped characters. `none` is an unfinished word or another character.
pub data Reading : Type 0 where
  unquoted quoted escaped : Reading

abbrev cons_char : ℕ → Option Text → Option Text
cons_char c none = none
cons_char c (some s) = some (c ∷ s)

unfoldable pub read_word : Reading → Text → Option Text
read_word unquoted [] = some []
read_word quoted [] = none
read_word escaped [] = none
read_word unquoted (c ∷ s) =
    let inside = read_word quoted s in
    let after = read_word escaped s in
    if c == quote then inside else if c == backslash then after else none
read_word quoted (c ∷ s) =
    let outside = read_word unquoted s in
    let more = read_word quoted s in if c == quote then outside else cons_char c more
read_word escaped (c ∷ s) = cons_char c (read_word unquoted s)

read_word-quote_body :
    (value : Text) → read_word quoted (quote_body value ++ quote ∷ []) ≡ some value
unfolding read_word
read_word-quote_body [] = refl
read_word-quote_body (c ∷ s) = elim (Bool-cases (c == quote)) [
  | inl e ↦ rw (eq_of_beq c quote e, read_word-quote_body s) refl
  | inr e ↦ rw (e, read_word, e, read_word-quote_body s) refl
]

-- A shell that reads a word quoted by `shellQuote` gets exactly the text that was quoted: no text can
-- end the word early.
pub read_word-shell_quote : (value : Text) → read_word unquoted (shell_quote value) ≡ some value
unfolding shell_quote read_word
read_word-shell_quote value = read_word-quote_body value

-- Success is reported only for a result of success, and only if the task names no version or the
-- agent runs the version that it names.
pub classify_upgrade_result_succeeded :
    (s : UpgradeState) (r : UpgradeResult) (version : Text)
    → ((classify_upgrade_result s r version).0 == codes "succeeded") ≡ true
    → ((r.status == codes "succeeded") ≡ true)
      × (is_empty s.target_version || target_version_matches version s.target_version ≡ true)
unfolding classify_upgrade_result
classify_upgrade_result_succeeded s r version h = ground arith

-- A failure is never stored: the state of a failed upgrade names no version, which the check of
-- the version refuses, so a failure that cannot be sent leaves the files as they were.
pub fail_upgrade_unsaved :
    (w : World) (task text : Text) (why : Message) (files : Files)
    → w.send (record { task_id = task; status = codes "failed"; message = why }) ≡ false
    → fail_upgrade w task why text files ≡ files
unfolding fail_upgrade save_upgrade_state validate_upgrade_version
fail_upgrade_unsaved w task text why files h = ground (arith, h)

abbrev pub is_terminal : Text → Bool
is_terminal status = status == codes "succeeded" || status == codes "failed"

-- A report that the panel has received, and that ends a task: its state is gone.
pub record Ends (w : World) (task : Text) (after : Files) (tried : Option Report) : Type 0 where
  pub report : Report
  pub was_tried : tried ≡ some report
  pub received : w.send report ≡ true
  pub same_task : report.task_id ≡ task
  pub terminal : is_terminal report.status ≡ true
  pub forgotten : after.state ≡ missing

-- What a step may do to the files: nothing, unless it has ended the task.
abbrev pub KeepsOrEnds : World → Text → Files → Files × Option Report → Type 0
KeepsOrEnds w task files (files', tried) = (files' ≡ files) ⊎ Ends w task files' tried

finish-KeepsOrEnds :
    (w : World) (task : Text) (files cleared : Files) (r : Report)
    → r.task_id ≡ task
    → is_terminal r.status ≡ true
    → cleared.state ≡ missing
    → KeepsOrEnds w task files (finish w files cleared r)
finish-KeepsOrEnds w task files cleared r e t gone = elim (Bool-cases (w.send r)) [
  | inl sent ↦ inr (record {
    report = r;
    was_tried = refl;
    received = sent;
    same_task = e;
    terminal = t;
    forgotten = rw sent gone;
  })
  | inr lost ↦ inl (rw lost refl)
]

report_without_result-KeepsOrEnds :
    (w : World) (files : Files) (s : UpgradeState)
    → KeepsOrEnds w s.task_id files (report_without_result w files s)
unfolding report_without_result
report_without_result-KeepsOrEnds w files s = elim (Bool-cases (s.status == codes "failed")) [
  | inl e ↦ rw (e, report_without_result) (finish-KeepsOrEnds w s.task_id files _ _ refl refl refl)
  | inr e ↦ elim (Bool-cases (s.status == codes "acknowledged")) [
    | inl a ↦ elim (Bool-cases (is_due s.updated_at w.now)) [
      | inl due ↦
          rw (e, a, due, report_without_result)
            (finish-KeepsOrEnds w s.task_id files _ _ refl refl refl)
      | inr early ↦ rw (e, a, early, report_without_result) (inl refl)
    ]
    | inr a ↦ rw (e, a, report_without_result) (inl refl)
  ]
]

with_code-terminal :
    (task status : Text) (message : Option Text) (o : Option ℤ) (r : UpgradeResult)
    → is_terminal status ≡ true
    → with_code task status message o ≡ stored r
    → is_terminal r.status ≡ true
with_code-terminal task status message o r t h = ground arith

parse_result-terminal :
    (fields : List Text) (message : Option Text) (r : UpgradeResult)
    → parse_result fields message ≡ stored r
    → is_terminal r.status ≡ true
unfolding parse_result
parse_result-terminal [] message r h = absurd (ground arith)
parse_result-terminal (a ∷ []) message r h = absurd (ground arith)
parse_result-terminal (a ∷ b ∷ []) message r h = absurd (ground arith)
parse_result-terminal (a ∷ b ∷ c ∷ d ∷ e) message r h = absurd (ground arith)
parse_result-terminal (task ∷ status ∷ code ∷ []) message r h =
    ground (arith, with_code-terminal task status message (atoi code) r)

load_upgrade_result-terminal :
    (f : Stored ResultFile) (r : UpgradeResult)
    → load_upgrade_result f ≡ stored r
    → is_terminal r.status ≡ true
unfolding load_upgrade_result
load_upgrade_result-terminal missing r h = absurd (ground arith)
load_upgrade_result-terminal unreadable r h = absurd (ground arith)
load_upgrade_result-terminal (stored f) r h = parse_result-terminal f.fields f.message r h

classify-terminal :
    (s : UpgradeState) (r : UpgradeResult) (version : Text)
    → is_terminal r.status ≡ true
    → is_terminal (classify_upgrade_result s r version).0 ≡ true
unfolding classify_upgrade_result
classify-terminal s r version t = ground arith

report_with_result-KeepsOrEnds :
    (w : World) (files : Files) (s : UpgradeState) (o : Stored UpgradeResult)
    → ((r : UpgradeResult) → o ≡ stored r → is_terminal r.status ≡ true)
    → KeepsOrEnds w s.task_id files (report_with_result w files s o)
unfolding report_with_result
report_with_result-KeepsOrEnds w files s missing t = report_without_result-KeepsOrEnds w files s
report_with_result-KeepsOrEnds w files s unreadable t =
    finish-KeepsOrEnds w s.task_id files no_files _ refl refl refl
report_with_result-KeepsOrEnds w files s (stored r) t = elim (Bool-cases (r.task_id == s.task_id)) [
  | inl e ↦
      rw (e, report_with_result)
        (finish-KeepsOrEnds w s.task_id files no_files
          (report_of s (classify_upgrade_result s r w.version)) refl
          (classify-terminal s r w.version (t r refl)) refl)
  | inr e ↦ rw (e, report_with_result) (report_without_result-KeepsOrEnds w files s)
]

-- An attempt to report the upgrade task that is stored changes the files only if, in this attempt,
-- the panel has received a report that this task has succeeded or failed, and then no state is
-- stored any more.
pub report_pending_upgrade-KeepsOrEnds :
    (w : World) (files : Files) (s : UpgradeState)
    → load_upgrade_state files.state ≡ stored s
    → KeepsOrEnds w s.task_id files (report_pending_upgrade w files)
unfolding report_pending_upgrade
report_pending_upgrade-KeepsOrEnds w files s e =
    rw (e, report_pending_upgrade)
      (report_with_result-KeepsOrEnds w files s (load_upgrade_result files.result)
        (load_upgrade_result-terminal files.result))
