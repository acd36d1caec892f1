-- ===== src/DevicePlatform/Upgrade.antt =====
-- The files of an agent upgrade: internal/deviceplatform/upgrade_state.go, and the validation and
-- quoting of upgrade.go. The files are those beside the configuration, decoded; `unreadable` is any error
-- other than a missing file. What the system and the panel answer stands in `World`.
use cpanelde.Prelude.{
  ℕ, ◌-◌, Bool, true, false, not, ◌||◌, ◌&&◌, List, [], ◌∷◌, ◌++◌, all, filter, length, take,
  if◌then◌else◌, Text, Option, none, some, ◌==◌, nat_eq, text_eq, ltb, leb, codes, trim_space,
  is_empty, is_digit, trim_prefix,
}
use cpanelde.Prelude.Int.{ℤ, pos, negsuc}
use cpanelde.Model.Ports.{atoi, is_alnum}
use cpanelde.Model.Support.{normal}

pub record UpgradeState : Type 0 where
  pub task_id : Text
  pub target_version : Text
  pub status : Text
  pub error : Text
  pub updated_at : Option ℕ

pub record UpgradeResult : Type 0 where
  pub task_id : Text
  pub status : Text
  pub code : ℕ
  pub message : Text

-- The result file holds fields between white space; the file beside it may hold a message.
pub data Stored {ℓ} (A : Type ℓ) : Type ℓ where
  missing : Stored A
  unreadable : Stored A
  stored : A → Stored A

pub record ResultFile : Type 0 where
  pub fields : List Text
  pub message : Option Text

pub record Files : Type 0 where
  pub state : Stored UpgradeState
  pub result : Stored ResultFile

-- The texts that the code formats are data.
pub data Message : Type 0 where
  no_message version_mismatch unreadable_result timed_out no_scheduler not_persisted : Message
  exit_status : ℕ → Message
  plain : Text → Message

pub record Report : Type 0 where
  pub task_id : Text
  pub status : Text
  pub message : Message

pub record World : Type 0 where
  pub now : ℕ
  pub disk : Bool
  pub send : Report → Bool
  pub version : Text
  pub schedule : Option (Text → Text → Option Text)

abbrev pub is_unit_char : ℕ → Bool
is_unit_char c = is_alnum c || ((leb b'A' c && leb c b'Z') || (c == b'_' || c == b'-'))

unfoldable pub sanitize_unit_suffix : Text → Text
sanitize_unit_suffix = filter is_unit_char

abbrev pub is_build_char : ℕ → Bool
is_build_char c = is_unit_char c || c == b'.'

abbrev pub is_build : Text → Bool
is_build [] = false
is_build (c ∷ s) = all is_build_char (c ∷ s)

-- The rest of a version after `dots` more dots, with at least one digit in each number; `seen` is
-- whether the current number has one.
unfoldable pub matches_numbers : ℕ → Bool → Text → Bool
matches_numbers dots seen [] = dots == 0 && seen
matches_numbers dots seen (c ∷ s) =
    let more = matches_numbers dots true s in
    let next = matches_numbers (dots - 1) false s in
    if is_digit c
    then more
    else if not seen
    then false
    else if dots == 0
    then c == b'+' && is_build s
    else c == b'.' && next

abbrev pub matches_version : Text → Bool
matches_version [] = false
matches_version (c ∷ s) = c == b'v' && matches_numbers 2 false s

-- ^v[0-9]+\.[0-9]+\.[0-9]+(?:\+[a-zA-Z0-9._-]+)?$
unfoldable pub validate_upgrade_version : Text → Bool
validate_upgrade_version version = not (ltb 128 (length version)) && matches_version version

abbrev pub quote : ℕ
quote = 39

abbrev pub backslash : ℕ
backslash = 92

abbrev pub quote_body : Text → Text
quote_body [] = []
quote_body (c ∷ s) =
    if c == quote then quote ∷ backslash ∷ quote ∷ quote ∷ quote_body s else c ∷ quote_body s

unfoldable pub shell_quote : Text → Text
shell_quote value = quote ∷ (quote_body value ++ quote ∷ [])

abbrev pub before_plus : Text → Text
before_plus [] = []
before_plus (c ∷ s) = if c == b'+' then [] else c ∷ before_plus s

abbrev pub normal_version : Text → Text
normal_version value =
    before_plus (trim_prefix (codes "v") (trim_prefix (codes "corade-") (normal value)))

unfoldable pub versions_equal : Text → Text → Bool
versions_equal current target =
    not (is_empty (normal_version current)) && normal_version current == normal_version target

unfoldable pub target_version_matches : Text → Text → Bool
target_version_matches current target =
    (normal target == codes "latest" || normal target == codes "corade-latest")
    || versions_equal current (normal target)

abbrev pub valid_task : Text → Bool
valid_task id = not (is_empty id) && sanitize_unit_suffix id == id

abbrev pub trimmed : UpgradeState → UpgradeState
trimmed s = record s {
  task_id = trim_space s.task_id;
  target_version = trim_space s.target_version;
  status = normal s.status;
}

unfoldable pub load_upgrade_state : Stored UpgradeState → Stored UpgradeState
load_upgrade_state missing = missing
load_upgrade_state unreadable = unreadable
load_upgrade_state (stored s) =
    if valid_task (trim_space s.task_id) then stored (trimmed s) else unreadable

-- False is an error, and leaves the file as it was.
unfoldable pub save_upgrade_state : World → UpgradeState → Files → Files × Bool
save_upgrade_state w s files =
    if valid_task s.task_id && (validate_upgrade_version s.target_version && w.disk)
    then (record files { state = stored (record s { updated_at = some w.now }) }, true)
    else (files, false)

abbrev pub message_text : Option Text → Text
message_text none = []
message_text (some m) = trim_space (take 4096 m)

abbrev pub with_code : Text → Text → Option Text → Option ℤ → Stored UpgradeResult
with_code task status message none = unreadable
with_code task status message (some (negsuc n)) = unreadable
with_code task status message (some (pos n)) =
    if ltb 255 n
    then unreadable
    else stored
        (record { task_id = task; status = status; code = n; message = message_text message })

unfoldable pub parse_result : List Text → Option Text → Stored UpgradeResult
parse_result (task ∷ status ∷ code ∷ []) message =
    if not (sanitize_unit_suffix task == task)
    then unreadable
    else if not (status == codes "succeeded" || status == codes "failed")
    then unreadable
    else with_code task status message (atoi code)
parse_result _ message = unreadable

unfoldable pub load_upgrade_result : Stored ResultFile → Stored UpgradeResult
unfolding parse_result
load_upgrade_result missing = missing
load_upgrade_result unreadable = unreadable
load_upgrade_result (stored f) = parse_result f.fields f.message
