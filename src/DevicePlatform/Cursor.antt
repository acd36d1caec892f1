-- ===== src/DevicePlatform/Cursor.antt =====
-- The cursor and the intervals of internal/deviceplatform/orchestrator.go: `advanceCursor`,
-- `onEvent`, `applyIntervals`. The cursor is the int64 of the orchestrator, which is never negative.
use cpanelde.Prelude.{
  ℕ, ◌≤◌, ◌≡◌, refl, Bool, true, false, arith, if◌then◌else◌, Text, Option, none, some, ltb, leb,
  codes, trim_space, cut_prefix,
}
use cpanelde.Prelude.Int.{ℤ, pos, negsuc}
use cpanelde.Model.Ports.{atoi}

-- strconv.ParseInt(s, 10, 64), where a negative number is an error too.
abbrev pub cursor_value : Option ℤ → Option ℕ
cursor_value none = none
cursor_value (some (pos n)) = some n
cursor_value (some (negsuc n)) = none

abbrev pub raise : ℕ → Option ℕ → ℕ × Bool
raise cursor none = (cursor, false)
raise cursor (some value) = (if leb value cursor then cursor else value, true)

-- False is an error.
unfoldable pub advance_cursor : ℕ → Text → ℕ × Bool
advance_cursor cursor candidate = raise cursor (cursor_value (atoi (trim_space candidate)))

-- An event of the stream moves the cursor if its id is that of a change.
unfoldable pub event_cursor : ℕ → Text → ℕ
event_cursor cursor id = elim (cut_prefix (codes "chg_") id) [
  | none ↦ cursor
  | some rest ↦ (advance_cursor cursor rest).0
]

pub record Intervals : Type 0 where
  pub push : ℕ
  pub pull : ℕ
  pub heartbeat : ℕ

-- A value below the least one gives way to the default.
abbrev pub at_least : ℕ → ℕ → ℤ → ℕ
at_least least default (pos n) = if ltb n least then default else n
at_least least default (negsuc n) = default

-- In seconds: telemetry, fallback pull and heartbeat.
unfoldable pub apply_intervals : ℤ → ℤ → ℤ → Intervals
apply_intervals telemetry fallback_pull heartbeat = record {
  push = at_least 10 60 telemetry;
  pull = at_least 15 60 fallback_pull;
  heartbeat = at_least 5 15 heartbeat;
}

raise_comm :
    (cursor : ℕ) (a b : Option ℕ) → (raise (raise cursor a).0 b).0 ≡ (raise (raise cursor b).0 a).0
raise_comm cursor none none = refl
raise_comm cursor none (some b) = refl
raise_comm cursor (some a) none = refl
raise_comm cursor (some a) (some b) = ground arith

raise_le : (cursor : ℕ) (a : Option ℕ) → cursor ≤ (raise cursor a).0
raise_le cursor none = omega arith
raise_le cursor (some a) = ground arith

-- The stream and the pull may advance the cursor in either order: the result is the same, and the
-- cursor never goes back, whatever the panel sends.
pub advance_cursor_comm :
    (cursor : ℕ) (a b : Text)
    → ((advance_cursor (advance_cursor cursor a).0 b).0
        ≡ (advance_cursor (advance_cursor cursor b).0 a).0)
      × (cursor ≤ (advance_cursor cursor a).0)
unfolding advance_cursor
advance_cursor_comm cursor a b = (
  raise_comm cursor (cursor_value (atoi (trim_space a))) (cursor_value (atoi (trim_space b))),
  raise_le cursor (cursor_value (atoi (trim_space a))),
)

at_least-le : (least default : ℕ) (z : ℤ) → least ≤ default → least ≤ at_least least default z
at_least-le least default (pos n) h = ground arith
at_least-le least default (negsuc n) h = h

-- Whatever the panel asks for, pushes are at least 10 seconds apart, pulls 15 and heartbeats 5.
pub apply_intervals-bounds :
    (telemetry fallback_pull heartbeat : ℤ)
    → (10 ≤ (apply_intervals telemetry fallback_pull heartbeat).push)
      × (15 ≤ (apply_intervals telemetry fallback_pull heartbeat).pull)
      × (5 ≤ (apply_intervals telemetry fallback_pull heartbeat).heartbeat)
unfolding apply_intervals
apply_intervals-bounds telemetry fallback_pull heartbeat = (
  at_least-le 10 60 telemetry (omega arith),
  at_least-le 15 60 fallback_pull (omega arith),
  at_least-le 5 15 heartbeat (omega arith),
)
