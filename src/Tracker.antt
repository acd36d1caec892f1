-- ===== src/Tracker.antt =====
-- internal/tracker/tracker.go: traffic deltas between the kernel's cumulative counters and the
-- reports to the panel. Byte counters are natural numbers (an int64 holds them below 2 ^ 63); the
-- hash of `crypto/sha256` is a parameter.
pub mod Ledger
pub mod Alive
use cpanelde.Prelude.{
  ℕ, ◌+◌, ◌-◌, ◌/◌, ◌%◌, ◌^◌, ◌<◌, Bool, true, false, not, ◌||◌, ◌&&◌, List, [], ◌∷◌, ◌++◌, length,
  if◌then◌else◌, Text, Option, none, some, ◌==◌, nat_eq, text_eq, Map, keys, lookup, insert, ltb,
  leb,
}
use cpanelde.Prelude.Sorting.{sort_strings, has_text}

-- [upload, download]
pub record Bytes : Type 0 where
  pub up : ℕ
  pub down : ℕ

abbrev pub zero_bytes : Bytes
zero_bytes = record { up = 0; down = 0 }

-- Indexing a Go map: a missing key reads as zero.
abbrev pub bytes_of : Option Bytes → Bytes
bytes_of none = zero_bytes
bytes_of (some b) = b

abbrev pub get : ℕ → Map ℕ Bytes → Bytes
get uid m = bytes_of (lookup uid m)

infixl 65 ◌+B◌
unfoldable pub ◌+B◌ : Bytes → Bytes → Bytes
a +B b = record { up = a.up + b.up; down = a.down + b.down }

pub record Snapshot : Type 0 where
  pub traffic : Map ℕ Bytes
  pub alive_ips : Map ℕ (List Text)
  pub online : Map ℕ ℕ
  pub conn_count : ℕ
  pub in_speed : ℕ
  pub out_speed : ℕ

pub record Tracker : Type 0 where
  pub last_seen : Map ℕ Bytes
  pub pending_traffic : Map ℕ Bytes
  pub live : Snapshot
  pub alive_ips_buf : Map ℕ (List Text)
  pub last_alive_ips_hash : Text

unfoldable pub new_tracker : Tracker
new_tracker = record {
  last_seen = [];
  pending_traffic = [];
  live = record {
    traffic = [];
    alive_ips = [];
    online = [];
    conn_count = 0;
    in_speed = 0;
    out_speed = 0;
  };
  alive_ips_buf = [];
  last_alive_ips_hash = [];
}

-- The growth of a counter; one that fell was reset, and counts from 0.
abbrev pub growth : ℕ → ℕ → ℕ
growth prev cum = if ltb cum prev then cum else cum - prev

unfoldable pub delta : Bytes → Bytes → Bytes
delta prev cum = record { up = growth prev.up cum.up; down = growth prev.down cum.down }

abbrev pub is_nonzero : Bytes → Bool
is_nonzero d = ltb 0 d.up || ltb 0 d.down

pub record Cycle : Type 0 where
  pub seen : Map ℕ Bytes
  pub pending : Map ℕ Bytes
  pub total : Bytes

-- One round of the loop of `Process`.
unfoldable pub account : ℕ → Bytes → Cycle → Cycle
account uid cum c =
    let d = delta (get uid c.seen) cum in
    record {
      seen = insert uid cum c.seen;
      pending = if is_nonzero d then insert uid (get uid c.pending +B d) c.pending else c.pending;
      total = c.total +B d;
    }

unfoldable pub account_all : Map ℕ Bytes → Cycle → Cycle
account_all [] c = c
account_all ((uid, cum) ∷ traffic) c = account_all traffic (account uid cum c)

-- online[uid] = len(ips)
unfoldable pub online_counts : Map ℕ (List Text) → Map ℕ ℕ → Map ℕ ℕ
online_counts [] m = m
online_counts ((uid, ips) ∷ alive) m = online_counts alive (insert uid (length ips) m)

unfoldable pub process : Tracker → Map ℕ Bytes → Map ℕ (List Text) → ℕ → Tracker
process t traffic alive conn_count =
    let c =
      account_all traffic
        (record { seen = t.last_seen; pending = t.pending_traffic; total = zero_bytes }) in
    record t {
      last_seen = c.seen;
      pending_traffic = c.pending;
      live = record {
        traffic = c.pending;
        alive_ips = alive;
        online = online_counts alive [];
        conn_count = conn_count;
        in_speed = c.total.down;
        out_speed = c.total.up;
      };
    }

unfoldable pub flush_traffic : Tracker → Tracker × Map ℕ Bytes
flush_traffic t = (record t { pending_traffic = [] }, t.pending_traffic)

unfoldable pub add_back : Map ℕ Bytes → Map ℕ Bytes → Map ℕ Bytes
add_back [] pending = pending
add_back ((uid, d) ∷ traffic) pending = add_back traffic (insert uid (get uid pending +B d) pending)

unfoldable pub restore_traffic : Tracker → Map ℕ Bytes → Tracker
restore_traffic t traffic = record t { pending_traffic = add_back traffic t.pending_traffic }

unfoldable pub has_traffic : Tracker → Bool
has_traffic t = ltb 0 (length t.pending_traffic)

-- sort.Ints over the user ids, with the IPs of each.
unfoldable pub insert_user : ℕ → List Text → Map ℕ (List Text) → Map ℕ (List Text)
insert_user uid ips [] = (uid, ips) ∷ []
insert_user uid ips ((n, js) ∷ m) =
    if ltb n uid then (n, js) ∷ insert_user uid ips m else (uid, ips) ∷ (n, js) ∷ m

unfoldable pub sort_users : Map ℕ (List Text) → Map ℕ (List Text)
sort_users [] = []
sort_users ((uid, ips) ∷ m) = insert_user uid ips (sort_users m)

abbrev pub concat : List Text → Text
concat [] = []
concat (s ∷ ss) = s ++ concat ss

-- byte(uid >> 24), byte(uid >> 16), byte(uid >> 8), byte(uid)
abbrev pub uid_bytes : ℕ → Text
uid_bytes uid = (uid / 2 ^ 24 % 256) ∷ (uid / 2 ^ 16 % 256) ∷ (uid / 2 ^ 8 % 256) ∷ (uid % 256) ∷ []

-- What is written to the hash.
unfoldable pub hash_input : Map ℕ (List Text) → Text
hash_input [] = []
hash_input ((uid, ips) ∷ m) = uid_bytes uid ++ concat (sort_strings ips) ++ hash_input m

-- `digest` is the hexadecimal SHA-256 of a text.
unfoldable pub calc_alive_ips_hash : (Text → Text) → Map ℕ (List Text) → Text
calc_alive_ips_hash digest [] = []
calc_alive_ips_hash digest (e ∷ m) = digest (hash_input (sort_users (e ∷ m)))

-- `none` is the nil that says that nothing changed.
unfoldable pub flush_alive_ips : (Text → Text) → Tracker → Tracker × Option (Map ℕ (List Text))
flush_alive_ips digest t =
    let hash = calc_alive_ips_hash digest t.live.alive_ips in
    if hash == t.last_alive_ips_hash then (t, none) else (
      record t { last_alive_ips_hash = hash; alive_ips_buf = t.live.alive_ips },
      some t.live.alive_ips,
    )

-- The IPs of a failed report, added to those of the buffer that are not there yet.
unfoldable pub merge_missing : List Text → List Text → List Text
merge_missing ips [] = ips
merge_missing ips (ip ∷ more) = merge_missing (if has_text ip ips then ips else ips ++ ip ∷ []) more

abbrev pub ips_or_nil : Option (List Text) → List Text
ips_or_nil none = []
ips_or_nil (some ips) = ips

unfoldable pub restore_alive_ips : Map ℕ (List Text) → Map ℕ (List Text) → Map ℕ (List Text)
restore_alive_ips [] buf = buf
restore_alive_ips ((uid, ips) ∷ m) buf =
    restore_alive_ips m (insert uid (merge_missing (ips_or_nil (lookup uid buf)) ips) buf)

unfoldable pub current_online : Tracker → Map ℕ ℕ
current_online t = t.live.online

unfoldable pub active_connections : Tracker → ℕ
active_connections t = t.live.conn_count

unfoldable pub inbound_speed : Tracker → ℕ
inbound_speed t = t.live.in_speed / 10

unfoldable pub outbound_speed : Tracker → ℕ
outbound_speed t = t.live.out_speed / 10
