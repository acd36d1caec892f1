-- ===== src/Kernel/ConnTracker.antt =====
-- internal/kernel/singbox/conntracker.go: traffic counters, source IPs and the device limit. The
-- `*userStats` of a connection is the entry of `users` under its user id, which is never removed
-- or replaced. Times are seconds; the zero time is `none`. Byte counters are natural numbers.
pub mod Gate
pub mod Conns
pub mod Counts
pub mod Tally
pub mod Life
use cpanelde.Prelude.{
  ℕ, suc, ◌+◌, ◌-◌, ◌<◌, Bool, true, false, not, ◌||◌, ◌&&◌, List, [], ◌∷◌, ◌++◌, length, take,
  if◌then◌else◌, Text, Option, none, some, ◌==◌, nat_eq, text_eq, Map, keys, lookup, insert, erase,
  has_key, is_some, ltb, leb,
}
use cpanelde.Prelude.Int.{ℤ, pos, negsuc, ◌+ℤ◌, ◌-ℤ◌, pos_part}
use cpanelde.Prelude.Sorting.{sort_strings, has_text}
use cpanelde.Limiter.Users.{is_positive}

pub record UserStats : Type 0 where
  pub upload : ℕ
  pub download : ℕ
  pub ips : Map Text ℕ
  pub conn_count : ℤ

abbrev pub new_stats : UserStats
new_stats = record { upload = 0; download = 0; ips = []; conn_count = pos 0 }

abbrev pub count_of : Option ℕ → ℕ
count_of none = 0
count_of (some n) = n

unfoldable pub add_conn : UserStats → Text → UserStats
add_conn u ip = record u {
  conn_count = u.conn_count +ℤ pos 1;
  ips = insert ip (count_of (lookup ip u.ips) + 1) u.ips;
}

-- A count that would fall to 0 or below takes the entry away.
unfoldable pub remove_conn : UserStats → Text → UserStats
remove_conn u ip = record u {
  conn_count = u.conn_count -ℤ pos 1;
  ips =
      if ltb 1 (count_of (lookup ip u.ips))
      then insert ip (count_of (lookup ip u.ips) - 1) u.ips
      else erase ip u.ips;
}

unfoldable pub distinct_ips : UserStats → ℕ
distinct_ips u = length u.ips

unfoldable pub alive_ip_list : UserStats → Option (List Text)
alive_ip_list u = elim u.ips [ [] ↦ none | e ∷ m ↦ some (e.0 ∷ keys m) ]

pub record ConnTracker : Type 0 where
  pub users : Map ℕ UserStats
  pub uuid_map : Map Text ℕ
  pub conn_map : Map ℕ (Unit {0})
  pub id_counter : ℕ
  pub global_devices : Map ℕ (List Text)
  pub global_last_update : Option ℕ

unfoldable pub new_conn_tracker : ConnTracker
new_conn_tracker = record {
  users = [];
  uuid_map = [];
  conn_map = [];
  id_counter = 0;
  global_devices = [];
  global_last_update = none;
}

-- The loop of `SetUserMap`.
unfoldable pub ensure_stats : Map Text ℕ → Map ℕ UserStats → Map ℕ UserStats
ensure_stats [] users = users
ensure_stats ((uuid, uid) ∷ m) users =
    ensure_stats m (if has_key uid users then users else insert uid new_stats users)

unfoldable pub set_user_map : ConnTracker → Map Text ℕ → ConnTracker
set_user_map t m = record t { uuid_map = m; users = ensure_stats m t.users }

-- The set of the IPs of a list, each once.
unfoldable pub ip_set : List Text → List Text
ip_set [] = []
ip_set (ip ∷ ips) = let rest = ip_set ips in if has_text ip rest then rest else ip ∷ rest

unfoldable pub device_sets : Map ℕ (List Text) → Map ℕ (List Text) → Map ℕ (List Text)
unfolding ip_set
device_sets [] m = m
device_sets ((uid, ips) ∷ users) m = device_sets users (insert uid (ip_set ips) m)

unfoldable pub update_global_devices : ConnTracker → Map ℕ (List Text) → ℕ → ConnTracker
update_global_devices t users now = record t {
  global_devices = device_sets users [];
  global_last_update = some now;
}

unfoldable pub clear_global_devices : ConnTracker → ConnTracker
clear_global_devices t = record t { global_devices = []; global_last_update = none }

-- time.Since(t.globalLastUpdate) > 60*time.Second
abbrev pub is_stale : Option ℕ → ℕ → Bool
is_stale none now = true
is_stale (some at) now = ltb (at + 60) now

-- The lexicographic selection: whether the IP is not among the first `limit` of the sorted list.
unfoldable pub selected_out : List Text → Text → ℕ → Bool
selected_out ips source_ip limit =
    not (has_text source_ip (take limit (sort_strings (ips ++ source_ip ∷ []))))

unfoldable pub over_limit : List Text → Text → ℕ → Bool
over_limit ips source_ip limit =
    if ltb (length ips) limit then false else selected_out ips source_ip limit

-- The IPs of two sets, each once.
unfoldable pub merge_ips : List Text → List Text → List Text
merge_ips [] global = global
merge_ips (ip ∷ local) global =
    let rest = merge_ips local global in if has_text ip rest then rest else ip ∷ rest

-- The gate of a user with a positive limit: true is a rejection.
unfoldable pub gate : List Text → Option (List Text) → Text → ℕ → Bool
gate local global source_ip limit = if has_text source_ip local then false else elim global [
  | none ↦ over_limit local source_ip limit
  | some ips ↦
      if has_text source_ip ips then false else over_limit (merge_ips local ips) source_ip limit
]

-- The devices of the other nodes that the gate takes into account.
abbrev pub fresh_devices : ConnTracker → ℕ → ℕ → Option (List Text)
fresh_devices t uid now =
    if is_stale t.global_last_update now then none else lookup uid t.global_devices

unfoldable pub check_device_gate : ConnTracker → Option UserStats → ℕ → Text → ℤ → ℕ → Bool
check_device_gate t none uid source_ip limit now = false
check_device_gate t (some us) uid source_ip limit now =
    if not (is_positive limit)
    then false
    else gate (keys us.ips) (fresh_devices t uid now) source_ip (pos_part limit)
