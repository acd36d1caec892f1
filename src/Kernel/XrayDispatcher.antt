-- ===== src/Kernel/XrayDispatcher.antt =====
-- internal/kernel/xray/dispatcher.go: admission by device limit and the reference counts of the
-- source IPs. A counter of a connection is stored only while it is positive, so it is a natural
-- number; `conn_count` is signed. Each operation runs in one critical section of `mu`.
pub mod Counts
pub mod Refs
pub mod Rank
pub mod Balance
pub mod Dispatch
use cpanelde.Prelude.{
  ℕ, ◌+◌, ◌-◌, Bool, true, false, not, ◌||◌, ◌&&◌, List, [], ◌∷◌, filter, length, if◌then◌else◌,
  Text, Option, none, some, ◌==◌, nat_eq, text_eq, Map, keys, lookup, insert, erase, ltb,
}
use cpanelde.Prelude.Int.{ℤ, pos, ◌+ℤ◌, ◌-ℤ◌, pos_part}
use cpanelde.Limiter.Users.{is_positive}
use cpanelde.Kernel.ConnTracker.{count_of, over_limit, merge_ips}

-- Email, then source IP, then the number of TCP connections.
abbrev pub IpCounts : Type 0
IpCounts = Map Text (Map Text ℕ)

pub record LimitDispatcher : Type 0 where
  pub limited_ips : IpCounts
  pub device_limits : Map Text ℤ
  pub email_to_uid : Map Text ℕ
  pub unlimited_ips : IpCounts
  pub conn_count : ℤ

-- The dispatcher as the factory makes it.
unfoldable pub new_dispatcher : LimitDispatcher
new_dispatcher = record {
  limited_ips = [];
  device_limits = [];
  email_to_uid = [];
  unlimited_ips = [];
  conn_count = pos 0;
}

unfoldable pub update_limits : LimitDispatcher → Map Text ℕ → Map Text ℤ → LimitDispatcher
update_limits d email_to_uid device_limits = record d {
  email_to_uid = email_to_uid;
  device_limits = device_limits;
}

unfoldable pub reset_conns : LimitDispatcher → LimitDispatcher
reset_conns d = record d { limited_ips = []; unlimited_ips = []; conn_count = pos 0 }

-- Reading a map of maps: a missing user has no IPs.
abbrev pub ips_or_none : Option (Map Text ℕ) → Map Text ℕ
ips_or_none none = []
ips_or_none (some ips) = ips

abbrev pub ips_of : Text → IpCounts → Map Text ℕ
ips_of email m = ips_or_none (lookup email m)

abbrev pub limit_or_zero : Option ℤ → ℤ
limit_or_zero none = pos 0
limit_or_zero (some limit) = limit

abbrev pub limit_of : LimitDispatcher → Text → ℤ
limit_of d email = limit_or_zero (lookup email d.device_limits)

-- ips[sourceIP]++
abbrev pub hold_ip : Text → Map Text ℕ → Map Text ℕ
hold_ip ip ips = insert ip (count_of (lookup ip ips) + 1) ips

-- The decrement, and the deletion of a counter that is no longer positive.
abbrev pub release_ip : Text → Map Text ℕ → Map Text ℕ
release_ip ip ips =
    let n = count_of (lookup ip ips) in if ltb 1 n then insert ip (n - 1) ips else erase ip ips

-- Whether the limit of a limited user turns the IP away.
unfoldable pub over_device_limit : Map Text ℕ → Text → ℕ → Bool
over_device_limit ips ip limit =
    if ltb 0 (count_of (lookup ip ips)) then false else over_limit (keys ips) ip limit

-- The result is true for a connection that must be rejected.
unfoldable pub check_device_limit : LimitDispatcher → Text → Text → Bool → LimitDispatcher × Bool
unfolding over_device_limit
check_device_limit d email ip is_tcp =
    if not (is_positive (limit_of d email))
    then (
      if is_tcp
          then record d {
            unlimited_ips =
                insert email (hold_ip ip (ips_of email d.unlimited_ips)) d.unlimited_ips;
          }
          else d,
      false,
    )
    else let ips = ips_of email d.limited_ips in
      let over = over_device_limit ips ip (pos_part (limit_of d email)) in
      (
        record d {
          limited_ips =
              insert email (if is_tcp && not over then hold_ip ip ips else ips) d.limited_ips;
        },
        over,
      )

-- limitedIPs after a release, which drops a user without IPs.
abbrev pub put_ips : Text → Map Text ℕ → IpCounts → IpCounts
put_ips email [] m = erase email m
put_ips email (e ∷ ips) m = insert email (e ∷ ips) m

unfoldable pub release_limited : LimitDispatcher → Text → Text → LimitDispatcher
release_limited d email ip = elim (lookup email d.limited_ips) [
  | none ↦ d
  | some ips ↦ record d { limited_ips = put_ips email (release_ip ip ips) d.limited_ips }
]

-- An unlimited counter of the IP is taken first.
unfoldable pub del_conn : LimitDispatcher → Text → Text → LimitDispatcher
unfolding release_limited
del_conn d email ip = elim (lookup ip (ips_of email d.unlimited_ips)) [
  | none ↦ release_limited d email ip
  | some n ↦ record d {
    unlimited_ips = insert email (release_ip ip (ips_of email d.unlimited_ips)) d.unlimited_ips;
  }
]

-- Who opens a connection: the user's email and the source IP.
pub record Flow : Type 0 where
  pub email : Text
  pub source_ip : Text
  pub is_tcp : Bool

pub data Identified : Type 0 where
  anonymous : Identified
  rejected : Identified
  admitted : Flow → Identified

-- `user` is the user's email in the session of the inbound, if there is one.
unfoldable pub identify_and_check :
    LimitDispatcher → Option Text → Text → Bool → LimitDispatcher × Identified
identify_and_check d none ip is_tcp = (d, anonymous)
identify_and_check d (some []) ip is_tcp = (d, anonymous)
identify_and_check d (some (c ∷ email)) ip is_tcp =
    let (d', over) = check_device_limit d (c ∷ email) ip is_tcp in
    (
      d',
      if over
          then rejected
          else admitted (record { email = c ∷ email; source_ip = ip; is_tcp = is_tcp }),
    )

unfoldable pub track_link : LimitDispatcher → LimitDispatcher
track_link d = record d { conn_count = d.conn_count +ℤ pos 1 }

abbrev pub release : LimitDispatcher → Flow → LimitDispatcher
release d f = if f.is_tcp then del_conn d f.email f.source_ip else d

-- `onClose` of a tracked link.
unfoldable pub on_close : LimitDispatcher → Flow → LimitDispatcher
on_close d f = let d' = release d f in record d' { conn_count = d'.conn_count -ℤ pos 1 }

-- Close and Interrupt of the tracking writer: the first of them runs `onClose`. The flag is
-- `closed`.
unfoldable pub close_writer : LimitDispatcher → Flow → Bool → LimitDispatcher × Bool
close_writer d f closed = if closed then (d, true) else (on_close d f, true)

-- What the call of the wrapped dispatcher leaves: the error path gives the reference back.
unfoldable pub after_inner : LimitDispatcher → Identified → Bool → LimitDispatcher × Bool
after_inner d anonymous inner_ok = (d, inner_ok)
after_inner d rejected inner_ok = (d, false)
after_inner d (admitted f) inner_ok =
    if inner_ok then (track_link d, true) else (release d f, false)

-- Dispatch; the result tells whether a link is returned. `inner_ok` is what the wrapped dispatcher
-- answers.
unfoldable pub dispatch :
    LimitDispatcher → Option Text → Text → Bool → Bool → LimitDispatcher × Bool
dispatch d user ip is_tcp inner_ok =
    let (d', who) = identify_and_check d user ip is_tcp in after_inner d' who inner_ok

-- DispatchLink tracks the link before it calls the wrapped dispatcher, whose error it returns.
unfoldable pub link_after_check : LimitDispatcher → Identified → Bool → LimitDispatcher × Bool
link_after_check d anonymous inner_ok = (d, inner_ok)
link_after_check d rejected inner_ok = (d, false)
link_after_check d (admitted f) inner_ok = (track_link d, inner_ok)

unfoldable pub dispatch_link :
    LimitDispatcher → Option Text → Text → Bool → Bool → LimitDispatcher × Bool
dispatch_link d user ip is_tcp inner_ok =
    let (d', who) = identify_and_check d user ip is_tcp in link_after_check d' who inner_ok

-- Distinct IPs of an unlimited user whose counter is positive.
abbrev pub alive_of : Map Text ℕ → List Text
alive_of ips = keys (filter (λ e. ltb 0 e.1) ips)

abbrev pub uid_of : Map Text ℕ → Text → ℕ
uid_of uids email = count_of (lookup email uids)

abbrev pub add_alive : ℕ → List Text → Map ℕ (List Text) → Map ℕ (List Text)
add_alive uid [] alive = alive
add_alive uid (ip ∷ ips) alive = if uid == 0 then alive else insert uid (ip ∷ ips) alive

abbrev pub ips_or_empty : Option (List Text) → List Text
ips_or_empty none = []
ips_or_empty (some ips) = ips

abbrev pub merge_alive : ℕ → List Text → Map ℕ (List Text) → Map ℕ (List Text)
merge_alive uid ips alive = add_alive uid (merge_ips ips (ips_or_empty (lookup uid alive))) alive

unfoldable pub limited_alive : Map Text ℕ → IpCounts → Map ℕ (List Text) → Map ℕ (List Text)
limited_alive uids [] alive = alive
limited_alive uids ((email, ips) ∷ m) alive =
    limited_alive uids m (add_alive (uid_of uids email) (keys ips) alive)

unfoldable pub unlimited_alive : Map Text ℕ → IpCounts → Map ℕ (List Text) → Map ℕ (List Text)
unlimited_alive uids [] alive = alive
unlimited_alive uids ((email, ips) ∷ m) alive =
    unlimited_alive uids m (merge_alive (uid_of uids email) (alive_of ips) alive)

unfoldable pub get_connection_state : LimitDispatcher → Map ℕ (List Text) × ℤ
get_connection_state d = (
  unlimited_alive d.email_to_uid d.unlimited_ips (limited_alive d.email_to_uid d.limited_ips []),
  d.conn_count,
)
