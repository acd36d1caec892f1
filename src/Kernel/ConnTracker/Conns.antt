-- ===== src/Kernel/ConnTracker/Conns.antt =====
-- The life of a connection: `RoutedConnection`, `RoutedPacketConnection`, `Read`, `Write`, `Close`,
-- `GetUserTraffic`, `ActiveCount`, `CloseByID`. A connection's number stands for its id, which
-- `formatInt36` prints.
use cpanelde.Prelude.{
  ℕ, ◌+◌, Bool, true, false, ◌||◌, List, [], ◌∷◌, if◌then◌else◌, Text, Option, none, some, nat_eq,
  text_eq, Map, lookup, insert, erase, has_key, ltb,
}
use cpanelde.Prelude.Int.{ℤ, pos, ◌+ℤ◌}
use cpanelde.Kernel.ConnTracker.{
  UserStats, ConnTracker, add_conn, remove_conn, count_of, check_device_gate, alive_ip_list,
}

-- A wrapped connection. `us` is the user whose statistics it counts into, if any.
pub record TrackedConn : Type 0 where
  pub us : Option ℕ
  pub user_id : ℕ
  pub conn_id : ℕ
  pub source_ip : Text
  pub closed : Bool

abbrev pub Limits : Type 0
Limits = Option (Text → Option ℤ)

-- The statistics of one user are changed in place.
abbrev pub modify_stats : Option UserStats → ℕ → (UserStats → UserStats) → ConnTracker → ConnTracker
modify_stats none uid f t = t
modify_stats (some us) uid f t = record t { users = insert uid (f us) t.users }

abbrev pub with_stats : Option ℕ → (UserStats → UserStats) → ConnTracker → ConnTracker
with_stats none f t = t
with_stats (some uid) f t = modify_stats (lookup uid t.users) uid f t

-- A UUID that is not in the map has the user id 0.
abbrev pub user_id_of : ConnTracker → Text → ℕ
user_id_of t uuid = count_of (lookup uuid t.uuid_map)

-- The gate, if there is a limit function and it knows a limit.
unfoldable pub rejects : ConnTracker → Limits → Text → Text → ℕ → Bool
rejects t none uuid ip now = false
rejects t (some limit_of) uuid ip now = elim (limit_of uuid) [
  | none ↦ false
  | some limit ↦
      check_device_gate t (lookup (user_id_of t uuid) t.users) (user_id_of t uuid) ip limit now
]

abbrev pub stats_key : Option UserStats → ℕ → Option ℕ
stats_key none uid = none
stats_key (some us) uid = some uid

-- What happens to a connection that passed the gate. Only a TCP connection is kept in `connMap`.
unfoldable pub register :
    Bool → ConnTracker → ℕ → Option UserStats → Text → ConnTracker × TrackedConn
register tcp t uid us ip =
    let t' = modify_stats us uid (λ u. add_conn u ip) t in
    let id = t'.id_counter + 1 in
    (
      record t' {
        id_counter = id;
        conn_map = if tcp then insert id tt t'.conn_map else t'.conn_map;
      },
      record { us = stats_key us uid; user_id = uid; conn_id = id; source_ip = ip; closed = false },
    )

-- `none` is a connection that the gate closed.
unfoldable pub routed :
    Bool → ConnTracker → Limits → Text → Text → ℕ → ConnTracker × Option TrackedConn
unfolding rejects
routed tcp t limits uuid ip now =
    if rejects t limits uuid ip now
    then (t, none)
    else let uid = user_id_of t uuid in
      let (t', c) = register tcp t uid (lookup uid t.users) ip in (t', some c)

unfoldable pub routed_connection :
    ConnTracker → Limits → Text → Text → ℕ → ConnTracker × Option TrackedConn
routed_connection = routed true

unfoldable pub routed_packet_connection :
    ConnTracker → Limits → Text → Text → ℕ → ConnTracker × Option TrackedConn
routed_packet_connection = routed false

-- The byte counts of a read or a write that moved `n` bytes.
unfoldable pub counted_read : ConnTracker → TrackedConn → ℕ → ConnTracker
counted_read t c n = with_stats c.us (λ u. record u { upload = u.upload + n }) t

unfoldable pub counted_write : ConnTracker → TrackedConn → ℕ → ConnTracker
counted_write t c n = with_stats c.us (λ u. record u { download = u.download + n }) t

-- The swap of `closed` lets only the first close take effect.
unfoldable pub close : ConnTracker → TrackedConn → ConnTracker × TrackedConn
close t c =
    if c.closed
    then (t, c)
    else let t' = with_stats c.us (λ u. remove_conn u c.source_ip) t in
      (record t' { conn_map = erase c.conn_id t'.conn_map }, record c { closed = true })

-- Whether the connection is there to be closed by force.
unfoldable pub close_by_id : ConnTracker → ℕ → Bool
close_by_id t id = has_key id t.conn_map

unfoldable pub active_count : Map ℕ UserStats → ℤ
active_count [] = pos 0
active_count ((uid, us) ∷ users) = us.conn_count +ℤ active_count users

pub record UserTraffic : Type 0 where
  pub traffic : Map ℕ (ℕ × ℕ)
  pub alive_ips : Map ℕ (List Text)
  pub conn_count : ℤ

abbrev pub with_alive : ℕ → Option (List Text) → Map ℕ (List Text) → Map ℕ (List Text)
with_alive uid none m = m
with_alive uid (some ips) m = insert uid ips m

unfoldable pub get_user_traffic : Map ℕ UserStats → UserTraffic → UserTraffic
get_user_traffic [] r = r
get_user_traffic ((uid, us) ∷ users) r = get_user_traffic users (record r {
  traffic =
      if ltb 0 us.upload || ltb 0 us.download
      then insert uid (us.upload, us.download) r.traffic
      else r.traffic;
  alive_ips = with_alive uid (alive_ip_list us) r.alive_ips;
  conn_count = r.conn_count +ℤ us.conn_count;
})
