-- ===== src/Tests/Conns.antt =====
-- The connection tracker of internal/kernel/singbox/conntracker.go on two connections.
use cpanelde.Prelude.{
  ◌≡◌, true, false, not, ◌&&◌, [], ◌∷◌, Text, codes, some, nat_eq, text_eq, keys, leb,
}
use cpanelde.Prelude.Int.{pos, pos_part}
use cpanelde.Prelude.Sorting.{count_less}
use cpanelde.Limiter.Users.{is_positive}
use cpanelde.Kernel.ConnTracker.{
  UserStats, ConnTracker, new_stats, new_conn_tracker, set_user_map, check_device_gate,
  fresh_devices, add_conn,
}
use cpanelde.Kernel.ConnTracker.Conns.{TrackedConn, Limits, routed}
use cpanelde.Kernel.ConnTracker.Gate.{is_known, competing, check_device_gate-rank}
use cpanelde.Kernel.ConnTracker.Counts.{Counts, new_stats-Counts, add_conn-Counts}
use cpanelde.Kernel.ConnTracker.Tally.{Tally, admitted}
use cpanelde.Kernel.ConnTracker.Life.{started, mapped, arrived, Life-Tally}

abbrev two : Text
two = codes "2.2.2.2"

abbrev one : Text
one = codes "1.1.1.1"

abbrev stats : UserStats
stats = record { upload = 0; download = 0; ips = (two, 1) ∷ []; conn_count = pos 1 }

abbrev tracker : ConnTracker
tracker = record {
  users = (7, stats) ∷ [];
  uuid_map = (codes "a", 7) ∷ [];
  conn_map = [];
  id_counter = 1;
  global_devices = (7, codes "3.3.3.3" ∷ []) ∷ [];
  global_last_update = some 100;
}

check_device_gate-rank_example :
    check_device_gate tracker (some stats) 7 (codes "4.4.4.4") (pos 2) 130
    ≡ is_positive (pos 2)
      && (not (is_known (keys stats.ips) (fresh_devices tracker 7 130) (codes "4.4.4.4"))
          && leb (pos_part (pos 2)) (
              count_less
                (codes "4.4.4.4")
                (competing (keys stats.ips) (fresh_devices tracker 7 130))))
check_device_gate-rank_example =
    check_device_gate-rank tracker stats 7 (codes "4.4.4.4") (pos 2) 130

one-Counts : Counts (add_conn new_stats one) (one ∷ [])
one-Counts = add_conn-Counts new_stats [] one new_stats-Counts

abbrev limit_two : Limits
limit_two = some (λ uuid. some (pos 2))

abbrev mapped_tracker : ConnTracker
mapped_tracker = set_user_map new_conn_tracker ((codes "a", 7) ∷ [])

Life-Tally_example :
    Tally
      (routed true mapped_tracker limit_two (codes "a") two 5).0.users
      (admitted (routed true mapped_tracker limit_two (codes "a") two 5).1 [])
Life-Tally_example =
    Life-Tally (arrived true limit_two (codes "a") two 5 (mapped ((codes "a", 7) ∷ []) started))

abbrev conn : TrackedConn
conn = record { us = some 7; user_id = 7; conn_id = 1; source_ip = two; closed = false }
