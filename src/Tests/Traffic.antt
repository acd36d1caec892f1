-- ===== src/Tests/Traffic.antt =====
-- internal/tracker/tracker.go on one user.
use cpanelde.Prelude.{◌≡◌, refl, arith, [], ◌∷◌, ◌++◌, Text, codes, none, nat_eq, text_eq, lookup}
use cpanelde.Prelude.Sorting.{text_ltb}
use cpanelde.Tracker.{
  Bytes, zero_bytes, get, ◌+B◌, Tracker, new_tracker, process, flush_traffic, calc_alive_ips_hash,
  flush_alive_ips,
}
use cpanelde.Tracker.Ledger.{started, processed, flushed, Run-balance}
use cpanelde.Tracker.Alive.{flush_alive_ips_misses, pair_of}

abbrev ten : Bytes
ten = record { up = 10; down = 3 }

abbrev after_cycle : Tracker
after_cycle = process new_tracker ((5, ten) ∷ []) [] 1

Run-balance_example :
    (zero_bytes +B get 5 (flush_traffic after_cycle).1)
      +B get 5 (flush_traffic after_cycle).0.pending_traffic
    ≡ get 5 (flush_traffic after_cycle).0.last_seen
unfolding lookup new_tracker
Run-balance_example =
    Run-balance {j = 5}
      (flushed (processed ((5, ten) ∷ []) [] 1 (refl, tt) (omega arith, omega arith) started))

abbrev lengths : Text → Text
lengths s = s

abbrev reported : Tracker
reported = record {
  last_seen = [];
  pending_traffic = [];
  live = record {
    traffic = [];
    alive_ips = pair_of 5 (codes "1.1.1.1") (codes "12.2.2.2");
    online = [];
    conn_count = 0;
    in_speed = 0;
    out_speed = 0;
  };
  alive_ips_buf = [];
  last_alive_ips_hash =
      calc_alive_ips_hash lengths (pair_of 5 (codes "1.1.1.1" ++ codes "1") (codes "2.2.2.2"));
}

flush_alive_ips_misses_example : (flush_alive_ips lengths reported).1 ≡ none
unfolding text_ltb
flush_alive_ips_misses_example =
    flush_alive_ips_misses lengths reported 5 (codes "1.1.1.1") (codes "1") (codes "2.2.2.2") refl
      refl refl refl
