-- ===== src/Kernel/ConnTracker/Life.antt =====
-- The tracker over any history of connections: what its counters say of those that are open.
use cpanelde.Prelude.{
  ℕ, ◌+◌, ◌≡◌, refl, Bool, false, List, [], ◌∷◌, ◌++◌, arith, Text, nat_eq, text_eq, Map, lookup,
}
use mathlib.Core.Path.{subst}
use cpanelde.Kernel.ConnTracker.{
  UserStats, ConnTracker, new_conn_tracker, set_user_map, update_global_devices,
  clear_global_devices,
}
use cpanelde.Kernel.ConnTracker.Conns.{
  TrackedConn, Limits, routed, close, counted_read, counted_write,
}
use cpanelde.Kernel.ConnTracker.Counts.{Counts}
use cpanelde.Kernel.ConnTracker.Tally.{
  Tally, admitted, with_stats-Tally, routed-Tally, close-Tally, ensure_stats-Tally,
}

-- A history of the tracker, with the connections that are open at its end. Each open connection is
-- one that `routed` let in and that has not been closed.
pub data Life : ConnTracker → List TrackedConn → Type 0 where
  started : Life new_conn_tracker []
  mapped :
      {t : ConnTracker} {open_conns : List TrackedConn} (m : Map Text ℕ)
      → Life t open_conns
      → Life (set_user_map t m) open_conns
  synced :
      {t : ConnTracker} {open_conns : List TrackedConn} (devices : Map ℕ (List Text)) (now : ℕ)
      → Life t open_conns
      → Life (update_global_devices t devices now) open_conns
  cleared :
      {t : ConnTracker} {open_conns : List TrackedConn}
      → Life t open_conns
      → Life (clear_global_devices t) open_conns
  arrived :
      {t : ConnTracker} {open_conns : List TrackedConn} (tcp : Bool) (limits : Limits)
      (uuid ip : Text) (now : ℕ)
      → Life t open_conns
      → Life
          (routed tcp t limits uuid ip now).0
          (admitted (routed tcp t limits uuid ip now).1 open_conns)
  read :
      {t : ConnTracker} {open_conns : List TrackedConn} (c : TrackedConn) (n : ℕ)
      → Life t open_conns
      → Life (counted_read t c n) open_conns
  wrote :
      {t : ConnTracker} {open_conns : List TrackedConn} (c : TrackedConn) (n : ℕ)
      → Life t open_conns
      → Life (counted_write t c n) open_conns
  ended :
      {t : ConnTracker} {open_conns : List TrackedConn} (c : TrackedConn)
      (pre post : List TrackedConn)
      → c.closed ≡ false
      → open_conns ≡ pre ++ c ∷ post
      → Life t open_conns
      → Life (close t c).0 (pre ++ post)

start-Tally : Tally new_conn_tracker.users []
unfolding new_conn_tracker lookup
start-Tally = record { exact = λ n u e. cc; absent = λ n e. refl }

keeps_upload :
    (n : ℕ) (u : UserStats) (ips : List Text)
    → Counts u ips
    → Counts (record u { upload = u.upload + n }) ips
keeps_upload n u ips c = record { per_ip = c.per_ip; total = c.total }

keeps_download :
    (n : ℕ) (u : UserStats) (ips : List Text)
    → Counts u ips
    → Counts (record u { download = u.download + n }) ips
keeps_download n u ips c = record { per_ip = c.per_ip; total = c.total }

-- Whatever has happened, the statistics of every user count the connections that are open for that
-- user exactly: for each source IP how many there are, with no entry for an IP with none, and
-- their number in all.
pub Life-Tally :
    {t : ConnTracker} {open_conns : List TrackedConn} → Life t open_conns → Tally t.users open_conns
unfolding set_user_map update_global_devices clear_global_devices counted_read counted_write
Life-Tally started = start-Tally
Life-Tally (mapped {t} {open_conns} m l) = ensure_stats-Tally m t.users open_conns (Life-Tally l)
Life-Tally (synced devices now l) = Life-Tally l
Life-Tally (cleared l) = Life-Tally l
Life-Tally (arrived {t} {open_conns} tcp limits uuid ip now l) =
    routed-Tally tcp t limits uuid ip now open_conns (Life-Tally l)
Life-Tally (read {t} {open_conns} c n l) =
    with_stats-Tally t open_conns c.us _ (keeps_upload n) (Life-Tally l)
Life-Tally (wrote {t} {open_conns} c n l) =
    with_stats-Tally t open_conns c.us _ (keeps_download n) (Life-Tally l)
Life-Tally (ended {t} {open_conns} c pre post live e l) =
    close-Tally t c pre post live (subst (Tally t.users) e (Life-Tally l))

-- Closing a connection again changes nothing.
pub close_twice :
    (t : ConnTracker) (c : TrackedConn) → close (close t c).0 (close t c).1 ≡ close t c
unfolding close
close_twice t c = ground arith
