-- ===== src/Kernel/XrayDispatcher/Rank.antt =====
-- When the device limit of the dispatcher rejects.
use cpanelde.Prelude.{◌≡◌, Bool, ◌&&◌, arith, Text, text_eq, keys, leb}
use cpanelde.Prelude.Int.{pos_part}
use cpanelde.Prelude.Sorting.{count_less}
use cpanelde.Limiter.Users.{is_positive}
use cpanelde.Kernel.ConnTracker.{count_of}
use cpanelde.Kernel.ConnTracker.Gate.{over_limit-rank}
use cpanelde.Kernel.XrayDispatcher.{
  LimitDispatcher, ips_of, limit_of, over_device_limit, check_device_limit,
}
use cpanelde.Kernel.XrayDispatcher.Counts.{entry}

-- A connection is rejected exactly when the user has a positive limit, no open connection is
-- counted under that limit for its IP, and at least `limit` of the IPs that are counted come before
-- it in lexicographic order.
pub check_device_limit-rank :
    (d : LimitDispatcher) (email ip : Text) (is_tcp : Bool)
    → (check_device_limit d email ip is_tcp).1
      ≡ is_positive (limit_of d email)
        && (leb (count_of (entry email ip d.limited_ips)) 0
            && leb
                (pos_part (limit_of d email))
                (count_less ip (keys (ips_of email d.limited_ips))))
unfolding check_device_limit over_device_limit
check_device_limit-rank d email ip is_tcp =
    ground
      (arith, over_limit-rank (keys (ips_of email d.limited_ips)) ip (pos_part (limit_of d email)))
