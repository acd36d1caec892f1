-- ===== src/Kernel/ConnTracker/Gate.antt =====
-- The device gate against ranks: what the sorting and the scan of `checkDeviceGate` decide.
use cpanelde.Prelude.{
  ℕ, ◌≤◌, ◌≡◌, refl, ap, ◌∙◌, Bool, true, false, not, ◌||◌, ◌&&◌, List, [], ◌∷◌, ◌++◌, length,
  arith, Text, Option, none, some, nat_eq, text_eq, leb, ==_refl, All, keys,
}
use cpanelde.Prelude.Int.{ℤ, pos_part}
use cpanelde.Prelude.Sorting.{
  text_ltb, sort_strings, has_text, count_less, count_less-sort_strings, has_text-sort_strings,
  sort_strings-IsSorted, has_text-take, text_ltb_irrefl,
}
use cpanelde.Limiter.Users.{is_positive}
use cpanelde.Kernel.ConnTracker.{
  UserStats, ConnTracker, selected_out, over_limit, merge_ips, gate, fresh_devices,
  check_device_gate,
}

count_less-snoc : (a : Text) (ips : List Text) → count_less a (ips ++ a ∷ []) ≡ count_less a ips
count_less-snoc a [] = ground (arith, text_ltb_irrefl a)
count_less-snoc a (b ∷ ips) = ground (arith, count_less-snoc a ips)

has_text-snoc : (a : Text) (ips : List Text) → has_text a (ips ++ a ∷ []) ≡ true
has_text-snoc a [] = ground (arith, ==_refl a)
has_text-snoc a (b ∷ ips) = ground (arith, has_text-snoc a ips)

selected_out-rank :
    (ips : List Text) (ip : Text) (limit : ℕ)
    → selected_out ips ip limit ≡ leb limit (count_less ip ips)
unfolding selected_out
selected_out-rank ips ip limit =
    ap not (
      has_text-take ip limit (sort_strings (ips ++ ip ∷ [])) (sort_strings-IsSorted _)
        (has_text-sort_strings ip (ips ++ ip ∷ []) ∙ has_text-snoc ip ips))
    ∙ ground (arith, count_less-sort_strings ip (ips ++ ip ∷ []), count_less-snoc ip ips)

count_less-le-length : (a : Text) (ips : List Text) → count_less a ips ≤ length ips
count_less-le-length a [] = omega arith
count_less-le-length a (b ∷ ips) = ground (arith, count_less-le-length a ips)

pub over_limit-rank :
    (ips : List Text) (ip : Text) (limit : ℕ)
    → over_limit ips ip limit ≡ leb limit (count_less ip ips)
unfolding over_limit
over_limit-rank ips ip limit =
    ground (arith, selected_out-rank ips ip limit, count_less-le-length ip ips)

-- The IPs that compete with a new one: the local ones, with those of other nodes where the panel's
-- state is fresh and knows the user.
abbrev pub competing : List Text → Option (List Text) → List Text
competing local none = local
competing local (some ips) = merge_ips local ips

abbrev pub is_known : List Text → Option (List Text) → Text → Bool
is_known local none ip = has_text ip local
is_known local (some ips) ip = has_text ip local || has_text ip ips

gate-rank :
    (local : List Text) (global : Option (List Text)) (ip : Text) (limit : ℕ)
    → gate local global ip limit
      ≡ not (is_known local global ip) && leb limit (count_less ip (competing local global))
unfolding gate
gate-rank local none ip limit = ground (arith, over_limit-rank local ip limit)
gate-rank local (some ips) ip limit = ground (arith, over_limit-rank (merge_ips local ips) ip limit)

-- A connection is rejected exactly when the limit is positive, its IP is in use neither here nor,
-- by fresh news, on another node, and at least `limit` of the IPs in use come before it in
-- lexicographic order.
pub check_device_gate-rank :
    (t : ConnTracker) (us : UserStats) (uid : ℕ) (ip : Text) (limit : ℤ) (now : ℕ)
    → let local = keys us.ips in
      let global = fresh_devices t uid now in
      check_device_gate t (some us) uid ip limit now
      ≡ is_positive limit
        && (not (is_known local global ip)
            && leb (pos_part limit) (count_less ip (competing local global)))
unfolding check_device_gate
check_device_gate-rank t us uid ip limit now =
    ground (arith, gate-rank (keys us.ips) (fresh_devices t uid now) ip (pos_part limit))

-- No IP of a list comes before the given one.
abbrev pub IsFirst : Text → List Text → Type 0
IsFirst a = All (λ b. text_ltb b a ≡ false)

IsFirst-count : (a : Text) (ips : List Text) → IsFirst a ips → count_less a ips ≡ 0
IsFirst-count a [] h = refl
IsFirst-count a (b ∷ ips) h = ground (arith, IsFirst-count a ips h.1)

-- The number of devices is not bounded by the limit: an IP that comes before all IPs in use is
-- let in, however many are in use and however small the positive limit is.
pub check_device_gate_first :
    (t : ConnTracker) (us : UserStats) (uid : ℕ) (ip : Text) (limit : ℤ) (now : ℕ)
    → IsFirst ip (competing (keys us.ips) (fresh_devices t uid now))
    → check_device_gate t (some us) uid ip limit now ≡ false
check_device_gate_first t us uid ip limit now first =
    check_device_gate-rank t us uid ip limit now
    ∙ ground (arith, IsFirst-count ip (competing (keys us.ips) (fresh_devices t uid now)) first)
