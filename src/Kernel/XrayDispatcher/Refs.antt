-- ===== src/Kernel/XrayDispatcher/Refs.antt =====
-- The counters of the two kinds together: what an admission adds and what a release takes away.
use cpanelde.Prelude.{
  ℕ, zero, suc, ◌+◌, ◌-◌, ◌<◌, ◌≡◌, ap, sym, ◌∙◌, Bool, true, not, ◌&&◌, arith, if◌then◌else◌, Text,
  none, some, text_eq, Map, lookup, insert, Bool-cases, Option-cases, inl, inr, eq_of_beq,
}
use mathlib.Core.Path.{subst}
use cpanelde.Prelude.Int.{pos_part}
use cpanelde.Limiter.Users.{is_positive}
use cpanelde.Kernel.ConnTracker.{count_of}
use cpanelde.Kernel.ConnTracker.Counts.{positive_count, count_of-positive_count}
use cpanelde.Kernel.XrayDispatcher.{
  IpCounts, LimitDispatcher, ips_or_none, ips_of, limit_of, hold_ip, release_ip, put_ips,
  over_device_limit, check_device_limit, release_limited, del_conn,
}
use cpanelde.Kernel.XrayDispatcher.Counts.{
  entry, same_flow, entry-insert, entry-hold, entry-same, entry-put_ips, released, entry-release,
}

-- The counters of the two kinds together.
abbrev pub refs : LimitDispatcher → Text → Text → ℕ
refs d e i = count_of (entry e i d.unlimited_ips) + count_of (entry e i d.limited_ips)

-- No counter is stored that is 0.
abbrev pub NoZero : IpCounts → Type 0
NoZero m = (e i : Text) → entry e i m ≡ positive_count (count_of (entry e i m))

-- The counters add up to given numbers.
pub record Refs (d : LimitDispatcher) (n : Text → Text → ℕ) : Type 0 where
  pub exact : (e i : Text) → refs d e i ≡ n e i
  pub unlimited : NoZero d.unlimited_ips
  pub limited : NoZero d.limited_ips

abbrev pub plus_one : Bool → Text → Text → (Text → Text → ℕ) → Text → Text → ℕ
plus_one counted email ip n e i = if counted && same_flow e i email ip then suc (n e i) else n e i

abbrev pub minus_one : Bool → Text → Text → (Text → Text → ℕ) → Text → Text → ℕ
minus_one counted email ip n e i = if counted && same_flow e i email ip then n e i - 1 else n e i

abbrev held : IpCounts → Text → Text → IpCounts
held m email ip = insert email (hold_ip ip (ips_of email m)) m

same_entry :
    (e i email ip : Text) (m : IpCounts)
    → same_flow e i email ip ≡ true
    → entry email ip m ≡ entry e i m
same_entry e i email ip m same =
    let user : e ≡ email = eq_of_beq e email (ground (arith, same)) in
    let addr : i ≡ ip = eq_of_beq i ip (ground (arith, same)) in
    cc (ap (λ t. entry t ip m) user, ap (λ t. entry e t m) addr)

module _ (m : IpCounts) (email ip e i : Text) where
  count-held :
      count_of (entry e i (held m email ip))
      ≡ plus_one true email ip (λ a b. count_of (entry a b m)) e i
  count-held = ground (arith, entry-hold e i email ip m, same_entry e i email ip m)

  count-released :
      count_of (released e i email ip m)
      ≡ minus_one true email ip (λ a b. count_of (entry a b m)) e i
  count-released =
      ground
        (arith, same_entry e i email ip m, count_of-positive_count (count_of (entry e i m) - 1))

held-NoZero : (m : IpCounts) (email ip : Text) → NoZero m → NoZero (held m email ip)
held-NoZero m email ip h e i = elim (Bool-cases (same_flow e i email ip)) [
  | inl same ↦ rw (entry-hold e i email ip m, same) (one (count_of (entry email ip m)))
  | inr other ↦ rw (entry-hold e i email ip m, other) (h e i)
]
  where
    next : (n : ℕ) → n + 1 ≡ suc n
    next n = omega arith

    one : (n : ℕ) → some (n + 1) ≡ positive_count (n + 1)
    one n = ap some (next n) ∙ sym (ap positive_count (next n))

hold_unlimited-Refs :
    (d : LimitDispatcher) (n : Text → Text → ℕ) (email ip : Text)
    → Refs d n
    → Refs (record d { unlimited_ips = held d.unlimited_ips email ip }) (plus_one true email ip n)
hold_unlimited-Refs d n email ip r = record {
  exact = λ e i. ground (arith, r.exact e i, count-held d.unlimited_ips email ip e i);
  unlimited = held-NoZero d.unlimited_ips email ip r.unlimited;
  limited = r.limited;
}

hold_limited-Refs :
    (d : LimitDispatcher) (n : Text → Text → ℕ) (email ip : Text)
    → Refs d n
    → Refs (record d { limited_ips = held d.limited_ips email ip }) (plus_one true email ip n)
hold_limited-Refs d n email ip r = record {
  exact = λ e i. ground (arith, r.exact e i, count-held d.limited_ips email ip e i);
  unlimited = r.unlimited;
  limited = held-NoZero d.limited_ips email ip r.limited;
}

same_limited-Refs :
    (d : LimitDispatcher) (n : Text → Text → ℕ) (email : Text)
    → Refs d n
    → Refs (record d { limited_ips = insert email (ips_of email d.limited_ips) d.limited_ips }) n
same_limited-Refs d n email r = record {
  exact = λ e i.
      ap (λ c. count_of (entry e i d.unlimited_ips) + count_of c)
        (entry-same e i email d.limited_ips)
      ∙ r.exact e i;
  unlimited = r.unlimited;
  limited = λ e i. rw (entry-same e i email d.limited_ips) (r.limited e i);
}

-- What an admission adds.
pub check_device_limit-Refs :
    (d : LimitDispatcher) (n : Text → Text → ℕ) (email ip : Text) (is_tcp : Bool)
    → Refs d n
    → Refs
        (check_device_limit d email ip is_tcp).0
        (plus_one (is_tcp && not (check_device_limit d email ip is_tcp).1) email ip n)
unfolding check_device_limit
check_device_limit-Refs d n email ip is_tcp r = elim (Bool-cases (is_positive (limit_of d email))) [
  | inr free ↦ elim (Bool-cases is_tcp) [
    | inl tcp ↦ rw (free, tcp) (hold_unlimited-Refs d n email ip r)
    | inr udp ↦ rw (free, udp) r
  ]
  | inl bounded ↦ elim (Bool-cases (is_tcp && not over)) [
    | inl counted ↦ rw (bounded, counted) (hold_limited-Refs d n email ip r)
    | inr dropped ↦ rw (bounded, dropped) (same_limited-Refs d n email r)
  ]
]
  where
    over : Bool
    over = over_device_limit (ips_of email d.limited_ips) ip (pos_part (limit_of d email))

released-positive :
    (m : IpCounts) (email ip e i : Text)
    → NoZero m
    → released e i email ip m ≡ positive_count (count_of (released e i email ip m))
released-positive m email ip e i h = elim (Bool-cases (same_flow e i email ip)) [
  | inl same ↦
      rw same (sym (ap positive_count (count_of-positive_count (count_of (entry email ip m) - 1))))
  | inr other ↦ rw other (h e i)
]

-- The counters after a release, wherever it is stored.
abbrev Released : Text → Text → IpCounts → IpCounts → Type 0
Released email ip m m' = (e i : Text) → entry e i m' ≡ released e i email ip m

Released-NoZero :
    (email ip : Text) (m m' : IpCounts) → Released email ip m m' → NoZero m → NoZero m'
Released-NoZero email ip m m' q h e i = rw (q e i) (released-positive m email ip e i h)

insert-Released :
    (email ip : Text) (m : IpCounts)
    → Released email ip m (insert email (release_ip ip (ips_of email m)) m)
insert-Released email ip m e i =
    entry-insert e i email (release_ip ip (ips_of email m)) m ∙ entry-release e i email ip m

put_ips-Released :
    (email ip : Text) (m : IpCounts)
    → Released email ip m (put_ips email (release_ip ip (ips_of email m)) m)
put_ips-Released email ip m e i =
    entry-put_ips e i email (release_ip ip (ips_of email m)) m ∙ entry-release e i email ip m

module _ (d : LimitDispatcher) (n : Text → Text → ℕ) (email ip : Text) (r : Refs d n) where
  take_unlimited-Refs :
      (m : IpCounts)
      → 0 < count_of (entry email ip d.unlimited_ips)
      → Released email ip d.unlimited_ips m
      → Refs (record d { unlimited_ips = m }) (minus_one true email ip n)
  take_unlimited-Refs m some_left q = record {
    exact = λ e i. ground (
      arith,
      r.exact e i,
      q e i,
      count-released d.unlimited_ips email ip e i,
      same_entry e i email ip d.unlimited_ips,
      some_left,
    );
    unlimited = Released-NoZero email ip d.unlimited_ips m q r.unlimited;
    limited = r.limited;
  }

  take_limited-Refs :
      (m : IpCounts)
      → 0 < count_of (entry email ip d.limited_ips)
      → Released email ip d.limited_ips m
      → Refs (record d { limited_ips = m }) (minus_one true email ip n)
  take_limited-Refs m some_left q = record {
    exact = λ e i. ground (
      arith,
      r.exact e i,
      q e i,
      count-released d.limited_ips email ip e i,
      same_entry e i email ip d.limited_ips,
      some_left,
    );
    unlimited = r.unlimited;
    limited = Released-NoZero email ip d.limited_ips m q r.limited;
  }

  stored_positive : (k : ℕ) → entry email ip d.unlimited_ips ≡ some k → 0 < k
  stored_positive zero e = cc (e, r.unlimited email ip)
  stored_positive (suc k) e = omega arith

  -- What a release takes away, where the user has a connection from the IP.
  pub del_conn-Refs : 0 < n email ip → Refs (del_conn d email ip) (minus_one true email ip n)
  unfolding del_conn release_limited lookup
  del_conn-Refs open_one = elim (Option-cases (entry email ip d.unlimited_ips)) [
    | inr (k, e) ↦
        rw (e, del_conn)
          (take_unlimited-Refs _ (ground (arith, e, stored_positive k e))
            (insert-Released email ip d.unlimited_ips))
    | inl e ↦
        let left : 0 < count_of (entry email ip d.limited_ips) =
          ground (arith, e, r.exact email ip, open_one) in
        elim (Option-cases (lookup email d.limited_ips)) [
          | inl gone ↦ absurd (missing gone left)
          | inr (ips, found) ↦
              rw (e, found, del_conn, release_limited) (take_limited-Refs _ left (stored ips found))
        ]
  ]
    where
      missing : lookup email d.limited_ips ≡ none → ¬ (0 < count_of (entry email ip d.limited_ips))
      missing gone left = omega (arith, left, ap (λ o. count_of (lookup ip (ips_or_none o))) gone)

      stored :
          (ips : Map Text ℕ)
          → lookup email d.limited_ips ≡ some ips
          → Released email ip d.limited_ips (put_ips email (release_ip ip ips) d.limited_ips)
      stored ips found =
          subst
            (λ s. Released email ip d.limited_ips (put_ips email (release_ip ip s) d.limited_ips))
            (ap ips_or_none found) (put_ips-Released email ip d.limited_ips)
