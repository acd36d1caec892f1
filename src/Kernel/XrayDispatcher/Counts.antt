-- ===== src/Kernel/XrayDispatcher/Counts.antt =====
-- The counters of the dispatcher, one by one: what an admission and a release do to each, and when
-- the device limit rejects.
use cpanelde.Prelude.{
  ℕ, zero, suc, ◌+◌, ◌-◌, ◌≡◌, refl, ap, Bool, true, ◌&&◌, [], ◌∷◌, arith, if◌then◌else◌, Text,
  Option, none, some, ◌==◌, text_eq, Map, lookup, insert, erase, ltb, lookup-insert, lookup-erase,
  Bool-cases, inl, inr, eq_of_beq,
}
use cpanelde.Kernel.ConnTracker.{count_of}
use cpanelde.Kernel.ConnTracker.Counts.{positive_count}
use cpanelde.Kernel.XrayDispatcher.{IpCounts, ips_of, hold_ip, release_ip, put_ips}

abbrev pub entry : Text → Text → IpCounts → Option ℕ
entry email ip m = lookup ip (ips_of email m)

abbrev pub same_flow : Text → Text → Text → Text → Bool
same_flow e i email ip = (e == email) && (i == ip)

pub entry-insert :
    (e i email : Text) (ips : Map Text ℕ) (m : IpCounts)
    → entry e i (insert email ips m) ≡ (if e == email then lookup i ips else entry e i m)
entry-insert e i email ips m = ground (arith, lookup-insert e email ips m)

pub entry-erase :
    (e i email : Text) (m : IpCounts)
    → entry e i (erase email m) ≡ (if e == email then none else entry e i m)
unfolding lookup
entry-erase e i email m = ground (arith, lookup-erase e email m)

pub entry_eq :
    (e i email : Text) (m : IpCounts) → (e == email) ≡ true → entry e i m ≡ entry email i m
entry_eq e i email m same = ap (λ t. entry t i m) (eq_of_beq e email same)

pub lookup-release_ip :
    (i ip : Text) (ips : Map Text ℕ)
    → lookup i (release_ip ip ips)
      ≡ (if i == ip then positive_count (count_of (lookup ip ips) - 1) else lookup i ips)
lookup-release_ip i ip ips = ground (
  arith,
  lookup-insert i ip (count_of (lookup ip ips) - 1) ips,
  lookup-erase i ip ips,
  one (count_of (lookup ip ips)),
)
  where
    positive : (n : ℕ) → positive_count n ≡ (if ltb 0 n then some n else none)
    positive zero = refl
    positive (suc n) = ground arith

    one : (n : ℕ) → positive_count (n - 1) ≡ (if ltb 1 n then some (n - 1) else none)
    one n = ground (arith, positive (n - 1))

-- The counter of one flow after an admission under a user.
pub entry-hold :
    (e i email ip : Text) (m : IpCounts)
    → entry e i (insert email (hold_ip ip (ips_of email m)) m)
      ≡ (if same_flow e i email ip then some (count_of (entry email ip m) + 1) else entry e i m)
entry-hold e i email ip m = elim (Bool-cases (e == email)) [
  | inl same ↦ ground (
    arith,
    same,
    entry-insert e i email (hold_ip ip (ips_of email m)) m,
    lookup-insert i ip (count_of (entry email ip m) + 1) (ips_of email m),
    entry_eq e i email m same,
  )
  | inr other ↦ ground (arith, other, entry-insert e i email (hold_ip ip (ips_of email m)) m)
]

-- Storing the IPs of a user that are there changes no counter.
pub entry-same :
    (e i email : Text) (m : IpCounts) → entry e i (insert email (ips_of email m) m) ≡ entry e i m
entry-same e i email m = elim (Bool-cases (e == email)) [
  | inl same ↦
      ground (arith, same, entry-insert e i email (ips_of email m) m, entry_eq e i email m same)
  | inr other ↦ ground (arith, other, entry-insert e i email (ips_of email m) m)
]

pub entry-put_ips :
    (e i email : Text) (ips : Map Text ℕ) (m : IpCounts)
    → entry e i (put_ips email ips m) ≡ (if e == email then lookup i ips else entry e i m)
unfolding lookup
entry-put_ips e i email [] m = entry-erase e i email m
entry-put_ips e i email (k ∷ ips) m = entry-insert e i email (k ∷ ips) m

abbrev pub released : Text → Text → Text → Text → IpCounts → Option ℕ
released e i email ip m =
    if same_flow e i email ip then positive_count (count_of (entry email ip m) - 1) else entry e i m

pub entry-release :
    (e i email ip : Text) (m : IpCounts)
    → (if e == email then lookup i (release_ip ip (ips_of email m)) else entry e i m)
      ≡ released e i email ip m
entry-release e i email ip m = elim (Bool-cases (e == email)) [
  | inl same ↦
      ground (arith, same, lookup-release_ip i ip (ips_of email m), entry_eq e i email m same)
  | inr other ↦ ground (arith, other)
]
