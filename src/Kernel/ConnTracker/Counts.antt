-- ===== src/Kernel/ConnTracker/Counts.antt =====
-- The counters of a user against the connections that are open.
use cpanelde.Prelude.{
  ℕ, zero, suc, ◌+◌, ◌-◌, ◌<◌, ◌≡◌, refl, ap, ◌∙◌, false, List, [], ◌∷◌, ◌++◌, arith, if◌then◌else◌,
  Text, Option, none, some, ◌==◌, nat_eq, text_eq, lookup, insert, erase, ltb, lookup-insert,
  lookup-erase, Bool-cases, inl, inr, length, eq_of_beq, ==_refl,
}
use cpanelde.Prelude.Int.{pos, ◌+ℤ◌, ◌-ℤ◌}
use cpanelde.Kernel.ConnTracker.{UserStats, new_stats, add_conn, remove_conn, count_of}

-- How many open connections come from an IP.
abbrev pub count_ip : Text → List Text → ℕ
count_ip ip [] = 0
count_ip ip (j ∷ open_ips) = if ip == j then suc (count_ip ip open_ips) else count_ip ip open_ips

abbrev pub positive_count : ℕ → Option ℕ
positive_count zero = none
positive_count (suc n) = some (suc n)

-- The statistics count the open connections, given by their source IPs: for each IP how many come
-- from it, with no entry for none, and in all.
pub record Counts (u : UserStats) (open_ips : List Text) : Type 0 where
  pub per_ip : (ip : Text) → lookup ip u.ips ≡ positive_count (count_ip ip open_ips)
  pub total : u.conn_count ≡ pos (length open_ips)

-- A list without the first occurrence of an IP.
abbrev pub drop_ip : Text → List Text → List Text
drop_ip ip [] = []
drop_ip ip (j ∷ open_ips) = if ip == j then open_ips else j ∷ drop_ip ip open_ips

pub new_stats-Counts : Counts new_stats []
unfolding lookup
new_stats-Counts = record { per_ip = λ ip. refl; total = refl }

pub count_of-positive_count : (n : ℕ) → count_of (positive_count n) ≡ n
count_of-positive_count zero = refl
count_of-positive_count (suc n) = refl

pub add_conn-Counts :
    (u : UserStats) (open_ips : List Text) (ip : Text)
    → Counts u open_ips
    → Counts (add_conn u ip) (ip ∷ open_ips)
unfolding add_conn ◌+ℤ◌
add_conn-Counts u open_ips ip c = record { per_ip = λ j. entry j; total = ground (arith, c.total) }
  where
    count : count_of (lookup ip u.ips) ≡ count_ip ip open_ips
    count = ap count_of (c.per_ip ip) ∙ count_of-positive_count (count_ip ip open_ips)

    entry :
        (j : Text)
        → lookup j (insert ip (count_of (lookup ip u.ips) + 1) u.ips)
          ≡ positive_count (count_ip j (ip ∷ open_ips))
    entry j = elim (Bool-cases (j == ip)) [
      | inl same ↦ ground (
        arith,
        same,
        lookup-insert j ip (count_of (lookup ip u.ips) + 1) u.ips,
        count,
        ap (λ t. count_ip t open_ips) (eq_of_beq j ip same),
      )
      | inr other ↦ lookup-insert j ip _ u.ips ∙ rw other (c.per_ip j)
    ]

count_ip-drop_ip_self :
    (ip : Text) (open_ips : List Text)
    → count_ip ip (drop_ip ip open_ips) ≡ count_ip ip open_ips - 1
count_ip-drop_ip_self ip [] = refl
count_ip-drop_ip_self ip (k ∷ open_ips) = ground (arith, count_ip-drop_ip_self ip open_ips)

count_ip-drop_ip_ne :
    (j ip : Text) (open_ips : List Text)
    → (j == ip) ≡ false
    → count_ip j (drop_ip ip open_ips) ≡ count_ip j open_ips
count_ip-drop_ip_ne j ip [] h = refl
count_ip-drop_ip_ne j ip (k ∷ open_ips) h = elim (Bool-cases (ip == k)) [
  | inl same ↦ ground (arith, same, h, ap (λ t. j == t) (eq_of_beq ip k same))
  | inr other ↦ ground (arith, other, count_ip-drop_ip_ne j ip open_ips h)
]

length-drop_ip :
    (ip : Text) (open_ips : List Text)
    → 0 < count_ip ip open_ips
    → length (drop_ip ip open_ips) + 1 ≡ length open_ips
length-drop_ip ip [] h = absurd (omega arith)
length-drop_ip ip (k ∷ open_ips) h = ground (arith, length-drop_ip ip open_ips)

-- Closing one of the open connections keeps the counts exact.
pub remove_conn-Counts :
    (u : UserStats) (open_ips : List Text) (ip : Text)
    → Counts u open_ips
    → 0 < count_ip ip open_ips
    → Counts (remove_conn u ip) (drop_ip ip open_ips)
unfolding remove_conn ◌-ℤ◌
remove_conn-Counts u open_ips ip c h = record {
  per_ip = λ j. entry j;
  total = ground (arith, c.total, length-drop_ip ip open_ips h);
}
  where
    n : ℕ
    n = count_of (lookup ip u.ips)

    count : n ≡ count_ip ip open_ips
    count = ap count_of (c.per_ip ip) ∙ count_of-positive_count (count_ip ip open_ips)

    entry :
        (j : Text)
        → lookup j (if ltb 1 n then insert ip (n - 1) u.ips else erase ip u.ips)
          ≡ positive_count (count_ip j (drop_ip ip open_ips))
    entry j = elim (Bool-cases (j == ip)) [
      | inl same ↦ ground (
        arith,
        same,
        lookup-insert j ip (n - 1) u.ips,
        lookup-erase j ip u.ips,
        count,
        count_ip-drop_ip_self ip open_ips,
        ap (λ t. count_ip t (drop_ip ip open_ips)) (eq_of_beq j ip same),
      )
      | inr other ↦ ground (
        arith,
        other,
        lookup-insert j ip (n - 1) u.ips,
        lookup-erase j ip u.ips,
        c.per_ip j,
        count_ip-drop_ip_ne j ip open_ips other,
      )
    ]

count_ip-middle :
    (j ip : Text) (pre post : List Text)
    → count_ip j (pre ++ ip ∷ post) ≡ count_ip j (ip ∷ (pre ++ post))
count_ip-middle j ip [] post = refl
count_ip-middle j ip (k ∷ pre) post = ground (arith, count_ip-middle j ip pre post)

length-middle :
    (ip : Text) (pre post : List Text) → length (pre ++ ip ∷ post) ≡ length (ip ∷ (pre ++ post))
length-middle ip [] post = refl
length-middle ip (k ∷ pre) post = omega (arith, length-middle ip pre post)

-- Closing any one of the open connections.
pub remove_conn-Counts_middle :
    (u : UserStats) (ip : Text) (pre post : List Text)
    → Counts u (pre ++ ip ∷ post)
    → Counts (remove_conn u ip) (pre ++ post)
remove_conn-Counts_middle u ip pre post c =
    let front : Counts u (ip ∷ (pre ++ post)) = record {
      per_ip = λ j. c.per_ip j ∙ ap positive_count (count_ip-middle j ip pre post);
      total = c.total ∙ ap pos (length-middle ip pre post);
    } in
    let one : 0 < count_ip ip (ip ∷ (pre ++ post)) = ground (arith, ==_refl ip) in
    let dropped : drop_ip ip (ip ∷ (pre ++ post)) ≡ pre ++ post = ground (arith, ==_refl ip) in
    rw dropped at (remove_conn-Counts u (ip ∷ (pre ++ post)) ip front one)
