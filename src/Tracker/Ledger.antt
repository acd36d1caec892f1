-- ===== src/Tracker/Ledger.antt =====
-- The traffic between the kernel's counters and the reports, as a ledger.
use cpanelde.Prelude.{
  ℕ, ◌≤◌, ◌≡◌, refl, ap, ◌∙◌, true, false, List, [], ◌∷◌, arith, if◌then◌else◌, Text, Option, none,
  some, ◌==◌, nat_eq, text_eq, Map, lookup, insert, lookup-insert, UniqueKeys, Bool-cases, inl, inr,
  ◌⊎◌, eq_of_beq,
}
use cpanelde.Tracker.{
  Bytes, zero_bytes, get, ◌+B◌, Tracker, new_tracker, delta, is_nonzero, Cycle, account,
  account_all, process, flush_traffic, add_back, restore_traffic,
}

get-insert :
    (j k : ℕ) (b : Bytes) (m : Map ℕ Bytes) → get j (insert k b m) ≡ (if j == k then b else get j m)
get-insert j k b m = ground (arith, lookup-insert j k b m)

abbrev pub next_pending : Option Bytes → Bytes → Bytes → Bytes
next_pending none seen pending = pending
next_pending (some cum) seen pending = pending +B delta seen cum

abbrev pub next_seen : Option Bytes → Bytes → Bytes
next_seen none seen = seen
next_seen (some cum) seen = cum

add_zero : (b d : Bytes) → is_nonzero d ≡ false → b +B d ≡ b
unfolding ◌+B◌
add_zero b d h = ground arith

account-seen :
    (j uid : ℕ) (cum : Bytes) (c : Cycle)
    → get j (account uid cum c).seen ≡ (if j == uid then cum else get j c.seen)
unfolding account
account-seen j uid cum c = get-insert j uid cum c.seen

account-pending :
    (j uid : ℕ) (cum : Bytes) (c : Cycle)
    → get j (account uid cum c).pending
      ≡ (if j == uid then get uid c.pending +B delta (get uid c.seen) cum else get j c.pending)
unfolding account
account-pending j uid cum c = elim (Bool-cases (is_nonzero (delta (get uid c.seen) cum))) [
  | inl moved ↦ rw (moved, account) (get-insert j uid _ c.pending)
  | inr idle ↦
      rw (idle, account, add_zero (get uid c.pending) _ idle) (same (Bool-cases (j == uid)))
]
  where
    same :
        ((j == uid) ≡ true) ⊎ ((j == uid) ≡ false)
        → get j c.pending ≡ (if j == uid then get uid c.pending else get j c.pending)
    same (inl e) = rw e (ap (λ n. get n c.pending) (eq_of_beq j uid e))
    same (inr e) = rw e

-- The two tables after a whole cycle, for a user that the kernel reports and for one it does not.
account_all-get :
    (j : ℕ) (traffic : Map ℕ Bytes) (c : Cycle)
    → UniqueKeys traffic
    → (get j (account_all traffic c).seen ≡ next_seen (lookup j traffic) (get j c.seen))
      × (get j (account_all traffic c).pending
          ≡ next_pending (lookup j traffic) (get j c.seen) (get j c.pending))
unfolding account_all lookup
account_all-get j [] c k = (refl, refl)
account_all-get j ((uid, cum) ∷ traffic) c k = elim (Bool-cases (j == uid)) [
  | inl e ↦
      let absent = ap (λ n. lookup n traffic) (eq_of_beq j uid e) ∙ k.0 in
      let (seen, pending) = account_all-get j traffic (account uid cum c) k.1 in
      (
        ground (arith, e, absent, seen, account-seen j uid cum c),
        ground (
          arith,
          e,
          absent,
          pending,
          account-pending j uid cum c,
          ap (λ n. get n c.seen) (eq_of_beq j uid e),
          ap (λ n. get n c.pending) (eq_of_beq j uid e),
        ),
      )
  | inr e ↦
      let (seen, pending) = account_all-get j traffic (account uid cum c) k.1 in
      (
        ground (arith, e, seen, account-seen j uid cum c),
        ground (arith, e, pending, account-seen j uid cum c, account-pending j uid cum c),
      )
]

-- What `Process` makes of the tables of one user.
pub process-get :
    (j : ℕ) (t : Tracker) (traffic : Map ℕ Bytes) (alive : Map ℕ (List Text)) (n : ℕ)
    → UniqueKeys traffic
    → (get j (process t traffic alive n).last_seen
        ≡ next_seen (lookup j traffic) (get j t.last_seen))
      × (get j (process t traffic alive n).pending_traffic
          ≡ next_pending (lookup j traffic) (get j t.last_seen) (get j t.pending_traffic))
unfolding process
process-get j t traffic alive n k = account_all-get j traffic _ k

added : Option Bytes → Bytes → Bytes
added none b = b
added (some d) b = b +B d

add_back-get :
    (j : ℕ) (traffic pending : Map ℕ Bytes)
    → UniqueKeys traffic
    → get j (add_back traffic pending) ≡ added (lookup j traffic) (get j pending)
unfolding add_back lookup added
add_back-get j [] pending k = refl
add_back-get j ((uid, d) ∷ traffic) pending k = elim (Bool-cases (j == uid)) [
  | inl e ↦ ground (
    arith,
    e,
    ap (λ n. lookup n traffic) (eq_of_beq j uid e) ∙ k.0,
    add_back-get j traffic (insert uid (get uid pending +B d) pending) k.1,
    get-insert j uid (get uid pending +B d) pending,
    ap (λ n. get n pending) (eq_of_beq j uid e),
  )
  | inr e ↦ ground (
    arith,
    e,
    add_back-get j traffic (insert uid (get uid pending +B d) pending) k.1,
    get-insert j uid (get uid pending +B d) pending,
  )
]

-- The kernel's counters of a user have not fallen since the last cycle.
abbrev pub Grows : Bytes → Option Bytes → Type 0
Grows seen none = Unit
Grows seen (some cum) = (seen.up ≤ cum.up) × (seen.down ≤ cum.down)

-- A history of the tracker, with the traffic that the panel has been sent for each user: cycles in
-- which no counter of user `j` falls, reports, and reports that failed and are put back.
pub data Run (j : ℕ) : Tracker → Bytes → Type 0 where
  started : Run j new_tracker zero_bytes
  processed :
      {t : Tracker} {sent : Bytes} (traffic : Map ℕ Bytes) (alive : Map ℕ (List Text)) (n : ℕ)
      → UniqueKeys traffic
      → Grows (get j t.last_seen) (lookup j traffic)
      → Run j t sent
      → Run j (process t traffic alive n) sent
  flushed :
      {t : Tracker} {sent : Bytes}
      → Run j t sent
      → Run j (flush_traffic t).0 (sent +B get j (flush_traffic t).1)
  restored :
      {t : Tracker} {sent before : Bytes} (traffic : Map ℕ Bytes)
      → UniqueKeys traffic
      → sent ≡ before +B get j traffic
      → Run j t sent
      → Run j (restore_traffic t traffic) before

-- Whatever the order of cycles, reports and failed reports, what the panel has been sent for a user
-- and what is still pending make up exactly the kernel's last cumulative counters, as long as
-- these never fall.
pub Run-balance :
    {j : ℕ} {t : Tracker} {sent : Bytes}
    → Run j t sent
    → sent +B get j t.pending_traffic ≡ get j t.last_seen
unfolding new_tracker lookup flush_traffic restore_traffic ◌+B◌ delta added
Run-balance started = refl
Run-balance {j} (processed {t} {sent} traffic alive n k g r) =
    ground (arith, Run-balance r, process-get j t traffic alive n k)
Run-balance {j} (flushed {t} {sent} r) = ground (arith, Run-balance r)
Run-balance {j} (restored {t} {sent} {before} traffic k e r) =
    ground (arith, e, Run-balance r, add_back-get j traffic t.pending_traffic k)
