-- ===== src/Service/Reports/Exact.antt =====
-- The traffic between the tracker and a panel that knows the batch ids of its reports.
use cpanelde.Prelude.{
  ℕ, suc, ◌<◌, ◌≡◌, refl, Bool, true, false, List, [], ◌∷◌, arith, All, if◌then◌else◌, Text, Option,
  none, some, nat_eq, Map, lookup, Bool-cases, Option-cases, inl, inr,
}
use cpanelde.Tracker.{
  Bytes, zero_bytes, ◌+B◌, get, Tracker, new_tracker, process, flush_traffic, flush_alive_ips,
  delta,
}
use cpanelde.Tracker.Ledger.{process-get}
use cpanelde.Service.Reports.{
  ReportPayload, Reporter, begin_report, is_batch, complete_report, push_report, Ledger, has_seen,
  count, Life, begun, tracked, lost, arrived,
}

-- The traffic of a batch that the panel has not counted.
abbrev pub outstanding : ℕ → Option ReportPayload → List ℕ → Bytes
outstanding j none seen = zero_bytes
outstanding j (some p) seen = if has_seen p.batch_id seen then zero_bytes else get j p.traffic

abbrev Young : ℕ → Option ReportPayload → Type 0
Young next none = Unit
Young next (some p) = p.batch_id < next

record Balance (j : ℕ) (r : Reporter) (l : Ledger) : Type 0 where
  exact :
      (l.counted +B outstanding j r.pending_report l.seen) +B get j r.tracker.pending_traffic
      ≡ get j r.tracker.last_seen
  young : Young r.next_batch r.pending_report
  seen_young : All (λ k. k < r.next_batch) l.seen

unseen : (id : ℕ) (seen : List ℕ) → All (λ k. k < id) seen → has_seen id seen ≡ false
unseen id [] a = refl
unseen id (k ∷ seen) a = ground (arith, a.0, unseen id seen a.1)

older : (id : ℕ) (seen : List ℕ) → All (λ k. k < id) seen → All (λ k. k < suc id) seen
older id [] a = tt
older id (k ∷ seen) a = (omega (arith, a.0), older id seen a.1)

flush_alive_ips_keeps :
    (digest : Text → Text) (t : Tracker)
    → ((flush_alive_ips digest t).0.pending_traffic ≡ t.pending_traffic)
      × ((flush_alive_ips digest t).0.last_seen ≡ t.last_seen)
unfolding flush_alive_ips
flush_alive_ips_keeps digest t = ground arith

module _ (digest : Text → Text) (j revision now : ℕ) where
  -- The batch that a report sends is the one that is pending after it began.
  begin-pending :
      (r : Reporter)
      → (begin_report digest r revision now).0.pending_report
        ≡ some (begin_report digest r revision now).1
  unfolding begin_report
  begin-pending r = elim (Option-cases r.pending_report) [
    | inl idle ↦ rw (idle, begin_report) refl
    | inr (p, waiting) ↦ rw (waiting, begin_report) waiting
  ]

  begin-Balance :
      (r : Reporter) (l : Ledger)
      → Balance j r l
      → Balance j (begin_report digest r revision now).0 l
  unfolding begin_report flush_traffic ◌+B◌ lookup
  begin-Balance r l b = elim (Option-cases r.pending_report) [
    | inr (p, waiting) ↦ rw (waiting, begin_report) b
    | inl idle ↦
        rw (idle, begin_report)
          (record {
            exact = ground (
              arith,
              b.exact,
              idle,
              unseen r.next_batch l.seen b.seen_young,
              flush_alive_ips_keeps digest (flush_traffic r.tracker).0,
            );
            young = omega arith;
            seen_young = older r.next_batch l.seen b.seen_young;
          })
  ]

  count-Balance :
      (r : Reporter) (l : Ledger) (p : ReportPayload)
      → r.pending_report ≡ some p
      → Balance j r l
      → Balance j r (count j p l) × (has_seen p.batch_id (count j p l).seen ≡ true)
  unfolding ◌+B◌
  count-Balance r l p waiting b = elim (Bool-cases (has_seen p.batch_id l.seen)) [
    | inl again ↦ rw again (b, again)
    | inr first ↦
        let young : p.batch_id < r.next_batch = rw waiting at b.young in
        rw first (
          record {
            exact = ground (arith, b.exact, waiting, first);
            young = b.young;
            seen_young = (young, b.seen_young);
          },
          ground arith,
        )
  ]

  complete-Balance :
      (r : Reporter) (l : Ledger) (p : ReportPayload)
      → r.pending_report ≡ some p
      → has_seen p.batch_id l.seen ≡ true
      → Balance j r l
      → Balance j (complete_report r p.batch_id) l
  unfolding complete_report ◌+B◌
  complete-Balance r l p waiting counted b =
      elim (Bool-cases (is_batch r.pending_report p.batch_id)) [
        | inr other ↦ rw (other, complete_report) b
        | inl same ↦
            rw (same, complete_report)
              (record {
                exact = ground (arith, b.exact, waiting, counted);
                young = tt;
                seen_young = b.seen_young;
              })
      ]

  push-Balance :
      (r : Reporter) (l : Ledger) (confirmed : Bool)
      → Balance j r l
      → Balance j
          (push_report digest r revision now confirmed).0
          (count j (push_report digest r revision now confirmed).1 l)
  unfolding push_report
  push-Balance r l true b =
      let begun = begin-Balance r l b in
      let sent = count-Balance _ l _ (begin-pending r) begun in
      complete-Balance _ _ _ (begin-pending r) sent.1 sent.0
  push-Balance r l false b = (count-Balance _ l _ (begin-pending r) (begin-Balance r l b)).0

Life-Balance :
    {digest : Text → Text} {j : ℕ} {r : Reporter} {l : Ledger} → Life digest j r l → Balance j r l
unfolding new_tracker push_report ◌+B◌ delta lookup
Life-Balance begun = record { exact = refl; young = tt; seen_young = tt }
Life-Balance {digest} {j} (tracked {r} {l} traffic alive n k g h) =
    let b = Life-Balance h in
    record {
      exact = ground (arith, b.exact, process-get j r.tracker traffic alive n k);
      young = b.young;
      seen_young = b.seen_young;
    }
Life-Balance {digest} {j} (lost {r} {l} revision now h) =
    begin-Balance digest j revision now r l (Life-Balance h)
Life-Balance {digest} {j} (arrived {r} {l} revision now confirmed h) =
    push-Balance digest j revision now r l confirmed (Life-Balance h)

-- Whichever reports are lost, and whichever arrive without their confirmation and are sent again,
-- a panel that counts each batch id once has counted, with the batch that waits and what the
-- tracker has not reported, exactly the last cumulative counters of the user, as long as these
-- never fall.
pub Life-exact :
    {digest : Text → Text} {j : ℕ} {r : Reporter} {l : Ledger}
    → Life digest j r l
    → (l.counted +B outstanding j r.pending_report l.seen) +B get j r.tracker.pending_traffic
      ≡ get j r.tracker.last_seen
Life-exact h = (Life-Balance h).exact

-- A report that the panel does not confirm is sent again as it was, whatever traffic, revision and
-- time have come since.
pub push_report_again :
    (digest : Text → Text) (r : Reporter) (revision now : ℕ) (later_revision later : ℕ)
    (traffic : Map ℕ Bytes) (alive : Map ℕ (List Text)) (n : ℕ) (confirmed : Bool)
    → let (r', payload) = push_report digest r revision now false in
      (push_report digest
        (record r' { tracker = process r'.tracker traffic alive n })
        later_revision
        later
        confirmed).1
      ≡ payload
unfolding push_report begin_report
push_report_again digest r revision now later_revision later traffic alive n confirmed =
    elim (Option-cases r.pending_report) [
      | inl idle ↦ rw (idle, begin_report) refl
      | inr (p, waiting) ↦ rw (waiting, begin_report) (rw (waiting, begin_report) refl)
    ]
