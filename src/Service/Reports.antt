-- ===== src/Service/Reports.antt =====
-- internal/service/service.go: the batches of traffic, from the tracker to the panel. A batch id is
-- a number that `newReportBatchID` has not given before. The load of the machine and the metrics
-- that a report carries along are left out.
pub mod Exact
use cpanelde.Prelude.{
  ℕ, zero, suc, ◌+◌, ◌<◌, ◌≡◌, refl, ap, sym, ◌∙◌, Bool, true, false, not, List, [], ◌∷◌, arith,
  any, All, if◌then◌else◌, Text, Option, none, some, ◌==◌, nat_eq, Map, lookup, Bool-cases,
  Option-cases, inl, inr, UniqueKeys,
}
use cpanelde.Tracker.{
  Bytes, zero_bytes, ◌+B◌, get, Tracker, new_tracker, process, flush_traffic, flush_alive_ips,
  current_online, delta,
}
use cpanelde.Tracker.Ledger.{Grows, process-get}

pub record ReportPayload : Type 0 where
  pub applied_revision : ℕ
  pub batch_id : ℕ
  pub occurred_at : ℕ
  pub traffic : Map ℕ Bytes
  pub alive : Option (Map ℕ (List Text))
  pub online : Map ℕ ℕ

pub record Reporter : Type 0 where
  pub tracker : Tracker
  pub pending_report : Option ReportPayload
  pub next_batch : ℕ

-- `digest` is the hash of the tracker, `revision` the revision that is applied.
unfoldable pub begin_report : (Text → Text) → Reporter → ℕ → ℕ → Reporter × ReportPayload
begin_report digest r revision now = elim r.pending_report [
  | some payload ↦ (r, payload)
  | none ↦
      let (t, traffic) = flush_traffic r.tracker in
      let (t', alive) = flush_alive_ips digest t in
      let payload : ReportPayload = record {
        applied_revision = revision;
        batch_id = r.next_batch;
        occurred_at = now;
        traffic = traffic;
        alive = alive;
        online = current_online t';
      } in
      (
        record { tracker = t'; pending_report = some payload; next_batch = suc r.next_batch },
        payload,
      )
]

abbrev pub is_batch : Option ReportPayload → ℕ → Bool
is_batch none id = false
is_batch (some payload) id = payload.batch_id == id

unfoldable pub complete_report : Reporter → ℕ → Reporter
complete_report r id =
    if is_batch r.pending_report id then record r { pending_report = none } else r

-- A report, sent in the background or at the end: `confirmed` is whether the panel's answer comes
-- back.
unfoldable pub push_report : (Text → Text) → Reporter → ℕ → ℕ → Bool → Reporter × ReportPayload
push_report digest r revision now confirmed =
    let (r', payload) = begin_report digest r revision now in
    (if confirmed then complete_report r' payload.batch_id else r', payload)

-- A panel that counts the traffic of one user, each batch once.
pub record Ledger : Type 0 where
  pub seen : List ℕ
  pub counted : Bytes

abbrev pub has_seen : ℕ → List ℕ → Bool
has_seen id = any (λ k. id == k)

abbrev pub count : ℕ → ReportPayload → Ledger → Ledger
count j payload l =
    if has_seen payload.batch_id l.seen
    then l
    else record { seen = payload.batch_id ∷ l.seen; counted = l.counted +B get j payload.traffic }

abbrev pub receive : ℕ → Bool → ReportPayload → Ledger → Ledger
receive j arrived payload l = if arrived then count j payload l else l

abbrev pub new_reporter : Reporter
new_reporter = record { tracker = new_tracker; pending_report = none; next_batch = 0 }

-- A history of the service's reports, with what the panel has counted for user `j`: cycles of the
-- tracker in which no counter of the user falls, and reports that arrive or not and, if they
-- arrive, whose confirmation comes back or not.
pub data Life (digest : Text → Text) (j : ℕ) : Reporter → Ledger → Type 0 where
  begun : Life digest j new_reporter (record { seen = []; counted = zero_bytes })
  tracked :
      {r : Reporter} {l : Ledger} (traffic : Map ℕ Bytes) (alive : Map ℕ (List Text)) (n : ℕ)
      → UniqueKeys traffic
      → Grows (get j r.tracker.last_seen) (lookup j traffic)
      → Life digest j r l
      → Life digest j (record r { tracker = process r.tracker traffic alive n }) l
  lost :
      {r : Reporter} {l : Ledger} (revision now : ℕ)
      → Life digest j r l
      → Life digest j (push_report digest r revision now false).0 l
  arrived :
      {r : Reporter} {l : Ledger} (revision now : ℕ) (confirmed : Bool)
      → Life digest j r l
      → Life digest j
          (push_report digest r revision now confirmed).0
          (count j (push_report digest r revision now confirmed).1 l)
