-- ===== src/ControlPlane/Platform/Filed.antt =====
-- The contents of the requests, filed by their keys, through the reports of applied revisions.
use cpanelde.Prelude.{
  ℕ, suc, ◌<◌, ◌≡◌, sym, ◌∙◌, Bool, true, false, not, ◌&&◌, List, [], ◌∷◌, ◌++◌, arith,
  if◌then◌else◌, Option, none, some, ◌==◌, nat_eq, lookup, All, Bool-cases, inl, inr, leb, ltb,
}
use cpanelde.ControlPlane.Platform.{
  ApplicationResult, Content, application, Sent, DeviceReport, PlatformControl, send_pending,
  flush_applications, is_applied, is_repeated, enqueue, raise_revision, report_application,
  device_sent,
}

-- A request that has the content filed under its key, which was given out before.
abbrev pub Filed : (ℕ → Content) → ℕ → Sent → Type 0
Filed file next s = (s.content ≡ file s.key) × (s.key < next)

abbrev pub FiledReport : (ℕ → Content) → ℕ → Option DeviceReport → Type 0
FiledReport file next none = Unit
FiledReport file next (some r) = Filed file next (device_sent r)

-- Some file of contents by key fits everything sent and waiting.
pub record Consistent (p : PlatformControl) (log : List Sent) : Type 0 where
  pub file : ℕ → Content
  pub log_filed : All (Filed file p.next_key) log
  pub pending_filed : All (Filed file p.next_key) p.pending_applications
  pub device_filed : FiledReport file p.next_key p.pending_device

module _ (P : Sent → Type 0) where
  All-append : (xs ys : List Sent) → All P xs → All P ys → All P (xs ++ ys)
  All-append [] ys a b = b
  All-append (x ∷ xs) ys a b = (a.0, All-append xs ys a.1 b)

  All-send_pending :
      (rs : List Sent) (replies : List Bool)
      → All P rs
      → All P (send_pending rs replies).0 × All P (send_pending rs replies).1
  unfolding send_pending
  All-send_pending [] replies a = (tt, tt)
  All-send_pending (r ∷ rs) [] a = (a, (a.0, tt))
  All-send_pending (r ∷ rs) (true ∷ replies) a =
      let rest = All-send_pending rs replies a.1 in
      (rest.0, All-append (send_pending rs replies).1 (r ∷ []) rest.1 (a.0, tt))
  All-send_pending (r ∷ rs) (false ∷ replies) a = (a, (a.0, tt))

-- A new content under the next key.
abbrev pub extend : (ℕ → Content) → ℕ → Content → ℕ → Content
extend file next c k = if k == next then c else file k

pub extend_old :
    (file : ℕ → Content) (next k : ℕ) (c : Content) → k < next → extend file next c k ≡ file k
extend_old file next k c less = ground (arith, less)

pub Filed-extend :
    (file : ℕ → Content) (next : ℕ) (c : Content) (s : Sent)
    → Filed file next s
    → Filed (extend file next c) (suc next) s
Filed-extend file next c s f = (f.0 ∙ sym (extend_old file next s.key c f.1), omega (arith, f.1))

pub Filed-new :
    (file : ℕ → Content) (next : ℕ) (c : Content)
    → Filed (extend file next c) (suc next) (record { key = next; content = c })
Filed-new file next c = (ground arith, omega arith)

pub All-extend :
    (file : ℕ → Content) (next : ℕ) (c : Content) (ss : List Sent)
    → All (Filed file next) ss
    → All (Filed (extend file next c) (suc next)) ss
All-extend file next c [] a = tt
All-extend file next c (s ∷ ss) a = (Filed-extend file next c s a.0, All-extend file next c ss a.1)

pub FiledReport-extend :
    (file : ℕ → Content) (next : ℕ) (c : Content) (d : Option DeviceReport)
    → FiledReport file next d
    → FiledReport (extend file next c) (suc next) d
FiledReport-extend file next c none f = tt
FiledReport-extend file next c (some r) f = Filed-extend file next c (device_sent r) f

pub flush-Consistent :
    (p : PlatformControl) (log : List Sent) (replies : List Bool)
    → Consistent p log
    → Consistent (flush_applications p replies).0 ((flush_applications p replies).1 ++ log)
unfolding flush_applications
flush-Consistent p log replies c =
    let both =
      All-send_pending (Filed c.file p.next_key) p.pending_applications replies c.pending_filed in
    record {
      file = c.file;
      log_filed = All-append (Filed c.file p.next_key) _ log both.1 c.log_filed;
      pending_filed = both.0;
      device_filed = c.device_filed;
    }

pub enqueue-Consistent :
    (p : PlatformControl) (log : List Sent) (r : ApplicationResult) (now : ℕ)
    → Consistent p log
    → Consistent (enqueue p r now) log
enqueue-Consistent p log r now c = record {
  file = extend c.file p.next_key (application r now);
  log_filed = All-extend c.file p.next_key _ log c.log_filed;
  pending_filed =
      All-append _ p.pending_applications _
        (All-extend c.file p.next_key _ p.pending_applications c.pending_filed)
        (Filed-new c.file p.next_key (application r now), tt);
  device_filed = FiledReport-extend c.file p.next_key _ p.pending_device c.device_filed;
}

pub raise-Consistent :
    (p : PlatformControl) (log : List Sent) (r : ApplicationResult)
    → Consistent p log
    → Consistent (raise_revision p r) log
raise-Consistent p log r c = elim (Bool-cases (is_applied r && ltb p.revision r.revision)) [
  | inl up ↦ rw up (record {
    file = c.file;
    log_filed = c.log_filed;
    pending_filed = c.pending_filed;
    device_filed = c.device_filed;
  })
  | inr same ↦ rw same c
]

pub report-Consistent :
    (p : PlatformControl) (log : List Sent) (r : ApplicationResult) (now : ℕ) (replies : List Bool)
    → Consistent p log
    → Consistent
        (report_application p r now replies).0
        ((report_application p r now replies).1 ++ log)
unfolding report_application
report-Consistent p log r now replies c = elim (Bool-cases (r.revision == 0)) [
  | inl zero_revision ↦ rw (zero_revision, report_application) c
  | inr positive ↦
      elim (Bool-cases (not (is_applied r) && leb r.revision (raise_revision p r).revision)) [
        | inl old ↦ rw (positive, old, report_application) (raise-Consistent p log r c)
        | inr fresh ↦
            elim (Bool-cases
              (is_repeated (lookup r.revision (raise_revision p r).application_last) r)) [
                | inl again ↦
                    rw (positive, fresh, again, report_application)
                      (flush-Consistent (raise_revision p r) log replies
                        (raise-Consistent p log r c))
                | inr first ↦
                    rw (positive, fresh, first, report_application)
                      (flush-Consistent (enqueue (raise_revision p r) r now) log replies (
                        enqueue-Consistent (raise_revision p r) log r now
                          (raise-Consistent p log r c)))
              ]
      ]
]
