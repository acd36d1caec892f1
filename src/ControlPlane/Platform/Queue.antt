-- ===== src/ControlPlane/Platform/Queue.antt =====
-- The order of the reports of applied revisions.
use cpanelde.Prelude.{
  ℕ, zero, suc, ◌≤◌, ◌≡◌, refl, ap, sym, ◌∙◌, Bool, true, false, List, [], ◌∷◌, ◌++◌, arith, length,
  take,
}
use mathlib.Core.List.{append_assoc, append-nil}
use cpanelde.ControlPlane.Platform.{Sent, PlatformControl, send_pending, flush_applications}

-- The requests of a list that the panel confirms, given its answers in turn.
abbrev pub confirmed : List Sent → List Bool → List Sent
confirmed [] replies = []
confirmed (r ∷ rs) [] = []
confirmed (r ∷ rs) (true ∷ replies) = r ∷ confirmed rs replies
confirmed (r ∷ rs) (false ∷ replies) = []

abbrev pub last_first : List Sent → List Sent
last_first [] = []
last_first (r ∷ rs) = last_first rs ++ r ∷ []

send_pending-order :
    (rs : List Sent) (replies : List Bool)
    → (rs ≡ confirmed rs replies ++ (send_pending rs replies).0)
      × ((send_pending rs replies).1
          ≡ last_first (confirmed rs replies ++ take 1 (send_pending rs replies).0))
unfolding send_pending
send_pending-order [] replies = (refl, refl)
send_pending-order (r ∷ rs) [] = (refl, refl)
send_pending-order (r ∷ rs) (true ∷ replies) =
    let rest = send_pending-order rs replies in (ap (◌∷◌ r) rest.0, ap (λ ss. ss ++ r ∷ []) rest.1)
send_pending-order (r ∷ rs) (false ∷ replies) = (refl, refl)

-- What waits is sent in the order in which it was reported: a flush takes away exactly those that
-- the panel confirms up to the first failure, and the requests it sends are these, each once, and
-- the one that failed.
pub flush_applications-order :
    (p : PlatformControl) (replies : List Bool)
    → let (p', sent) = flush_applications p replies in
      (p.pending_applications ≡ confirmed p.pending_applications replies ++ p'.pending_applications)
      × (sent
          ≡ last_first (confirmed p.pending_applications replies ++ take 1 p'.pending_applications))
unfolding flush_applications
flush_applications-order p replies = send_pending-order p.pending_applications replies

last_first-snoc : (rs : List Sent) (r : Sent) → last_first (rs ++ r ∷ []) ≡ r ∷ last_first rs
last_first-snoc [] r = refl
last_first-snoc (q ∷ rs) r = ap (λ ss. ss ++ q ∷ []) (last_first-snoc rs r)

last_first-last_first : (rs : List Sent) → last_first (last_first rs) ≡ rs
last_first-last_first [] = refl
last_first-last_first (r ∷ rs) =
    last_first-snoc (last_first rs) r ∙ ap (◌∷◌ r) (last_first-last_first rs)

-- The requests of a flush that arrive are those that the panel confirms.
confirmed-sent :
    (rs : List Sent) (replies : List Bool)
    → confirmed (confirmed rs replies ++ take 1 (send_pending rs replies).0) replies
      ≡ confirmed rs replies
unfolding send_pending
confirmed-sent [] replies = refl
confirmed-sent (r ∷ rs) [] = refl
confirmed-sent (r ∷ rs) (true ∷ replies) = ap (◌∷◌ r) (confirmed-sent rs replies)
confirmed-sent (r ∷ rs) (false ∷ replies) = refl

-- The requests that a flush sends and the panel confirms, the first one first.
abbrev pub delivered : PlatformControl → List Bool → List Sent
delivered p replies = confirmed (last_first (flush_applications p replies).1) replies

delivered_lem :
    (p : PlatformControl) (replies : List Bool)
    → delivered p replies ≡ confirmed p.pending_applications replies
unfolding flush_applications
delivered_lem p replies =
    ap (λ ss. confirmed (last_first ss) replies) (flush_applications-order p replies).1
    ∙ ap (λ ss. confirmed ss replies) (last_first-last_first _)
    ∙ confirmed-sent p.pending_applications replies

-- Flushes one after the other, each with the answers of the panel, and what they deliver.
unfoldable pub flush_all : List (List Bool) → PlatformControl → PlatformControl × List Sent
flush_all [] p = (p, [])
flush_all (replies ∷ rounds) p =
    let (q, later) = flush_all rounds (flush_applications p replies).0 in
    (q, delivered p replies ++ later)

-- What flushes delivered, with what still waits, is what waited at first.
flush_all_keeps :
    (rounds : List (List Bool)) (p : PlatformControl)
    → (flush_all rounds p).1 ++ (flush_all rounds p).0.pending_applications ≡ p.pending_applications
unfolding flush_all
flush_all_keeps [] p = refl
flush_all_keeps (replies ∷ rounds) p =
    let next = (flush_applications p replies).0 in
    append_assoc (delivered p replies) (flush_all rounds next).1
      (flush_all rounds next).0.pending_applications
    ∙ ap (λ ss. delivered p replies ++ ss) (flush_all_keeps rounds next)
    ∙ ap (λ ss. ss ++ next.pending_applications) (delivered_lem p replies)
    ∙ sym (flush_applications-order p replies).0

abbrev pub all_true : ℕ → List Bool
all_true zero = []
all_true (suc n) = true ∷ all_true n

send_pending_drains :
    (rs : List Sent) (n : ℕ) → length rs ≤ n → (send_pending rs (all_true n)).0 ≡ []
unfolding send_pending
send_pending_drains [] n h = refl
send_pending_drains (r ∷ rs) zero h = absurd (omega arith)
send_pending_drains (r ∷ rs) (suc n) h = send_pending_drains rs n (omega arith)

-- A flush takes no request in.
flush_shortens :
    (rs : List Sent) (replies : List Bool) → length (send_pending rs replies).0 ≤ length rs
unfolding send_pending
flush_shortens [] replies = omega arith
flush_shortens (r ∷ rs) [] = omega arith
flush_shortens (r ∷ rs) (true ∷ replies) = let h = flush_shortens rs replies in omega arith
flush_shortens (r ∷ rs) (false ∷ replies) = omega arith

flush_all_drains :
    (rounds : List (List Bool)) (p : PlatformControl) (n : ℕ)
    → length p.pending_applications ≤ n
    → (flush_all (rounds ++ all_true n ∷ []) p).0.pending_applications ≡ []
unfolding flush_all flush_applications
flush_all_drains [] p n h = send_pending_drains p.pending_applications n h
flush_all_drains (replies ∷ rounds) p n h =
    let less = flush_shortens p.pending_applications replies in
    flush_all_drains rounds (flush_applications p replies).0 n (omega arith)

-- However many flushes failed before and wherever they stopped, once the panel confirms as many
-- requests in a row as waited at first, nothing waits any more, and the requests that the flushes
-- sent and the panel confirmed are all those that waited, each once and in their order.
pub flush_applications_drains :
    (rounds : List (List Bool)) (p : PlatformControl) (n : ℕ)
    → length p.pending_applications ≤ n
    → let (q, arrived) = flush_all (rounds ++ all_true n ∷ []) p in
      (q.pending_applications ≡ []) × (arrived ≡ p.pending_applications)
flush_applications_drains rounds p n h =
    let all = rounds ++ all_true n ∷ [] in
    let drained = flush_all_drains rounds p n h in
    (
      drained,
      sym (append-nil (flush_all all p).1)
          ∙ ap (λ ss. (flush_all all p).1 ++ ss) (sym drained)
          ∙ flush_all_keeps all p,
    )
