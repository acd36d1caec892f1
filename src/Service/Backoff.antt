-- ===== src/Service/Backoff.antt =====
-- internal/service/service.go: `apiBackoff`, with the guard against overlapping requests that
-- `pullViaAPIAsync` and `pushReportAsync` set around it (`pullActive`, `pushActive`).
-- `skipRemaining` is never negative. A control plane that does not poll or take reports is the
-- argument `supported`.
use cpanelde.Prelude.{
  ℕ, ◌-◌, ◌*◌, ◌≤◌, ◌≡◌, ◌⊎◌, refl, Bool, true, false, not, arith, if◌then◌else◌, ltb, leb, nat_eq,
}

unfoldable pub should_skip : ℕ → ℕ × Bool
should_skip n = if ltb 0 n then (n - 1, true) else (n, false)

abbrev pub on_success : ℕ → ℕ
on_success n = 0

unfoldable pub on_failure : ℕ → ℕ
on_failure n = if leb n 0 then 1 else if ltb n 8 then n * 2 else n

-- Where the goroutine of a request is: there is none, it waits for the answer, or it has noted the
-- answer and hands it over. While there is one the guard is set.
pub data Flight : Type 0 where
  idle waiting answered : Flight

pub record Poller : Type 0 where
  pub skip_remaining : ℕ
  pub flight : Flight

abbrev pub is_active : Flight → Bool
is_active idle = false
is_active waiting = true
is_active answered = true

unfoldable pub new_poller : Poller
new_poller = record { skip_remaining = 0; flight = idle }

-- A call of `pullViaAPIAsync` or `pushReportAsync`; the Boolean tells whether it makes a request.
unfoldable pub tick : Bool → Poller → Poller × Bool
unfolding should_skip
tick supported p =
    if not supported
    then (p, false)
    else if is_active p.flight
    then (p, false)
    else let (n, skipped) = should_skip p.skip_remaining in
      if skipped
      then (record p { skip_remaining = n }, false)
      else (record { skip_remaining = n; flight = waiting }, true)

-- The answer to the request that is under way: whether it is a success.
unfoldable pub answer : Bool → Poller → Poller
unfolding on_failure
answer ok p = record {
  skip_remaining = if ok then on_success p.skip_remaining else on_failure p.skip_remaining;
  flight = answered;
}

-- The end of the goroutine, which clears the guard.
unfoldable pub finish_request : Poller → Poller
finish_request p = record p { flight = idle }

-- The states that calls, answers and ends of goroutines reach, in any order in time.
pub data Life : Poller → Type 0 where
  unused : Life new_poller
  called : {p : Poller} (supported : Bool) → Life p → Life (tick supported p).0
  replied : {p : Poller} (ok : Bool) → p.flight ≡ waiting → Life p → Life (answer ok p)
  ended : {p : Poller} → p.flight ≡ answered → Life p → Life (finish_request p)

-- At most one call is left to be skipped, and none while an answer is awaited.
record Shallow (p : Poller) : Type 0 where
  at_most_one : p.skip_remaining ≤ 1
  none_waiting : p.flight ≡ waiting → p.skip_remaining ≡ 0

tick-Shallow : (supported : Bool) (p : Poller) → Shallow p → Shallow (tick supported p).0
unfolding tick should_skip
tick-Shallow supported p h = record {
  at_most_one = ground (arith, h.at_most_one);
  none_waiting = ground (arith, h.at_most_one, h.none_waiting);
}

answer-Shallow : (ok : Bool) (p : Poller) → p.flight ≡ waiting → Shallow p → Shallow (answer ok p)
unfolding answer on_failure
answer-Shallow true p w h = record { at_most_one = omega arith; none_waiting = λ e. cc }
answer-Shallow false p w h = record {
  at_most_one = ground (arith, h.none_waiting w);
  none_waiting = λ e. cc;
}

Life-Shallow : {p : Poller} → Life p → Shallow p
unfolding new_poller finish_request
Life-Shallow unused = record { at_most_one = omega arith; none_waiting = λ e. refl }
Life-Shallow (called {p} supported l) = tick-Shallow supported p (Life-Shallow l)
Life-Shallow (replied {p} ok w l) = answer-Shallow ok p w (Life-Shallow l)
Life-Shallow (ended {p} w l) = record {
  at_most_one = (Life-Shallow l).at_most_one;
  none_waiting = λ e. cc;
}

-- Whatever has happened before: of two calls in a row that find no request under way at least one
-- makes a request; a call that finds one waiting for its answer makes none and changes nothing; and
-- after a request that fails exactly one call is skipped.
pub tick_twice :
    {p q : Poller}
    → Life p
    → p.flight ≡ idle
    → Life q
    → q.flight ≡ waiting
    → let failed = finish_request (answer false q) in
      (((tick true p).1 ≡ true) ⊎ ((tick true (tick true p).0).1 ≡ true))
      × (tick true q ≡ (q, false))
      × ((tick true failed).1 ≡ false)
      × ((tick true (tick true failed).0).1 ≡ true)
unfolding tick should_skip answer on_failure finish_request
tick_twice {p} {q} l free m under_way =
    let one = (Life-Shallow l).at_most_one in
    let none_left = (Life-Shallow m).none_waiting under_way in
    (
      ground (arith, free, one),
      rw under_way refl,
      ground (arith, none_left),
      ground (arith, none_left),
    )
