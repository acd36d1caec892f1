-- ===== src/AgentV2/Replay.antt =====
-- The anti-replay window (`replayWindow`, `accept`), against the history of accepted numbers.
use cpanelde.Prelude.{
  ℕ, ◌+◌, ◌-◌, ◌<◌, ◌≤◌, ◌≡◌, refl, Bool, true, false, not, ◌&&◌, ◌||◌, List, [], ◌∷◌, arith,
  length, ltb, leb, ◌==◌, if◌then◌else◌, Bool-cases, inl, inr, nat_eq, ap, sym, ◌∙◌,
}
use cpanelde.AgentV2.Word.{
  Word, bit, word_zero, bit-word_zero, length-word_zero, shift_left, set_bit, bit-shift_left,
  length-shift_left, length-set_bit, bit-set_bit,
}

pub record ReplayWindow : Type 0 where
  pub max_seq : ℕ
  pub bitmap : Word

abbrev pub empty_window : ReplayWindow
empty_window = record { max_seq = 0; bitmap = word_zero }

-- The branch `seq > w.maxSeq`: a shift of 64 or more is a cleared word.
unfoldable pub advance : ReplayWindow → ℕ → ReplayWindow
advance w seq =
    let shift = seq - w.max_seq in
    let moved = if leb 64 shift then word_zero else shift_left w.bitmap shift in
    record { max_seq = seq; bitmap = set_bit moved 0 }

unfoldable pub accept : ReplayWindow → ℕ → ReplayWindow × Bool
accept w seq =
    if seq == 0
    then (w, false)
    else if ltb w.max_seq seq
    then (advance w seq, true)
    else let difference = w.max_seq - seq in
      if leb 64 difference
      then (w, false)
      else if bit w.bitmap difference
      then (w, false)
      else (record w { bitmap = set_bit w.bitmap difference }, true)

-- The specification: the numbers accepted so far.
abbrev pub contains : ℕ → List ℕ → Bool
contains n [] = false
contains n (m ∷ h) = n == m || contains n h

abbrev pub highest : List ℕ → ℕ
highest [] = 0
highest (m ∷ h) = if ltb (highest h) m then m else highest h

-- A number is fresh if it is positive, new, and less than 64 behind the highest one.
abbrev pub is_fresh : List ℕ → ℕ → Bool
is_fresh h seq = ltb 0 seq && not (contains seq h) && ltb (highest h) (seq + 64)

abbrev pub record_accept : List ℕ → ℕ → Bool → List ℕ
record_accept h seq true = seq ∷ h
record_accept h seq false = h

pub record Tracks (w : ReplayWindow) (h : List ℕ) : Type 0 where
  pub max_exact : w.max_seq ≡ highest h
  pub width : length w.bitmap ≡ 64
  pub bits : (d : ℕ) → d < 64 → d < w.max_seq → bit w.bitmap d ≡ contains (w.max_seq - d) h

contains-le-highest : (n : ℕ) (h : List ℕ) → contains n h ≡ true → n ≤ highest h
contains-le-highest n [] e = cc
contains-le-highest n (m ∷ h) e = ground (arith, contains-le-highest n h)

absent_above : (n : ℕ) (h : List ℕ) → highest h < n → contains n h ≡ false
absent_above n h lt = elim (Bool-cases (contains n h)) [
  | inl e ↦ absurd (omega (arith, contains-le-highest n h e))
  | inr e ↦ e
]

pub empty_window-Tracks : Tracks empty_window []
empty_window-Tracks = record {
  max_exact = refl;
  width = length-word_zero;
  bits = λ d _ h. absurd (omega arith);
}

-- The bitmap after the shift of `advance`, before its lowest bit is set.
abbrev moved : ReplayWindow → ℕ → Word
moved w shift = if leb 64 shift then word_zero else shift_left w.bitmap shift

length-moved : (w : ReplayWindow) (n : ℕ) → length w.bitmap ≡ 64 → length (moved w n) ≡ 64
length-moved w n e = ground (arith, length-word_zero, length-shift_left n w.bitmap e)

bit-moved :
    (w : ReplayWindow) (n d : ℕ)
    → d < 64
    → bit (moved w n) d ≡ (if ltb d n then false else bit w.bitmap (d - n))
bit-moved w n d lt = ground (arith, bit-word_zero d, bit-shift_left n d w.bitmap lt)

module _ (w : ReplayWindow) (h : List ℕ) (t : Tracks w h) (seq : ℕ) (above : w.max_seq < seq) where
  -- Bit `d` of the moved bitmap stands for the number `seq - d`.
  moved_bits : (d : ℕ) → d < 64 → d < seq → bit (moved w (seq - w.max_seq)) d ≡ contains (seq - d) h
  moved_bits d lt below = elim (Bool-cases (ltb d (seq - w.max_seq))) [
    | inl p ↦
        rw (bit-moved w (seq - w.max_seq) d lt, p)
          (sym (absent_above (seq - d) h (ground (arith, t.max_exact))))
    | inr p ↦
        rw (bit-moved w (seq - w.max_seq) d lt, p)
          (t.bits (d - (seq - w.max_seq)) (omega arith) (ground arith)
            ∙ ap (λ n. contains n h) (ground arith))
  ]

  advance-Tracks : Tracks (advance w seq) (seq ∷ h)
  unfolding advance
  advance-Tracks = record {
    max_exact = ground (arith, t.max_exact);
    width = length-set_bit (moved w (seq - w.max_seq)) 0 ∙ length-moved w _ t.width;
    bits = λ d lt below. ground (
      arith,
      bit-set_bit (moved w (seq - w.max_seq)) 0 d,
      length-moved w (seq - w.max_seq) t.width,
      moved_bits d lt below,
    );
  }

module _ (w : ReplayWindow) (h : List ℕ) (t : Tracks w h) (seq : ℕ) where
  mark-Tracks :
      seq ≤ w.max_seq
      → w.max_seq < seq + 64
      → 0 < seq
      → Tracks (record w { bitmap = set_bit w.bitmap (w.max_seq - seq) }) (seq ∷ h)
  mark-Tracks below near pos = record {
    max_exact = ground (arith, t.max_exact);
    width = length-set_bit w.bitmap (w.max_seq - seq) ∙ t.width;
    bits = λ d lt inside.
        ground (arith, bit-set_bit w.bitmap (w.max_seq - seq) d, t.width, t.bits d lt inside);
  }

  same_number : seq ≤ w.max_seq → contains (w.max_seq - (w.max_seq - seq)) h ≡ contains seq h
  same_number below = ap (λ n. contains n h) (omega arith)

  accept-is_fresh : (accept w seq).1 ≡ is_fresh h seq
  unfolding accept
  accept-is_fresh =
      ground (arith, t.max_exact, t.bits (w.max_seq - seq), absent_above seq h, same_number)

  accept_keeps : Tracks (accept w seq).0 (record_accept h seq (accept w seq).1)
  unfolding accept
  accept_keeps = ground (arith, advance-Tracks w h t seq, mark-Tracks, t)

  -- `accept` lets a number pass exactly when it is fresh with respect to the history, and the
  -- window then stands for the history with that number added.
  pub accept-Tracks :
      ((accept w seq).1 ≡ is_fresh h seq)
      × Tracks (accept w seq).0 (record_accept h seq (accept w seq).1)
  accept-Tracks = (accept-is_fresh, accept_keeps)

-- The window over a whole sequence of numbers, with the accepted ones, newest first.
unfoldable pub accept_all : ReplayWindow → List ℕ → List ℕ → ReplayWindow × List ℕ
accept_all w h [] = (w, h)
accept_all w h (seq ∷ rest) =
    let (w', passed) = accept w seq in accept_all w' (record_accept h seq passed) rest

abbrev pub NoRepeat : List ℕ → Type 0
NoRepeat [] = Unit
NoRepeat (n ∷ h) = (contains n h ≡ false) × NoRepeat h

record_accept-NoRepeat :
    (h : List ℕ) (seq : ℕ) → NoRepeat h → NoRepeat (record_accept h seq (is_fresh h seq))
record_accept-NoRepeat h seq n = ground arith

accept_all-NoRepeat :
    (w : ReplayWindow) (h seqs : List ℕ)
    → Tracks w h
    → NoRepeat h
    → NoRepeat (accept_all w h seqs).1
unfolding accept_all
accept_all-NoRepeat w h [] t n = n
accept_all-NoRepeat w h (seq ∷ rest) t n =
    let (e, t') = accept-Tracks w h t seq in
    accept_all-NoRepeat (accept w seq).0 _ rest t' (rw e (record_accept-NoRepeat h seq n))

-- Whatever numbers arrive, in whatever order, a new window accepts none of them twice.
pub accept_all_once : (seqs : List ℕ) → NoRepeat (accept_all empty_window [] seqs).1
accept_all_once seqs = accept_all-NoRepeat empty_window [] seqs empty_window-Tracks tt
