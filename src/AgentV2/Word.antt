-- ===== src/AgentV2/Word.antt =====
-- A 64-bit word as its bits, the lowest first, with the operations that the replay window makes.
use cpanelde.Prelude.{
  ℕ, zero, suc, ◌+◌, ◌-◌, ◌<◌, ◌≤◌, ◌≡◌, refl, ap, Bool, true, false, List, [], ◌∷◌, arith, length,
  take, set, ltb, ◌==◌, if◌then◌else◌, nat_eq,
}

abbrev pub Word : Type 0
Word = List Bool

abbrev pub bit : Word → ℕ → Bool
bit [] i = false
bit (b ∷ w) zero = b
bit (b ∷ w) (suc i) = bit w i

abbrev pub zeros : ℕ → Word → Word
zeros zero w = w
zeros (suc s) w = false ∷ zeros s w

-- 0
unfoldable pub word_zero : Word
word_zero = zeros 64 []

-- w << s
unfoldable pub shift_left : Word → ℕ → Word
shift_left w s = take 64 (zeros s w)

-- w | 1 << i
unfoldable pub set_bit : Word → ℕ → Word
set_bit w i = set w i true

bit-take : (n i : ℕ) (w : Word) → i < n → bit (take n w) i ≡ bit w i
bit-take zero i w h = elim h [ ]
bit-take (suc n) i [] h = refl
bit-take (suc n) zero (b ∷ w) h = refl
bit-take (suc n) (suc i) (b ∷ w) h = bit-take n i w (omega arith)

bit-zeros : (s i : ℕ) (w : Word) → bit (zeros s w) i ≡ (if ltb i s then false else bit w (i - s))
bit-zeros zero i w = ground (arith, ap (bit w) (sub_zero i))
  where
    sub_zero : (n : ℕ) → n ≡ n - 0
    sub_zero n = omega arith
bit-zeros (suc s) zero w = ground arith
bit-zeros (suc s) (suc i) w = ground (arith, bit-zeros s i w, ap (bit w) (sub_suc i s))
  where
    sub_suc : (m n : ℕ) → m - n ≡ suc m - suc n
    sub_suc m n = omega arith

pub bit-shift_left :
    (s i : ℕ) (w : Word)
    → i < 64
    → bit (shift_left w s) i ≡ (if ltb i s then false else bit w (i - s))
unfolding shift_left
bit-shift_left s i w h = rw (bit-take 64 i (zeros s w) h) (bit-zeros s i w)

length-zeros : (s : ℕ) (w : Word) → length (zeros s w) ≡ s + length w
length-zeros zero w = omega arith
length-zeros (suc s) w = omega (arith, length-zeros s w)

length-take_of_le : (n : ℕ) (w : Word) → n ≤ length w → length (take n w) ≡ n
length-take_of_le zero w h = refl
length-take_of_le (suc n) [] h = absurd (omega arith)
length-take_of_le (suc n) (b ∷ w) h = omega (arith, length-take_of_le n w)

pub length-shift_left : (s : ℕ) (w : Word) → length w ≡ 64 → length (shift_left w s) ≡ 64
unfolding shift_left
length-shift_left s w h = length-take_of_le 64 (zeros s w) (omega (arith, length-zeros s w))

pub length-set_bit : (w : Word) (i : ℕ) → length (set_bit w i) ≡ length w
unfolding set_bit
length-set_bit [] i = refl
length-set_bit (b ∷ w) zero = refl
length-set_bit (b ∷ w) (suc i) = ap suc (length-set_bit w i)

pub bit-set_bit :
    (w : Word) (i j : ℕ) → i < length w → bit (set_bit w i) j ≡ (if i == j then true else bit w j)
unfolding set_bit
bit-set_bit [] i j h = elim h [ ]
bit-set_bit (b ∷ w) zero zero h = refl
bit-set_bit (b ∷ w) zero (suc j) h = ground arith
bit-set_bit (b ∷ w) (suc i) zero h = ground arith
bit-set_bit (b ∷ w) (suc i) (suc j) h = ground (arith, bit-set_bit w i j)

bit-nil : (i : ℕ) → bit [] i ≡ false
bit-nil i = refl

pub bit-word_zero : (i : ℕ) → bit word_zero i ≡ false
unfolding word_zero
bit-word_zero i = ground (arith, bit-zeros 64 i [])

pub length-word_zero : length word_zero ≡ 64
unfolding word_zero
length-word_zero = refl
