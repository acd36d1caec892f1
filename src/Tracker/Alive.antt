-- ===== src/Tracker/Alive.antt =====
-- Reports of the IPs in use, and the hash that is meant to detect changes.
use mathlib.Core.List.{append_assoc, append-nil}
use cpanelde.Prelude.{
  ℕ, ◌≡◌, ap, sym, ◌∙◌, false, List, [], ◌∷◌, ◌++◌, Text, none, ◌==◌, text_eq, Map, ==_refl,
  Bool-cases, inl, inr,
}
use cpanelde.Prelude.Sorting.{sort_strings, insert_sorted, text_ltb}
use cpanelde.Tracker.{
  Tracker, uid_bytes, hash_input, sort_users, insert_user, calc_alive_ips_hash, flush_alive_ips,
}

-- After a report nothing is reported again until the next cycle, whatever the hash function is.
pub flush_alive_ips_twice :
    (digest : Text → Text) (t : Tracker)
    → (flush_alive_ips digest (flush_alive_ips digest t).0).1 ≡ none
unfolding flush_alive_ips
flush_alive_ips_twice digest t =
    elim (Bool-cases (calc_alive_ips_hash digest t.live.alive_ips == t.last_alive_ips_hash)) [
      | inl same ↦ rw (same, flush_alive_ips) (rw (same, flush_alive_ips))
      | inr other ↦
          rw (other, flush_alive_ips)
            (rw (==_refl (calc_alive_ips_hash digest t.live.alive_ips), flush_alive_ips))
    ]

-- Two tables that give a user two IPs each.
abbrev pub pair_of : ℕ → Text → Text → Map ℕ (List Text)
pair_of uid x y = (uid, x ∷ y ∷ []) ∷ []

hash_input_pair :
    (uid : ℕ) (x y : Text)
    → text_ltb y x ≡ false
    → hash_input (sort_users (pair_of uid x y)) ≡ uid_bytes uid ++ (x ++ y)
unfolding hash_input sort_users insert_user sort_strings insert_sorted
hash_input_pair uid x y h = rw (h, insert_sorted) (simp (append-nil, append_assoc))

-- The IPs of a user are hashed with nothing between them, so a change from `a ++ b` and `c` to `a`
-- and `b ++ c` is not seen (each pair in order): if the first table was reported, the second is
-- not.
pub flush_alive_ips_misses :
    (digest : Text → Text) (t : Tracker) (uid : ℕ) (a b c : Text)
    → text_ltb c (a ++ b) ≡ false
    → text_ltb (b ++ c) a ≡ false
    → t.last_alive_ips_hash ≡ calc_alive_ips_hash digest (pair_of uid (a ++ b) c)
    → t.live.alive_ips ≡ pair_of uid a (b ++ c)
    → (flush_alive_ips digest t).1 ≡ none
unfolding flush_alive_ips calc_alive_ips_hash
flush_alive_ips_misses digest t uid a b c h k last live = rw (
  live,
  last,
  same,
  ==_refl (calc_alive_ips_hash digest (pair_of uid a (b ++ c))),
  flush_alive_ips,
)
  where
    same :
        calc_alive_ips_hash digest (pair_of uid (a ++ b) c)
        ≡ calc_alive_ips_hash digest (pair_of uid a (b ++ c))
    same = ap digest (
        hash_input_pair uid (a ++ b) c h
        ∙ ap (λ s. uid_bytes uid ++ s) (append_assoc a b c)
        ∙ sym (hash_input_pair uid a (b ++ c) k))
