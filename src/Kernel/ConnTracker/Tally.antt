-- ===== src/Kernel/ConnTracker/Tally.antt =====
-- The statistics of all users against the open connections, operation by operation.
use cpanelde.Prelude.{
  ℕ, ◌≡◌, ◌≢◌, refl, ap, sym, ◌∙◌, Bool, true, false, List, [], ◌∷◌, ◌++◌, arith, if◌then◌else◌,
  Text, Option, none, some, ◌==◌, nat_eq, text_eq, Map, lookup, insert, lookup-insert, Bool-cases,
  Option-cases, inl, inr, ◌⊎◌, eq_of_beq, ==_refl,
}
use mathlib.Core.Path.{subst}
use cpanelde.Kernel.ConnTracker.{
  UserStats, ConnTracker, new_stats, add_conn, remove_conn, ensure_stats,
}
use cpanelde.Kernel.ConnTracker.Conns.{
  TrackedConn, Limits, register, routed, rejects, with_stats, modify_stats, user_id_of, close,
}
use cpanelde.Kernel.ConnTracker.Counts.{
  Counts, new_stats-Counts, add_conn-Counts, remove_conn-Counts_middle,
}

abbrev pub counts_for : ℕ → Option ℕ → Bool
counts_for uid none = false
counts_for uid (some n) = uid == n

-- The source IPs of the open connections that count for a user.
abbrev pub ips_of : ℕ → List TrackedConn → List Text
ips_of uid [] = []
ips_of uid (c ∷ open_conns) =
    if counts_for uid c.us then c.source_ip ∷ ips_of uid open_conns else ips_of uid open_conns

pub record Tally (users : Map ℕ UserStats) (open_conns : List TrackedConn) : Type 0 where
  pub exact :
      (uid : ℕ) (u : UserStats) → lookup uid users ≡ some u → Counts u (ips_of uid open_conns)
  pub absent : (uid : ℕ) → lookup uid users ≡ none → ips_of uid open_conns ≡ []

-- The open connections once a routed one is let in or rejected.
abbrev pub admitted : Option TrackedConn → List TrackedConn → List TrackedConn
admitted none open_conns = open_conns
admitted (some c) open_conns = c ∷ open_conns

-- New statistics for one user, beside a change of the open connections that is theirs alone.
write-Tally :
    (users : Map ℕ UserStats) (before after : List TrackedConn) (uid : ℕ) (v : UserStats)
    → Tally users before
    → Counts v (ips_of uid after)
    → ((n : ℕ) → (n == uid) ≡ false → ips_of n after ≡ ips_of n before)
    → Tally (insert uid v users) after
write-Tally users before after uid v y c same = record {
  exact = λ n w h. exact n w h (Bool-cases (n == uid));
  absent = λ n h. absent n h (Bool-cases (n == uid));
}
  where
    exact :
        (n : ℕ) (w : UserStats)
        → lookup n (insert uid v users) ≡ some w
        → ((n == uid) ≡ true) ⊎ ((n == uid) ≡ false)
        → Counts w (ips_of n after)
    exact n w h (inl e) =
        let written : v ≡ w = ground (arith, h, lookup-insert n uid v users, e) in
        subst (λ x. Counts x (ips_of n after)) written (rw (eq_of_beq n uid e) c)
    exact n w h (inr e) =
        rw (same n e) (y.exact n w (ground (arith, h, lookup-insert n uid v users, e)))

    absent :
        (n : ℕ)
        → lookup n (insert uid v users) ≡ none
        → ((n == uid) ≡ true) ⊎ ((n == uid) ≡ false)
        → ips_of n after ≡ []
    absent n h (inl e) = absurd (ground (arith, h, lookup-insert n uid v users, e))
    absent n h (inr e) = same n e ∙ y.absent n (ground (arith, h, lookup-insert n uid v users, e))

-- A connection that counts for no user changes nothing.
uncounted-Tally :
    (users : Map ℕ UserStats) (before after : List TrackedConn)
    → Tally users before
    → ((n : ℕ) → ips_of n after ≡ ips_of n before)
    → Tally users after
uncounted-Tally users before after y same = record {
  exact = λ n w h. rw (same n) (y.exact n w h);
  absent = λ n h. same n ∙ y.absent n h;
}

-- A change of one user's statistics that keeps their counts.
pub with_stats-Tally :
    (t : ConnTracker) (open_conns : List TrackedConn) (us : Option ℕ) (f : UserStats → UserStats)
    → ((u : UserStats) (ips : List Text) → Counts u ips → Counts (f u) ips)
    → Tally t.users open_conns
    → Tally (with_stats us f t).users open_conns
with_stats-Tally t open_conns none f keep y = y
with_stats-Tally t open_conns (some uid) f keep y = elim (Option-cases (lookup uid t.users)) [
  | inl e ↦ rw (e, modify_stats) y
  | inr (u, e) ↦
      rw (e, modify_stats)
        (write-Tally t.users open_conns open_conns uid (f u) y (keep u _ (y.exact uid u e))
          (λ n _. refl))
]

register-Tally :
    (tcp : Bool) (t : ConnTracker) (uid : ℕ) (us : Option UserStats) (ip : Text)
    (open_conns : List TrackedConn)
    → Tally t.users open_conns
    → lookup uid t.users ≡ us
    → Tally (register tcp t uid us ip).0.users ((register tcp t uid us ip).1 ∷ open_conns)
unfolding register
register-Tally tcp t uid none ip open_conns y e = uncounted-Tally t.users open_conns _ y (λ n. refl)
register-Tally tcp t uid (some u) ip open_conns y e =
    write-Tally t.users open_conns _ uid (add_conn u ip) y
      (rw (==_refl uid) (add_conn-Counts u (ips_of uid open_conns) ip (y.exact uid u e)))
      (λ n other. rw other)

-- A connection that is let in is counted; one that is rejected leaves the tracker as it was.
pub routed-Tally :
    (tcp : Bool) (t : ConnTracker) (limits : Limits) (uuid ip : Text) (now : ℕ)
    (open_conns : List TrackedConn)
    → Tally t.users open_conns
    → Tally
        (routed tcp t limits uuid ip now).0.users
        (admitted (routed tcp t limits uuid ip now).1 open_conns)
unfolding routed
routed-Tally tcp t limits uuid ip now open_conns y =
    elim (Bool-cases (rejects t limits uuid ip now)) [
      | inl e ↦ rw (e, routed) y
      | inr e ↦
          rw (e, routed)
            (register-Tally tcp t (user_id_of t uuid) (lookup (user_id_of t uuid) t.users) ip
              open_conns y refl)
    ]

ips_of-append :
    (n : ℕ) (pre post : List TrackedConn) → ips_of n (pre ++ post) ≡ ips_of n pre ++ ips_of n post
ips_of-append n [] post = refl
ips_of-append n (c ∷ pre) post = ground (arith, ips_of-append n pre post)

module _ (c : TrackedConn) (pre post : List TrackedConn) where
  ips_of-other :
      (n : ℕ) → counts_for n c.us ≡ false → ips_of n (pre ++ post) ≡ ips_of n (pre ++ c ∷ post)
  ips_of-other n e =
      ips_of-append n pre post
      ∙ sym (ips_of-append n pre (c ∷ post) ∙ ap (λ l. ips_of n pre ++ l) (ground (arith, e)))

  ips_of-own :
      (n : ℕ)
      → counts_for n c.us ≡ true
      → ips_of n (pre ++ c ∷ post) ≡ ips_of n pre ++ c.source_ip ∷ ips_of n post
  ips_of-own n e = ips_of-append n pre (c ∷ post) ∙ ap (λ l. ips_of n pre ++ l) (ground (arith, e))

middle-ne-nil : (ip : Text) (pre post : List Text) → pre ++ ip ∷ post ≢ []
middle-ne-nil ip [] post e = cc
middle-ne-nil ip (j ∷ pre) post e = cc

close_stats-Tally :
    (t : ConnTracker) (c : TrackedConn) (pre post : List TrackedConn) (us : Option ℕ)
    → c.us ≡ us
    → Tally t.users (pre ++ c ∷ post)
    → Tally (with_stats us (λ u. remove_conn u c.source_ip) t).users (pre ++ post)
close_stats-Tally t c pre post none e y =
    uncounted-Tally t.users (pre ++ c ∷ post) (pre ++ post) y
      (λ n. ips_of-other c pre post n (rw e))
close_stats-Tally t c pre post (some uid) e y = elim (Option-cases (lookup uid t.users)) [
  | inl gone ↦ absurd (
      middle-ne-nil c.source_ip (ips_of uid pre) (ips_of uid post)
        (sym (ips_of-own c pre post uid own) ∙ y.absent uid gone))
  | inr (u, found) ↦
      rw (found, modify_stats)
        (write-Tally t.users (pre ++ c ∷ post) (pre ++ post) uid (remove_conn u c.source_ip) y
          (rw (ips_of-append uid pre post) (
            remove_conn-Counts_middle u c.source_ip (ips_of uid pre) (ips_of uid post)
              (rw (ips_of-own c pre post uid own) at (y.exact uid u found))))
          (λ n other. ips_of-other c pre post n (rw e other)))
]
  where
    own : counts_for uid c.us ≡ true
    own = rw e (==_refl uid)

-- Closing an open connection takes it out of the counts.
pub close-Tally :
    (t : ConnTracker) (c : TrackedConn) (pre post : List TrackedConn)
    → c.closed ≡ false
    → Tally t.users (pre ++ c ∷ post)
    → Tally (close t c).0.users (pre ++ post)
unfolding close
close-Tally t c pre post live y = rw (live, close) (close_stats-Tally t c pre post c.us refl y)

pub ensure_stats-Tally :
    (m : Map Text ℕ) (users : Map ℕ UserStats) (open_conns : List TrackedConn)
    → Tally users open_conns
    → Tally (ensure_stats m users) open_conns
unfolding ensure_stats
ensure_stats-Tally [] users open_conns y = y
ensure_stats-Tally ((uuid, uid) ∷ m) users open_conns y = elim (Option-cases (lookup uid users)) [
  | inl e ↦
      rw (e, ensure_stats)
        (ensure_stats-Tally m (insert uid new_stats users) open_conns (
          write-Tally users open_conns open_conns uid new_stats y
            (rw (y.absent uid e) new_stats-Counts) (λ n _. refl)))
  | inr (u, e) ↦ rw (e, ensure_stats) (ensure_stats-Tally m users open_conns y)
]
