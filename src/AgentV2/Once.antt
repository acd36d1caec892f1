-- ===== src/AgentV2/Once.antt =====
-- `Session.Open` of internal/agentv2/protocol.go over a whole conversation.
use cpanelde.Prelude.{
  ℕ, ◌≡◌, ◌∙◌, true, false, List, [], ◌∷◌, arith, take, drop, Text, Option, none, some, ◌==◌,
  nat_eq, text_eq, Option-cases, inl, inr,
}
use cpanelde.AgentV2.Replay.{Tracks, contains, accept-Tracks}
use cpanelde.AgentV2.Wire.{Bytes, get_uint64}
use cpanelde.AgentV2.Session.{
  Session, Result, Error, ok, err, replay, open_numbered, open_envelope, is_envelope,
}

-- An envelope that is refused, for whatever reason, leaves the session as it was.
pub open_envelope_refused :
    (s : Session) (method path : Text) (env : Bytes) {e : Error}
    → (open_envelope s method path env).1 ≡ err e
    → (open_envelope s method path env).0 ≡ s
unfolding open_envelope open_numbered
open_envelope_refused s method path env h = ground arith

-- The numbers opened so far, after one more attempt.
abbrev after_open : List ℕ → Option (ℕ × Bytes) → Result Bytes → List ℕ
after_open h none r = h
after_open h (some (n, rest)) (ok plain) = n ∷ h
after_open h (some (n, rest)) (err e) = h

open_numbered-Tracks :
    (s : Session) (method path : Text) (numbered : ℕ × Bytes) (h : List ℕ)
    → Tracks s.recv_window h
    → Tracks
        (open_numbered s method path numbered).0.recv_window
        (after_open h (some numbered) (open_numbered s method path numbered).1)
unfolding open_numbered
open_numbered-Tracks s method path (seq, sealed) h t =
    ground (arith, accept-Tracks s.recv_window h t seq, t)

abbrev header : Bytes → Option (ℕ × Bytes)
header env = get_uint64 (drop 17 env)

open_envelope-Tracks :
    (s : Session) (method path : Text) (env : Bytes) (h : List ℕ)
    → Tracks s.recv_window h
    → Tracks
        (open_envelope s method path env).0.recv_window
        (after_open h (header env) (open_envelope s method path env).1)
unfolding open_envelope
open_envelope-Tracks s method path env h t = elim (Option-cases (header env)) [
  | inl e ↦ rw (e, open_envelope) (ground (arith, t))
  | inr (x, e) ↦ rw (e, open_envelope) (ground (arith, t, open_numbered-Tracks s method path x h t))
]

contains-after_open :
    (n : ℕ) (h : List ℕ) (o : Option (ℕ × Bytes)) (r : Result Bytes)
    → contains n h ≡ true
    → contains n (after_open h o r) ≡ true
contains-after_open n h none r e = e
contains-after_open n h (some (m, rest)) (ok plain) e = ground arith
contains-after_open n h (some (m, rest)) (err x) e = e

open_envelope_keeps_id :
    (s : Session) (method path : Text) (env : Bytes)
    → (open_envelope s method path env).0.session_id ≡ s.session_id
unfolding open_envelope open_numbered
open_envelope_keeps_id s method path env = ground arith

-- What a session has been handed, in order: method, path and envelope.
unfoldable pub receive_all : Session → List (Text × Text × Bytes) → Session
receive_all s [] = s
receive_all s ((method, path, env) ∷ rest) = receive_all (open_envelope s method path env).0 rest

-- The session with this id has opened number `n`, and its window says so.
record HasOpened (id : Bytes) (n : ℕ) (s : Session) : Type 0 where
  history : List ℕ
  tracked : Tracks s.recv_window history
  opened : contains n history ≡ true
  same_id : s.session_id ≡ id

receive_all-HasOpened :
    (id : Bytes) (n : ℕ) (s : Session) (items : List (Text × Text × Bytes))
    → HasOpened id n s
    → HasOpened id n (receive_all s items)
unfolding receive_all
receive_all-HasOpened id n s [] o = o
receive_all-HasOpened id n s ((method, path, env) ∷ rest) o =
    receive_all-HasOpened id n (open_envelope s method path env).0 rest (record {
      history = after_open o.history (header env) (open_envelope s method path env).1;
      tracked = open_envelope-Tracks s method path env o.history o.tracked;
      opened = contains-after_open n o.history _ _ o.opened;
      same_id = open_envelope_keeps_id s method path env ∙ o.same_id;
    })

-- What a successful `Open` says of the envelope.
record Opens (id : Bytes) (n : ℕ) (env : Bytes) : Type 0 where
  rest : Bytes
  shaped : is_envelope env ≡ true
  addressed : (take 16 (drop 1 env) == id) ≡ true
  numbered : header env ≡ some (n, rest)
  positive : (n == 0) ≡ false

open_numbered-positive :
    (s : Session) (method path : Text) (n : ℕ) (rest plain : Bytes)
    → (open_numbered s method path (n, rest)).1 ≡ ok plain
    → (n == 0) ≡ false
unfolding open_numbered
open_numbered-positive s method path n rest plain h = ground arith

open_envelope-Opens :
    (s : Session) (method path : Text) (env plain : Bytes)
    → (open_envelope s method path env).1 ≡ ok plain
    → (n : ℕ) × Opens s.session_id n env
unfolding open_envelope
open_envelope-Opens s method path env plain h = elim (Option-cases (header env)) [
  | inl e ↦ absurd (ground arith)
  | inr ((n, rest), e) ↦ (
    n,
    record {
      rest = rest;
      shaped = ground arith;
      addressed = ground arith;
      numbered = e;
      positive = open_numbered-positive s method path n rest plain (ground arith);
    },
  )
]

open_again :
    (s : Session) (id : Bytes) (n : ℕ) (method path : Text) (env : Bytes)
    → Opens id n env
    → HasOpened id n s
    → (open_envelope s method path env).1 ≡ err replay
unfolding open_envelope open_numbered
open_again s id n method path env p o =
    ground (arith, accept-Tracks s.recv_window o.history o.tracked n)

-- In a session whose window stands for a history of accepted numbers, once an envelope has been
-- opened, it never opens again, under whatever method and path it is
-- presented and whatever the session has received in between: the answer is the replay error.
pub open_envelope_once :
    (s : Session) (h : List ℕ) (method path method' path' : Text) (env plain : Bytes)
    (between : List (Text × Text × Bytes))
    → Tracks s.recv_window h
    → (open_envelope s method path env).1 ≡ ok plain
    → (open_envelope (receive_all (open_envelope s method path env).0 between) method' path' env).1
      ≡ err replay
open_envelope_once s h method path method' path' env plain between t opened =
    let (n, p) = open_envelope-Opens s method path env plain opened in
    open_again _ s.session_id n method' path' env p (
      receive_all-HasOpened s.session_id n _ between (record {
        history = n ∷ h;
        tracked = rw (p.numbered, opened) at (open_envelope-Tracks s method path env h t);
        opened = ground arith;
        same_id = open_envelope_keeps_id s method path env;
      }))
