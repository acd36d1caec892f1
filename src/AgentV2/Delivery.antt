-- ===== src/AgentV2/Delivery.antt =====
-- What two ends of a session promise each other: `Seal` against `Open` of protocol.go.
use cpanelde.Prelude.{
  ℕ, ◌^◌, ◌<◌, ◌≡◌, ap, sym, ◌∙◌, true, false, ◌++◌, arith, length, take, drop, Text, some, nat_eq,
  text_eq, length-append, take-append_of_length, drop-append_of_length, ==_refl,
}
use cpanelde.AgentV2.Replay.{accept}
use cpanelde.AgentV2.Wire.{Bytes, put_uint64, get_uint64, get_uint64-put_uint64}
use cpanelde.AgentV2.Session.{
  Crypto, Session, ok, derive_session, envelope, open_numbered, open_envelope, is_envelope,
  make_nonce, associated_data,
}

-- The receiving half of `r` matches the sending half of `s`.
pub record Peers (s r : Session) : Type 0 where
  pub same_session : r.session_id ≡ s.session_id
  pub sized : length s.session_id ≡ 16
  pub same_machine : r.machine_id ≡ s.machine_id
  pub same_aead : r.recv_aead ≡ s.send_aead
  pub same_nonce : r.recv_nonce ≡ s.send_nonce
  pub same_direction : r.recv_direction ≡ s.send_direction

-- When both ends derive a session from the same secret, salt and session id, each end opens
-- with the key, nonce base and direction that the other one seals with.
pub derive_session-Peers :
    (c : Crypto) (shared salt session_id : Bytes) (machine_id : Text) (client server : Session)
    → derive_session c shared salt session_id machine_id false ≡ ok client
    → derive_session c shared salt session_id machine_id true ≡ ok server
    → Peers client server × Peers server client
unfolding derive_session
derive_session-Peers c shared salt session_id machine_id client server hc hs = ground arith

-- `Open` once the header is read.
open_envelope_parts :
    (r : Session) (method path : Text) (env : Bytes) (numbered : ℕ × Bytes)
    → is_envelope env ≡ true
    → take 16 (drop 1 env) ≡ r.session_id
    → get_uint64 (drop 17 env) ≡ some numbered
    → open_envelope r method path env ≡ open_numbered r method path numbered
unfolding open_envelope
open_envelope_parts r method path env numbered e i n = rw (e, i, n, ==_refl r.session_id)

module _ (s r : Session) (p : Peers s r) where
  header_session :
      (method path : Text) (plain : Bytes) (seq : ℕ)
      → take 16 (drop 1 (envelope s method path plain seq)) ≡ s.session_id
  unfolding envelope
  header_session method path plain seq = take-append_of_length 16 s.session_id _ p.sized

  header_seq :
      (method path : Text) (plain : Bytes) (seq : ℕ)
      → seq < 2 ^ 64
      → get_uint64 (drop 17 (envelope s method path plain seq))
        ≡ some (
          seq,
          s.send_aead.seal
              (make_nonce s.send_nonce seq)
              plain
              (associated_data s.session_id s.machine_id method path s.send_direction seq),
        )
  unfolding envelope
  header_seq method path plain seq h =
      ap get_uint64 (drop-append_of_length 16 s.session_id _ p.sized)
      ∙ get_uint64-put_uint64 seq _ h

  envelope-is_envelope :
      (method path : Text) (plain : Bytes) (seq : ℕ)
      → is_envelope (envelope s method path plain seq) ≡ true
  unfolding envelope put_uint64
  envelope-is_envelope method path plain seq = ground (
    arith,
    p.sized,
    length-append s.session_id (
        put_uint64 seq
        ++ s.send_aead.seal (make_nonce s.send_nonce seq) plain
            (associated_data s.session_id s.machine_id method path s.send_direction seq)),
    s.send_aead.length-seal (make_nonce s.send_nonce seq) plain
        (associated_data s.session_id s.machine_id method path s.send_direction seq),
  )

  opens_sealed :
      (method path : Text) (plain : Bytes) (seq : ℕ)
      → r.recv_aead.open_sealed
          (make_nonce r.recv_nonce seq)
          (s.send_aead.seal
            (make_nonce s.send_nonce seq)
            plain
            (associated_data s.session_id s.machine_id method path s.send_direction seq))
          (associated_data r.session_id r.machine_id method path r.recv_direction seq)
        ≡ some plain
  opens_sealed method path plain seq =
      rw (p.same_aead, p.same_nonce, p.same_session, p.same_machine, p.same_direction)
        (s.send_aead.open-seal _ plain _)

  -- An envelope that one end seals and the other has not seen opens to the text that was sealed,
  -- provided its number passes the window; only the window changes.
  pub open_envelope-envelope :
      (method path : Text) (plain : Bytes) (seq : ℕ)
      → 0 < seq
      → seq < 2 ^ 64
      → (accept r.recv_window seq).1 ≡ true
      → open_envelope r method path (envelope s method path plain seq)
        ≡ (record r { recv_window = (accept r.recv_window seq).0 }, ok plain)
  unfolding open_numbered
  open_envelope-envelope method path plain seq pos bound passed =
      open_envelope_parts r method path (envelope s method path plain seq) _
        (envelope-is_envelope method path plain seq)
        (header_session method path plain seq ∙ sym p.same_session)
        (header_seq method path plain seq bound)
      ∙ ground (arith, opens_sealed method path plain seq)
