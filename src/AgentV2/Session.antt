-- ===== src/AgentV2/Session.antt =====
-- The encrypted session of protocol.go: `deriveSession`, `Session.Seal`, `Session.Open`,
-- `SessionIDFromEnvelope`, `associatedData`, `makeNonce`.
use Prim.Native.Nat.{bit_xor}
use cpanelde.Prelude.{
  ℕ, ◌+◌, ◌%◌, ◌^◌, ◌≡◌, Bool, false, not, ◌||◌, ◌&&◌, [], ◌∷◌, ◌++◌, length, take, drop,
  if◌then◌else◌, Text, Option, none, some, ltb, ◌==◌, nat_eq, text_eq, is_empty,
}
use cpanelde.AgentV2.Replay.{ReplayWindow, accept, empty_window}
use cpanelde.AgentV2.Wire.{Bytes, put_uint64, get_uint64, append_uint64, append_fields}

-- crypto/cipher.AEAD: `open` undoes `seal` under the same nonce and associated data, and the
-- sealed text is longer than the plain one by the sixteen bytes of the tag.
pub record Aead : Type 0 where
  pub seal : Bytes → Bytes → Bytes → Bytes
  pub open_sealed : Bytes → Bytes → Bytes → Option Bytes
  pub open-seal :
      (nonce plain aad : Bytes) → open_sealed nonce (seal nonce plain aad) aad ≡ some plain
  pub length-seal : (nonce plain aad : Bytes) → length (seal nonce plain aad) ≡ length plain + 16

-- crypto/hkdf with SHA-256, and aes.NewCipher with cipher.NewGCM.
pub record Crypto : Type 0 where
  pub hkdf : Bytes → Bytes → ℕ → Option Bytes
  pub new_gcm : Bytes → Option Aead

pub data Error : Type 0 where
  invalid_envelope replay wrong_session exhausted invalid_binding no_entropy bad_key : Error

pub data Result {ℓ} (A : Type ℓ) : Type ℓ where
  ok : A → Result A
  err : Error → Result A

infixl 5 ◌>>=◌
abbrev pub ◌>>=◌ {ℓ κ} : {A : Type ℓ} {B : Type κ} → Result A → (A → Result B) → Result B
ok a >>= f = f a
err e >>= f = err e

abbrev pub or_fail {ℓ} : {A : Type ℓ} → Option A → Error → Result A
or_fail none e = err e
or_fail (some a) e = ok a

abbrev pub session_id_size : ℕ
session_id_size = 16

abbrev pub nonce_size : ℕ
nonce_size = 12

abbrev pub header_size : ℕ
header_size = 25

abbrev pub tag_size : ℕ
tag_size = 16

abbrev pub envelope_version : ℕ
envelope_version = 2

pub record Session : Type 0 where
  pub machine_id : Text
  pub session_id : Bytes
  pub send_aead : Aead
  pub recv_aead : Aead
  pub send_nonce : Bytes
  pub recv_nonce : Bytes
  pub send_direction : ℕ
  pub recv_direction : ℕ
  pub send_seq : ℕ
  pub recv_window : ReplayWindow

unfoldable pub associated_data : Bytes → Text → Text → Text → ℕ → ℕ → Bytes
associated_data session_id machine_id method path direction seq =
    append_uint64
      (append_fields (envelope_version ∷ direction ∷ session_id) (machine_id ∷ method ∷ path ∷ []))
      seq

-- nonce[nonceSize-len(b)+i] ^= b[i], on the last eight bytes.
abbrev pub xor_bytes : Bytes → Bytes → Bytes
xor_bytes [] b = []
xor_bytes (x ∷ xs) [] = x ∷ xs
xor_bytes (x ∷ xs) (y ∷ b) = bit_xor x y ∷ xor_bytes xs b

unfoldable pub make_nonce : Bytes → ℕ → Bytes
make_nonce base seq = take 4 base ++ xor_bytes (drop 4 base) (put_uint64 seq)

-- The 88 bytes of key material are two keys and two nonces.
unfoldable pub derive_session : Crypto → Bytes → Bytes → Bytes → Text → Bool → Result Session
derive_session c shared salt session_id machine_id server =
    if not (length session_id == session_id_size) || is_empty machine_id
    then err invalid_binding
    else do
      material ← or_fail (c.hkdf shared salt 88) no_entropy
      c2s ← or_fail (c.new_gcm (take 32 material)) bad_key
      s2c ← or_fail (c.new_gcm (take 32 (drop 32 material))) bad_key
      let c2s_nonce = take nonce_size (drop 64 material)
      let s2c_nonce = take nonce_size (drop 76 material)
      ok (
          if server
          then record {
            machine_id = machine_id;
            session_id = session_id;
            send_aead = s2c;
            recv_aead = c2s;
            send_nonce = s2c_nonce;
            recv_nonce = c2s_nonce;
            send_direction = 1;
            recv_direction = 0;
            send_seq = 0;
            recv_window = empty_window;
          }
          else record {
            machine_id = machine_id;
            session_id = session_id;
            send_aead = c2s;
            recv_aead = s2c;
            send_nonce = c2s_nonce;
            recv_nonce = s2c_nonce;
            send_direction = 0;
            recv_direction = 1;
            send_seq = 0;
            recv_window = empty_window;
          })

-- The envelope that `Seal` makes for sequence number `seq`.
unfoldable pub envelope : Session → Text → Text → Bytes → ℕ → Bytes
envelope s method path plain seq =
    envelope_version
    ∷ (s.session_id
        ++ (put_uint64 seq
            ++ s.send_aead.seal (make_nonce s.send_nonce seq) plain
                (associated_data s.session_id s.machine_id method path s.send_direction seq)))

-- The counter is an atomic uint64, and wraps.
unfoldable pub seal : Session → Text → Text → Bytes → Session × Result Bytes
seal s method path plain =
    let seq = (s.send_seq + 1) % 2 ^ 64 in
    let s' = record s { send_seq = seq } in
    if seq == 0 then (s', err exhausted) else (s', ok (envelope s method path plain seq))

-- What `Open` does with the sequence number and the sealed text that the header check lets pass.
unfoldable pub open_numbered : Session → Text → Text → ℕ × Bytes → Session × Result Bytes
open_numbered s method path (seq, sealed) =
    if seq == 0
    then (s, err invalid_envelope)
    else let (candidate, passed) = accept s.recv_window seq in
      if not passed
      then (s, err replay)
      else elim (s.recv_aead.open_sealed (make_nonce s.recv_nonce seq) sealed
          (associated_data s.session_id s.machine_id method path s.recv_direction seq)) [
            | none ↦ (s, err invalid_envelope)
            | some plain ↦ (record s { recv_window = candidate }, ok plain)
          ]

abbrev pub has_version : Bytes → Bool
has_version [] = false
has_version (b ∷ rest) = b == envelope_version

abbrev pub is_envelope : Bytes → Bool
is_envelope env = not (ltb (length env) (header_size + tag_size)) && has_version env

unfoldable pub open_envelope : Session → Text → Text → Bytes → Session × Result Bytes
open_envelope s method path env =
    if not (is_envelope env)
    then (s, err invalid_envelope)
    else if not (take session_id_size (drop 1 env) == s.session_id)
    then (s, err wrong_session)
    else elim (get_uint64 (drop (1 + session_id_size) env)) [
      | none ↦ (s, err invalid_envelope)
      | some numbered ↦ open_numbered s method path numbered
    ]

-- The sixteen bytes that `SessionIDFromEnvelope` hands to the base64 encoder.
unfoldable pub session_id_from_envelope : Bytes → Result Bytes
session_id_from_envelope env =
    if not (is_envelope env) then err invalid_envelope else ok (take session_id_size (drop 1 env))
