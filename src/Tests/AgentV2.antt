-- ===== src/Tests/AgentV2.antt =====
-- The protocol of internal/agentv2/protocol.go on small messages, with a cipher that puts sixteen
-- bytes in front of the text.
use cpanelde.Prelude.{
  ◌≡◌, refl, arith, [], ◌∷◌, ◌++◌, take, drop, Text, codes, some, nat_eq, text_eq,
}
use cpanelde.AgentV2.Word.{word_zero, shift_left, set_bit}
use cpanelde.AgentV2.Replay.{
  empty_window, empty_window-Tracks, advance, accept, accept_all, accept-Tracks, is_fresh,
  record_accept, Tracks,
}
use cpanelde.AgentV2.Wire.{
  Bytes, put_uint64, get_uint64, HandshakeRequest, request_transcript, request_transcript-injective,
}
use cpanelde.AgentV2.Session.{
  Aead, Crypto, Session, ok, err, replay, derive_session, envelope, open_numbered, open_envelope,
}
use cpanelde.AgentV2.Delivery.{derive_session-Peers, open_envelope-envelope}
use cpanelde.AgentV2.Once.{receive_all, open_envelope_once}

abbrev sixteen : Bytes
sixteen = 0 ∷ 0 ∷ 0 ∷ 0 ∷ 0 ∷ 0 ∷ 0 ∷ 0 ∷ 0 ∷ 0 ∷ 0 ∷ 0 ∷ 0 ∷ 0 ∷ 0 ∷ 0 ∷ []

abbrev prefix_aead : Aead
prefix_aead = record {
  seal = λ nonce plain aad. sixteen ++ plain;
  open_sealed = λ nonce sealed aad. some (drop 16 sealed);
  open-seal = λ nonce plain aad. refl;
  length-seal = λ nonce plain aad. omega arith;
}

abbrev key_material : Bytes
key_material =
    sixteen
    ++ sixteen
    ++ sixteen
    ++ sixteen
    ++ (1 ∷ 2 ∷ 3 ∷ 4 ∷ [])
    ++ sixteen
    ++ (1 ∷ 2 ∷ 3 ∷ 4 ∷ [])

abbrev plain_crypto : Crypto
plain_crypto = record {
  hkdf = λ shared salt size. some key_material;
  new_gcm = λ key. some prefix_aead;
}

abbrev client : Session
client = record {
  machine_id = codes "m1";
  session_id = sixteen;
  send_aead = prefix_aead;
  recv_aead = prefix_aead;
  send_nonce = take 12 (drop 64 key_material);
  recv_nonce = take 12 (drop 76 key_material);
  send_direction = 0;
  recv_direction = 1;
  send_seq = 0;
  recv_window = empty_window;
}

abbrev server : Session
server = record {
  machine_id = codes "m1";
  session_id = sixteen;
  send_aead = prefix_aead;
  recv_aead = prefix_aead;
  send_nonce = take 12 (drop 76 key_material);
  recv_nonce = take 12 (drop 64 key_material);
  send_direction = 1;
  recv_direction = 0;
  send_seq = 0;
  recv_window = empty_window;
}

abbrev post : Text
post = codes "POST"

abbrev path : Text
path = codes "/api"

open_envelope-envelope_example :
    open_envelope server post path (envelope client post path (7 ∷ 8 ∷ []) 1)
    ≡ (record server { recv_window = (accept empty_window 1).0 }, ok (7 ∷ 8 ∷ []))
unfolding derive_session accept
open_envelope-envelope_example =
    open_envelope-envelope client server
      (derive_session-Peers plain_crypto [] [] sixteen (codes "m1") client server refl refl).0 post
      path (7 ∷ 8 ∷ []) 1 (omega arith) (omega arith) refl

abbrev first : Bytes
first = envelope client post path (7 ∷ []) 1

abbrev second : Bytes
second = envelope client post path (9 ∷ []) 2

open_envelope_once_example :
    (open_envelope
      (receive_all (open_envelope server post path first).0 ((post, path, second) ∷ []))
      post
      path
      first).1
    ≡ err replay
unfolding open_envelope open_numbered accept envelope put_uint64 get_uint64
open_envelope_once_example =
    open_envelope_once server [] post path post path first (7 ∷ []) ((post, path, second) ∷ [])
      empty_window-Tracks refl

accept-Tracks_example :
    ((accept (accept empty_window 70).0 3).1
      ≡ is_fresh (record_accept [] 70 (accept empty_window 70).1) 3)
    × Tracks (accept (accept empty_window 70).0 3).0 (
        record_accept
          (record_accept [] 70 (accept empty_window 70).1)
          3
          (accept (accept empty_window 70).0 3).1)
accept-Tracks_example =
    accept-Tracks (accept empty_window 70).0 (record_accept [] 70 (accept empty_window 70).1)
      (accept-Tracks empty_window [] empty_window-Tracks 70).1 3

accepted_numbers : (accept_all empty_window [] (3 ∷ 1 ∷ 3 ∷ 90 ∷ 20 ∷ 90 ∷ [])).1 ≡ 90 ∷ 1 ∷ 3 ∷ []
unfolding accept_all accept advance word_zero shift_left set_bit
accepted_numbers = refl

abbrev hello : HandshakeRequest
hello = record {
  version = codes "2";
  mode = codes "enroll";
  machine_id = codes "m1";
  identity_public = codes "k";
  ephemeral_public = codes "e";
  nonce = codes "n";
  timestamp = 1_700_000_000;
  proof = codes "p";
}

abbrev other_hello : HandshakeRequest
other_hello = record hello { proof = codes "q" }

request_transcript-injective_example : record hello { proof = codes "q" } ≡ other_hello
unfolding request_transcript
request_transcript-injective_example =
    request_transcript-injective hello other_hello (ground arith) (ground arith) (omega arith)
      (omega arith) refl
