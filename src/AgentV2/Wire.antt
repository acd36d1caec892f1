-- ===== src/AgentV2/Wire.antt =====
-- The byte layout of protocol.go: `appendUint64`, `appendField`, `associatedData`,
-- `RequestTranscript`, `ResponseTranscript`.
use mathlib.Core.List.{append_assoc, append-nil}
use cpanelde.Prelude.{
  ℕ, ◌+◌, ◌*◌, ◌/◌, ◌%◌, ◌^◌, ◌<◌, ◌≡◌, refl, ap, sym, ◌∙◌, Bool, List, [], ◌∷◌, ◌++◌, arith,
  length, if◌then◌else◌, Text, codes, Option, none, some, All,
}

abbrev pub Bytes : Type 0
Bytes = List ℕ

abbrev pub u64_mod : ℕ
u64_mod = 2 ^ 64

-- binary.BigEndian.PutUint64
unfoldable pub put_uint64 : ℕ → Bytes
put_uint64 n =
    (n / 2 ^ 56 % 256)
    ∷ (n / 2 ^ 48 % 256)
    ∷ (n / 2 ^ 40 % 256)
    ∷ (n / 2 ^ 32 % 256)
    ∷ (n / 2 ^ 24 % 256)
    ∷ (n / 2 ^ 16 % 256)
    ∷ (n / 2 ^ 8 % 256)
    ∷ (n % 256)
    ∷ []

-- binary.BigEndian.Uint64: the first eight bytes, as a number, and what follows them.
unfoldable pub get_uint64 : Bytes → Option (ℕ × Bytes)
get_uint64 (a ∷ b ∷ c ∷ d ∷ e ∷ f ∷ g ∷ h ∷ rest) = some (
  a * 2 ^ 56 + b * 2 ^ 48 + c * 2 ^ 40 + d * 2 ^ 32 + e * 2 ^ 24 + f * 2 ^ 16 + g * 2 ^ 8 + h,
  rest,
)
get_uint64 _ = none

unfoldable pub append_uint64 : Bytes → ℕ → Bytes
append_uint64 out value = out ++ put_uint64 value

unfoldable pub append_field : Bytes → Text → Bytes
append_field out value = append_uint64 out (length value) ++ value

-- for _, field := range fields { out = appendField(out, field) }
unfoldable pub append_fields : Bytes → List Text → Bytes
append_fields out [] = out
append_fields out (f ∷ fs) = append_fields (append_field out f) fs

-- A number below 2 ^ 64 that is written in eight bytes reads back, and what follows is untouched.
pub get_uint64-put_uint64 :
    (n : ℕ) (rest : Bytes) → n < 2 ^ 64 → get_uint64 (put_uint64 n ++ rest) ≡ some (n, rest)
unfolding get_uint64 put_uint64
get_uint64-put_uint64 n rest h = ap (λ k. some (k, rest)) (omega arith)

put_uint64-injective :
    (m n : ℕ) (r s : Bytes)
    → m < 2 ^ 64
    → n < 2 ^ 64
    → put_uint64 m ++ r ≡ put_uint64 n ++ s
    → (m ≡ n) × (r ≡ s)
put_uint64-injective m n r s hm hn e =
    let same =
      sym (get_uint64-put_uint64 m r hm) ∙ ap get_uint64 e ∙ get_uint64-put_uint64 n s hn in
    (cc same, cc same)

append-injective :
    (xs ys r s : Bytes) → length xs ≡ length ys → xs ++ r ≡ ys ++ s → (xs ≡ ys) × (r ≡ s)
append-injective [] [] r s h e = (refl, e)
append-injective [] (y ∷ ys) r s h e = absurd (omega arith)
append-injective (x ∷ xs) [] r s h e = absurd (omega arith)
append-injective (x ∷ xs) (y ∷ ys) r s h e = ground (arith, append-injective xs ys r s)

-- The bytes of one field, and of several.
abbrev field_bytes : Text → Bytes
field_bytes f = put_uint64 (length f) ++ f

abbrev fields_bytes : List Text → Bytes
fields_bytes [] = []
fields_bytes (f ∷ fs) = put_uint64 (length f) ++ (f ++ fields_bytes fs)

append_fields-fields_bytes :
    (out : Bytes) (fs : List Text) → append_fields out fs ≡ out ++ fields_bytes fs
unfolding append_fields append_field append_uint64
append_fields-fields_bytes out [] = simp append-nil
append_fields-fields_bytes out (f ∷ fs) =
    append_fields-fields_bytes (append_field out f) fs ∙ simp append_assoc

-- Every field is short enough for its length to be written in eight bytes.
abbrev pub Fits : List Text → Type 0
Fits = All (λ f. length f < 2 ^ 64)

fields_bytes-injective :
    (fs gs : List Text) (r s : Bytes)
    → Fits fs
    → Fits gs
    → length fs ≡ length gs
    → fields_bytes fs ++ r ≡ fields_bytes gs ++ s
    → (fs ≡ gs) × (r ≡ s)
fields_bytes-injective [] [] r s hf hg n e = (refl, e)
fields_bytes-injective [] (g ∷ gs) r s hf hg n e = absurd (omega arith)
fields_bytes-injective (f ∷ fs) [] r s hf hg n e = absurd (omega arith)
fields_bytes-injective (f ∷ fs) (g ∷ gs) r s hf hg n e =
    let (lengths, e') =
      put_uint64-injective (length f) (length g) _ _ hf.0 hg.0 (simp append_assoc at e) in
    let (heads, e'') = append-injective f g _ _ lengths e' in
    let (tails, rests) = fields_bytes-injective fs gs r s hf.1 hg.1 (omega arith) e'' in
    (cc (heads, tails), rests)

-- Two sequences of equally many fields, all shorter than 2 ^ 64 bytes, with the same bytes in front of the same kind of tail are
-- the same sequences, with the same tails: no byte of one field can pass for a byte of another.
pub append_fields-injective :
    (fs gs : List Text) (r s : Bytes)
    → Fits fs
    → Fits gs
    → length fs ≡ length gs
    → append_fields [] fs ++ r ≡ append_fields [] gs ++ s
    → (fs ≡ gs) × (r ≡ s)
append_fields-injective fs gs r s hf hg n e =
    fields_bytes-injective fs gs r s hf hg n
      (rw (append_fields-fields_bytes [] fs, append_fields-fields_bytes [] gs) at e)

pub record HandshakeRequest : Type 0 where
  pub version : Text
  pub mode : Text
  pub machine_id : Text
  pub identity_public : Text
  pub ephemeral_public : Text
  pub nonce : Text
  pub timestamp : ℕ
  pub proof : Text

pub record HandshakeResponse : Type 0 where
  pub version : Text
  pub session_id : Text
  pub identity_public : Text
  pub ephemeral_public : Text
  pub nonce : Text
  pub timestamp : ℕ
  pub enrolled : Bool
  pub signature : Text

abbrev request_fields : HandshakeRequest → List Text
request_fields r =
    codes "ca2"
    ∷ r.version
    ∷ r.mode
    ∷ r.machine_id
    ∷ r.identity_public
    ∷ r.ephemeral_public
    ∷ r.nonce
    ∷ []

unfoldable pub request_transcript : HandshakeRequest → Bytes
request_transcript r = append_uint64 (append_fields [] (request_fields r)) r.timestamp

abbrev response_fields : HandshakeResponse → List Text
response_fields r = r.version ∷ r.session_id ∷ r.identity_public ∷ r.ephemeral_public ∷ r.nonce ∷ []

unfoldable pub response_transcript : Bytes → HandshakeResponse → Bytes
response_transcript request r =
    append_uint64 (append_fields request (response_fields r)) r.timestamp
    ++ (if r.enrolled then 1 else 0) ∷ []

-- Two requests whose transcripts agree are the same request but for the proof, which is made from the
-- transcript: what is signed determines every other field. The fields are shorter than 2 ^ 64 bytes
-- and the timestamps below 2 ^ 64.
pub request_transcript-injective :
    (q r : HandshakeRequest)
    → Fits (request_fields q)
    → Fits (request_fields r)
    → q.timestamp < 2 ^ 64
    → r.timestamp < 2 ^ 64
    → request_transcript q ≡ request_transcript r
    → record q { proof = r.proof } ≡ r
unfolding request_transcript append_uint64
request_transcript-injective q r fq fr tq tr e =
    let (fields, times) =
      append_fields-injective (request_fields q) (request_fields r) _ _ fq fr refl e in
    let stamps =
      put_uint64-injective q.timestamp r.timestamp [] [] tq tr (ap (λ b. b ++ []) times) in
    ground (arith, fields, stamps)
