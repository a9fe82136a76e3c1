-- ===== src/Encoder/HandShakes.antt =====
-- `decodeHandShake` of BitTorrentEncoder.h and the encoding of a handshake.
use native.Mathlib.Decide.{dec_lt}
use fractals.Prelude.{
  ℕ, suc, ◌+◌, ◌-◌, ◌%◌, ◌^◌, ◌≤◌, ◌<◌, ◌≡◌, ◌≢◌, ◌↔◌, none, some, List, [], ◌∷◌, ◌++◌, arith,
  length, true, false, take, drop, ◌==◌, refl, ap, sym, ◌∙◌, append-nil, length-append, le→leb,
  Bool-cases, inl, inr, length-drop, take-append, drop-append,
}
use mathlib.Core.Path.{ap₂}
use fractals.Message.{hand_shake, sign_extend, IsWellFormed, HandShake}
use fractals.Encoder.{encode}
use fractals.Encoder.Decode.{
  decode_hand_shake, decode_hand_shake_payload, split_exact, failure, no_type,
}

split_exact-append :
    (n : ℕ) (xs ys : List ℕ) → length xs ≡ n → split_exact n (xs ++ ys) ≡ some (xs, ys)
unfolding split_exact
split_exact-append n xs ys e =
    rw (le→leb n (length (xs ++ ys)) (omega (arith, length-append xs ys)))
      (ap₂ (λ a b. some (a, b)) (take-append n xs ys (sym e)) (drop-append n xs ys (sym e)))

split_exact_short : (n : ℕ) (view : List ℕ) → length view < n → split_exact n view ≡ none
unfolding split_exact
split_exact_short n view h = ground arith

abbrev wire : HandShake → List ℕ
wire t = t.pstr ++ (t.reserved ++ (t.info_hash ++ t.peer_id))

payload-wire :
    (t : HandShake)
    → IsWellFormed (hand_shake t)
    → decode_hand_shake_payload (wire t) (length t.pstr) ≡ some (hand_shake t)
unfolding decode_hand_shake_payload
payload-wire t h = rw (
  split_exact-append (length t.pstr) t.pstr (t.reserved ++ (t.info_hash ++ t.peer_id)) refl,
  split_exact-append 8 t.reserved (t.info_hash ++ t.peer_id) h.1,
  split_exact-append 20 t.info_hash t.peer_id h.2,
  ap (split_exact 20) (sym (append-nil t.peer_id)) ∙ split_exact-append 20 t.peer_id [] h.3,
)

length-wire : (t : HandShake) → IsWellFormed (hand_shake t) → length (wire t) ≡ length t.pstr + 48
length-wire t h = omega (
  arith,
  length-append t.pstr (t.reserved ++ (t.info_hash ++ t.peer_id)),
  length-append t.reserved (t.info_hash ++ t.peer_id),
  length-append t.info_hash t.peer_id,
  h.1,
  h.2,
  h.3,
)

encode-wire : (t : HandShake) → encode (hand_shake t) ≡ some ((length t.pstr % 256) ∷ wire t)
unfolding encode
encode-wire t = refl

split_exact_enough :
    (n : ℕ) (view : List ℕ) → n ≤ length view → split_exact n view ≡ some (take n view, drop n view)
unfolding split_exact
split_exact_enough n view h = rw (le→leb n (length view) h)

payload_enough :
    (view : List ℕ) (p : ℕ) → length view ≡ p + 48 → decode_hand_shake_payload view p ≢ none
unfolding decode_hand_shake_payload
payload_enough view p e =
    let l₁ : length (drop p view) ≡ 48 = omega (arith, length-drop p view) in
    let l₂ : length (drop 8 (drop p view)) ≡ 40 = omega (arith, length-drop 8 (drop p view)) in
    let l₃ : length (drop 20 (drop 8 (drop p view))) ≡ 20 =
      omega (arith, length-drop 20 (drop 8 (drop p view))) in
    rw
      (
        split_exact_enough p view (omega arith),
        split_exact_enough 8 (drop p view) (omega arith),
        split_exact_enough 20 (drop 8 (drop p view)) (omega arith),
        split_exact_enough 20 (drop 20 (drop 8 (drop p view))) (omega arith),
      )
      (λ x. cc)

payload_short : (view : List ℕ) (p : ℕ) → length view < p → decode_hand_shake_payload view p ≡ none
unfolding decode_hand_shake_payload
payload_short view p h = rw (split_exact_short p view h)

-- A well-formed handshake whose protocol name has fewer than 128 bytes is decoded from its
-- encoding.
pub decode_hand_shake-encode :
    (t : HandShake) (bytes : List ℕ)
    → IsWellFormed (hand_shake t)
    → length t.pstr < 128
    → encode (hand_shake t) ≡ some bytes
    → decode_hand_shake bytes ≡ some (hand_shake t)
unfolding decode_hand_shake encode
decode_hand_shake-encode t bytes h short e =
    let name : length t.pstr % 256 ≡ length t.pstr = omega arith in
    let sized : (suc (length (wire t)) == (sign_extend (length t.pstr) + 49) % 2 ^ 32) ≡ true =
      ground (arith, length-wire t h) in
    let signed : sign_extend (length t.pstr) ≡ length t.pstr = ground arith in
    let same : length t.pstr ∷ wire t ≡ bytes = cc in
    ap decode_hand_shake (sym same) ∙ rw (sized, signed) (payload-wire t h)

-- A well-formed handshake whose protocol name has 128 to 255 bytes is encoded, and its encoding is
-- refused.
pub decode_hand_shake-encode_long :
    (t : HandShake)
    → IsWellFormed (hand_shake t)
    → 128 ≤ length t.pstr
    → length t.pstr < 256
    → (bytes : List ℕ) × (encode (hand_shake t) ≡ some bytes)
      × (decode_hand_shake bytes ≡ some (failure no_type bytes "Cannot parse message as HandShake"))
unfolding decode_hand_shake encode
decode_hand_shake-encode_long t h lo hi =
    let sized : (suc (length (wire t)) == (sign_extend (length t.pstr % 256) + 49) % 2 ^ 32)
        ≡ false =
      ground (arith, length-wire t h) in
    ((length t.pstr % 256) ∷ wire t, refl, rw sized)

-- A nonempty buffer makes decodeHandShake read past its end exactly when its first byte is 208 or
-- more and its size is that byte less 207.
pub decode_hand_shake_overread :
    (c : ℕ) (view : List ℕ)
    → c < 256
    → (decode_hand_shake (c ∷ view) ≡ none) ↔ ((207 < c) × (suc (length view) ≡ c - 207))
unfolding decode_hand_shake
decode_hand_shake_overread c view h =
    elim (Bool-cases (suc (length view) == (sign_extend c + 49) % 2 ^ 32)) [
      | inl sized ↦ (
        λ e. elim (dec_lt 207 c) [
          | yes far ↦ (far, ground arith)
          | no near ↦ absurd (payload_enough view (sign_extend c) (ground arith) (rw sized at e))
        ],
        λ far. rw sized (payload_short view (sign_extend c) (ground arith)),
      )
      | inr other ↦ (λ e. cc (rw other at e), λ far. absurd (ground arith))
    ]
