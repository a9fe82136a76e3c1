-- ===== src/Encoder/Decode.antt =====
-- The decoding half of BitTorrentEncoder.h and BitTorrentEncoder.cpp.
use Prim.Native.String.{String}
use fractals.Prelude.{
  ℕ, suc, ◌+◌, ◌-◌, ◌%◌, ◌^◌, Option, none, some, List, [], ◌∷◌, length, leb, if◌then◌else◌, take,
  drop, ◌==◌,
}
use fractals.Bytes.{bytes_to_int}
use fractals.Message.{
  Message, choke, unchoke, interested, not_interested, keep_alive, have, bitfield, request, piece,
  cancel, port, hand_shake, serialize_error, sign_extend,
}

-- The errors: `msgType` of a `SerializeError` is -1 unless the constructor is given one.
abbrev pub failure : ℕ → List ℕ → String → Message
failure type buf reason = serialize_error (record { msg_type = type; error = reason; buffer = buf })

abbrev pub no_type : ℕ
no_type = 2 ^ 32 - 1

-- `decodePayloadImpl` of the messages of a fixed length with no fields.
unfoldable pub decode_empty : Message → ℕ → ℕ → Option Message
decode_empty m msg_len len = if len == msg_len then some m else none

unfoldable pub decode_have : List ℕ → ℕ → Option Message
decode_have buf len =
    if len == 5 then some (have (record { piece_index = (bytes_to_int 4 buf).0 })) else none

unfoldable pub decode_bitfield : List ℕ → ℕ → Option Message
decode_bitfield buf len =
    if leb (1 - 1) len then some (bitfield (record { bitfield = buf })) else none

unfoldable pub decode_request : List ℕ → ℕ → Option Message
decode_request buf len =
    let (req_index, buf₁) = bytes_to_int 4 buf in
    let (req_begin, buf₂) = bytes_to_int 4 buf₁ in
    let (req_len, _) = bytes_to_int 4 buf₂ in
    if len == 13
    then some
        (request (record { req_index = req_index; req_begin = req_begin; req_length = req_len }))
    else none

unfoldable pub decode_piece : List ℕ → ℕ → Option Message
decode_piece buf len =
    let (piece_index, buf₁) = bytes_to_int 4 buf in
    let (piece_begin, block) = bytes_to_int 4 buf₁ in
    if leb 9 len
    then some (piece (record { index = piece_index; begin = piece_begin; block = block }))
    else none

unfoldable pub decode_cancel : List ℕ → ℕ → Option Message
decode_cancel buf len =
    let (cancel_index, buf₁) = bytes_to_int 4 buf in
    let (cancel_begin, buf₂) = bytes_to_int 4 buf₁ in
    let (cancel_len, _) = bytes_to_int 4 buf₂ in
    if len == 13
    then some (cancel (record { index = cancel_index; begin = cancel_begin; len = cancel_len }))
    else none

unfoldable pub decode_port : List ℕ → ℕ → Option Message
decode_port buf len =
    if len == 3 then some (port (record { port = (bytes_to_int 2 buf).0 })) else none

-- `handleFailure`.
unfoldable pub handle_failure : Option Message → List ℕ → Message
handle_failure (some m) view = m
handle_failure none view = failure no_type view "Failed to decode"

-- The `switch` of `decode`, after the type was taken off the view; `buf` is the whole buffer.
unfoldable pub dispatch : ℕ → List ℕ → ℕ → List ℕ → Message
unfolding decode_empty decode_have decode_bitfield decode_request decode_piece decode_cancel
    decode_port handle_failure
dispatch type view len buf =
    if type == 0
    then handle_failure (decode_empty choke 1 len) view
    else if type == 1
    then handle_failure (decode_empty unchoke 1 len) view
    else if type == 2
    then handle_failure (decode_empty interested 1 len) view
    else if type == 3
    then handle_failure (decode_empty not_interested 1 len) view
    else if type == 4
    then handle_failure (decode_have view len) view
    else if type == 5
    then handle_failure (decode_bitfield view len) view
    else if type == 6
    then handle_failure (decode_request view len) view
    else if type == 7
    then handle_failure (decode_piece view len) view
    else if type == 8
    then handle_failure (decode_cancel view len) view
    else if type == 9
    then handle_failure (decode_port view len) view
    else failure type buf "Cannot match parsed msgType to message"

-- The view behind the length: the message type is its first `char`.
unfoldable pub decode_body : ℕ → List ℕ → List ℕ → Message
unfolding dispatch
decode_body len [] buf = handle_failure (decode_empty keep_alive 0 len) []
decode_body len (c ∷ view) buf = dispatch (sign_extend c) view len buf

unfoldable pub decode : List ℕ → Message
unfolding decode_body
decode buf =
    let (len, view) = bytes_to_int 4 buf in
    if len == length view
    then decode_body len view buf
    else failure no_type buf "Parsed length does not match buffer size"

-- The next `n` bytes of a view and what follows, if there are so many.
unfoldable pub split_exact : ℕ → List ℕ → Option (List ℕ × List ℕ)
split_exact n view = if leb n (length view) then some (take n view, drop n view) else none

infixl 5 ◌>>=◌
abbrev ◌>>=◌ {ℓ κ} : {A : Type ℓ} {B : Type κ} → Option A → (A → Option B) → Option B
none >>= f = none
some a >>= f = f a

-- `decodePayloadImpl<HandShake>`: it checks no size.
unfoldable pub decode_hand_shake_payload : List ℕ → ℕ → Option Message
unfolding split_exact
decode_hand_shake_payload buf pstr_len = do
  (pstr, buf₁) ← split_exact pstr_len buf
  (reserved, buf₂) ← split_exact 8 buf₁
  (info_hash, buf₃) ← split_exact 20 buf₂
  (peer_id, _) ← split_exact 20 buf₃
  some (
      hand_shake
        (record { pstr = pstr; reserved = reserved; info_hash = info_hash; peer_id = peer_id }))

-- `decodeHandShake`: the length of the protocol name is read as a signed `char`, and the sum with
-- 49 wraps to 32 bits.
unfoldable pub decode_hand_shake : List ℕ → Option Message
unfolding decode_hand_shake_payload
decode_hand_shake [] = some (failure no_type [] "Empty buffer")
decode_hand_shake (c ∷ view) =
    if suc (length view) == (sign_extend c + 49) % 2 ^ 32
    then decode_hand_shake_payload view (sign_extend c)
    else some (failure no_type (c ∷ view) "Cannot parse message as HandShake")
