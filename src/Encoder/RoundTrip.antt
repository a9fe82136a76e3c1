-- ===== src/Encoder/RoundTrip.antt =====
-- Decoding by BitTorrentEncoder.h of what it encoded.
use mathlib.Core.Option
use fractals.Prelude.{
  ℕ, suc, ◌+◌, ◌*◌, ◌^◌, ◌<◌, ◌≡◌, some, List, [], ◌∷◌, ◌++◌, arith, length, refl, ap, sym, ◌∙◌,
  ==_refl, append-nil, length-append, All-append, le→leb,
}
use fractals.Bytes.{IsByte, IsBytes, int_to_bytes, bytes_to_int}
use fractals.Bytes.Endian.{length-int_to_bytes, int_to_bytes-IsBytes}
use fractals.Bytes.RoundTrip.{bytes_to_int-int_to_bytes}
use fractals.Message.{
  Message, choke, unchoke, interested, not_interested, keep_alive, have, bitfield, request, piece,
  cancel, port, hand_shake, serialize_error, sign_extend, IsWellFormed, get_len, Have, Bitfield,
  Request, Piece, Cancel, Port,
}
use fractals.Encoder.{encode}
use fractals.Encoder.Decode.{decode, decode_body, dispatch}

-- A buffer whose first four bytes give the size of what follows is decoded by its type byte.
pub decode-frame :
    (len : ℕ) (body : List ℕ)
    → IsBytes body
    → length body ≡ len
    → len < 2 ^ 32
    → decode (int_to_bytes 4 len ++ body) ≡ decode_body len body (int_to_bytes 4 len ++ body)
unfolding decode
decode-frame len body h e lt =
    let read = bytes_to_int-int_to_bytes 4 len body h lt in rw read (rw (e, ==_refl len))

pub one_byte : (t : ℕ) → t < 256 → int_to_bytes 1 t ≡ t ∷ []
unfolding int_to_bytes
one_byte t h = ap (λ b. b ∷ []) (omega arith)

-- A number that stands at the end of a view.
pub read_last :
    (width t : ℕ) → t < 2 ^ (8 * width) → bytes_to_int width (int_to_bytes width t) ≡ (t, [])
read_last width t h =
    ap (bytes_to_int width) (sym (append-nil (int_to_bytes width t)))
    ∙ bytes_to_int-int_to_bytes width t [] tt h

-- The messages that `decode` reads: all but the handshake and the error.
abbrev pub IsWire : Message → Type 0
IsWire (hand_shake t) = ⊥
IsWire (serialize_error t) = ⊥
IsWire _ = Unit

framed_type :
    (len type : ℕ) (payload : List ℕ)
    → type < 256
    → IsBytes payload
    → suc (length payload) ≡ len
    → len < 2 ^ 32
    → decode (int_to_bytes 4 len ++ (int_to_bytes 1 type ++ payload))
      ≡ dispatch (sign_extend type) payload len (int_to_bytes 4 len ++ (type ∷ payload))
unfolding decode_body
framed_type len type payload t h e lt =
    ap (λ b. decode (int_to_bytes 4 len ++ (b ++ payload))) (one_byte type t)
    ∙ decode-frame len (type ∷ payload) (t, h) e lt

decode-encode_have :
    (t : Have) → t.piece_index < 2 ^ 32 → Option.map decode (encode (have t)) ≡ some (have t)
unfolding encode dispatch
decode-encode_have t h = ap some (
    framed_type 5 4 (int_to_bytes 4 t.piece_index) (omega arith) (int_to_bytes-IsBytes 4 _)
      (ap suc (length-int_to_bytes 4 t.piece_index)) (omega arith)
    ∙ ap (λ r. have (record { piece_index = r.0 })) (read_last 4 t.piece_index h))

decode-encode_bitfield :
    (t : Bitfield)
    → IsBytes t.bitfield
    → length t.bitfield + 1 < 2 ^ 32
    → Option.map decode (encode (bitfield t)) ≡ some (bitfield t)
unfolding encode dispatch
decode-encode_bitfield t h lt =
    let len : get_len (bitfield t) ≡ suc (length t.bitfield) = omega arith in
    ap some (
      framed_type (get_len (bitfield t)) 5 t.bitfield (omega arith) h (sym len) (omega arith)
      ∙ ground arith)

-- Three numbers of four bytes, one after the other.
abbrev three : ℕ → ℕ → ℕ → List ℕ
three a b c = int_to_bytes 4 a ++ (int_to_bytes 4 b ++ int_to_bytes 4 c)

three-IsBytes : (a b c : ℕ) → IsBytes (three a b c)
three-IsBytes a b c =
    All-append IsByte (int_to_bytes 4 a) _ (int_to_bytes-IsBytes 4 a)
      (All-append IsByte (int_to_bytes 4 b) _ (int_to_bytes-IsBytes 4 b) (int_to_bytes-IsBytes 4 c))

length-three : (a b c : ℕ) → length (three a b c) ≡ 12
length-three a b c = omega (
  arith,
  length-append (int_to_bytes 4 a) (int_to_bytes 4 b ++ int_to_bytes 4 c),
  length-append (int_to_bytes 4 b) (int_to_bytes 4 c),
  length-int_to_bytes 4 a,
  length-int_to_bytes 4 b,
  length-int_to_bytes 4 c,
)

read_second :
    (a b : ℕ) (rest : List ℕ)
    → IsBytes rest
    → a < 2 ^ 32
    → bytes_to_int 4 (int_to_bytes 4 a ++ (int_to_bytes 4 b ++ rest))
      ≡ (a, int_to_bytes 4 b ++ rest)
read_second a b rest h lt =
    bytes_to_int-int_to_bytes 4 a (int_to_bytes 4 b ++ rest)
      (All-append IsByte (int_to_bytes 4 b) rest (int_to_bytes-IsBytes 4 b) h) lt

decode-encode_request :
    (t : Request)
    → t.req_index < 2 ^ 32
    → t.req_begin < 2 ^ 32
    → t.req_length < 2 ^ 32
    → Option.map decode (encode (request t)) ≡ some (request t)
unfolding encode dispatch
decode-encode_request t ha hb hc = ap some (
    framed_type 13 6 (three t.req_index t.req_begin t.req_length) (omega arith)
      (three-IsBytes t.req_index t.req_begin t.req_length)
      (ap suc (length-three t.req_index t.req_begin t.req_length)) (omega arith)
    ∙ rw (
      read_second t.req_index t.req_begin (int_to_bytes 4 t.req_length)
          (int_to_bytes-IsBytes 4 t.req_length) ha,
      bytes_to_int-int_to_bytes 4 t.req_begin (int_to_bytes 4 t.req_length)
          (int_to_bytes-IsBytes 4 t.req_length) hb,
      read_last 4 t.req_length hc,
    ))

decode-encode_cancel :
    (t : Cancel)
    → t.index < 2 ^ 32
    → t.begin < 2 ^ 32
    → t.len < 2 ^ 32
    → Option.map decode (encode (cancel t)) ≡ some (cancel t)
unfolding encode dispatch
decode-encode_cancel t ha hb hc = ap some (
    framed_type 13 8 (three t.index t.begin t.len) (omega arith)
      (three-IsBytes t.index t.begin t.len) (ap suc (length-three t.index t.begin t.len))
      (omega arith)
    ∙ rw (
      read_second t.index t.begin (int_to_bytes 4 t.len) (int_to_bytes-IsBytes 4 t.len) ha,
      bytes_to_int-int_to_bytes 4 t.begin (int_to_bytes 4 t.len) (int_to_bytes-IsBytes 4 t.len) hb,
      read_last 4 t.len hc,
    ))

decode-encode_piece :
    (t : Piece)
    → t.index < 2 ^ 32
    → t.begin < 2 ^ 32
    → IsBytes t.block
    → length t.block + 9 < 2 ^ 32
    → Option.map decode (encode (piece t)) ≡ some (piece t)
unfolding encode dispatch
decode-encode_piece t ha hb h lt =
    let payload = int_to_bytes 4 t.index ++ (int_to_bytes 4 t.begin ++ t.block) in
    let begin_block =
      All-append IsByte (int_to_bytes 4 t.begin) t.block (int_to_bytes-IsBytes 4 t.begin) h in
    let size : length payload ≡ 8 + length t.block = omega (
      arith,
      length-append (int_to_bytes 4 t.index) (int_to_bytes 4 t.begin ++ t.block),
      length-append (int_to_bytes 4 t.begin) t.block,
      length-int_to_bytes 4 t.index,
      length-int_to_bytes 4 t.begin,
    ) in
    let len : get_len (piece t) ≡ 9 + length t.block = omega arith in
    ap some (
      framed_type (get_len (piece t)) 7 payload (omega arith)
        (All-append IsByte (int_to_bytes 4 t.index) (int_to_bytes 4 t.begin ++ t.block)
          (int_to_bytes-IsBytes 4 t.index) begin_block)
        (omega arith) (omega arith)
      ∙ rw (
        read_second t.index t.begin t.block h ha,
        bytes_to_int-int_to_bytes 4 t.begin t.block h hb,
        len,
        le→leb 9 (9 + length t.block) (omega arith),
      ))

decode-encode_port :
    (t : Port) → t.port < 2 ^ 16 → Option.map decode (encode (port t)) ≡ some (port t)
unfolding encode dispatch
decode-encode_port t h = ap some (
    framed_type 3 9 (int_to_bytes 2 t.port) (omega arith) (int_to_bytes-IsBytes 2 t.port)
      (ap suc (length-int_to_bytes 2 t.port)) (omega arith)
    ∙ ap (λ r. port (record { port = r.0 })) (read_last 2 t.port h))

-- Every well-formed message but a handshake and a serialize error is encoded, and its encoding
-- decodes to it.
pub decode-encode :
    (m : Message) → IsWellFormed m → IsWire m → Option.map decode (encode m) ≡ some m
unfolding encode decode int_to_bytes bytes_to_int
decode-encode choke h w = refl
decode-encode unchoke h w = refl
decode-encode interested h w = refl
decode-encode not_interested h w = refl
decode-encode keep_alive h w = refl
decode-encode (have t) h w = decode-encode_have t h
decode-encode (bitfield t) h w = decode-encode_bitfield t h.0 h.1
decode-encode (request t) h w = decode-encode_request t h.0 h.1 h.2
decode-encode (piece t) h w = decode-encode_piece t h.0 h.1 h.2 h.3
decode-encode (cancel t) h w = decode-encode_cancel t h.0 h.1 h.2
decode-encode (port t) h w = decode-encode_port t h
decode-encode (hand_shake t) h w = absurd w
decode-encode (serialize_error t) h w = absurd w
