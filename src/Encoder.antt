-- ===== src/Encoder.antt =====
-- include/fractals/network/p2p/BitTorrentEncoder.h and src/fractals/network/p2p/BitTorrentEncoder.cpp:
-- messages as bytes. `none` as the result of `encode` is the exception that the program throws; as
-- the result of `decode_hand_shake` it is a read past the end of the buffer, which has no defined
-- behaviour. `decode` reads within its buffer on every branch.
pub mod Decode
pub mod RoundTrip
pub mod Sound
pub mod Frames
pub mod HandShakes
use Prim.Native.String.{String}
use mathlib.Core.Option
use fractals.Prelude.{
  ℕ, zero, suc, ◌+◌, ◌-◌, ◌*◌, ◌/◌, ◌%◌, ◌^◌, ◌≤◌, ◌<◌, ◌≡◌, Bool, Option, none, some, List, [],
  ◌∷◌, ◌++◌, arith, length, ltb, if◌then◌else◌, true, false,
}
use fractals.Bytes.{IsBytes, int_to_bytes}
use fractals.Message.{
  Message, choke, unchoke, interested, not_interested, keep_alive, have, bitfield, request, piece,
  cancel, port, hand_shake, serialize_error, get_len, get_pstr_ln, msg_type,
}

-- `encodePayload` of each class: what it appends to the buffer.
unfoldable pub encode_payload : Message → Option (List ℕ)
unfolding int_to_bytes get_pstr_ln
encode_payload choke = some []
encode_payload unchoke = some []
encode_payload interested = some []
encode_payload not_interested = some []
encode_payload keep_alive = some (int_to_bytes 4 0)
encode_payload (have t) = some (int_to_bytes 4 t.piece_index)
encode_payload (bitfield t) = some t.bitfield
encode_payload (request t) =
    some (int_to_bytes 4 t.req_index ++ (int_to_bytes 4 t.req_begin ++ int_to_bytes 4 t.req_length))
encode_payload (piece t) = some (int_to_bytes 4 t.index ++ (int_to_bytes 4 t.begin ++ t.block))
encode_payload (cancel t) =
    some (int_to_bytes 4 t.index ++ (int_to_bytes 4 t.begin ++ int_to_bytes 4 t.len))
encode_payload (port t) = some (int_to_bytes 2 t.port)
encode_payload (hand_shake t) =
    some (get_pstr_ln t ∷ t.pstr ++ (t.reserved ++ (t.info_hash ++ t.peer_id)))
encode_payload (serialize_error t) = none

-- The length and the type, where the message has one, then the payload.
abbrev framed : Message → Option ℕ → List ℕ → List ℕ
framed m (some type) payload = int_to_bytes 4 (get_len m) ++ (int_to_bytes 1 type ++ payload)
framed m none payload = payload

unfoldable pub encode : Message → Option (List ℕ)
unfolding encode_payload
encode m = Option.map (framed m (msg_type m)) (encode_payload m)
