-- ===== src/Examples/Wire.antt =====
-- Messages and their bytes.
use mathlib.Core.Option
use fractals.Prelude.{
  ℕ, ◌≡◌, refl, none, some, List, [], ◌∷◌, ◌++◌, arith, ◌↔◌, ◌<◌, ◌-◌, replicate, length, true,
  false,
}
use fractals.Bytes.Bitfield.{bitfield_to_bytes, bytes_to_bitfield}
use fractals.Bytes.BitfieldRoundTrip.{bytes_to_bitfield-bitfield_to_bytes}
use fractals.Bytes.{int_to_bytes, bytes_to_int}
use fractals.Bytes.RoundTrip.{bytes_to_int-int_to_bytes, int_to_bytes-bytes_to_int}
use fractals.Message.{HandShake, Request, request, hand_shake}
use fractals.Encoder.{encode}
use fractals.Encoder.Decode.{decode, decode_hand_shake, failure, no_type}
use fractals.Encoder.RoundTrip.{decode-encode}
use fractals.Encoder.Sound.{encode-decode}
use fractals.Encoder.HandShakes.{
  decode_hand_shake-encode, decode_hand_shake-encode_long, decode_hand_shake_overread,
}

bytes_to_int-int_to_bytes_example :
    bytes_to_int 4 (int_to_bytes 4 70000 ++ 7 ∷ []) ≡ (70000, 7 ∷ [])
bytes_to_int-int_to_bytes_example =
    bytes_to_int-int_to_bytes 4 70000 (7 ∷ []) (omega arith) (omega arith)

int_to_bytes-bytes_to_int_example :
    int_to_bytes 2 (bytes_to_int 2 (1 ∷ 2 ∷ 3 ∷ [])).0 ++ (bytes_to_int 2 (1 ∷ 2 ∷ 3 ∷ [])).1
    ≡ 1 ∷ 2 ∷ 3 ∷ []
int_to_bytes-bytes_to_int_example =
    int_to_bytes-bytes_to_int 2 (1 ∷ 2 ∷ 3 ∷ []) (omega arith) (omega arith)

abbrev block_request : Request
block_request = record { req_index = 3; req_begin = 16384; req_length = 16384 }

decode-encode_example :
    Option.map decode (encode (request block_request)) ≡ some (request block_request)
decode-encode_example = decode-encode (request block_request) (omega arith) tt

abbrev request_bytes : List ℕ
request_bytes = 0 ∷ 0 ∷ 0 ∷ 13 ∷ 6 ∷ 0 ∷ 0 ∷ 0 ∷ 3 ∷ 0 ∷ 0 ∷ 64 ∷ 0 ∷ 0 ∷ 0 ∷ 64 ∷ 0 ∷ []

decode-request_bytes : decode request_bytes ≡ request block_request
unfolding decode bytes_to_int
decode-request_bytes = refl

encode-decode_example : encode (request block_request) ≡ some request_bytes
encode-decode_example =
    encode-decode request_bytes (request block_request) (omega arith) (omega arith)
      decode-request_bytes tt

-- "BT" as the name of the protocol.
abbrev greeting : HandShake
greeting = record {
  pstr = 66 ∷ 84 ∷ [];
  reserved = replicate 8 0;
  info_hash = replicate 20 1;
  peer_id = replicate 20 2;
}

abbrev greeting_bytes : List ℕ
greeting_bytes = 2 ∷ 66 ∷ 84 ∷ (replicate 8 0 ++ (replicate 20 1 ++ replicate 20 2))

greeting_encoded : encode (hand_shake greeting) ≡ some greeting_bytes
unfolding encode
greeting_encoded = refl

decode_hand_shake-encode_example : decode_hand_shake greeting_bytes ≡ some (hand_shake greeting)
decode_hand_shake-encode_example =
    decode_hand_shake-encode greeting greeting_bytes (omega arith) (omega arith) greeting_encoded

abbrev long_greeting : HandShake
long_greeting = record greeting { pstr = replicate 130 66 }

decode_hand_shake-encode_long_example :
    (bytes : List ℕ) × (encode (hand_shake long_greeting) ≡ some bytes)
    × (decode_hand_shake bytes ≡ some (failure no_type bytes "Cannot parse message as HandShake"))
decode_hand_shake-encode_long_example =
    decode_hand_shake-encode_long long_greeting (omega arith) (omega arith) (omega arith)

-- A single byte 208.
decode_hand_shake_overread_example :
    (decode_hand_shake (208 ∷ []) ≡ none) ↔ ((207 < 208) × (1 ≡ 208 - 207))
decode_hand_shake_overread_example = decode_hand_shake_overread 208 [] (omega arith)

bytes_to_bitfield-bitfield_to_bytes_example :
    bytes_to_bitfield
      (length (bitfield_to_bytes (true ∷ false ∷ true ∷ [])))
      (bitfield_to_bytes (true ∷ false ∷ true ∷ []))
    ≡ some (true ∷ false ∷ true ∷ false ∷ false ∷ false ∷ false ∷ false ∷ [])
bytes_to_bitfield-bitfield_to_bytes_example =
    bytes_to_bitfield-bitfield_to_bytes (true ∷ false ∷ true ∷ [])
