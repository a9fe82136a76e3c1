-- ===== src/Message.antt =====
-- include/fractals/network/p2p/BitTorrentMsg.h and src/fractals/network/p2p/BitTorrentMsg.cpp: the
-- messages of the peer protocol. A class is a record with its fields, and the variant is `Message`.
-- A `uint32_t` is a number; `IsWellFormed` states the ranges and the sizes of the arrays.
use Prim.Native.String.{String, len}
use fractals.Prelude.{
  ℕ, ◌+◌, ◌-◌, ◌%◌, ◌^◌, ◌<◌, ◌≡◌, Option, none, some, List, [], ◌∷◌, ◌++◌, length, ltb,
  if◌then◌else◌,
}
use fractals.Bytes.{IsBytes, int_to_bytes}

pub record HandShake : Type 0 where
  pub pstr : List ℕ
  pub reserved : List ℕ
  pub info_hash : List ℕ
  pub peer_id : List ℕ

pub record Have : Type 0 where
  pub piece_index : ℕ

pub record Bitfield : Type 0 where
  pub bitfield : List ℕ

pub record Request : Type 0 where
  pub req_index : ℕ
  pub req_begin : ℕ
  pub req_length : ℕ

pub record Piece : Type 0 where
  pub index : ℕ
  pub begin : ℕ
  pub block : List ℕ

pub record Cancel : Type 0 where
  pub index : ℕ
  pub begin : ℕ
  pub len : ℕ

pub record Port : Type 0 where
  pub port : ℕ

-- `msg_type` is the bit pattern of the `int32_t`.
pub record SerializeError : Type 0 where
  pub msg_type : ℕ
  pub error : String
  pub buffer : List ℕ

pub data Message : Type 0 where
  choke unchoke interested not_interested keep_alive : Message
  have : Have → Message
  bitfield : Bitfield → Message
  request : Request → Message
  piece : Piece → Message
  cancel : Cancel → Message
  port : Port → Message
  hand_shake : HandShake → Message
  serialize_error : SerializeError → Message

-- A `char` that becomes a `uint32_t` keeps its sign.
abbrev pub sign_extend : ℕ → ℕ
sign_extend c = if ltb c 128 then c else c + 2 ^ 32 - 256

-- `getPstrLn`: the size as a `char`.
unfoldable pub get_pstr_ln : HandShake → ℕ
get_pstr_ln t = length t.pstr % 256

-- `MSG_TYPE` of the messages that carry one, `none` for -1.
abbrev pub msg_type : Message → Option ℕ
msg_type choke = some 0
msg_type unchoke = some 1
msg_type interested = some 2
msg_type not_interested = some 3
msg_type (have t) = some 4
msg_type (bitfield t) = some 5
msg_type (request t) = some 6
msg_type (piece t) = some 7
msg_type (cancel t) = some 8
msg_type (port t) = some 9
msg_type keep_alive = none
msg_type (hand_shake t) = none
msg_type (serialize_error t) = none

-- `getLen` of each class; a sum of a size wraps to 32 bits.
abbrev pub get_len : Message → ℕ
get_len choke = 1
get_len unchoke = 1
get_len interested = 1
get_len not_interested = 1
get_len keep_alive = 0
get_len (have t) = 5
get_len (bitfield t) = (1 + length t.bitfield) % 2 ^ 32
get_len (request t) = 13
get_len (piece t) = (9 + length t.block) % 2 ^ 32
get_len (cancel t) = 13
get_len (port t) = 3
get_len (hand_shake t) = (49 + sign_extend (length t.pstr % 256)) % 2 ^ 32
get_len (serialize_error t) = len t.error % 2 ^ 32

abbrev typed_prefix : ℕ → ℕ → List ℕ
typed_prefix length type = int_to_bytes 4 length ++ type ∷ []

-- `getPrefix` of each class.
unfoldable pub get_prefix : Message → List ℕ
unfolding int_to_bytes get_pstr_ln
get_prefix choke = typed_prefix 1 0
get_prefix unchoke = typed_prefix 1 1
get_prefix interested = typed_prefix 1 2
get_prefix not_interested = typed_prefix 1 3
get_prefix keep_alive = int_to_bytes 4 0
get_prefix (have t) = typed_prefix 5 4
get_prefix (bitfield t) = typed_prefix (get_len (bitfield t)) 5
get_prefix (request t) = typed_prefix 13 6
get_prefix (piece t) = typed_prefix (get_len (piece t)) 7
get_prefix (cancel t) = typed_prefix 13 8
get_prefix (port t) = typed_prefix 3 9
get_prefix (hand_shake t) = get_pstr_ln t ∷ []
get_prefix (serialize_error t) = []

-- The ranges of the fields, and block sizes whose message length fits in 32 bits.
abbrev pub IsWellFormed : Message → Type 0
IsWellFormed (have t) = t.piece_index < 2 ^ 32
IsWellFormed (bitfield t) = IsBytes t.bitfield × (length t.bitfield + 1 < 2 ^ 32)
IsWellFormed (request t) = (t.req_index < 2 ^ 32) × (t.req_begin < 2 ^ 32) × (t.req_length < 2 ^ 32)
IsWellFormed (piece t) =
    (t.index < 2 ^ 32) × (t.begin < 2 ^ 32) × IsBytes t.block × (length t.block + 9 < 2 ^ 32)
IsWellFormed (cancel t) = (t.index < 2 ^ 32) × (t.begin < 2 ^ 32) × (t.len < 2 ^ 32)
IsWellFormed (port t) = t.port < 2 ^ 16
IsWellFormed (hand_shake t) =
    IsBytes t.pstr × (length t.reserved ≡ 8) × (length t.info_hash ≡ 20) × (length t.peer_id ≡ 20)
IsWellFormed _ = Unit
