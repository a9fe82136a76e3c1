-- ===== src/Protocol.antt =====
-- include/fractals/network/p2p/Protocol.h, Protocol.ipp and ProtocolState.h: what the program does
-- with each message of one peer. The calls that leave the component are returned in order: a
-- `write` to the peer, whose result the handlers do not use, and a `push` to the disk queue. Time
-- stamps are only passed on to `write` and are left out.
pub mod Cases
pub mod Requests
pub mod Soundness
pub mod Verified
pub mod Overfull
pub mod Interest
pub mod Run
pub mod Download
use fractals.Prelude.{
  ℕ, zero, suc, ◌+◌, ◌%◌, ◌^◌, min, Bool, true, false, not, ◌||◌, Option, none, some, List, [], ◌∷◌,
  ◌++◌, if◌then◌else◌, ◌==◌, length,
}
use fractals.Prelude.Eq.{nat_eq}
use fractals.Prelude.Set.{insert, remove}
use fractals.Bytes.Bitfield.{bytes_to_bitfield}
use fractals.Message.{
  Message, choke, unchoke, interested, not_interested, keep_alive, have, bitfield, request, piece,
  cancel, port, hand_shake, serialize_error, HandShake, Have, Bitfield, Piece,
}
use fractals.PieceStateManager.{
  PieceStateManager, get_piece_state, set_piece_state, next_available_piece, is_completed,
  is_all_complete, make_completed, hash_check,
}
use fractals.PieceStateManager.PieceState as State

pub data ProtocolState : Type 0 where
  opened closed error hash_check_fail complete : ProtocolState

-- `disk::WriteData`.
pub record WriteData : Type 0 where
  pub info_hash : List ℕ
  pub piece_index : ℕ
  pub m_data : List ℕ
  pub offset : ℕ

pub data Effect : Type 0 where
  write : Message → Effect
  push : WriteData → Effect

-- The fields, and the manager that the reference `pieceRepository` names.
pub record Protocol : Type 0 where
  pub am_choking : Bool
  pub am_interested : Bool
  pub peer_choking : Bool
  pub peer_interested : Bool
  pub app_id : List ℕ
  pub info_hash : List ℕ
  pub available_pieces : List ℕ
  pub repository : PieceStateManager

pub record Reaction : Type 0 where
  pub state : ProtocolState
  pub protocol : Protocol
  pub effects : List Effect

-- The constructor.
abbrev pub new : List ℕ → List ℕ → PieceStateManager → Protocol
new app_id info_hash repository = record {
  am_choking = true;
  am_interested = false;
  peer_choking = true;
  peer_interested = false;
  app_id = app_id;
  info_hash = info_hash;
  available_pieces = [];
  repository = repository;
}

abbrev protocol_name : List ℕ
protocol_name =
    66 ∷ 105 ∷ 116 ∷ 84 ∷ 111 ∷ 114 ∷ 114 ∷ 101 ∷ 110 ∷ 116 ∷ 32 ∷ 112 ∷ 114 ∷ 111 ∷ 116 ∷ 111 ∷ 99
    ∷ 111 ∷ 108 ∷ []

-- What `sendHandShake` writes.
unfoldable pub send_hand_shake : Protocol → Effect
send_hand_shake c = write (
    hand_shake (record {
      pstr = protocol_name;
      reserved = 0 ∷ 0 ∷ 0 ∷ 0 ∷ 0 ∷ 0 ∷ 0 ∷ 0 ∷ [];
      info_hash = c.info_hash;
      peer_id = c.app_id;
    }))

abbrev pub stay : Protocol → List Effect → Reaction
stay c effects = record { state = opened; protocol = c; effects = effects }

unfoldable pub send_interested : Protocol → Protocol × List Effect
send_interested c =
    if c.am_interested then (c, []) else (record c { am_interested = true }, write interested ∷ [])

unfoldable pub next_request : State.PieceState → Message
unfolding State.get_next_begin_index State.get_remaining_size
next_request s = request (record {
  req_index = s.piece_index;
  req_begin = State.get_next_begin_index s;
  req_length = min (2 ^ 14) (State.get_remaining_size s % 2 ^ 32);
})

-- The end of `requestNextPiece`, where there is nothing to request.
abbrev finished : Protocol → ProtocolState
finished c =
    if not (is_all_complete c.repository) || not c.repository.active then closed else complete

unfoldable pub request_next_piece : Protocol → ProtocolState × List Effect
unfolding next_request
request_next_piece c = elim (next_available_piece c.available_pieces c.repository) [
  | none ↦ (finished c, [])
  | some s ↦
      if c.repository.active
      then (opened, if c.peer_choking then [] else write (next_request s) ∷ [])
      else (finished c, [])
]

abbrev pub then_request : Protocol → List Effect → Reaction
then_request c effects =
    let (state, requests) = request_next_piece c in
    record { state = state; protocol = c; effects = effects ++ requests }

unfoldable pub on_unchoke : Protocol → Reaction
on_unchoke c =
    if c.peer_choking then then_request (record c { peer_choking = false }) [] else stay c []

-- The end of two handlers, which call `sendInterested` and return OPEN.
unfoldable pub stay_interested : Protocol → Reaction
unfolding send_interested
stay_interested c = let (c', effects) = send_interested c in stay c' effects

unfoldable pub on_have : Have → Protocol → Reaction
unfolding stay_interested
on_have m c =
    if is_completed m.piece_index c.repository
    then stay c []
    else stay_interested (record c { available_pieces = insert m.piece_index c.available_pieces })

-- The loop of `onMessage(Bitfield)` from a piece index on.
unfoldable pub offered_pieces : ℕ → List Bool → List ℕ → List ℕ
offered_pieces index [] pieces = pieces
offered_pieces index (b ∷ bits) pieces =
    offered_pieces ((index + 1) % 2 ^ 32) bits (if b then insert index pieces else pieces)

-- The size of the field is that of the view, so `bytes_to_bitfield` never reads outside it.
unfoldable pub on_bitfield : Bitfield → Protocol → Reaction
unfolding stay_interested offered_pieces
on_bitfield m c = elim (bytes_to_bitfield (length m.bitfield) m.bitfield) [
  | none ↦ stay c []
  | some bits ↦
      stay_interested (record c { available_pieces = offered_pieces 0 bits c.available_pieces })
]

-- The branches of `onMessage(Piece)` once a block was added to the state of its piece, which is now
-- `s`: data is missing, the hash is right, the hash is wrong.
unfoldable pub partial_piece : ℕ → State.PieceState → Protocol → Reaction
partial_piece index s c =
    then_request (record c { repository = set_piece_state index s c.repository }) []

unfoldable pub completed_piece : ℕ → State.PieceState → Protocol → Reaction
completed_piece index s c =
    then_request
      (record c {
        repository = make_completed index (set_piece_state index s c.repository);
        available_pieces = remove index c.available_pieces;
      })
      (push (record {
        info_hash = c.info_hash;
        piece_index = index;
        m_data = s.piece_data;
        offset = s.offset;
      })
        ∷ [])

unfoldable pub rejected_piece : ℕ → State.PieceState → Protocol → Reaction
unfolding State.clear
rejected_piece index s c = record {
  state = hash_check_fail;
  protocol = record c { repository = set_piece_state index (State.clear s) c.repository };
  effects = [];
}

-- The branch where the piece has no state.
unfoldable pub unknown_piece : ℕ → Protocol → Reaction
unknown_piece index c = record {
  state = if is_completed index c.repository then opened else error;
  protocol = c;
  effects = [];
}

module _ (sha1 : List ℕ → List ℕ) where
  unfoldable pub received : ℕ → State.PieceState → Protocol → Reaction
  unfolding partial_piece completed_piece rejected_piece
  received index s c =
      if State.is_complete s
      then if hash_check sha1 s.piece_index s.piece_data c.repository
        then completed_piece index s c
        else rejected_piece index s c
      else partial_piece index s c

  unfoldable pub on_piece : Piece → Protocol → Reaction
  unfolding received unknown_piece State.add_block
  on_piece m c = elim (get_piece_state m.index c.repository) [
    | none ↦ unknown_piece m.index c
    | some s ↦
        if m.begin == State.get_next_begin_index s
        then received m.index (State.add_block m.block s) c
        else then_request c []
  ]

  -- `onMessage` of each message. A `SerializeError` has none: `handleMessage` drops it.
  unfoldable pub on_message : Message → Protocol → Reaction
  unfolding on_unchoke on_have on_bitfield on_piece
  on_message (hand_shake m) c = stay c []
  on_message keep_alive c = stay c (write keep_alive ∷ [])
  on_message choke c = stay (record c { peer_choking = true }) []
  on_message unchoke c = on_unchoke c
  on_message interested c = stay (record c { peer_interested = true }) []
  on_message not_interested c = stay (record c { peer_interested = false }) []
  on_message (have m) c = on_have m c
  on_message (bitfield m) c = on_bitfield m c
  on_message (request m) c = stay c []
  on_message (piece m) c = on_piece m c
  on_message (cancel m) c = record { state = closed; protocol = c; effects = [] }
  on_message (port m) c = stay c []
  on_message (serialize_error m) c = stay c []
