-- ===== src/PieceStateManager.antt =====
-- include/fractals/network/p2p/PieceStateManager.h and
-- src/fractals/network/p2p/PieceStateManager.cpp: which pieces of a torrent are missing, and how far
-- each is downloaded. A pointer to a `PieceState` is returned as the state itself; a caller that
-- changes it puts it back with `set_piece_state`. The hash function of the OpenSSL library is the
-- parameter `sha1`.
pub mod PieceState
pub mod Consistency
pub mod Population
use fractals.Prelude.{
  ℕ, zero, suc, ◌+◌, ◌%◌, ◌^◌, Bool, true, false, Option, none, some, List, [], ◌∷◌, if◌then◌else◌,
}
use fractals.Prelude.Eq.{nat_eq, list_beq}
use fractals.Prelude.Map.{Map, find, assign, emplace}
use fractals.Prelude.Set.{member, insert, remove}
use PieceState as Piece

-- `persist::PieceModel`, less its database keys.
pub record PieceModel : Type 0 where
  pub piece : ℕ
  pub size : ℕ
  pub hash : List ℕ
  pub complete : Bool

pub record PieceStateManager : Type 0 where
  pub active : Bool
  pub all_pieces : Map ℕ Piece.PieceState
  pub available : List ℕ
  pub in_progress : List ℕ
  pub completed_pieces : List ℕ
  pub hashes : Map ℕ (List ℕ)

abbrev pub new : PieceStateManager
new = record {
  active = false;
  all_pieces = [];
  available = [];
  in_progress = [];
  completed_pieces = [];
  hashes = [];
}

-- One round of the first loop of `populate`. What it collects in the local vector of completed
-- pieces is used nowhere.
unfoldable pub populate_piece : PieceModel → PieceStateManager → PieceStateManager
populate_piece pm q = record q {
  available = if pm.complete then q.available else insert pm.piece q.available;
  hashes = emplace pm.piece pm.hash q.hashes;
}

unfoldable pub populate_pieces : List PieceModel → PieceStateManager → PieceStateManager
unfolding populate_piece
populate_pieces [] q = q
populate_pieces (pm ∷ models) q = populate_pieces models (populate_piece pm q)

-- The second loop of `populate`; the offset is a `uint64_t`.
unfoldable pub populate_states :
    ℕ → List PieceModel → Map ℕ Piece.PieceState → Map ℕ Piece.PieceState
unfolding Piece.init
populate_states offset [] states = states
populate_states offset (pm ∷ models) states =
    populate_states ((offset + pm.size) % 2 ^ 64) models
      (emplace pm.piece (Piece.init pm.piece pm.size offset) states)

unfoldable pub populate : List PieceModel → PieceStateManager → PieceStateManager
unfolding populate_pieces populate_states
populate models q =
    let q' = populate_pieces models q in
    record q' { all_pieces = populate_states 0 models q'.all_pieces }

unfoldable pub get_piece_state : ℕ → PieceStateManager → Option Piece.PieceState
get_piece_state piece q = find piece q.all_pieces

-- What a caller does through the pointer that it was given.
unfoldable pub set_piece_state : ℕ → Piece.PieceState → PieceStateManager → PieceStateManager
set_piece_state piece s q = record q { all_pieces = assign piece s q.all_pieces }

-- `peer_pieces` in the order of the iteration.
unfoldable pub next_available_piece : List ℕ → PieceStateManager → Option Piece.PieceState
next_available_piece [] q = none
next_available_piece (piece ∷ peer_pieces) q =
    let rest = next_available_piece peer_pieces q in
    if member piece q.available
    then elim (find piece q.all_pieces) [ none ↦ rest | some s ↦ some s ]
    else rest

unfoldable pub is_completed : ℕ → PieceStateManager → Bool
is_completed piece q = member piece q.completed_pieces

abbrev empty : List ℕ → Bool
empty [] = true
empty (piece ∷ s) = false

unfoldable pub is_all_complete : PieceStateManager → Bool
is_all_complete q = empty q.available

unfoldable pub set_active : Bool → PieceStateManager → PieceStateManager
set_active b q = record q { active = b }

-- The branch of `makeCompleted` where the piece has the state `s`.
unfoldable pub mark_completed : ℕ → Piece.PieceState → PieceStateManager → PieceStateManager
unfolding Piece.clear
mark_completed piece s q = record q {
  available = remove piece q.available;
  completed_pieces = insert piece q.completed_pieces;
  all_pieces = assign piece (Piece.clear s) q.all_pieces;
}

unfoldable pub make_completed : ℕ → PieceStateManager → PieceStateManager
unfolding mark_completed
make_completed piece q = elim (find piece q.all_pieces) [
  | none ↦ q
  | some s ↦ mark_completed piece s q
]

-- `hashCheck`, less its logging.
module _ (sha1 : List ℕ → List ℕ) where
  unfoldable pub hash_check : ℕ → List ℕ → PieceStateManager → Bool
  hash_check piece piece_data q = elim (find piece q.hashes) [
    | none ↦ false
    | some hash ↦ list_beq (sha1 piece_data) hash
  ]
