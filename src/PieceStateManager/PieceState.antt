-- ===== src/PieceStateManager/PieceState.antt =====
-- `PieceState` of PieceStateManager.h: one piece while it is downloaded. `reserve` in `initialize`
-- sets space aside and changes no value, so it is not written.
use fractals.Prelude.{
  ℕ, ◌+◌, ◌-◌, ◌%◌, ◌^◌, ◌<◌, ◌≤◌, ◌≡◌, Bool, List, [], ◌++◌, length, ◌==◌, arith,
}

pub record PieceState : Type 0 where
  pub piece_data : List ℕ
  pub piece_index : ℕ
  pub max_size : ℕ
  pub offset : ℕ

-- The constructor.
unfoldable pub init : ℕ → ℕ → ℕ → PieceState
init piece_index max_size offset = record {
  piece_data = [];
  piece_index = piece_index;
  max_size = max_size;
  offset = offset;
}

unfoldable pub clear : PieceState → PieceState
clear s = record s { piece_data = [] }

-- A `uint64_t`: it wraps when there is more data than the piece holds.
unfoldable pub get_remaining_size : PieceState → ℕ
get_remaining_size s = (s.max_size + 2 ^ 64 - length s.piece_data) % 2 ^ 64

-- A `uint32_t`.
unfoldable pub get_next_begin_index : PieceState → ℕ
get_next_begin_index s = length s.piece_data % 2 ^ 32

unfoldable pub is_complete : PieceState → Bool
unfolding get_remaining_size
is_complete s = get_remaining_size s == 0

unfoldable pub add_block : List ℕ → PieceState → PieceState
add_block block s = record s { piece_data = s.piece_data ++ block }

-- A piece that holds no more data than its size is complete when it holds that much.
pub is_complete_lem :
    (s : PieceState)
    → length s.piece_data ≤ s.max_size
    → s.max_size < 2 ^ 64
    → is_complete s ≡ (length s.piece_data == s.max_size)
unfolding is_complete get_remaining_size
is_complete_lem s h fits = ground arith
