-- ===== src/Examples/Peers.antt =====
-- One peer and a torrent of two pieces.
use fractals.Prelude.{
  ℕ, zero, suc, ◌+◌, ◌≡◌, ◌≢◌, refl, Option, none, some, List, [], ◌∷◌, ◌++◌, arith, ◌≤◌, ◌<◌, ◌^◌,
  false, true, length, take, ◌||◌, Bool, All,
}
use fractals.Prelude.Eq.{nat_eq}
use fractals.Prelude.Map.{find}
use fractals.Prelude.Set.{member}
use fractals.Bytes.Bitfield.{bit}
use fractals.Message.{have, piece, unchoke, Piece}
use fractals.PieceStateManager.{
  PieceStateManager, PieceModel, new, populate, set_active, is_completed, next_available_piece,
  make_completed,
}
use fractals.PieceStateManager.PieceState.{PieceState, init}
use fractals.PieceStateManager.Consistency.{
  IsConsistent, IsBest, next_available_piece-IsBest, make_completed-IsConsistent,
}
use fractals.PieceStateManager.Population.{
  populate-all_pieces, populate-available, populate-IsConsistent,
}
use fractals.Protocol.{Protocol, on_message}
use fractals.Protocol.Requests.{IsFitting}
use fractals.Protocol.Soundness.{IsLawful, on_message-IsLawful}
use fractals.Protocol.Verified.{IsVerified, on_message-IsVerified}
use fractals.Protocol.Overfull.{IsOverfull, on_message-IsOverfull}
use fractals.Protocol.Interest.{interest, interest-run}
use fractals.Protocol.Download.{run-IsDownloaded}
use fractals.Protocol.Run.{run, IsUnderway, IsDownloaded, block_messages}

-- A stand-in for the hash function.
abbrev digest : List ℕ → List ℕ
digest bytes = take 2 bytes

abbrev first_model : PieceModel
first_model = record { piece = 0; size = 4; hash = 1 ∷ 2 ∷ []; complete = false }

abbrev second_model : PieceModel
second_model = record { piece = 1; size = 2; hash = 7 ∷ 8 ∷ []; complete = true }

abbrev models : List PieceModel
models = first_model ∷ second_model ∷ []

abbrev repository : PieceStateManager
repository = record {
  active = true;
  all_pieces =
      (1, record { piece_data = []; piece_index = 1; max_size = 2; offset = 4 })
      ∷ (0, record { piece_data = []; piece_index = 0; max_size = 4; offset = 0 })
      ∷ [];
  available = 0 ∷ [];
  in_progress = [];
  completed_pieces = [];
  hashes = (1, 7 ∷ 8 ∷ []) ∷ (0, 1 ∷ 2 ∷ []) ∷ [];
}

populate-models : set_active true (populate models new) ≡ repository
unfolding set_active populate fractals.Prelude.Map.emplace fractals.Prelude.Set.insert
    fractals.Prelude.Map.contains member find
populate-models = refl

populate-all_pieces_example : find 1 (populate models new).all_pieces ≡ some (init 1 2 4)
unfolding member
populate-all_pieces_example = populate-all_pieces (first_model ∷ []) second_model [] refl

populate-available_example :
    (member 0 (populate models new).available ≡ true)
    × (is_completed 0 (populate models new) ≡ false)
populate-available_example = populate-available models 0

populate-IsConsistent_example : IsConsistent (populate models new)
populate-IsConsistent_example = populate-IsConsistent models

repository-IsConsistent : IsConsistent repository
unfolding find member
repository-IsConsistent = record {
  known = λ k m. ground arith;
  missing = λ k m. ground arith;
  keyed = λ k s e. ground arith;
}

next_available_piece-IsBest_example :
    IsBest (1 ∷ 0 ∷ []) repository (next_available_piece (1 ∷ 0 ∷ []) repository)
next_available_piece-IsBest_example =
    next_available_piece-IsBest (1 ∷ 0 ∷ []) repository repository-IsConsistent

make_completed-IsConsistent_example : IsConsistent (make_completed 0 repository)
make_completed-IsConsistent_example =
    make_completed-IsConsistent 0 repository repository-IsConsistent

repository-IsFitting : IsFitting repository
unfolding find
repository-IsFitting k s e = ground arith

abbrev peer : Protocol
peer = record {
  am_choking = true;
  am_interested = false;
  peer_choking = false;
  peer_interested = false;
  app_id = [];
  info_hash = [];
  available_pieces = 0 ∷ 1 ∷ [];
  repository = repository;
}

abbrev first_block : Piece
first_block = record { index = 0; begin = 0; block = 1 ∷ 2 ∷ 3 ∷ [] }

on_message-IsLawful_example : IsLawful (on_message digest (piece first_block) peer)
unfolding find
on_message-IsLawful_example =
    on_message-IsLawful digest (piece first_block) peer
      (record { consistent = repository-IsConsistent; fitting = repository-IsFitting })
      (λ s e. ground arith)

on_message-IsVerified_example :
    All
      (IsVerified digest peer
        (on_message digest
          (piece (record first_block { block = 1 ∷ 2 ∷ 3 ∷ 4 ∷ [] }))
          peer).protocol)
      (on_message digest (piece (record first_block { block = 1 ∷ 2 ∷ 3 ∷ 4 ∷ [] })) peer).effects
on_message-IsVerified_example =
    on_message-IsVerified digest peer (piece (record first_block { block = 1 ∷ 2 ∷ 3 ∷ 4 ∷ [] }))
      repository-IsConsistent

-- The first piece in two blocks.
abbrev stored_state : PieceState
stored_state = record { piece_data = []; piece_index = 0; max_size = 4; offset = 0 }

two_blocks-IsUnderway : IsUnderway digest 0 ((1 ∷ 2 ∷ 3 ∷ []) ∷ (4 ∷ []) ∷ []) peer stored_state
unfolding find
two_blocks-IsUnderway = record {
  stored = refl;
  keyed = refl;
  size = refl;
  fits = omega arith;
  hashed = refl;
  nonempty = ((λ e. absurd (cc e)), ((λ e. absurd (cc e)), tt));
}

run-IsDownloaded_example :
    IsDownloaded 0 peer stored_state
      (1 ∷ 2 ∷ 3 ∷ 4 ∷ [])
      (run digest (block_messages 0 0 ((1 ∷ 2 ∷ 3 ∷ []) ∷ (4 ∷ []) ∷ [])) peer)
run-IsDownloaded_example =
    run-IsDownloaded digest 0 (1 ∷ 2 ∷ 3 ∷ []) ((4 ∷ []) ∷ []) peer stored_state
      two_blocks-IsUnderway

-- The peer has sent a block of five bytes for a piece of four.
abbrev flooded : Protocol
flooded = record peer {
  repository = record repository {
    all_pieces = (0, record stored_state { piece_data = 1 ∷ 2 ∷ 3 ∷ 4 ∷ 5 ∷ [] }) ∷ [];
  };
}

flooded-IsOverfull : IsOverfull 0 flooded.repository
unfolding find is_completed member
flooded-IsOverfull = record {
  s = record stored_state { piece_data = 1 ∷ 2 ∷ 3 ∷ 4 ∷ 5 ∷ [] };
  stored = refl;
  over = omega arith;
  unfinished = refl;
}

on_message-IsOverfull_example :
    IsOverfull 0
      (on_message digest (piece (record first_block { begin = 5 })) flooded).protocol.repository
unfolding find
on_message-IsOverfull_example =
    on_message-IsOverfull digest 0 (piece (record first_block { begin = 5 })) flooded
      flooded-IsOverfull (λ s e. ground arith)

interest-run_example :
    bit false + interest (run digest (have (record { piece_index = 1 }) ∷ unchoke ∷ []) peer).1
    ≡ bit (run digest (have (record { piece_index = 1 }) ∷ unchoke ∷ []) peer).0.am_interested
interest-run_example = interest-run digest (have (record { piece_index = 1 }) ∷ unchoke ∷ []) peer
