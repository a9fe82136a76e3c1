-- ===== src/PieceStateManager/Population.antt =====
-- The tables of PieceStateManager.h after `populate`.
use fractals.Prelude.{
  ℕ, ◌+◌, ◌%◌, ◌^◌, ◌≡◌, refl, ap, ◌∙◌, Bool, true, false, none, some, List, [], ◌∷◌, ◌++◌, arith,
  ◌||◌, ==_iff, ==_refl, map, ◌==◌, ◌&&◌, not,
}
use fractals.Prelude.Eq.{nat_eq}
use fractals.Prelude.Map.{Map, find, emplace, contains, is_some, find-emplace}
use fractals.Prelude.Set.{member, member-insert}
use fractals.PieceStateManager.{
  PieceStateManager, PieceModel, new, populate, populate_piece, populate_pieces, populate_states,
  is_completed,
}
use fractals.PieceStateManager.PieceState.{PieceState, init}
use fractals.PieceStateManager.Consistency.{IsConsistent}

-- The sizes of the models together.
abbrev pub total : List PieceModel → ℕ
total [] = 0
total (pm ∷ models) = pm.size + total models

abbrev pub pieces : List PieceModel → List ℕ
pieces = map (λ pm. pm.piece)

kept :
    (offset : ℕ) (models : List PieceModel) (states : Map ℕ PieceState) (k : ℕ) (s : PieceState)
    → find k states ≡ some s
    → find k (populate_states offset models states) ≡ some s
unfolding populate_states contains
kept offset [] states k s e = e
kept offset (pm ∷ models) states k s e =
    kept ((offset + pm.size) % 2 ^ 64) models
      (emplace pm.piece (init pm.piece pm.size offset) states) k s
      (ground (arith, find-emplace pm.piece k (init pm.piece pm.size offset) states))

skipped :
    (offset : ℕ) (models : List PieceModel) (states : Map ℕ PieceState) (k : ℕ)
    → member k (pieces models) ≡ false
    → find k (populate_states offset models states) ≡ find k states
unfolding populate_states contains member
skipped offset [] states k e = refl
skipped offset (pm ∷ models) states k e =
    skipped ((offset + pm.size) % 2 ^ 64) models
      (emplace pm.piece (init pm.piece pm.size offset) states) k (ground arith)
    ∙ ground (arith, find-emplace pm.piece k (init pm.piece pm.size offset) states)

keyed_states :
    (offset : ℕ) (models : List PieceModel) (states : Map ℕ PieceState)
    → ((k : ℕ) (s : PieceState) → find k states ≡ some s → s.piece_index ≡ k)
    → (k : ℕ) (s : PieceState) → find k (populate_states offset models states) ≡ some s
    → s.piece_index ≡ k
unfolding populate_states init contains
keyed_states offset [] states h = h
keyed_states offset (pm ∷ models) states h =
    keyed_states ((offset + pm.size) % 2 ^ 64) models
      (emplace pm.piece (init pm.piece pm.size offset) states)
      (λ k s e. ground (
        arith,
        ==_iff pm.piece k,
        h k s,
        find-emplace pm.piece k (init pm.piece pm.size offset) states,
      ))

modelled_states :
    (offset : ℕ) (before : List PieceModel) (pm : PieceModel) (after : List PieceModel)
    (states : Map ℕ PieceState)
    → member pm.piece (pieces before) ≡ false
    → find pm.piece states ≡ none
    → find pm.piece (populate_states (offset % 2 ^ 64) (before ++ pm ∷ after) states)
      ≡ some (init pm.piece pm.size ((offset + total before) % 2 ^ 64))
unfolding populate_states contains member
modelled_states offset [] pm after states e gone =
    kept ((offset % 2 ^ 64 + pm.size) % 2 ^ 64) after
      (emplace pm.piece (init pm.piece pm.size (offset % 2 ^ 64)) states) pm.piece
      (init pm.piece pm.size ((offset + 0) % 2 ^ 64))
      (ground (
        arith,
        find-emplace pm.piece pm.piece (init pm.piece pm.size (offset % 2 ^ 64)) states,
        ==_refl pm.piece,
      ))
modelled_states offset (m ∷ before) pm after states e gone =
    let states' = emplace m.piece (init m.piece m.size (offset % 2 ^ 64)) states in
    ap (λ o. find pm.piece (populate_states o (before ++ pm ∷ after) states'))
      (let same : (offset % 2 ^ 64 + m.size) % 2 ^ 64 ≡ (offset + m.size) % 2 ^ 64 = omega arith in
        same)
    ∙ modelled_states (offset + m.size) before pm after states' (ground arith) (
        ground
          (arith, find-emplace m.piece pm.piece (init m.piece m.size (offset % 2 ^ 64)) states))
    ∙ ap (λ o. some (init pm.piece pm.size (o % 2 ^ 64)))
        (let same : offset + m.size + total before ≡ offset + (m.size + total before) =
            omega arith in
          same)

-- The first loop leaves the states and the completed pieces as they are.
populate_pieces-all_pieces :
    (models : List PieceModel) (q : PieceStateManager)
    → ((populate_pieces models q).all_pieces ≡ q.all_pieces)
      × ((populate_pieces models q).completed_pieces ≡ q.completed_pieces)
unfolding populate_pieces populate_piece
populate_pieces-all_pieces [] q = (refl, refl)
populate_pieces-all_pieces (pm ∷ models) q = populate_pieces-all_pieces models (populate_piece pm q)

-- Whether some model says that the piece is not complete.
abbrev pub wanted : ℕ → List PieceModel → Bool
wanted k [] = false
wanted k (pm ∷ models) = (pm.piece == k && not pm.complete) || wanted k models

populate_pieces-available :
    (models : List PieceModel) (q : PieceStateManager) (k : ℕ)
    → member k (populate_pieces models q).available ≡ (wanted k models || member k q.available)
unfolding populate_pieces populate_piece
populate_pieces-available [] q k = refl
populate_pieces-available (pm ∷ models) q k =
    populate_pieces-available models (populate_piece pm q) k
    ∙ ground (arith, member-insert pm.piece k q.available)

present :
    (offset : ℕ) (models : List PieceModel) (states : Map ℕ PieceState) (k : ℕ)
    → (wanted k models || is_some (find k states)) ≡ true
    → is_some (find k (populate_states offset models states)) ≡ true
unfolding populate_states contains
present offset [] states k h = h
present offset (pm ∷ models) states k h =
    present ((offset + pm.size) % 2 ^ 64) models
      (emplace pm.piece (init pm.piece pm.size offset) states) k
      (ground (arith, find-emplace pm.piece k (init pm.piece pm.size offset) states))

-- After a new manager is populated, each first model of a piece has its state, empty and of the
-- model's size, at the offset of the sizes before it, to 64 bits.
pub populate-all_pieces :
    (before : List PieceModel) (pm : PieceModel) (after : List PieceModel)
    → member pm.piece (pieces before) ≡ false
    → find pm.piece (populate (before ++ pm ∷ after) new).all_pieces
      ≡ some (init pm.piece pm.size (total before % 2 ^ 64))
unfolding populate find
populate-all_pieces before pm after e =
    ap (λ states. find pm.piece (populate_states 0 (before ++ pm ∷ after) states))
      (populate_pieces-all_pieces (before ++ pm ∷ after) new).0
    ∙ modelled_states 0 before pm after [] e refl
    ∙ ap (λ o. some (init pm.piece pm.size (o % 2 ^ 64)))
        (let same : 0 + total before ≡ total before = omega arith in same)

-- A piece is missing in a new manager after populate exactly when some model says that it is not
-- complete; no piece counts as completed, whatever the models say.
pub populate-available :
    (models : List PieceModel) (k : ℕ)
    → (member k (populate models new).available ≡ wanted k models)
      × (is_completed k (populate models new) ≡ false)
unfolding populate is_completed member
populate-available models k = (
  populate_pieces-available models new k ∙ ground arith,
  ap (member k) (populate_pieces-all_pieces models new).1,
)

-- A new manager is consistent once it is populated: each missing piece has a state and is not
-- completed, and each state stands under its own index.
pub populate-IsConsistent : (models : List PieceModel) → IsConsistent (populate models new)
unfolding populate is_completed find
populate-IsConsistent models = record {
  known = λ k m.
      present 0 models (populate_pieces models new).all_pieces k
        (ground (arith, (populate-available models k).0));
  missing = λ k m. (populate-available models k).1;
  keyed =
      keyed_states 0 models (populate_pieces models new).all_pieces
        (λ k s e. absurd (ground (arith, (populate_pieces-all_pieces models new).0)));
}
