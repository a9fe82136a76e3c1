-- ===== src/PieceStateManager/Consistency.antt =====
-- What the tables of PieceStateManager.h say of each other, under its operations.
use fractals.Prelude.{
  ℕ, ◌≡◌, sym, true, false, Option, none, some, List, [], ◌∷◌, arith, Bool-cases, inl, inr,
  Option-cases, subst, ==_iff,
}
use fractals.Prelude.Eq.{nat_eq}
use fractals.Prelude.Map.{find, is_some, find-assign}
use fractals.Prelude.Set.{member, member-insert, member-remove}
use fractals.PieceStateManager.{
  PieceStateManager, next_available_piece, make_completed, mark_completed, set_piece_state,
}
use fractals.PieceStateManager.PieceState.{PieceState, clear}

-- A missing piece has a state and is not completed, and a state stands under its piece's index.
pub record IsConsistent (q : PieceStateManager) : Type 0 where
  pub known : (k : ℕ) → member k q.available ≡ true → is_some (find k q.all_pieces) ≡ true
  pub missing : (k : ℕ) → member k q.available ≡ true → member k q.completed_pieces ≡ false
  pub keyed : (k : ℕ) (s : PieceState) → find k q.all_pieces ≡ some s → s.piece_index ≡ k

-- The piece chosen, if there is one, is one that the peer has and that is missing.
pub record IsChoice (peer_pieces : List ℕ) (q : PieceStateManager) (s : PieceState) : Type 0 where
  pub offered : member s.piece_index peer_pieces ≡ true
  pub needed : member s.piece_index q.available ≡ true
  pub stored : find s.piece_index q.all_pieces ≡ some s

abbrev pub IsBest : List ℕ → PieceStateManager → Option PieceState → Type 0
IsBest peer_pieces q none = (k : ℕ) → member k peer_pieces ≡ true → member k q.available ≡ false
IsBest peer_pieces q (some s) = IsChoice peer_pieces q s

next_some :
    (piece : ℕ) (peer_pieces : List ℕ) (q : PieceStateManager) (o : Option PieceState)
    → IsBest peer_pieces q o
    → member piece q.available ≡ false
    → IsBest (piece ∷ peer_pieces) q o
unfolding member
next_some piece peer_pieces q none h e = λ k m. ground (arith, ==_iff piece k, h k)
next_some piece peer_pieces q (some s) h e = record {
  offered = ground (arith, h.offered);
  needed = h.needed;
  stored = h.stored;
}

-- In a consistent manager the next piece is one that the peer has and that is missing, with the
-- state stored for it; none is returned only when the peer has no missing piece.
pub next_available_piece-IsBest :
    (peer_pieces : List ℕ) (q : PieceStateManager)
    → IsConsistent q
    → IsBest peer_pieces q (next_available_piece peer_pieces q)
unfolding next_available_piece member
next_available_piece-IsBest [] q h = λ k m. absurd (ground arith)
next_available_piece-IsBest (piece ∷ peer_pieces) q h =
    elim (Bool-cases (member piece q.available)) [
      | inl here ↦ elim (Option-cases (find piece q.all_pieces)) [
        | inl gone ↦ absurd (ground (arith, h.known piece here))
        | inr (s, e) ↦
            let index : piece ≡ s.piece_index = sym (h.keyed piece s e) in
            subst (IsBest (piece ∷ peer_pieces) q) {x = some s} (rw (next_available_piece, here, e))
              (record {
                offered = ground (arith, ==_iff piece s.piece_index);
                needed = subst (λ k. member k q.available ≡ true) index here;
                stored = subst (λ k. find k q.all_pieces ≡ some s) index e;
              })
      ]
      | inr gone ↦
          subst (IsBest (piece ∷ peer_pieces) q) {x = next_available_piece peer_pieces q}
            (rw (next_available_piece, gone))
            (next_some piece peer_pieces q (next_available_piece peer_pieces q)
              (next_available_piece-IsBest peer_pieces q h) gone)
    ]

mark_completed-IsConsistent :
    (piece : ℕ) (s : PieceState) (q : PieceStateManager)
    → find piece q.all_pieces ≡ some s
    → IsConsistent q
    → IsConsistent (mark_completed piece s q)
unfolding mark_completed clear
mark_completed-IsConsistent piece s q e h = record {
  known = λ k m. ground (
    arith,
    ==_iff piece k,
    h.known k,
    member-remove piece k q.available,
    find-assign piece k (clear s) q.all_pieces,
  );
  missing = λ k m. ground (
    arith,
    ==_iff piece k,
    h.missing k,
    member-remove piece k q.available,
    member-insert piece k q.completed_pieces,
  );
  keyed = λ k t m. ground (
    arith,
    ==_iff piece k,
    h.keyed k t,
    h.keyed piece s e,
    find-assign piece k (clear s) q.all_pieces,
  );
}

pub make_completed-IsConsistent :
    (piece : ℕ) (q : PieceStateManager) → IsConsistent q → IsConsistent (make_completed piece q)
unfolding make_completed
make_completed-IsConsistent piece q h = elim (Option-cases (find piece q.all_pieces)) [
  | inl gone ↦ subst IsConsistent (rw (make_completed, gone)) h
  | inr (s, e) ↦
      subst IsConsistent (rw (make_completed, e)) (mark_completed-IsConsistent piece s q e h)
]

-- A state may be put back under its own index.
pub set_piece_state-IsConsistent :
    (s : PieceState) (q : PieceStateManager)
    → IsConsistent q
    → IsConsistent (set_piece_state s.piece_index s q)
unfolding set_piece_state
set_piece_state-IsConsistent s q h = record {
  known = λ k m.
      ground
        (arith, ==_iff s.piece_index k, h.known k m, find-assign s.piece_index k s q.all_pieces);
  missing = h.missing;
  keyed = λ k t m.
      ground
        (arith, ==_iff s.piece_index k, h.keyed k t, find-assign s.piece_index k s q.all_pieces);
}
