-- ===== src/Protocol/Cases.antt =====
-- The branches of `onMessage(Piece)` of Protocol.ipp, for proofs.
use fractals.Prelude.{
  ℕ, ◌≡◌, subst, true, false, none, some, List, [], ◌∷◌, ◌++◌, length, inl, inr, Bool-cases,
  Option-cases, ◌==◌, ==_iff,
}
use fractals.Prelude.Eq.{nat_eq}
use fractals.Prelude.Map.{find}
use fractals.Prelude.Set.{insert}
use fractals.Message.{Piece, Have, Bitfield, interested}
use fractals.Bytes.Bitfield.{bytes_to_bitfield}
use fractals.PieceStateManager.{is_completed, get_piece_state, hash_check}
use fractals.PieceStateManager.PieceState as State
use fractals.Protocol.{
  Protocol, Reaction, on_piece, received, unknown_piece, then_request, partial_piece,
  completed_piece, rejected_piece, offered_pieces, stay, stay_interested, send_interested, on_have,
  on_bitfield, on_unchoke, write,
}

-- A block that continues the data of its piece, and the state that it is added to.
pub record IsNext (m : Piece) (c : Protocol) (s : State.PieceState) : Type 0 where
  pub stored : find m.index c.repository.all_pieces ≡ some s
  pub begins : m.begin ≡ State.get_next_begin_index s

module _ {ℓ} (sha1 : List ℕ → List ℕ) (P : Reaction → Type ℓ) (m : Piece) (c : Protocol)
    (unknown : find m.index c.repository.all_pieces ≡ none → P (unknown_piece m.index c))
    (late : P (then_request c []))
    (partial : (s : State.PieceState)
      → IsNext m c s
      → State.is_complete (State.add_block m.block s) ≡ false
      → P (partial_piece m.index (State.add_block m.block s) c))
    (good : (s : State.PieceState)
      → IsNext m c s
      → State.is_complete (State.add_block m.block s) ≡ true
      → hash_check sha1 s.piece_index (State.add_block m.block s).piece_data c.repository ≡ true
      → P (completed_piece m.index (State.add_block m.block s) c))
    (bad : (s : State.PieceState)
      → IsNext m c s
      → State.is_complete (State.add_block m.block s) ≡ true
      → hash_check sha1 s.piece_index (State.add_block m.block s).piece_data c.repository ≡ false
      → P (rejected_piece m.index (State.add_block m.block s) c)) where
  received-cases :
      (s : State.PieceState)
      → IsNext m c s
      → P (received sha1 m.index (State.add_block m.block s) c)
  unfolding State.add_block received completed_piece
  received-cases s n = elim (Bool-cases (State.is_complete (State.add_block m.block s))) [
    | inr incomplete ↦ subst P (rw (received, incomplete)) (partial s n incomplete)
    | inl whole ↦
        elim (Bool-cases (hash_check sha1 s.piece_index (s.piece_data ++ m.block) c.repository)) [
          | inl t ↦ subst P (rw (received, whole, t)) (good s n whole t)
          | inr f ↦ subst P (rw (received, whole, f)) (bad s n whole f)
        ]
  ]

  pub on_piece-cases : P (on_piece sha1 m c)
  unfolding get_piece_state on_piece unknown_piece
  on_piece-cases = elim (Option-cases (find m.index c.repository.all_pieces)) [
    | inl gone ↦ subst P (rw (on_piece, gone)) (unknown gone)
    | inr (s, e) ↦ elim (Bool-cases (m.begin == State.get_next_begin_index s)) [
      | inl next ↦ subst P (rw (on_piece, e, next)) (
          received-cases s (record {
            stored = e;
            begins = (==_iff m.begin (State.get_next_begin_index s)).0 next;
          }))
      | inr other ↦ subst P (rw (on_piece, e, other)) late
    ]
  ]

-- A handler that ends in `sendInterested`, in a state where `c` has become `record c` with other
-- available pieces.
module _ {ℓ} (P : Reaction → Type ℓ) (c : Protocol) (same : P (stay c []))
    (told : (pieces : List ℕ)
      → c.am_interested ≡ false
      → P (
          stay
            (record c { available_pieces = pieces; am_interested = true })
            (write interested ∷ [])))
    (more : (pieces : List ℕ)
      → c.am_interested ≡ true
      → P (stay (record c { available_pieces = pieces }) [])) where
  interested-cases :
      (pieces : List ℕ) → P (stay_interested (record c { available_pieces = pieces }))
  unfolding stay_interested send_interested
  interested-cases pieces = elim (Bool-cases c.am_interested) [
    | inl e ↦
        subst P {x = stay (record c { available_pieces = pieces }) []}
          (rw (e, stay_interested, send_interested)) (more pieces e)
    | inr e ↦
        subst P
          {x = stay (record c { available_pieces = pieces; am_interested = true })
            (write interested ∷ [])}
          (rw (e, stay_interested, send_interested)) (told pieces e)
  ]

  pub on_have-cases : (m : Have) → P (on_have m c)
  unfolding on_have
  on_have-cases m = elim (Bool-cases (is_completed m.piece_index c.repository)) [
    | inl e ↦ subst P (rw (on_have, e)) same
    | inr e ↦ subst P (rw (on_have, e)) (interested-cases (insert m.piece_index c.available_pieces))
  ]

  pub on_bitfield-cases : (m : Bitfield) → P (on_bitfield m c)
  unfolding on_bitfield
  on_bitfield-cases m = elim (Option-cases (bytes_to_bitfield (length m.bitfield) m.bitfield)) [
    | inl e ↦ subst P (rw (on_bitfield, e)) same
    | inr (bits, e) ↦
        subst P (rw (on_bitfield, e)) (interested-cases (offered_pieces 0 bits c.available_pieces))
  ]

pub on_unchoke-cases {ℓ} :
    (P : Reaction → Type ℓ) (c : Protocol)
    → P (stay c [])
    → P (then_request (record c { peer_choking = false }) [])
    → P (on_unchoke c)
unfolding on_unchoke
on_unchoke-cases P c same freed = elim (Bool-cases c.peer_choking) [
  | inl e ↦ subst P {y = on_unchoke c} (rw (on_unchoke, e)) freed
  | inr e ↦ subst P {x = stay c []} {y = on_unchoke c} (rw (on_unchoke, e)) same
]
