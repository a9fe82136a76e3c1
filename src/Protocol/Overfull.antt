-- ===== src/Protocol/Overfull.antt =====
-- A piece that got more data than its size, in Protocol.ipp.
use fractals.Prelude.{
  ℕ, ◌+◌, ◌^◌, ◌<◌, ◌≡◌, ◌≢◌, sym, ◌∙◌, subst, true, false, some, List, length, arith, inl, inr,
  Option-cases, length-append, ==_ne, ==_cases,
}
use fractals.Prelude.Eq.{nat_eq}
use fractals.Prelude.Map.{find, assign, find-assign, find-assign_self}
use fractals.Prelude.Set.{member-insert}
use fractals.Message.{
  Message, choke, unchoke, interested, not_interested, keep_alive, have, bitfield, request, piece,
  cancel, port, hand_shake, serialize_error, Piece,
}
use fractals.PieceStateManager.{
  PieceStateManager, set_piece_state, is_completed, make_completed, mark_completed,
}
use fractals.PieceStateManager.PieceState as State
use fractals.Protocol.{
  Protocol, Reaction, on_message, partial_piece, completed_piece, rejected_piece, unknown_piece,
}
use fractals.Protocol.Cases.{
  IsNext, on_unchoke-cases, on_piece-cases, on_have-cases, on_bitfield-cases,
}

-- The piece has more data than its size and is not completed.
pub record IsOverfull (k : ℕ) (q : PieceStateManager) : Type 0 where
  pub s : State.PieceState
  pub stored : find k q.all_pieces ≡ some s
  pub over : s.max_size < length s.piece_data
  pub unfinished : is_completed k q ≡ false

-- With the block of a message, a piece holds fewer than 2 ^ 64 bytes.
abbrev pub IsBelowLimit : Message → Protocol → Type 0
IsBelowLimit (piece m) c =
    (s : State.PieceState)
    → find m.index c.repository.all_pieces ≡ some s
    → length s.piece_data + length m.block < 2 ^ 64
IsBelowLimit _ c = Unit

never_complete :
    (s : State.PieceState) (b : List ℕ)
    → s.max_size < length s.piece_data
    → length s.piece_data + length b < 2 ^ 64
    → State.is_complete (State.add_block b s) ≡ false
unfolding State.is_complete State.get_remaining_size State.add_block
never_complete s b over below = ground (arith, length-append s.piece_data b)

module _ (k index : ℕ) (s : State.PieceState) (q : PieceStateManager) (h : IsOverfull k q) where
  set_other : index ≢ k → IsOverfull k (set_piece_state index s q)
  unfolding set_piece_state is_completed
  set_other ne = record {
    s = h.s;
    stored = find-assign index k s q.all_pieces ∙ rw (==_ne index k ne) h.stored;
    over = h.over;
    unfinished = h.unfinished;
  }

  set_same : index ≡ k → s.max_size < length s.piece_data → IsOverfull k (set_piece_state index s q)
  unfolding set_piece_state is_completed
  set_same e over = record {
    s = s;
    stored =
        subst (λ j. find j (assign index s q.all_pieces) ≡ some s) e
          (find-assign_self index s q.all_pieces);
    over = over;
    unfinished = h.unfinished;
  }

mark_other :
    (k index : ℕ) (s : State.PieceState) (q : PieceStateManager)
    → IsOverfull k q
    → index ≢ k
    → IsOverfull k (mark_completed index s q)
unfolding mark_completed is_completed
mark_other k index s q h ne = record {
  s = h.s;
  stored = find-assign index k (State.clear s) q.all_pieces ∙ rw (==_ne index k ne) h.stored;
  over = h.over;
  unfinished = member-insert index k q.completed_pieces ∙ rw (==_ne index k ne) h.unfinished;
}

complete_other :
    (k index : ℕ) (q : PieceStateManager)
    → IsOverfull k q
    → index ≢ k
    → IsOverfull k (make_completed index q)
unfolding make_completed
complete_other k index q h ne = elim (Option-cases (find index q.all_pieces)) [
  | inl e ↦ subst (IsOverfull k) {x = q} {y = make_completed index q} (rw (make_completed, e)) h
  | inr (s, e) ↦
      subst (IsOverfull k) {x = mark_completed index s q} {y = make_completed index q}
        (rw (make_completed, e)) (mark_other k index s q h ne)
]

module _ (sha1 : List ℕ → List ℕ) (k : ℕ) where
  Keeps : Reaction → Type 0
  Keeps r = IsOverfull k r.protocol.repository

  module _ (m : Piece) (c : Protocol) (h : IsOverfull k c.repository)
      (b : IsBelowLimit (piece m) c) where
    held : (s : State.PieceState) → IsNext m c s → m.index ≡ k → s ≡ h.s
    held s n e =
        let same : find m.index c.repository.all_pieces ≡ some h.s =
          subst (λ j. find j c.repository.all_pieces ≡ some h.s) (sym e) h.stored in
        cc (n.stored, same)

    elsewhere :
        (s : State.PieceState)
        → IsNext m c s
        → State.is_complete (State.add_block m.block s) ≡ true
        → m.index ≢ k
    elsewhere s n whole e = absurd (
        ground (
          arith,
          never_complete s m.block
              (subst (λ t. t.max_size < length t.piece_data) (sym (held s n e)) h.over)
              (b s n.stored),
        ))

    grown :
        (s : State.PieceState)
        → IsNext m c s
        → IsOverfull k (set_piece_state m.index (State.add_block m.block s) c.repository)
    unfolding State.add_block
    grown s n = elim (==_cases m.index k) [
      | inl e ↦ set_same k m.index (State.add_block m.block s) c.repository h e (
          let over = subst (λ t. t.max_size < length t.piece_data) (sym (held s n e)) h.over in
          omega (arith, length-append s.piece_data m.block))
      | inr ne ↦ set_other k m.index (State.add_block m.block s) c.repository h ne
    ]

  -- A piece that has more data than its size and is not completed stays so whatever the peer
  -- sends, as long as its data stays below 2 ^ 64 bytes.
  pub on_message-IsOverfull :
      (m : Message) (c : Protocol)
      → IsOverfull k c.repository
      → IsBelowLimit m c
      → IsOverfull k (on_message sha1 m c).protocol.repository
  unfolding on_message Keeps unknown_piece partial_piece completed_piece rejected_piece
  on_message-IsOverfull (hand_shake m) c h b = h
  on_message-IsOverfull keep_alive c h b = h
  on_message-IsOverfull choke c h b = h
  on_message-IsOverfull unchoke c h b = on_unchoke-cases Keeps c h h
  on_message-IsOverfull interested c h b = h
  on_message-IsOverfull not_interested c h b = h
  on_message-IsOverfull (have m) c h b = on_have-cases Keeps c h (λ pieces e. h) (λ pieces e. h) m
  on_message-IsOverfull (bitfield m) c h b =
      on_bitfield-cases Keeps c h (λ pieces e. h) (λ pieces e. h) m
  on_message-IsOverfull (request m) c h b = h
  on_message-IsOverfull (piece m) c h b =
      on_piece-cases sha1 Keeps m c (λ gone. h) h (λ s n incomplete. grown m c h b s n)
        (λ s n whole good.
          complete_other k m.index _ (grown m c h b s n) (elsewhere m c h b s n whole))
        (λ s n whole bad.
          set_other k m.index (State.clear (State.add_block m.block s)) c.repository h
            (elsewhere m c h b s n whole))
  on_message-IsOverfull (cancel m) c h b = h
  on_message-IsOverfull (port m) c h b = h
  on_message-IsOverfull (serialize_error m) c h b = h
