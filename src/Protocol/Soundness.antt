-- ===== src/Protocol/Soundness.antt =====
-- The tables behind Protocol.ipp after a message, and the requests written then.
use fractals.Prelude.{
  ℕ, ◌≡◌, subst, List, [], ◌∷◌, All, arith, inl, inr, Option-cases, length-append,
}
use fractals.Prelude.Eq.{nat_eq}
use fractals.Prelude.Map.{find, find-assign}
use fractals.Prelude.Set.{remove}
use fractals.Message.{
  Message, choke, unchoke, interested, not_interested, keep_alive, have, bitfield, request, piece,
  cancel, port, hand_shake, serialize_error, Piece,
}
use fractals.PieceStateManager.{PieceStateManager, set_piece_state, make_completed, mark_completed}
use fractals.PieceStateManager.PieceState as State
use fractals.PieceStateManager.Consistency.{
  IsConsistent, make_completed-IsConsistent, set_piece_state-IsConsistent,
}
use fractals.Protocol.{
  Protocol, Effect, stay, push, Reaction, on_message, on_piece, then_request, partial_piece,
  completed_piece, rejected_piece, unknown_piece,
}
use fractals.Protocol.Cases.{
  IsNext, on_piece-cases, on_unchoke-cases, on_have-cases, on_bitfield-cases,
}
use fractals.Protocol.Requests.{
  IsWithin, IsFitting, IsSound, IsInBounds, IsPermitted, then_request-IsPermitted,
}

-- What one message leads to.
pub record IsLawful (r : Reaction) : Type 0 where
  pub sound : IsSound r.protocol.repository
  pub permitted : All (IsPermitted r.protocol) r.effects

set_piece_state-IsFitting :
    (index : ℕ) (s : State.PieceState) (q : PieceStateManager)
    → IsFitting q
    → IsWithin s
    → IsFitting (set_piece_state index s q)
unfolding set_piece_state
set_piece_state-IsFitting index s q h w k t e =
    ground (arith, w.0, w.1, h k t, find-assign index k s q.all_pieces)

clear-IsWithin : (s : State.PieceState) → IsWithin s → IsWithin (State.clear s)
unfolding State.clear
clear-IsWithin s w = (omega arith, w.1)

mark_completed-IsFitting :
    (index : ℕ) (s : State.PieceState) (q : PieceStateManager)
    → IsFitting q
    → IsWithin s
    → IsFitting (mark_completed index s q)
unfolding mark_completed set_piece_state
mark_completed-IsFitting index s q h w k t e =
    set_piece_state-IsFitting index (State.clear s) q h (clear-IsWithin s w) k t e

make_completed-IsFitting :
    (index : ℕ) (q : PieceStateManager) → IsFitting q → IsFitting (make_completed index q)
unfolding make_completed
make_completed-IsFitting index q h = elim (Option-cases (find index q.all_pieces)) [
  | inl gone ↦ subst IsFitting {x = q} {y = make_completed index q} (rw (make_completed, gone)) h
  | inr (s, e) ↦
      subst IsFitting {x = mark_completed index s q} {y = make_completed index q}
        (rw (make_completed, e)) (mark_completed-IsFitting index s q h (h index s e))
]

then_request-IsLawful :
    (c : Protocol) (effects : List Effect)
    → IsSound c.repository
    → All (IsPermitted c) effects
    → IsLawful (then_request c effects)
then_request-IsLawful c effects h done = record {
  sound = h;
  permitted = then_request-IsPermitted c effects h done;
}

-- A state is put back that stands under its index and fits.
set_piece_state-IsSound :
    (index : ℕ) (s : State.PieceState) (c : Protocol)
    → IsSound c.repository
    → s.piece_index ≡ index
    → IsWithin s
    → IsSound (set_piece_state index s c.repository)
set_piece_state-IsSound index s c h e w = record {
  consistent =
      subst (λ k. IsConsistent (set_piece_state k s c.repository)) e
        (set_piece_state-IsConsistent s c.repository h.consistent);
  fitting = set_piece_state-IsFitting index s c.repository h.fitting w;
}

module _ (sha1 : List ℕ → List ℕ) (m : Piece) (c : Protocol) (h : IsSound c.repository)
    (bound : IsInBounds (piece m) c) where
  added-IsWithin : (s : State.PieceState) → IsNext m c s → IsWithin (State.add_block m.block s)
  unfolding State.add_block
  added-IsWithin s n = (
    omega (arith, length-append s.piece_data m.block, bound s n.stored),
    (h.fitting m.index s n.stored).1,
  )

  updated :
      (s : State.PieceState)
      → IsNext m c s
      → IsSound (set_piece_state m.index (State.add_block m.block s) c.repository)
  unfolding State.add_block
  updated s n =
      set_piece_state-IsSound m.index (State.add_block m.block s) c h
        (h.consistent.keyed m.index s n.stored) (added-IsWithin s n)

  completed_piece-IsLawful :
      (s : State.PieceState)
      → IsNext m c s
      → IsLawful (completed_piece m.index (State.add_block m.block s) c)
  unfolding completed_piece
  completed_piece-IsLawful s n =
      let repository = set_piece_state m.index (State.add_block m.block s) c.repository in
      then_request-IsLawful
        (record c {
          repository = make_completed m.index repository;
          available_pieces = remove m.index c.available_pieces;
        })
        (push _ ∷ [])
        (record {
          consistent = make_completed-IsConsistent m.index repository (updated s n).consistent;
          fitting = make_completed-IsFitting m.index repository (updated s n).fitting;
        })
        (tt, tt)

  rejected_piece-IsLawful :
      (s : State.PieceState)
      → IsNext m c s
      → IsLawful (rejected_piece m.index (State.add_block m.block s) c)
  unfolding rejected_piece State.add_block State.clear
  rejected_piece-IsLawful s n = record {
    sound =
        set_piece_state-IsSound m.index (State.clear (State.add_block m.block s)) c h
          (h.consistent.keyed m.index s n.stored)
          (clear-IsWithin (State.add_block m.block s) (added-IsWithin s n));
    permitted = tt;
  }

  on_piece-IsLawful : IsLawful (on_piece sha1 m c)
  unfolding unknown_piece partial_piece
  on_piece-IsLawful =
      on_piece-cases sha1 IsLawful m c (λ gone. record { sound = h; permitted = tt })
        (then_request-IsLawful c [] h tt)
        (λ s n incomplete. then_request-IsLawful _ [] (updated s n) tt)
        (λ s n whole good. completed_piece-IsLawful s n)
        (λ s n whole bad. rejected_piece-IsLawful s n)

kept_sound : (c : Protocol) → IsSound c.repository → IsLawful (stay c [])
kept_sound c h = record { sound = h; permitted = tt }

-- Every message keeps sound tables sound, if a block in it is no longer than what its piece
-- misses, and every request that is written then is for a missing piece that the unchoking peer
-- has, from its first missing byte on, of at most 2 ^ 14 bytes and within the piece.
pub on_message-IsLawful :
    (sha1 : List ℕ → List ℕ) (m : Message) (c : Protocol)
    → IsSound c.repository
    → IsInBounds m c
    → IsLawful (on_message sha1 m c)
unfolding on_message
on_message-IsLawful sha1 (hand_shake m) c h b = kept_sound c h
on_message-IsLawful sha1 keep_alive c h b = record { sound = h; permitted = (tt, tt) }
on_message-IsLawful sha1 choke c h b = kept_sound _ h
on_message-IsLawful sha1 unchoke c h b =
    on_unchoke-cases IsLawful c (kept_sound c h) (then_request-IsLawful _ [] h tt)
on_message-IsLawful sha1 interested c h b = kept_sound _ h
on_message-IsLawful sha1 not_interested c h b = kept_sound _ h
on_message-IsLawful sha1 (have m) c h b =
    on_have-cases IsLawful c (kept_sound c h)
      (λ pieces e. record { sound = h; permitted = (tt, tt) }) (λ pieces e. kept_sound _ h) m
on_message-IsLawful sha1 (bitfield m) c h b =
    on_bitfield-cases IsLawful c (kept_sound c h)
      (λ pieces e. record { sound = h; permitted = (tt, tt) }) (λ pieces e. kept_sound _ h) m
on_message-IsLawful sha1 (request m) c h b = kept_sound c h
on_message-IsLawful sha1 (piece m) c h b = on_piece-IsLawful sha1 m c h b
on_message-IsLawful sha1 (cancel m) c h b = record { sound = h; permitted = tt }
on_message-IsLawful sha1 (port m) c h b = kept_sound c h
on_message-IsLawful sha1 (serialize_error m) c h b = kept_sound c h
