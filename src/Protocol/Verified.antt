-- ===== src/Protocol/Verified.antt =====
-- What Protocol.ipp gives to the disk.
use fractals.Prelude.{
  ℕ, ◌≡◌, refl, ap, sym, ◌∙◌, subst, true, false, some, List, [], ◌∷◌, ◌++◌, All, arith, inl, inr,
  Bool-cases, Option-cases, ==_refl,
}
use fractals.Prelude.Eq.{nat_eq, list_beq_iff}
use fractals.Prelude.Map.{find, find-assign_self}
use fractals.Prelude.Set.{member, member-insert, member-remove}
use fractals.Message.{
  Message, choke, unchoke, interested, not_interested, keep_alive, have, bitfield, request, piece,
  cancel, port, hand_shake, serialize_error, Piece,
}
use fractals.PieceStateManager.{
  PieceStateManager, set_piece_state, next_available_piece, is_completed, make_completed,
  mark_completed, hash_check,
}
use fractals.PieceStateManager.PieceState as State
use fractals.PieceStateManager.Consistency.{IsConsistent}
use fractals.Protocol.{
  Protocol, Effect, write, push, WriteData, Reaction, on_message, on_piece, request_next_piece,
  next_request, on_unchoke, partial_piece, completed_piece, rejected_piece, unknown_piece,
}
use fractals.Protocol.Cases.{on_piece-cases, on_unchoke-cases, on_have-cases, on_bitfield-cases}

-- The data of a piece is what was stored for it and the block; its hash is the stored one; and the
-- piece counts as completed and not as missing afterwards.
pub record IsVerifiedWrite (sha1 : List ℕ → List ℕ) (c c' : Protocol) (w : WriteData) : Type 0 where
  pub s : State.PieceState
  pub stored : find w.piece_index c.repository.all_pieces ≡ some s
  pub hashed : find w.piece_index c.repository.hashes ≡ some (sha1 w.m_data)
  pub placed : w.offset ≡ s.offset
  pub torrent : w.info_hash ≡ c.info_hash
  pub recorded : is_completed w.piece_index c'.repository ≡ true
  pub gone : member w.piece_index c'.repository.available ≡ false

abbrev pub IsVerified : (List ℕ → List ℕ) → Protocol → Protocol → Effect → Type 0
IsVerified sha1 c c' (write m) = Unit
IsVerified sha1 c c' (push w) = IsVerifiedWrite sha1 c c' w

requests :
    (P : Effect → Type 0) (c : Protocol)
    → ((m : Message) → P (write m))
    → All P (request_next_piece c).1
unfolding request_next_piece
requests P c h = elim (Option-cases (next_available_piece c.available_pieces c.repository)) [
  | inl e ↦ subst (All P) {x = []} (rw (request_next_piece, e)) tt
  | inr (s, e) ↦ elim (Bool-cases c.repository.active) [
    | inr off ↦ subst (All P) {x = []} (rw (request_next_piece, e, off)) tt
    | inl on ↦ elim (Bool-cases c.peer_choking) [
      | inl choked ↦ subst (All P) {x = []} (rw (request_next_piece, e, on, choked)) tt
      | inr free ↦
          subst (All P) {x = write (next_request s) ∷ []} (rw (request_next_piece, e, on, free))
            (h (next_request s), tt)
    ]
  ]
]

hash_check-true :
    (sha1 : List ℕ → List ℕ) (index : ℕ) (bytes : List ℕ) (q : PieceStateManager)
    → hash_check sha1 index bytes q ≡ true
    → find index q.hashes ≡ some (sha1 bytes)
unfolding hash_check
hash_check-true sha1 index bytes q e = elim (Option-cases (find index q.hashes)) [
  | inl gone ↦ absurd (ground arith)
  | inr (hash, f) ↦
      f ∙ ap some (sym ((list_beq_iff (sha1 bytes) hash).0 (rw (sym e, hash_check, f))))
]

pub make_completed-recorded :
    (index : ℕ) (s : State.PieceState) (q : PieceStateManager)
    → (is_completed index (make_completed index (set_piece_state index s q)) ≡ true)
      × (member index (make_completed index (set_piece_state index s q)).available ≡ false)
unfolding make_completed mark_completed set_piece_state is_completed
make_completed-recorded index s q =
    rw (make_completed, find-assign_self index s q.all_pieces)
      (
        ground (arith, member-insert index index q.completed_pieces, ==_refl index),
        ground (arith, member-remove index index q.available, ==_refl index),
      )

module _ (sha1 : List ℕ → List ℕ) (c : Protocol) where
  IsVerifiedReaction : Reaction → Type 0
  IsVerifiedReaction r = All (IsVerified sha1 c r.protocol) r.effects

  on_piece-IsVerified :
      (m : Piece) → IsConsistent c.repository → IsVerifiedReaction (on_piece sha1 m c)
  unfolding IsVerifiedReaction unknown_piece partial_piece rejected_piece completed_piece
      State.add_block
  on_piece-IsVerified m h =
      on_piece-cases sha1 IsVerifiedReaction m c (λ gone. tt)
        (requests (IsVerified sha1 c c) c (λ m. tt)) (λ s n incomplete. requests _ _ (λ m. tt))
        (λ s n whole good. (
          record {
            s = s;
            stored = n.stored;
            hashed =
                subst (λ k. find k c.repository.hashes ≡ some (sha1 (s.piece_data ++ m.block)))
                  (h.keyed m.index s n.stored)
                  (hash_check-true sha1 s.piece_index (s.piece_data ++ m.block) c.repository good);
            placed = refl;
            torrent = refl;
            recorded = (make_completed-recorded m.index (State.add_block m.block s) c.repository).0;
            gone = (make_completed-recorded m.index (State.add_block m.block s) c.repository).1;
          },
          requests _ _ (λ m. tt),
        ))
        (λ s n whole bad. tt)

  -- Whatever the peer sends, and if the tables are consistent, data goes to the disk only when its
  -- hash is the one stored for the piece, with the torrent and the offset of the piece; and the
  -- piece is then recorded as completed and no longer missing.
  pub on_message-IsVerified :
      (m : Message)
      → IsConsistent c.repository
      → All (IsVerified sha1 c (on_message sha1 m c).protocol) (on_message sha1 m c).effects
  unfolding on_message on_unchoke IsVerifiedReaction
  on_message-IsVerified (hand_shake m) h = tt
  on_message-IsVerified keep_alive h = (tt, tt)
  on_message-IsVerified choke h = tt
  on_message-IsVerified unchoke h = on_unchoke-cases IsVerifiedReaction c tt (
      requests (IsVerified sha1 c (record c { peer_choking = false }))
        (record c { peer_choking = false }) (λ m. tt))
  on_message-IsVerified interested h = tt
  on_message-IsVerified not_interested h = tt
  on_message-IsVerified (have m) h =
      on_have-cases IsVerifiedReaction c tt (λ pieces e. (tt, tt)) (λ pieces e. tt) m
  on_message-IsVerified (bitfield m) h =
      on_bitfield-cases IsVerifiedReaction c tt (λ pieces e. (tt, tt)) (λ pieces e. tt) m
  on_message-IsVerified (request m) h = tt
  on_message-IsVerified (piece m) h = on_piece-IsVerified m h
  on_message-IsVerified (cancel m) h = tt
  on_message-IsVerified (port m) h = tt
  on_message-IsVerified (serialize_error m) h = tt
