-- ===== src/Protocol/Interest.antt =====
-- How often Protocol.ipp tells a peer of its interest.
use fractals.Prelude.{
  ℕ, ◌+◌, ◌≡◌, false, List, [], ◌∷◌, ◌++◌, arith, inl, inr, Bool-cases, Option-cases,
}
use fractals.Prelude.Eq.{nat_eq}
use fractals.Message.{
  Message, choke, unchoke, interested, not_interested, keep_alive, have, bitfield, request, piece,
  cancel, port, hand_shake, serialize_error,
}
use fractals.PieceStateManager.{next_available_piece}
use fractals.Protocol.{
  Protocol, Effect, write, push, Reaction, on_message, request_next_piece, next_request,
  partial_piece, completed_piece, rejected_piece, unknown_piece,
}
use fractals.Protocol.Run.{run}
use fractals.Bytes.Bitfield.{bit}
use fractals.Protocol.Cases.{on_unchoke-cases, on_piece-cases, on_have-cases, on_bitfield-cases}

abbrev one_if_interested : Message → ℕ
one_if_interested interested = 1
one_if_interested _ = 0

-- The number of `Interested` messages among the effects.
abbrev pub interest : List Effect → ℕ
interest [] = 0
interest (write m ∷ effects) = one_if_interested m + interest effects
interest (push w ∷ effects) = interest effects

interest-request_next_piece : (c : Protocol) → interest (request_next_piece c).1 ≡ 0
unfolding request_next_piece next_request
interest-request_next_piece c =
    elim (Option-cases (next_available_piece c.available_pieces c.repository)) [
      | inl e ↦ rw (request_next_piece, e)
      | inr (s, e) ↦ elim (Bool-cases c.repository.active) [
        | inr off ↦ rw (request_next_piece, e, off)
        | inl on ↦ elim (Bool-cases c.peer_choking) [
          | inl choked ↦ rw (request_next_piece, e, on, choked)
          | inr free ↦ rw (request_next_piece, e, on, free)
        ]
      ]
    ]

interest-append : (xs ys : List Effect) → interest (xs ++ ys) ≡ interest xs + interest ys
interest-append [] ys = omega arith
interest-append (write m ∷ xs) ys = omega (arith, interest-append xs ys)
interest-append (push w ∷ xs) ys = interest-append xs ys

asked-Counts :
    (c : Protocol) → bit c.am_interested + interest (request_next_piece c).1 ≡ bit c.am_interested
asked-Counts c = omega (arith, interest-request_next_piece c)

module _ (sha1 : List ℕ → List ℕ) where
  Counts : Protocol → Reaction → Type 0
  Counts c r = bit c.am_interested + interest r.effects ≡ bit r.protocol.am_interested

  on_message-Counts : (m : Message) (c : Protocol) → Counts c (on_message sha1 m c)
  unfolding on_message Counts unknown_piece partial_piece completed_piece rejected_piece
  on_message-Counts (have m) c =
      on_have-cases (Counts c) c (omega arith) (λ pieces e. rw e (omega arith))
        (λ pieces e. omega arith) m
  on_message-Counts (bitfield m) c =
      on_bitfield-cases (Counts c) c (omega arith) (λ pieces e. rw e (omega arith))
        (λ pieces e. omega arith) m
  on_message-Counts unchoke c =
      on_unchoke-cases (Counts c) c (omega arith) (asked-Counts (record c { peer_choking = false }))
  on_message-Counts (piece m) c =
      on_piece-cases sha1 (Counts c) m c (λ gone. omega arith) (asked-Counts c)
        (λ s n incomplete. asked-Counts _) (λ s n whole good. asked-Counts _)
        (λ s n whole bad. omega arith)
  on_message-Counts (hand_shake m) c = omega arith
  on_message-Counts keep_alive c = omega arith
  on_message-Counts choke c = omega arith
  on_message-Counts interested c = omega arith
  on_message-Counts not_interested c = omega arith
  on_message-Counts (request m) c = omega arith
  on_message-Counts (cancel m) c = omega arith
  on_message-Counts (port m) c = omega arith
  on_message-Counts (serialize_error m) c = omega arith

  -- Over any sequence of messages a peer is told once at most that the program is interested, and
  -- not again if it was told before: the field that says so grows by the number of messages that
  -- tell it.
  pub interest-run :
      (messages : List Message) (c : Protocol)
      → bit c.am_interested + interest (run sha1 messages c).1
        ≡ bit (run sha1 messages c).0.am_interested
  unfolding run Counts
  interest-run [] c = omega arith
  interest-run (m ∷ messages) c = omega (
    arith,
    on_message-Counts m c,
    interest-run messages (on_message sha1 m c).protocol,
    interest-append (on_message sha1 m c).effects
        (run sha1 messages (on_message sha1 m c).protocol).1,
  )
