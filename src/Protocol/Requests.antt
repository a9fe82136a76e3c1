-- ===== src/Protocol/Requests.antt =====
-- The requests that Protocol.ipp writes, and what keeps them within their pieces.
use fractals.Prelude.{
  ℕ, ◌+◌, ◌^◌, ◌≤◌, ◌<◌, ◌≡◌, refl, subst, true, false, Option, none, some, List, [], ◌∷◌, length,
  All, All-append, arith, inl, inr, Bool-cases,
}
use fractals.Prelude.Eq.{nat_eq}
use fractals.Prelude.Map.{find}
use fractals.Prelude.Set.{member}
use fractals.Message.{Message, request, piece, Request}
use fractals.PieceStateManager.{PieceStateManager, next_available_piece}
use fractals.PieceStateManager.PieceState as State
use fractals.PieceStateManager.Consistency.{
  IsConsistent, IsChoice, IsBest, next_available_piece-IsBest,
}
use fractals.Protocol.{Protocol, Effect, write, then_request, request_next_piece, next_request}

abbrev pub IsWithin : State.PieceState → Type 0
IsWithin s = (length s.piece_data ≤ s.max_size) × (s.max_size < 2 ^ 32)

-- No piece holds more data than its size, and sizes fit in 32 bits.
abbrev pub IsFitting : PieceStateManager → Type 0
IsFitting q = (k : ℕ) (s : State.PieceState) → find k q.all_pieces ≡ some s → IsWithin s

pub record IsSound (q : PieceStateManager) : Type 0 where
  pub consistent : IsConsistent q
  pub fitting : IsFitting q

-- A block is no longer than what its piece misses.
abbrev pub IsInBounds : Message → Protocol → Type 0
IsInBounds (piece m) c =
    (s : State.PieceState)
    → find m.index c.repository.all_pieces ≡ some s
    → length s.piece_data + length m.block ≤ s.max_size
IsInBounds _ c = Unit

-- A request is for a missing piece that the peer has, from the first byte missing on, of 2 ^ 14
-- bytes at most and within the piece; and the peer does not choke.
pub record IsPermittedRequest (c : Protocol) (r : Request) : Type 0 where
  pub s : State.PieceState
  pub unchoked : c.peer_choking ≡ false
  pub offered : member r.req_index c.available_pieces ≡ true
  pub needed : member r.req_index c.repository.available ≡ true
  pub stored : find r.req_index c.repository.all_pieces ≡ some s
  pub next : r.req_begin ≡ length s.piece_data
  pub inside : r.req_begin + r.req_length ≤ s.max_size
  pub small : r.req_length ≤ 2 ^ 14

abbrev pub IsPermitted : Protocol → Effect → Type 0
IsPermitted c (write (request r)) = IsPermittedRequest c r
IsPermitted c _ = Unit

next_request-IsPermitted :
    (c : Protocol) (s : State.PieceState)
    → IsSound c.repository
    → IsChoice c.available_pieces c.repository s
    → c.peer_choking ≡ false
    → IsPermitted c (write (next_request s))
unfolding next_request State.get_next_begin_index State.get_remaining_size
next_request-IsPermitted c s h choice e =
    let (size, fits) = h.fitting s.piece_index s choice.stored in
    record {
      s = s;
      unchoked = e;
      offered = choice.offered;
      needed = choice.needed;
      stored = choice.stored;
      next = omega arith;
      inside = omega arith;
      small = omega arith;
    }

asked :
    (c : Protocol) (o : Option State.PieceState)
    → IsSound c.repository
    → IsBest c.available_pieces c.repository o
    → next_available_piece c.available_pieces c.repository ≡ o
    → All (IsPermitted c) (request_next_piece c).1
unfolding request_next_piece
asked c none h best e = subst (All (IsPermitted c)) {x = []} (rw (request_next_piece, e)) tt
asked c (some s) h best e = elim (Bool-cases c.repository.active) [
  | inl on ↦ elim (Bool-cases c.peer_choking) [
    | inl choked ↦ subst (All (IsPermitted c)) {x = []} (rw (request_next_piece, e, on, choked)) tt
    | inr free ↦
        subst (All (IsPermitted c)) {x = write (next_request s) ∷ []}
          (rw (request_next_piece, e, on, free)) (next_request-IsPermitted c s h best free, tt)
  ]
  | inr off ↦ subst (All (IsPermitted c)) {x = []} (rw (request_next_piece, e, off)) tt
]

pub then_request-IsPermitted :
    (c : Protocol) (effects : List Effect)
    → IsSound c.repository
    → All (IsPermitted c) effects
    → All (IsPermitted (then_request c effects).protocol) (then_request c effects).effects
then_request-IsPermitted c effects h done =
    All-append (IsPermitted c) effects (request_next_piece c).1 done (
      asked c (next_available_piece c.available_pieces c.repository) h
        (next_available_piece-IsBest c.available_pieces c.repository h.consistent) refl)
