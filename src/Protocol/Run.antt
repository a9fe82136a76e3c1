-- ===== src/Protocol/Run.antt =====
-- Sequences of messages to Protocol.ipp, and the blocks of one piece.
use fractals.Prelude.{
  ℕ, ◌+◌, ◌^◌, ◌<◌, ◌≡◌, ◌≢◌, refl, ap, ◌∙◌, true, false, some, List, [], ◌∷◌, ◌++◌, length, All,
  arith, inl, inr, Bool-cases, Option-cases,
}
use fractals.Prelude.Eq.{nat_eq, list_beq_iff}
use fractals.Prelude.Map.{find}
use fractals.Prelude.Set.{member}
use fractals.Message.{Message, piece}
use fractals.PieceStateManager.{PieceStateManager, next_available_piece, is_completed, hash_check}
use fractals.PieceStateManager.PieceState as State
use fractals.Protocol.{Protocol, Effect, write, push, WriteData, on_message, request_next_piece}

-- The reactions to a sequence of messages, taken together.
unfoldable pub run : (List ℕ → List ℕ) → List Message → Protocol → Protocol × List Effect
unfolding on_message
run sha1 [] c = (c, [])
run sha1 (m ∷ messages) c =
    let r = on_message sha1 m c in
    let (c', effects) = run sha1 messages r.protocol in (c', r.effects ++ effects)

-- What is pushed to the disk queue.
abbrev pub pushed : List Effect → List WriteData
pushed [] = []
pushed (write m ∷ effects) = pushed effects
pushed (push w ∷ effects) = w ∷ pushed effects

abbrev pub joined : List (List ℕ) → List ℕ
joined [] = []
joined (b ∷ blocks) = b ++ joined blocks

-- The messages that carry the blocks of a piece in order, from `begin` on.
abbrev pub block_messages : ℕ → ℕ → List (List ℕ) → List Message
block_messages index begin [] = []
block_messages index begin (b ∷ blocks) =
    piece (record { index = index; begin = begin; block = b })
    ∷ block_messages index (begin + length b) blocks

pub pushed-append : (xs ys : List Effect) → pushed (xs ++ ys) ≡ pushed xs ++ pushed ys
pushed-append [] ys = refl
pushed-append (write m ∷ xs) ys = pushed-append xs ys
pushed-append (push w ∷ xs) ys = ap (◌∷◌ w) (pushed-append xs ys)

pub pushed-request_next_piece : (c : Protocol) → pushed (request_next_piece c).1 ≡ []
unfolding request_next_piece
pushed-request_next_piece c =
    elim (Option-cases (next_available_piece c.available_pieces c.repository)) [
      | inl e ↦ rw (request_next_piece, e)
      | inr (s, e) ↦ elim (Bool-cases c.repository.active) [
        | inr off ↦ rw (request_next_piece, e, off)
        | inl on ↦ elim (Bool-cases c.peer_choking) [
          | inl choked ↦ rw (request_next_piece, e, on, choked)
          | inr free ↦ rw (request_next_piece, e, on, free)
        ]
      ]
    ]

-- Nothing is pushed before the later effects.
pub pushed-after :
    (c : Protocol) (later : List Effect) → pushed ((request_next_piece c).1 ++ later) ≡ pushed later
pushed-after c later =
    pushed-append (request_next_piece c).1 later
    ∙ ap (λ ws. ws ++ pushed later) (pushed-request_next_piece c)

-- The state `s` of a piece that is underway, with blocks to come that complete it.
pub record IsUnderway (sha1 : List ℕ → List ℕ) (index : ℕ) (blocks : List (List ℕ)) (c : Protocol)
    (s : State.PieceState) : Type 0 where
  pub stored : find index c.repository.all_pieces ≡ some s
  pub keyed : s.piece_index ≡ index
  pub size : length (s.piece_data ++ joined blocks) ≡ s.max_size
  pub fits : s.max_size < 2 ^ 32
  pub hashed : find index c.repository.hashes ≡ some (sha1 (s.piece_data ++ joined blocks))
  pub nonempty : All (λ b. b ≢ []) blocks

pub record IsDownloaded (index : ℕ) (c : Protocol) (s : State.PieceState) (bytes : List ℕ)
    (result : Protocol × List Effect) : Type 0 where
  pub written :
      pushed result.1
      ≡ record { info_hash = c.info_hash; piece_index = index; m_data = bytes; offset = s.offset }
        ∷ []
  pub recorded : is_completed index result.0.repository ≡ true
  pub gone : member index result.0.repository.available ≡ false

pub hash_check_lem :
    (sha1 : List ℕ → List ℕ) (index : ℕ) (bytes : List ℕ) (q : PieceStateManager)
    → find index q.hashes ≡ some (sha1 bytes)
    → hash_check sha1 index bytes q ≡ true
unfolding hash_check
hash_check_lem sha1 index bytes q e =
    rw (hash_check, e) ((list_beq_iff (sha1 bytes) (sha1 bytes)).1 refl)

pub nonempty_length : (b : List ℕ) → b ≢ [] → 0 < length b
nonempty_length [] h = absurd (h refl)
nonempty_length (x ∷ b) h = omega arith
