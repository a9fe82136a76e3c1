-- ===== src/Protocol/Download.antt =====
-- A piece that arrives block by block, through Protocol.ipp, and what the disk gets of it.
use fractals.Prelude.{
  ℕ, ◌+◌, ◌%◌, ◌^◌, ◌<◌, ◌≡◌, ap, sym, ◌∙◌, subst, true, false, some, List, [], ◌∷◌, ◌++◌,
  append_assoc, append-nil, length, arith, ==_iff, length-append, ◌==◌,
}
use fractals.Prelude.Eq.{nat_eq}
use fractals.Prelude.Map.{find-assign_self}
use fractals.Prelude.Set.{remove}
use fractals.Message.{Message}
use fractals.PieceStateManager.{get_piece_state, set_piece_state, make_completed, hash_check}
use fractals.PieceStateManager.PieceState as State
use fractals.Protocol.{
  Protocol, WriteData, Reaction, on_message, on_piece, received, partial_piece, completed_piece,
}
use fractals.Protocol.Verified.{make_completed-recorded}
use fractals.Protocol.Run.{
  run, pushed, joined, block_messages, pushed-request_next_piece, pushed-after, IsUnderway,
  IsDownloaded, hash_check_lem, nonempty_length,
}

module _ (sha1 : List ℕ → List ℕ) (index : ℕ) where
  next_block :
      (b : List ℕ) (blocks : List (List ℕ)) (c : Protocol) (s : State.PieceState)
      → IsUnderway sha1 index (b ∷ blocks) c s
      → on_piece sha1 (record { index = index; begin = length s.piece_data; block = b }) c
        ≡ received sha1 index (State.add_block b s) c
  unfolding on_piece get_piece_state State.get_next_begin_index
  next_block b blocks c s u =
      let begins : (length s.piece_data == (length s.piece_data % 2 ^ 32)) ≡ true =
        ground (arith, u.fits, u.size, length-append s.piece_data (b ++ joined blocks)) in
      rw (on_piece, u.stored, begins)

  last_block :
      (b : List ℕ) (c : Protocol) (s : State.PieceState)
      → IsUnderway sha1 index (b ∷ []) c s
      → received sha1 index (State.add_block b s) c ≡ completed_piece index (State.add_block b s) c
  unfolding received State.add_block
  last_block b c s u =
      let bytes : b ++ [] ≡ b = append-nil b in
      let all : length (s.piece_data ++ b) ≡ s.max_size =
        ap (λ x. length (s.piece_data ++ x)) (sym bytes) ∙ u.size in
      let whole : State.is_complete (State.add_block b s) ≡ true =
        State.is_complete_lem (State.add_block b s) (omega arith) (omega (arith, u.fits))
        ∙ (==_iff (length (s.piece_data ++ b)) s.max_size).1 all in
      let good : hash_check sha1 s.piece_index (s.piece_data ++ b) c.repository ≡ true =
        subst (λ x. hash_check sha1 s.piece_index (s.piece_data ++ x) c.repository ≡ true) bytes
          (subst (λ k. hash_check sha1 k (s.piece_data ++ (b ++ [])) c.repository ≡ true)
            (sym u.keyed)
            (hash_check_lem sha1 index (s.piece_data ++ (b ++ [])) c.repository u.hashed)) in
      rw (received, whole, good)

  first_block :
      (b b' : List ℕ) (blocks : List (List ℕ)) (c : Protocol) (s : State.PieceState)
      → IsUnderway sha1 index (b ∷ b' ∷ blocks) c s
      → received sha1 index (State.add_block b s) c ≡ partial_piece index (State.add_block b s) c
  unfolding received State.add_block
  first_block b b' blocks c s u =
      let some_left : 0 < length b' = nonempty_length b' u.nonempty.1.0 in
      let sizes : length s.piece_data + (length b + (length b' + length (joined blocks)))
          ≡ s.max_size =
        omega (
          arith,
          u.size,
          length-append s.piece_data (b ++ (b' ++ joined blocks)),
          length-append b (b' ++ joined blocks),
          length-append b' (joined blocks),
        ) in
      let held : length (s.piece_data ++ b) ≡ length s.piece_data + length b =
        length-append s.piece_data b in
      let incomplete : State.is_complete (State.add_block b s) ≡ false =
        State.is_complete_lem (State.add_block b s) (omega arith) (omega (arith, u.fits))
        ∙ ground (arith) in
      rw (received, incomplete)

  After : List Message → Protocol → State.PieceState → List ℕ → Reaction → Type 0
  After messages c s bytes r =
      let later = run sha1 messages r.protocol in
      IsDownloaded index c s bytes (later.0, r.effects ++ later.1)

  After-last :
      (b : List ℕ) (c : Protocol) (s : State.PieceState)
      → After [] c s (s.piece_data ++ b) (completed_piece index (State.add_block b s) c)
  unfolding After run completed_piece State.add_block
  After-last b c s =
      let after : Protocol = record c {
        repository =
            make_completed index (set_piece_state index (State.add_block b s) c.repository);
        available_pieces = remove index c.available_pieces;
      } in
      let w : WriteData = record {
        info_hash = c.info_hash;
        piece_index = index;
        m_data = s.piece_data ++ b;
        offset = s.offset;
      } in
      let (recorded, gone) = make_completed-recorded index (State.add_block b s) c.repository in
      record {
        written =
            ap pushed (append-nil (completed_piece index (State.add_block b s) c).effects)
            ∙ ap (◌∷◌ w) (pushed-request_next_piece after);
        recorded = recorded;
        gone = gone;
      }

  advanced :
      (b b' : List ℕ) (blocks : List (List ℕ)) (c : Protocol) (s : State.PieceState)
      → IsUnderway sha1 index (b ∷ b' ∷ blocks) c s
      → IsUnderway sha1 index
          (b' ∷ blocks)
          (record c { repository = set_piece_state index (State.add_block b s) c.repository })
          (State.add_block b s)
  unfolding set_piece_state State.add_block
  advanced b b' blocks c s u =
      let same = append_assoc s.piece_data b (b' ++ joined blocks) in
      record {
        stored = find-assign_self index (State.add_block b s) c.repository.all_pieces;
        keyed = u.keyed;
        size = ap length same ∙ u.size;
        fits = u.fits;
        hashed = u.hashed ∙ ap (λ x. some (sha1 x)) (sym same);
        nonempty = u.nonempty.1;
      }

  After-next :
      (b : List ℕ) (blocks : List (List ℕ)) (c : Protocol) (s : State.PieceState)
      → (let c' : Protocol = record c {
        repository = set_piece_state index (State.add_block b s) c.repository;
      } in
          IsDownloaded index c'
            (State.add_block b s)
            (s.piece_data ++ b ++ joined blocks)
            (run sha1 (block_messages index (length (s.piece_data ++ b)) blocks) c'))
      → After
          (block_messages index (length s.piece_data + length b) blocks)
          c
          s
          (s.piece_data ++ (b ++ joined blocks))
          (partial_piece index (State.add_block b s) c)
  unfolding After partial_piece State.add_block
  After-next b blocks c s d =
      let c' : Protocol = record c {
        repository = set_piece_state index (State.add_block b s) c.repository;
      } in
      let d' =
        subst
          (λ n.
            IsDownloaded index c' (State.add_block b s) (s.piece_data ++ b ++ joined blocks)
              (run sha1 (block_messages index n blocks) c'))
          (length-append s.piece_data b) d in
      let d'' =
        subst
          (λ bytes.
            IsDownloaded index c' (State.add_block b s) bytes
              (run sha1 (block_messages index (length s.piece_data + length b) blocks) c'))
          (append_assoc s.piece_data b (joined blocks)) d' in
      record {
        written =
            pushed-after c'
              (run sha1 (block_messages index (length s.piece_data + length b) blocks) c').1
            ∙ d''.written;
        recorded = d''.recorded;
        gone = d''.gone;
      }

  -- The nonempty blocks of a piece below 2 ^ 32 bytes that arrive in order and complete it, with
  -- data that has the hash stored for the piece, lead to one write of just the data of the piece,
  -- and to a piece that is completed and no longer missing.
  pub run-IsDownloaded :
      (b : List ℕ) (blocks : List (List ℕ)) (c : Protocol) (s : State.PieceState)
      → IsUnderway sha1 index (b ∷ blocks) c s
      → IsDownloaded index c s
          (s.piece_data ++ joined (b ∷ blocks))
          (run sha1 (block_messages index (length s.piece_data) (b ∷ blocks)) c)
  unfolding run on_message After
  run-IsDownloaded b [] c s u =
      subst (After [] c s (s.piece_data ++ (b ++ [])))
        (sym (next_block b [] c s u ∙ last_block b c s u))
        (subst
          (λ x. After [] c s (s.piece_data ++ x) (completed_piece index (State.add_block b s) c))
          (sym (append-nil b)) (After-last b c s))
  run-IsDownloaded b (b' ∷ blocks) c s u =
      let messages = block_messages index (length s.piece_data + length b) (b' ∷ blocks) in
      subst (After messages c s (s.piece_data ++ (b ++ joined (b' ∷ blocks))))
        (sym (next_block b (b' ∷ blocks) c s u ∙ first_block b b' blocks c s u))
        (After-next b (b' ∷ blocks) c s (
          run-IsDownloaded b' blocks
            (record c { repository = set_piece_state index (State.add_block b s) c.repository })
            (State.add_block b s) (advanced b b' blocks c s u)))
