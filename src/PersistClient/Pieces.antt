-- ===== src/PersistClient/Pieces.antt =====
-- The pieces that `addTorrent` stores, and `loadPieces` after it.
use fractals.Prelude.{
  ℕ, zero, suc, ◌+◌, ◌-◌, ◌*◌, ◌%◌, ◌^◌, ◌<◌, ◌≤◌, false, ◌≡◌, refl, ◌∙◌, sym, ap, some, List, [],
  ◌∷◌, ◌++◌, append-nil, append_assoc, map, length, take, drop, arith,
}
use fractals.Prelude.Eq.{list_eq}
use fractals.Database.{Sql, PieceRow}
use fractals.Bencode.TorrentMeta.{TorrentMeta, get_size}
use fractals.PersistClient.{
  substr, insert_pieces, insert_all_pieces, loop_rounds, last_piece_size, number_of_pieces,
}

-- The first `n` pieces of these hashes, from an index on.
abbrev pub piece_rows : ℕ → ℕ → ℕ → ℕ → List ℕ → List PieceRow
piece_rows id size zero index hashes = []
piece_rows id size (suc n) index hashes =
    record { torrent_id = id; piece = index; size = size; hash = take 20 hashes; complete = false }
    ∷ piece_rows id size n (index + 1) (drop 20 hashes)

abbrev pub hashes_of : List PieceRow → List ℕ
hashes_of [] = []
hashes_of (p ∷ ps) = p.hash ++ hashes_of ps

abbrev pub sizes_of : List PieceRow → ℕ
sizes_of [] = 0
sizes_of (p ∷ ps) = p.size + sizes_of ps

substr_lem :
    (pos n : ℕ) (view : List ℕ)
    → pos ≤ length view
    → substr pos n view ≡ some (take n (drop pos view))
unfolding substr
substr_lem pos n view h = ground arith

-- Indices from one on.
abbrev pub upto : ℕ → ℕ → List ℕ
upto index zero = []
upto index (suc n) = index ∷ upto (index + 1) n

abbrev pub values : {A : Type 0} → List (ℕ × A) → List A
values [] = []
values ((k, a) ∷ l) = a ∷ values l

drop_nil {ℓ} : {A : Type ℓ} (n : ℕ) → drop {A = A} n [] ≡ []
drop_nil zero = refl
drop_nil (suc n) = refl

take_nil {ℓ} : {A : Type ℓ} (n : ℕ) → take {A = A} n [] ≡ []
take_nil zero = refl
take_nil (suc n) = refl

drop-drop {ℓ} : {A : Type ℓ} (m n : ℕ) (xs : List A) → drop m (drop n xs) ≡ drop (n + m) xs
drop-drop m zero xs = let e : m ≡ 0 + m = omega arith in ap (λ k. drop k xs) e
drop-drop m (suc n) [] = drop_nil m ∙ sym (drop_nil (suc n + m))
drop-drop m (suc n) (x ∷ xs) =
    let e : suc (n + m) ≡ suc n + m = omega arith in drop-drop m n xs ∙ ap (λ k. drop k (x ∷ xs)) e

take-take-drop {ℓ} :
    {A : Type ℓ} (m n : ℕ) (xs : List A) → take n xs ++ take m (drop n xs) ≡ take (n + m) xs
take-take-drop m zero xs = let e : m ≡ 0 + m = omega arith in ap (λ k. take k xs) e
take-take-drop m (suc n) [] = take_nil m ∙ sym (take_nil (suc n + m))
take-take-drop m (suc n) (x ∷ xs) =
    let e : suc (n + m) ≡ suc n + m = omega arith in
    ap (◌∷◌ x) (take-take-drop m n xs) ∙ ap (λ k. take k (x ∷ xs)) e

pub hashes_of-piece_rows :
    (id size n index : ℕ) (hs : List ℕ)
    → hashes_of (piece_rows id size n index hs) ≡ take (n * 20) hs
hashes_of-piece_rows id size zero index hs = refl
hashes_of-piece_rows id size (suc n) index hs =
    ap (λ l. take 20 hs ++ l) (hashes_of-piece_rows id size n (index + 1) (drop 20 hs))
    ∙ take-take-drop (n * 20) 20 hs
    ∙ (let e : 20 + n * 20 ≡ suc n * 20 = omega arith in ap (λ k. take k hs) e)

pub sizes_of-piece_rows :
    (id size n index : ℕ) (hs : List ℕ) → sizes_of (piece_rows id size n index hs) ≡ size * n
sizes_of-piece_rows id size zero index hs = omega arith
sizes_of-piece_rows id size (suc n) index hs =
    grind (arith, sizes_of-piece_rows id size n (index + 1) (drop 20 hs))

pub pieces-piece_rows :
    (id size n index : ℕ) (hs : List ℕ)
    → map (λ (p : PieceRow). p.piece) (piece_rows id size n index hs) ≡ upto index n
pieces-piece_rows id size zero index hs = refl
pieces-piece_rows id size (suc n) index hs =
    ap (◌∷◌ index) (pieces-piece_rows id size n (index + 1) (drop 20 hs))

pub values-append : {A : Type 0} (xs ys : List (ℕ × A)) → values (xs ++ ys) ≡ values xs ++ values ys
values-append [] ys = refl
values-append ((k, a) ∷ xs) ys = ap (◌∷◌ a) (values-append xs ys)

module _ {Table : Type 0 → Type 0} (sql : Sql Table) where
  pub values-insert :
      {A : Type 0} (a : A) (t : Table A)
      → values (sql.rows (sql.insert a t).1) ≡ values (sql.rows t) ++ a ∷ []
  values-insert a t =
      ap values (sql.rows-insert a t) ∙ values-append (sql.rows t) (((sql.insert a t).0, a) ∷ [])

  -- The loop over the pieces stores them behind the others.
  insert_pieces-piece_rows :
      (n index id size : ℕ) (hs : List ℕ) (t : Table PieceRow)
      → (index + n) * 20 ≤ length hs
      → (t' : Table PieceRow) × (insert_pieces sql n index id size hs t ≡ some (index + n, t'))
        × (values (sql.rows t')
            ≡ values (sql.rows t) ++ piece_rows id size n index (drop (index * 20) hs))
  unfolding insert_pieces
  insert_pieces-piece_rows zero index id size hs t h =
      (t, (let e : index ≡ index + 0 = omega arith in ap (λ k. some (k, t)) e), sym (append-nil _))
  insert_pieces-piece_rows (suc n) index id size hs t h =
      let row : PieceRow = record {
        torrent_id = id;
        piece = index;
        size = size;
        hash = take 20 (drop (index * 20) hs);
        complete = false;
      } in
      let (t', e, f) =
        insert_pieces-piece_rows n (index + 1) id size hs (sql.insert row t).1 (omega arith) in
      let twenty : index * 20 + 20 ≡ (index + 1) * 20 = omega arith in
      let next : drop ((index + 1) * 20) hs ≡ drop 20 (drop (index * 20) hs) =
        sym (drop-drop 20 (index * 20) hs ∙ ap (λ k. drop k hs) twenty) in
      let last : index + 1 + n ≡ index + suc n = omega arith in
      (
        t',
        rw (substr_lem (index * 20) 20 hs (omega arith), insert_pieces)
            (e ∙ ap (λ k. some (k, t')) last),
        f
            ∙ ap (λ l. l ++ piece_rows id size n (index + 1) (drop ((index + 1) * 20) hs))
                (values-insert row t)
            ∙ append_assoc (values (sql.rows t)) (row ∷ []) _
            ∙ ap (λ l. values (sql.rows t) ++ row ∷ piece_rows id size n (index + 1) l) next,
      )

-- A torrent of `m` pieces and a last one, which is no longer than the others need.
pub record HasPieces (m : ℕ) (tm : TorrentMeta) : Type 0 where
  pub hashes : length tm.meta_info.info.pieces ≡ 20 * (m + 1)
  pub count : m + 1 < 2 ^ 32
  pub size : tm.meta_info.info.piece_length * m ≤ get_size tm
  pub bound : get_size tm < 2 ^ 64

loop_rounds_lem : (m : ℕ) (tm : TorrentMeta) → HasPieces m tm → loop_rounds tm.meta_info.info ≡ m
unfolding loop_rounds
loop_rounds_lem m tm h = omega (arith, h.hashes, h.count)

last_piece_size_lem :
    (m : ℕ) (tm : TorrentMeta)
    → HasPieces m tm
    → last_piece_size tm ≡ get_size tm - tm.meta_info.info.piece_length * m
unfolding last_piece_size
last_piece_size_lem m tm h =
    let others : (number_of_pieces tm.meta_info.info + 2 ^ 64 - 1) % 2 ^ 64 ≡ m =
      omega (arith, h.hashes, h.count) in
    rw others (omega (arith, h.size, h.bound))

-- The rows of all pieces.
abbrev pub all_rows : ℕ → ℕ → TorrentMeta → List PieceRow
all_rows id m tm =
    let info = tm.meta_info.info in
    piece_rows id info.piece_length m 0 info.pieces
    ++ record {
      torrent_id = id;
      piece = m;
      size = get_size tm - info.piece_length * m;
      hash = take 20 (drop (m * 20) info.pieces);
      complete = false;
    }
      ∷ []

module _ {Table : Type 0 → Type 0} (sql : Sql Table) where
  pub insert_all_pieces-all_rows :
      (id m : ℕ) (tm : TorrentMeta) (t : Table PieceRow)
      → HasPieces m tm
      → (t' : Table PieceRow) × (insert_all_pieces sql id tm t ≡ some t')
        × (values (sql.rows t') ≡ values (sql.rows t) ++ all_rows id m tm)
  unfolding insert_all_pieces
  insert_all_pieces-all_rows id m tm t h =
      let info = tm.meta_info.info in
      let (t₁, e, f) =
        insert_pieces-piece_rows sql m 0 id info.piece_length info.pieces t
          (omega (arith, h.hashes)) in
      let last : PieceRow = record {
        torrent_id = id;
        piece = m;
        size = get_size tm - info.piece_length * m;
        hash = take 20 (drop (m * 20) info.pieces);
        complete = false;
      } in
      let zero_add : 0 + m ≡ m = omega arith in
      let stored : insert_pieces sql m 0 id info.piece_length info.pieces t ≡ some (m, t₁) =
        e ∙ ap (λ k. some (k, t₁)) zero_add in
      (
        (sql.insert last t₁).1,
        rw (loop_rounds_lem m tm h, insert_all_pieces)
            (rw (stored, insert_all_pieces)
              (rw (substr_lem (m * 20) 20 info.pieces (omega (arith, h.hashes)))
                (rw (last_piece_size_lem m tm h) refl))),
        values-insert sql last t₁
            ∙ ap (λ l. l ++ last ∷ []) f
            ∙ append_assoc (values (sql.rows t)) _ (last ∷ []),
      )
