-- ===== src/PersistClient/Stored.antt =====
-- The rows of the pieces of a torrent, as `addTorrent` makes them.
use fractals.Prelude.{
  ℕ, zero, suc, ◌+◌, ◌-◌, ◌*◌, ◌≤◌, false, ◌≡◌, refl, ◌∙◌, sym, ap, List, [], ◌∷◌, ◌++◌, append-nil,
  append_assoc, map, length, take, drop, take-append-drop, length-drop, take_all, All, All-append,
  arith,
}
use fractals.Prelude.Eq.{list_eq}
use fractals.Database.{PieceRow}
use fractals.Bencode.TorrentMeta.{TorrentMeta, get_size}
use fractals.PersistClient.Pieces.{
  piece_rows, hashes_of, sizes_of, upto, all_rows, HasPieces, hashes_of-piece_rows,
  sizes_of-piece_rows, pieces-piece_rows,
}

hashes_of-append : (xs ys : List PieceRow) → hashes_of (xs ++ ys) ≡ hashes_of xs ++ hashes_of ys
hashes_of-append [] ys = refl
hashes_of-append (p ∷ xs) ys =
    ap (λ l. p.hash ++ l) (hashes_of-append xs ys)
    ∙ sym (append_assoc p.hash (hashes_of xs) (hashes_of ys))

sizes_of-append : (xs ys : List PieceRow) → sizes_of (xs ++ ys) ≡ sizes_of xs + sizes_of ys
sizes_of-append [] ys = omega arith
sizes_of-append (p ∷ xs) ys = omega (arith, sizes_of-append xs ys)

pieces-append :
    (xs ys : List PieceRow)
    → map (λ (p : PieceRow). p.piece) (xs ++ ys)
      ≡ map (λ (p : PieceRow). p.piece) xs ++ map (λ (p : PieceRow). p.piece) ys
pieces-append [] ys = refl
pieces-append (p ∷ xs) ys = ap (◌∷◌ p.piece) (pieces-append xs ys)

upto-append : (index n : ℕ) → upto index n ++ (index + n) ∷ [] ≡ upto index (suc n)
upto-append index zero = let e : index + 0 ≡ index = omega arith in ap (λ k. k ∷ []) e
upto-append index (suc n) =
    let e : index + suc n ≡ index + 1 + n = omega arith in
    ap (λ k. index ∷ (upto (index + 1) n ++ k ∷ [])) e ∙ ap (◌∷◌ index) (upto-append (index + 1) n)

-- A row of the torrent that is not complete.
abbrev pub IsNew : ℕ → PieceRow → Type 0
IsNew id p = (p.torrent_id ≡ id) × (p.complete ≡ false)

piece_rows-IsNew :
    (id size n index : ℕ) (hs : List ℕ) → All (IsNew id) (piece_rows id size n index hs)
piece_rows-IsNew id size zero index hs = tt
piece_rows-IsNew id size (suc n) index hs =
    ((refl, refl), piece_rows-IsNew id size n (index + 1) (drop 20 hs))

-- The pieces of a torrent, as `addTorrent` should store them.
pub record AreStored (m : ℕ) (tm : TorrentMeta) (ps : List PieceRow) : Type 0 where
  pub indices : map (λ (p : PieceRow). p.piece) ps ≡ upto 0 (suc m)
  pub hashes : hashes_of ps ≡ tm.meta_info.info.pieces
  pub sizes : sizes_of ps ≡ get_size tm
  pub new : All (λ (p : PieceRow). p.complete ≡ false) ps

All-IsNew :
    (id : ℕ) (ps : List PieceRow)
    → All (IsNew id) ps
    → All (λ (p : PieceRow). p.complete ≡ false) ps
All-IsNew id [] h = tt
All-IsNew id (p ∷ ps) h = (h.0.1, All-IsNew id ps h.1)

pub all_rows-IsNew : (id m : ℕ) (tm : TorrentMeta) → All (IsNew id) (all_rows id m tm)
all_rows-IsNew id m tm =
    All-append (IsNew id)
      (piece_rows id tm.meta_info.info.piece_length m 0 tm.meta_info.info.pieces) _
      (piece_rows-IsNew id tm.meta_info.info.piece_length m 0 tm.meta_info.info.pieces)
      ((refl, refl), tt)

pub all_rows-AreStored :
    (id m : ℕ) (tm : TorrentMeta) → HasPieces m tm → AreStored m tm (all_rows id m tm)
all_rows-AreStored id m tm h =
    let size = tm.meta_info.info.piece_length in
    let hs = tm.meta_info.info.pieces in
    let rows = piece_rows id size m 0 hs in
    let twenty : length (drop (m * 20) hs) ≤ 20 =
      omega (arith, length-drop (m * 20) hs, h.hashes) in
    let last : m ≡ 0 + m = omega arith in
    record {
      indices =
          pieces-append rows _
          ∙ ap (λ l. l ++ m ∷ []) (pieces-piece_rows id size m 0 hs)
          ∙ ap (λ k. upto 0 m ++ k ∷ []) last
          ∙ upto-append 0 m;
      hashes =
          hashes_of-append rows _
          ∙ ap (λ l. l ++ (take 20 (drop (m * 20) hs) ++ [])) (hashes_of-piece_rows id size m 0 hs)
          ∙ ap (λ l. take (m * 20) hs ++ l)
              (append-nil (take 20 (drop (m * 20) hs)) ∙ take_all 20 (drop (m * 20) hs) twenty)
          ∙ take-append-drop (m * 20) hs;
      sizes = omega (
        arith,
        sizes_of-append rows (
            record {
              torrent_id = id;
              piece = m;
              size = get_size tm - size * m;
              hash = take 20 (drop (m * 20) hs);
              complete = false;
            }
            ∷ []),
        sizes_of-piece_rows id size m 0 hs,
        h.size,
      );
      new = All-IsNew id (all_rows id m tm) (all_rows-IsNew id m tm);
    }

pub All-IsNew_ids :
    (id : ℕ) (ps : List PieceRow) → All (IsNew id) ps → All (λ (p : PieceRow). p.torrent_id ≡ id) ps
All-IsNew_ids id [] h = tt
All-IsNew_ids id (p ∷ ps) h = (h.0.0, All-IsNew_ids id ps h.1)
