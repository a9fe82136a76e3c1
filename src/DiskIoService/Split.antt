-- ===== src/DiskIoService/Split.antt =====
-- `process(WriteData)`: the bytes of a piece over the files of a torrent.
use fractals.Prelude.{
  ℕ, zero, suc, ◌+◌, ◌-◌, ◌<◌, ◌≤◌, ◌%◌, ◌^◌, ◌≡◌, ◌≢◌, refl, ap, ◌∙◌, Bool, true, ◌&&◌, some, List,
  [], ◌∷◌, if◌then◌else◌, length, ltb, leb, min, take, drop, All, arith, Bool-cases, inl, inr,
  le→leb, length-take, length-drop, drop_all,
}
use fractals.Prelude.Eq.{list_eq, list_beq_iff}
use fractals.DiskIoService.{
  FileModel, TorrentModel, DiskIoService, process_write_data, Write, to_file_path, write_loop,
  write_to_file,
}
use fractals.Prelude.Map.{find}
use fractals.Protocol.{WriteData}
use fractals.DiskIoService.Files.{
  Store, nth, in_range, apply_write, apply_writes, stream, total, IsDistinct, stream-untouched,
  apply_writes-untouched,
}

nth-take : (n : ℕ) (xs : List ℕ) (k : ℕ) → k < n → nth (take n xs) k ≡ nth xs k
nth-take zero xs k h = absurd (omega arith)
nth-take (suc n) [] k h = refl
nth-take (suc n) (x ∷ xs) zero h = refl
nth-take (suc n) (x ∷ xs) (suc k) h = nth-take n xs k (omega arith)

nth-drop : (n : ℕ) (xs : List ℕ) (k : ℕ) → nth (drop n xs) k ≡ nth xs (n + k)
nth-drop zero xs k = ap (nth xs) (omega arith)
nth-drop (suc n) [] k = refl
nth-drop (suc n) (x ∷ xs) k = nth-drop n xs k ∙ ground arith

apply_write-nil :
    (path : List ℕ) (at : ℕ) (st : Store)
    → apply_write (record { path = path; at = at; bytes = [] }) st ≡ st
unfolding apply_write
apply_write-nil path at st = λ i p k.
    (let e : apply_write (record { path = path; at = at; bytes = [] }) st p k ≡ st p k =
          ground arith in
        e)
      i

-- The byte of one file at a position that the room left in it reaches.
apply_write-take :
    (path : List ℕ) (start room : ℕ) (view : List ℕ) (st : Store) (p : ℕ)
    → p < start + room
    → apply_write
        (record { path = path; at = start; bytes = take (min (length view) room) view })
        st
        path
        p
      ≡ (if in_range start (length view) p then nth view (p - start) else st path p)
unfolding apply_write
apply_write-take path start room view st p h =
    let n = min (length view) room in
    ground (arith, length-take n view, list_beq_iff path path, nth-take n view (p - start))

module _ (opens : List ℕ → Bool) where
  -- With no byte left nothing is written.
  apply_writes-write_loop_nil :
      (dir : List ℕ) (index offset : ℕ) (files : List FileModel) (st : Store)
      → apply_writes (write_loop opens dir index offset [] files) st ≡ st
  unfolding apply_writes write_loop write_to_file
  apply_writes-write_loop_nil dir index offset [] st = refl
  apply_writes-write_loop_nil dir index offset (f ∷ files) st = ground (
    arith,
    apply_writes-write_loop_nil dir ((index + f.file_length) % 2 ^ 64) offset files st,
    apply_writes-write_loop_nil dir ((index + f.file_length) % 2 ^ 64) ((offset + 0) % 2 ^ 64) files
        st,
    apply_write-nil (to_file_path dir f) (offset - index) st,
  )

  write_loop-All :
      (path dir : List ℕ) (index offset : ℕ) (view : List ℕ) (files : List FileModel)
      → All (λ g. path ≢ to_file_path dir g) files
      → All (λ w. path ≢ w.path) (write_loop opens dir index offset view files)
  unfolding write_loop write_to_file
  write_loop-All path dir index offset view [] h = tt
  write_loop-All path dir index offset view (f ∷ files) h =
      let end = (index + f.file_length) % 2 ^ 64 in
      let n = min (length view) (end - offset) in
      elim (Bool-cases (leb index offset && ltb offset end)) [
        | inl e ↦ elim (Bool-cases (opens (to_file_path dir f) && ltb (offset - index) (2 ^ 63))) [
          | inl o ↦
              rw (e, o)
                (h.0, write_loop-All path dir end ((offset + n) % 2 ^ 64) (drop n view) files h.1)
          | inr o ↦
              rw (e, o)
                (write_loop-All path dir end ((offset + n) % 2 ^ 64) (drop n view) files h.1)
        ]
        | inr e ↦ rw e (write_loop-All path dir end offset view files h.1)
      ]

  -- The writes from one file on, whose place in the torrent is `index`.
  write_loop-stream :
      (dir : List ℕ) (files : List FileModel) (index offset : ℕ) (view : List ℕ) (st : Store)
      (p : ℕ)
      → All (λ f. opens (to_file_path dir f) ≡ true) files
      → IsDistinct dir files
      → index ≤ offset
      → offset + length view ≤ index + total files
      → index + total files < 2 ^ 63
      → stream dir files (apply_writes (write_loop opens dir index offset view files) st) p ≡ (
          if in_range (offset - index) (length view) p
          then nth view (p - (offset - index))
          else stream dir files st p)
  unfolding apply_writes write_loop write_to_file stream
  write_loop-stream dir [] index offset view st p ho hd hi hl hw = ground arith
  write_loop-stream dir (f ∷ files) index offset view st p ho hd hi hl hw =
      let path = to_file_path dir f in
      let end : ℕ = index + f.file_length in
      let e : (index + f.file_length) % 2 ^ 64 ≡ end = omega arith in
      let n = min (length view) (end - offset) in
      let w : Write = record { path = path; at = offset - index; bytes = take n view } in
      let rest = write_loop opens dir end (offset + n) (drop n view) files in
      let l1 : length (take n view) ≡ n = ground (arith, length-take n view) in
      let l2 : length (drop n view) ≡ length view - n = length-drop n view in
      elim (Bool-cases (ltb offset end)) [
        | inl h ↦
            let e2 : (offset + n) % 2 ^ 64 ≡ offset + n = ground arith in
            let u =
              apply_writes-untouched path p rest (apply_write w st)
                (write_loop-All path dir end (offset + n) (drop n view) files hd.0) in
            let v = stream-untouched dir files w st (p - f.file_length) hd.0 in
            let seeks : ltb (offset - index) (2 ^ 63) ≡ true = ground arith in
            rw (e, le→leb index offset hi, h, ho.0, seeks, e2)
              (elim (Bool-cases (ltb p f.file_length)) [
                | inl hp ↦
                    rw (hp, u)
                      (apply_write-take path (offset - index) (end - offset) view st p
                        (ground arith))
                | inr hp ↦ rw hp (elim (Bool-cases (leb end (offset + n))) [
                  | inl he ↦
                      let ih =
                        write_loop-stream dir files end (offset + n) (drop n view)
                          (apply_write w st) (p - f.file_length) ho.1 hd.1 (ground arith)
                          (ground arith) (omega arith) in
                      rw ih (
                        let i1 : n + (p - f.file_length - (offset + n - end))
                            ≡ p - (offset - index) =
                          ground arith in
                        ground (
                          arith,
                          v,
                          l2,
                          nth-drop n view (p - f.file_length - (offset + n - end)),
                          ap (nth view) i1,
                        ))
                  | inr he ↦
                      rw
                        (
                          drop_all n view (ground arith),
                          apply_writes-write_loop_nil dir end (offset + n) files (apply_write w st),
                        )
                        (ground (arith, v))
                ])
              ])
        | inr h ↦
            let ih =
              write_loop-stream dir files end offset view st (p - f.file_length) ho.1 hd.1
                (ground arith) (omega arith) (omega arith) in
            let u =
              apply_writes-untouched path p (write_loop opens dir end offset view files) st
                (write_loop-All path dir end offset view files hd.0) in
            rw (e, le→leb index offset hi, h)
              (ground (
                arith,
                ih,
                u,
                (let k : p - f.file_length - (offset - end) ≡ p - (offset - index) = ground arith in
                    ap (nth view) k),
              ))
      ]

  -- When the files of a known torrent have different paths that can all be opened, are together
  -- shorter than 2 ^ 63 bytes, and a piece ends within them, then after `process(WriteData)` the
  -- files read one after another have the bytes of the piece from its offset on, and elsewhere
  -- what they had before.
  pub process_write_data-stream {ℓ} :
      (M : Type ℓ) (w : WriteData) (s : DiskIoService) (model : TorrentModel)
      (files : List FileModel) (st : Store) (p : ℕ)
      → find w.info_hash s.torrents ≡ some (model, files)
      → All (λ f. opens (to_file_path model.torrent_dir f) ≡ true) files
      → IsDistinct model.torrent_dir files
      → w.offset + length w.m_data ≤ total files
      → total files < 2 ^ 63
      → stream model.torrent_dir files
          (apply_writes ((process_write_data opens {M = M} w s).writes) st)
          p
        ≡ (if in_range w.offset (length w.m_data) p
            then nth w.m_data (p - w.offset)
            else stream model.torrent_dir files st p)
  unfolding process_write_data
  process_write_data-stream M w s model files st p e ho hd hl hw =
      let z : w.offset - 0 ≡ w.offset = omega arith in
      rw (e, process_write_data)
        (rw z at (
          write_loop-stream model.torrent_dir files 0 w.offset w.m_data st p ho hd (omega arith)
            (omega arith) (omega arith)))
