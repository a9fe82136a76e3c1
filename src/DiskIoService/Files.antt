-- ===== src/DiskIoService/Files.antt =====
-- The files of a torrent as one stream of bytes.
use fractals.Prelude.{
  ℕ, ◌+◌, ◌-◌, ◌≡◌, ◌≢◌, refl, ◌∙◌, Bool, ◌&&◌, List, [], ◌∷◌, if◌then◌else◌, length, ltb, leb,
  get_elem?, All, arith,
}
use mathlib.Core.Option.{get_or}
use fractals.Prelude.Eq.{list_beq, list_beq_iff}
use fractals.DiskIoService.{FileModel, Write, to_file_path}

-- The byte at a position of a file; a file that was never written there has 0.
abbrev pub Store : Type 0
Store = List ℕ → ℕ → ℕ

abbrev pub nth : List ℕ → ℕ → ℕ
nth xs i = get_or (get_elem? xs i) 0

abbrev pub in_range : ℕ → ℕ → ℕ → Bool
in_range at size i = leb at i && ltb i (at + size)

unfoldable pub apply_write : Write → Store → Store
apply_write w st path i =
    if list_beq w.path path && in_range w.at (length w.bytes) i
    then nth w.bytes (i - w.at)
    else st path i

unfoldable pub apply_writes : List Write → Store → Store
unfolding apply_write
apply_writes [] st = st
apply_writes (w ∷ writes) st = apply_writes writes (apply_write w st)

-- The byte at a position of the files one after another, 0 behind the last.
unfoldable pub stream : List ℕ → List FileModel → Store → ℕ → ℕ
stream dir [] st p = 0
stream dir (f ∷ files) st p =
    if ltb p f.file_length
    then st (to_file_path dir f) p
    else stream dir files st (p - f.file_length)

abbrev pub total : List FileModel → ℕ
total [] = 0
total (f ∷ files) = f.file_length + total files

-- No two files have the same path.
abbrev pub IsDistinct : List ℕ → List FileModel → Type 0
IsDistinct dir [] = Unit
IsDistinct dir (f ∷ files) =
    All (λ g. to_file_path dir f ≢ to_file_path dir g) files × IsDistinct dir files

pub stream-untouched :
    (dir : List ℕ) (files : List FileModel) (w : Write) (st : Store) (p : ℕ)
    → All (λ g. w.path ≢ to_file_path dir g) files
    → stream dir files (apply_write w st) p ≡ stream dir files st p
unfolding stream apply_write
stream-untouched dir [] w st p h = refl
stream-untouched dir (f ∷ files) w st p h = ground (
  arith,
  h.0,
  list_beq_iff w.path (to_file_path dir f),
  stream-untouched dir files w st (p - f.file_length) h.1,
)

pub apply_writes-untouched :
    (path : List ℕ) (i : ℕ) (writes : List Write) (st : Store)
    → All (λ w. path ≢ w.path) writes
    → apply_writes writes st path i ≡ st path i
unfolding apply_writes apply_write
apply_writes-untouched path i [] st h = refl
apply_writes-untouched path i (w ∷ writes) st h =
    apply_writes-untouched path i writes (apply_write w st) h.1
    ∙ ground (arith, h.0, list_beq_iff w.path path)
