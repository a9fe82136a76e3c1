-- ===== src/Bencode/TorrentMeta.antt =====
-- include/fractals/torrent/TorrentMeta.h and src/fractals/torrent/TorrentMeta.cpp. The stem of a path,
-- the encoder of the bencode library and the hash function are parameters.
use fractals.Prelude.{ℕ, ◌+◌, ◌%◌, ◌^◌, ◌<◌, ◌≡◌, ◌∙◌, ap, arith, List, [], ◌∷◌}
use fractals.Maybe.{Bencode}
use fractals.MetaInfo.{FileInfo, FileMode, single, multi, MetaInfo}
use fractals.Bencode.{info_dict_to}

pub record TorrentMeta : Type 0 where
  pub name : List ℕ
  pub dir : List ℕ
  pub files : List FileInfo
  pub meta_info : MetaInfo
  pub info_hash : List ℕ

-- `first` if it is not empty.
abbrev or_else : List ℕ → List ℕ → List ℕ
or_else [] second = second
or_else (c ∷ first) second = c ∷ first

abbrev directory : (List ℕ → List ℕ) → FileMode → List ℕ → List ℕ
directory stem (single f) file_name = []
directory stem (multi m) file_name = or_else m.name (stem file_name)

abbrev all_files : FileMode → List ℕ → List FileInfo
all_files (single f) file_name =
    record { file_length = f.file_length; md5sum = f.md5sum; path = or_else f.name file_name ∷ [] }
    ∷ []
all_files (multi m) file_name = m.files

module _ {Data Dict : Type 0} (ben : Bencode Data Dict) (stem sha1 : List ℕ → List ℕ)
    (encode : Dict → List ℕ) where
  -- The constructor.
  unfoldable pub new : MetaInfo → List ℕ → TorrentMeta
  new mi file_name = record {
    name = file_name;
    dir = directory stem mi.info.file_mode file_name;
    files = all_files mi.info.file_mode file_name;
    meta_info = mi;
    info_hash = sha1 (encode (info_dict_to ben mi.info));
  }

-- The loop of `getSize`, whose sum is a `uint64_t`.
abbrev sum_loop : ℕ → List FileInfo → ℕ
sum_loop sum [] = sum
sum_loop sum (f ∷ files) = sum_loop ((sum + f.file_length) % 2 ^ 64) files

unfoldable pub get_size : TorrentMeta → ℕ
get_size t = sum_loop 0 t.files

-- The lengths of all files together.
abbrev pub total : List FileInfo → ℕ
total [] = 0
total (f ∷ files) = f.file_length + total files

sum_loop-total :
    (sum : ℕ) (files : List FileInfo)
    → sum < 2 ^ 64
    → sum_loop sum files ≡ (sum + total files) % 2 ^ 64
sum_loop-total sum [] h = omega arith
sum_loop-total sum (f ∷ files) h =
    omega (arith, sum_loop-total ((sum + f.file_length) % 2 ^ 64) files)

add_zero_left : (n : ℕ) → 0 + n ≡ n
add_zero_left n = omega arith

module _ {Data Dict : Type 0} (ben : Bencode Data Dict) (stem sha1 : List ℕ → List ℕ)
    (encode : Dict → List ℕ) where
  -- The size of a torrent made from meta info is the sum of the lengths of its files, the single
  -- file or all of several, modulo 2 ^ 64.
  pub get_size-new :
      (mi : MetaInfo) (file_name : List ℕ)
      → get_size (new ben stem sha1 encode mi file_name)
        ≡ total (all_files mi.info.file_mode file_name) % 2 ^ 64
  unfolding get_size new
  get_size-new mi file_name =
      let t = total (all_files mi.info.file_mode file_name) in
      let z : (0 + t) % 2 ^ 64 ≡ t % 2 ^ 64 = ap (λ n. n % 2 ^ 64) (add_zero_left t) in
      sum_loop-total 0 (all_files mi.info.file_mode file_name) (omega arith) ∙ z
