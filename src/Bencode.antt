-- ===== src/Bencode.antt =====
-- src/fractals/torrent/Bencode.cpp: a torrent file out of bencoded data, and back.
pub mod Keys
pub mod RoundTrip
pub mod InfoDicts
pub mod TorrentMeta
use Prim.Native.String.{}
use mathlib.Core.Option.{get_or}
use mathlib.Core.Option
use fractals.Prelude.{ℕ, Option, none, some, List, [], ◌∷◌, ◌++◌, map}
use fractals.Maybe.{
  bint, bstring, blist, bdict, Bencode, Result, right, left, thrown, ◌>>=◌, mmap, mmap_maybe,
  maybe_to_either, flat_map, to_bint, to_bstring, to_blist, as_dict,
}
use fractals.MetaInfo.{FileInfo, SingleFile, MultiFile, FileMode, single, multi, InfoDict, MetaInfo}

-- The keys, as bytes: "length", "md5sum", "name", "path", "files", "piece length", "pieces",
-- "private", "announce", "announce-list", "creation date", "comment", "created by", "encoding",
-- "info".
abbrev pub key_length : List ℕ
key_length = 108 ∷ 101 ∷ 110 ∷ 103 ∷ 116 ∷ 104 ∷ []

abbrev pub key_md5sum : List ℕ
key_md5sum = 109 ∷ 100 ∷ 53 ∷ 115 ∷ 117 ∷ 109 ∷ []

abbrev pub key_name : List ℕ
key_name = 110 ∷ 97 ∷ 109 ∷ 101 ∷ []

abbrev pub key_path : List ℕ
key_path = 112 ∷ 97 ∷ 116 ∷ 104 ∷ []

abbrev pub key_files : List ℕ
key_files = 102 ∷ 105 ∷ 108 ∷ 101 ∷ 115 ∷ []

abbrev pub key_piece_length : List ℕ
key_piece_length = 112 ∷ 105 ∷ 101 ∷ 99 ∷ 101 ∷ 32 ∷ 108 ∷ 101 ∷ 110 ∷ 103 ∷ 116 ∷ 104 ∷ []

abbrev pub key_pieces : List ℕ
key_pieces = 112 ∷ 105 ∷ 101 ∷ 99 ∷ 101 ∷ 115 ∷ []

abbrev pub key_private : List ℕ
key_private = 112 ∷ 114 ∷ 105 ∷ 118 ∷ 97 ∷ 116 ∷ 101 ∷ []

abbrev pub key_announce : List ℕ
key_announce = 97 ∷ 110 ∷ 110 ∷ 111 ∷ 117 ∷ 110 ∷ 99 ∷ 101 ∷ []

abbrev pub key_announce_list : List ℕ
key_announce_list = 97 ∷ 110 ∷ 110 ∷ 111 ∷ 117 ∷ 110 ∷ 99 ∷ 101 ∷ 45 ∷ 108 ∷ 105 ∷ 115 ∷ 116 ∷ []

abbrev key_creation_date : List ℕ
key_creation_date = 99 ∷ 114 ∷ 101 ∷ 97 ∷ 116 ∷ 105 ∷ 111 ∷ 110 ∷ 32 ∷ 100 ∷ 97 ∷ 116 ∷ 101 ∷ []

abbrev key_comment : List ℕ
key_comment = 99 ∷ 111 ∷ 109 ∷ 109 ∷ 101 ∷ 110 ∷ 116 ∷ []

abbrev key_created_by : List ℕ
key_created_by = 99 ∷ 114 ∷ 101 ∷ 97 ∷ 116 ∷ 101 ∷ 100 ∷ 32 ∷ 98 ∷ 121 ∷ []

abbrev key_encoding : List ℕ
key_encoding = 101 ∷ 110 ∷ 99 ∷ 111 ∷ 100 ∷ 105 ∷ 110 ∷ 103 ∷ []

abbrev pub key_info : List ℕ
key_info = 105 ∷ 110 ∷ 102 ∷ 111 ∷ []

-- `eitherOf` with `eitherToVariant`, of two results that were both computed.
abbrev pub either_of : Result SingleFile → Result MultiFile → Result FileMode
either_of thrown e = thrown
either_of (right s) thrown = thrown
either_of (left m) thrown = thrown
either_of (right s) (right f) = right (single s)
either_of (right s) (left m) = right (single s)
either_of (left m) (right f) = right (multi f)
either_of (left m) (left n) = left n

-- The throw of `std::get`, where another alternative is held.
abbrev pub or_throw : {A : Type 0} → Option A → Result (Option A)
or_throw none = thrown
or_throw (some a) = right (some a)

module _ {Data Dict : Type 0} (ben : Bencode Data Dict) where
  -- `bdataToValueM`: `std::get` throws where `to` gives nothing.
  abbrev pub bdata_to_value : {A : Type 0} → (Data → Option A) → Option Data → Result (Option A)
  bdata_to_value to none = right none
  bdata_to_value to (some d) = or_throw (to d)

  unfoldable pub single_file_from : Dict → Result SingleFile
  single_file_from d = bdata_to_value (to_bstring ben) (ben.find key_md5sum d) >>= λ md5sum.
      maybe_to_either (flat_map (ben.find key_length d) (to_bint ben))
        "Missing length field for structure SingleFile"
      >>= λ length. right (record {
        name = get_or (flat_map (ben.find key_name d) (to_bstring ben)) [];
        file_length = length;
        md5sum = get_or md5sum [];
      })

  unfoldable pub file_info_from : Dict → Result FileInfo
  file_info_from d = bdata_to_value (to_bint ben) (ben.find key_length d) >>= λ length.
      bdata_to_value (to_bstring ben) (ben.find key_md5sum d) >>= λ md5sum.
      bdata_to_value (to_blist ben) (ben.find key_path d) >>= λ path.
      maybe_to_either (flat_map path (mmap_maybe (to_bstring ben)))
        "Missing path field for structure FileInfo"
      >>= λ path.
          maybe_to_either length "Missing length field for structure SingleFile" >>= λ length.
          right (record { file_length = length; md5sum = get_or md5sum []; path = path })

  -- `fromBdata<FileInfo>`.
  unfoldable pub file_info_of : Data → Result FileInfo
  unfolding file_info_from
  file_info_of bd =
      maybe_to_either (as_dict ben bd) "Bencode should start with bdict for FileInfo"
      >>= file_info_from

  unfoldable pub multi_file_from : Dict → Result MultiFile
  unfolding file_info_of
  multi_file_from d = bdata_to_value (to_bstring ben) (ben.find key_name d) >>= λ name.
      bdata_to_value (to_blist ben) (ben.find key_files d) >>= λ files.
      maybe_to_either files "Missing files field for structure MultiFile" >>= λ files.
      mmap file_info_of files >>= λ files. right (record { name = get_or name []; files = files })

  unfoldable pub info_dict_from : Dict → Result InfoDict
  unfolding single_file_from multi_file_from
  info_dict_from d =
      maybe_to_either (flat_map (ben.find key_piece_length d) (to_bint ben))
        "Attribute piece length missing from info"
      >>= λ piece_length.
          maybe_to_either (flat_map (ben.find key_pieces d) (to_bstring ben))
            "Attribute pieces missing from info"
          >>= λ pieces. either_of (single_file_from d) (multi_file_from d) >>= λ file_mode.
              right (record {
                piece_length = piece_length;
                pieces = pieces;
                publish = flat_map (ben.find key_private d) (to_bint ben);
                file_mode = file_mode;
              })

  -- `fromBdata<InfoDict>`.
  unfoldable info_dict_of : Data → Result InfoDict
  unfolding info_dict_from
  info_dict_of bd =
      maybe_to_either (as_dict ben bd) "Bencode should start with bdict for InfoDict"
      >>= info_dict_from

  -- The texts of a list, where others are passed over.
  abbrev strings : List Data → List (List ℕ)
  strings [] = []
  strings (d ∷ ds) = elim (to_bstring ben d) [ none ↦ strings ds | some s ↦ s ∷ strings ds ]

  unfoldable pub make_announce_list : List Data → Result (List (List ℕ))
  make_announce_list [] = right []
  make_announce_list (item ∷ items) = bdata_to_value (to_blist ben) (some item) >>= λ inner.
      make_announce_list items >>= λ rest. right (strings (get_or inner []) ++ rest)

  -- `toMetaInfo`. The data of "info" is read before "announce" is asked for.
  unfoldable meta_info_from : Dict → Result MetaInfo
  unfolding make_announce_list info_dict_of
  meta_info_from d =
      let text = λ (k : List ℕ). flat_map (ben.find k d) (to_bstring ben) in
      make_announce_list (get_or (flat_map (ben.find key_announce_list d) (to_blist ben)) [])
      >>= λ announce_list.
          maybe_to_either (ben.find key_info d) "Missing field info in meta info bdict"
          >>= info_dict_of
          >>= λ info.
              maybe_to_either (text key_announce) "Missing field announce in meta info dict"
              >>= λ announce. right (record {
                announce = announce;
                announce_list = announce_list;
                creation_date = flat_map (ben.find key_creation_date d) (to_bint ben);
                comment = text key_comment;
                created_by = text key_created_by;
                encoding = text key_encoding;
                info = info;
              })

  -- `fromBdata<MetaInfo>`.
  unfoldable pub meta_info_of : Data → Result MetaInfo
  unfolding meta_info_from
  meta_info_of bd =
      maybe_to_either (as_dict ben bd) "Bencode should start with bdict for MetaInfo"
      >>= meta_info_from

  -- An md5 sum that is empty is not written.
  unfoldable pub insert_md5sum : List ℕ → Dict → Dict
  insert_md5sum [] d = d
  insert_md5sum (c ∷ md5sum) d = ben.insert key_md5sum (ben.bdata (bstring (c ∷ md5sum))) d

  -- `toBdict` of each structure.
  unfoldable pub file_info_to : FileInfo → Dict
  unfolding insert_md5sum
  file_info_to fi =
      ben.insert key_path (ben.bdata (blist (map (λ s. ben.bdata (bstring s)) fi.path))) (
        insert_md5sum fi.md5sum (ben.insert key_length (ben.bdata (bint fi.file_length)) ben.empty))

  unfoldable pub single_file_to : SingleFile → Dict
  unfolding insert_md5sum
  single_file_to sf =
      ben.insert key_name (ben.bdata (bstring sf.name)) (
        insert_md5sum sf.md5sum (ben.insert key_length (ben.bdata (bint sf.file_length)) ben.empty))

  unfoldable pub multi_file_to : MultiFile → Dict
  unfolding file_info_to
  multi_file_to mf =
      ben.insert key_files
        (ben.bdata (blist (map (λ fi. ben.bdata (bdict (file_info_to fi))) mf.files)))
        (ben.insert key_name (ben.bdata (bstring mf.name)) ben.empty)

  unfoldable pub file_mode_to : FileMode → Dict
  unfolding single_file_to multi_file_to
  file_mode_to (single sf) = single_file_to sf
  file_mode_to (multi mf) = multi_file_to mf

  unfoldable pub insert_private : Option ℕ → Dict → Dict
  insert_private none d = d
  insert_private (some n) d = ben.insert key_private (ben.bdata (bint n)) d

  unfoldable pub info_dict_to : InfoDict → Dict
  unfolding file_mode_to insert_private
  info_dict_to id = insert_private id.publish (
      ben.insert key_pieces (ben.bdata (bstring id.pieces)) (
        ben.insert key_piece_length (ben.bdata (bint id.piece_length)) (file_mode_to id.file_mode)))
