-- ===== src/Examples/Torrents.antt =====
-- A small model of bencoded data, and a torrent of two files.
use fractals.Prelude.{
  ℕ, ◌≡◌, ◌≢◌, refl, ap, Option, none, some, List, [], ◌∷◌, if◌then◌else◌, arith,
}
use fractals.Prelude.Eq.{list_beq, list_eq, beq_refl, beq_ne}
use fractals.Maybe.{Bencode, Value, bint, bstring, blist, bdict, right, left, thrown}
use fractals.MetaInfo.{InfoDict, multi, MetaInfo}
use fractals.Bencode.{
  info_dict_from, info_dict_to, meta_info_of, make_announce_list, key_announce, key_announce_list,
  key_info,
}
use fractals.Bencode.InfoDicts.{info_dict_from-info_dict_to}
use fractals.Bencode.TorrentMeta.{new, get_size, get_size-new}
use fractals.TrackerResponse.{decode, response, codes, to_http_get_url}
use fractals.TrackerResponse.Peers.{Address, compact, compact_response, decode-compact}

-- Lists and dictionaries are chains.
data Data : Type 0 where
  number : ℕ → Data
  text : List ℕ → Data
  items dict : Data → Data
  nil : Data
  item : Data → Data → Data
  entry : List ℕ → Data → Data → Data

abbrev of_list : List Data → Data
of_list [] = nil
of_list (d ∷ ds) = item d (of_list ds)

abbrev to_list : Data → List Data
to_list (item d ds) = d ∷ to_list ds
to_list (number n) = []
to_list (text s) = []
to_list (items d) = []
to_list (dict d) = []
to_list nil = []
to_list (entry k v d) = []

to_list-of_list : (l : List Data) → to_list (of_list l) ≡ l
to_list-of_list [] = refl
to_list-of_list (d ∷ ds) = ap (◌∷◌ d) (to_list-of_list ds)

abbrev bdata : Value Data Data → Data
bdata (bint n) = number n
bdata (bstring s) = text s
bdata (blist l) = items (of_list l)
bdata (bdict d) = dict d

abbrev value : Data → Value Data Data
value (number n) = bint n
value (text s) = bstring s
value (items d) = blist (to_list d)
value (dict d) = bdict d
value nil = blist []
value (item d ds) = blist []
value (entry k v d) = blist []

value-bdata : (v : Value Data Data) → value (bdata v) ≡ v
value-bdata (bint n) = refl
value-bdata (bstring s) = refl
value-bdata (blist l) = ap blist (to_list-of_list l)
value-bdata (bdict d) = refl

abbrev look_up : List ℕ → Data → Option Data
look_up k (entry j v d) = let rest = look_up k d in if list_beq j k then some v else rest
look_up k (number n) = none
look_up k (text s) = none
look_up k (items d) = none
look_up k (dict d) = none
look_up k nil = none
look_up k (item d ds) = none

look_up-entry : (k : List ℕ) (v d : Data) → look_up k (entry k v d) ≡ some v
look_up-entry k v d = rw (beq_refl k) refl

look_up-entry_ne : (k j : List ℕ) (v d : Data) → j ≢ k → look_up k (entry j v d) ≡ look_up k d
look_up-entry_ne k j v d h = rw (beq_ne j k h) refl

abbrev chains : Bencode Data Data
chains = record {
  bdata = bdata;
  value = value;
  value-bdata = value-bdata;
  empty = nil;
  insert = entry;
  find = look_up;
  find-empty = λ k. refl;
  find-insert_self = λ k v d e. look_up-entry k v d;
  find-insert_other = λ k j v d e. look_up-entry_ne k j v d e;
}

abbrev two_files : InfoDict
two_files = record {
  piece_length = 4;
  pieces = 9 ∷ [];
  publish = some 1;
  file_mode = multi (record {
    name = 1 ∷ [];
    files =
        record { file_length = 3; md5sum = []; path = (2 ∷ []) ∷ [] }
        ∷ record { file_length = 5; md5sum = 8 ∷ []; path = (3 ∷ []) ∷ [] }
        ∷ [];
  });
}

abbrev meta : MetaInfo
meta = record {
  announce = 6 ∷ [];
  announce_list = [];
  creation_date = none;
  comment = none;
  created_by = none;
  encoding = none;
  info = two_files;
}

-- A torrent file without its info.
abbrev torrent_file : Data
torrent_file = dict (
    entry key_announce (text (6 ∷ [])) (
      entry key_announce_list
        (items (of_list (items (of_list (text (7 ∷ []) ∷ number 1 ∷ [])) ∷ []))) nil))

meta_info_of-two_files :
    meta_info_of chains (
      dict (
        entry key_info
          (dict (info_dict_to chains two_files))
          (entry key_announce (text (6 ∷ [])) nil)))
    ≡ right meta
unfolding meta_info_of info_dict_to
meta_info_of-two_files = refl

meta_info_of-torrent_file :
    meta_info_of chains torrent_file ≡ left "Missing field info in meta info bdict"
unfolding meta_info_of
meta_info_of-torrent_file = refl

make_announce_list-strings :
    make_announce_list chains (items (of_list (text (7 ∷ []) ∷ number 1 ∷ [])) ∷ items nil ∷ [])
    ≡ right ((7 ∷ []) ∷ [])
unfolding make_announce_list
make_announce_list-strings = refl

make_announce_list-thrown : make_announce_list chains (text (7 ∷ []) ∷ []) ≡ thrown
unfolding make_announce_list
make_announce_list-thrown = refl

info_dict_from-info_dict_to_example :
    info_dict_from chains (info_dict_to chains two_files) ≡ right two_files
info_dict_from-info_dict_to_example = info_dict_from-info_dict_to chains two_files

get_size-new_example : get_size (new chains (λ s. s) (λ s. s) (λ d. []) meta (6 ∷ [])) ≡ 8
get_size-new_example = get_size-new chains (λ s. s) (λ s. s) (λ d. []) meta (6 ∷ [])

abbrev addresses : List Address
addresses =
    record { a = 127; b = 0; c = 0; d = 1; port = 6882 }
    ∷ record { a = 10; b = 0; c = 0; d = 2; port = 80 }
    ∷ []

-- An answer of a tracker with two peers.
abbrev tracker_answer : Data
tracker_answer = entry (codes "complete") (number 2) (
    entry (codes "incomplete") (number 0) (
      entry (codes "interval") (number 1800)
        (entry (codes "peers") (text (compact addresses)) nil)))

decode-compact_example :
    decode chains (λ ip. ip) (λ o. 1) tracker_answer
    ≡ response (compact_response chains (λ ip. ip) (λ o. 1) addresses 1800 2 0 tracker_answer)
decode-compact_example =
    decode-compact chains (λ ip. ip) (λ o. 1) addresses 1800 2 0 tracker_answer refl refl refl refl
      refl (omega arith)

-- The text of a URL.
url_of :
    to_http_get_url (codes "http://t") (codes "x") (codes "y")
    ≡ codes "http://t?info_hash=x&peer_id=y&port=6882&uploaded=0&downloaded=0&left=0&compact=1"
unfolding to_http_get_url
url_of = refl
