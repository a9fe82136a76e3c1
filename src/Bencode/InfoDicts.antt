-- ===== src/Bencode/InfoDicts.antt =====
-- `fromBdict<InfoDict>` of what `toBdict` made.
use fractals.Prelude.{◌≡◌, refl, ap, ◌∙◌, ℕ, false, none, some, List, map}
use fractals.Prelude.Eq.{list_beq}
use fractals.Maybe.{
  Bencode, right, left, bint, bstring, blist, bdict, to_bint, to_bstring, flat_map,
}
use fractals.MetaInfo.{SingleFile, MultiFile, FileMode, single, multi, InfoDict}
use fractals.Bencode.{
  bdata_to_value, either_of, insert_md5sum, single_file_from, multi_file_from, info_dict_from,
  file_info_to, single_file_to, multi_file_to, file_mode_to, info_dict_to, key_length, key_md5sum,
  key_name, key_files, key_piece_length, key_pieces, key_private,
}
use fractals.Bencode.Keys.{
  skip, skip_md5sum, skip_private, to_bint-bdata, to_bstring-bdata, find-insert_md5sum,
  find-insert_private,
}
use fractals.Bencode.RoundTrip.{single_file_from_lem, no_single_file, multi_file_from_lem}

module _ {Data Dict : Type 0} (ben : Bencode Data Dict) where
  no_multi_file :
      (name : List ℕ) (d : Dict)
      → ben.find key_name d ≡ some (ben.bdata (bstring name))
      → ben.find key_files d ≡ none
      → multi_file_from ben d ≡ left "Missing files field for structure MultiFile"
  unfolding multi_file_from
  no_multi_file name d n f = rw (n, f, to_bstring-bdata ben name) refl

  find-file_mode_to :
      (k : List ℕ) (fm : FileMode)
      → list_beq key_name k ≡ false
      → list_beq key_md5sum k ≡ false
      → list_beq key_length k ≡ false
      → list_beq key_files k ≡ false
      → ben.find k (file_mode_to ben fm) ≡ none
  unfolding file_mode_to single_file_to multi_file_to
  find-file_mode_to k (single sf) n m l f =
      skip ben k key_name _ _ n
      ∙ skip_md5sum ben k sf.md5sum _ m
      ∙ skip ben k key_length _ ben.empty l
      ∙ ben.find-empty k
  find-file_mode_to k (multi mf) n m l f =
      skip ben k key_files _ _ f ∙ skip ben k key_name _ ben.empty n ∙ ben.find-empty k

  module _ (id : InfoDict) where
    mode : Dict
    mode = file_mode_to ben id.file_mode

    sized : Dict
    sized = ben.insert key_piece_length (ben.bdata (bint id.piece_length)) mode

    filled : Dict
    filled = ben.insert key_pieces (ben.bdata (bstring id.pieces)) sized

    find-info_dict_to :
        (k : List ℕ)
        → list_beq key_private k ≡ false
        → list_beq key_pieces k ≡ false
        → list_beq key_piece_length k ≡ false
        → ben.find k (info_dict_to ben id) ≡ ben.find k mode
    unfolding info_dict_to filled sized mode
    find-info_dict_to k p q r =
        skip_private ben k id.publish filled p
        ∙ skip ben k key_pieces _ sized q
        ∙ skip ben k key_piece_length _ mode r

    either_of-single :
        (sf : SingleFile)
        → mode ≡ single_file_to ben sf
        → either_of
            (single_file_from ben (info_dict_to ben id))
            (multi_file_from ben (info_dict_to ben id))
          ≡ right (single sf)
    unfolding single_file_to
    either_of-single sf e =
        let len = ben.insert key_length (ben.bdata (bint sf.file_length)) ben.empty in
        let sum = insert_md5sum ben sf.md5sum len in
        let name = ben.bdata (bstring sf.name) in
        let at_name : ben.find key_name (info_dict_to ben id) ≡ some name =
          find-info_dict_to key_name refl refl refl
          ∙ ap (ben.find key_name) e
          ∙ ben.find-insert_self key_name name sum (
              skip_md5sum ben key_name sf.md5sum len refl
              ∙ skip ben key_name key_length _ ben.empty refl
              ∙ ben.find-empty key_name) in
        let at_sum =
          ap (bdata_to_value ben (to_bstring ben)) (
            find-info_dict_to key_md5sum refl refl refl
            ∙ ap (ben.find key_md5sum) e
            ∙ skip ben key_md5sum key_name name sum refl)
          ∙ find-insert_md5sum ben sf.md5sum len
              (skip ben key_md5sum key_length _ ben.empty refl ∙ ben.find-empty key_md5sum) in
        let at_length =
          find-info_dict_to key_length refl refl refl
          ∙ ap (ben.find key_length) e
          ∙ skip ben key_length key_name name sum refl
          ∙ skip_md5sum ben key_length sf.md5sum len refl
          ∙ ben.find-insert_self key_length _ ben.empty (ben.find-empty key_length) in
        let no_files =
          find-info_dict_to key_files refl refl refl
          ∙ ap (ben.find key_files) e
          ∙ skip ben key_files key_name name sum refl
          ∙ skip_md5sum ben key_files sf.md5sum len refl
          ∙ skip ben key_files key_length _ ben.empty refl
          ∙ ben.find-empty key_files in
        let s = single_file_from_lem ben sf (info_dict_to ben id) at_name at_sum at_length in
        let m = no_multi_file sf.name (info_dict_to ben id) at_name no_files in rw (s, m) refl

    either_of-multi :
        (mf : MultiFile)
        → mode ≡ multi_file_to ben mf
        → either_of
            (single_file_from ben (info_dict_to ben id))
            (multi_file_from ben (info_dict_to ben id))
          ≡ right (multi mf)
    unfolding multi_file_to
    either_of-multi mf e =
        let named = ben.insert key_name (ben.bdata (bstring mf.name)) ben.empty in
        let files =
          ben.bdata (blist (map (λ fi. ben.bdata (bdict (file_info_to ben fi))) mf.files)) in
        let at_files : ben.find key_files (info_dict_to ben id) ≡ some files =
          find-info_dict_to key_files refl refl refl
          ∙ ap (ben.find key_files) e
          ∙ ben.find-insert_self key_files files named
              (skip ben key_files key_name _ ben.empty refl ∙ ben.find-empty key_files) in
        let at_name =
          find-info_dict_to key_name refl refl refl
          ∙ ap (ben.find key_name) e
          ∙ skip ben key_name key_files files named refl
          ∙ ben.find-insert_self key_name _ ben.empty (ben.find-empty key_name) in
        let no_sum =
          find-info_dict_to key_md5sum refl refl refl
          ∙ ap (ben.find key_md5sum) e
          ∙ skip ben key_md5sum key_files files named refl
          ∙ skip ben key_md5sum key_name _ ben.empty refl
          ∙ ben.find-empty key_md5sum in
        let no_length =
          find-info_dict_to key_length refl refl refl
          ∙ ap (ben.find key_length) e
          ∙ skip ben key_length key_files files named refl
          ∙ skip ben key_length key_name _ ben.empty refl
          ∙ ben.find-empty key_length in
        let s = no_single_file ben (info_dict_to ben id) no_sum no_length in
        let m = multi_file_from_lem ben mf (info_dict_to ben id) at_name at_files in rw (s, m) refl

    file_mode_lem :
        (fm : FileMode)
        → mode ≡ file_mode_to ben fm
        → either_of
            (single_file_from ben (info_dict_to ben id))
            (multi_file_from ben (info_dict_to ben id))
          ≡ right fm
    unfolding file_mode_to
    file_mode_lem (single sf) e = either_of-single sf e
    file_mode_lem (multi mf) e = either_of-multi mf e

  info_dict_from_lem :
      (id : InfoDict) (d : Dict)
      → ben.find key_piece_length d ≡ some (ben.bdata (bint id.piece_length))
      → ben.find key_pieces d ≡ some (ben.bdata (bstring id.pieces))
      → flat_map (ben.find key_private d) (to_bint ben) ≡ id.publish
      → either_of (single_file_from ben d) (multi_file_from ben d) ≡ right id.file_mode
      → info_dict_from ben d ≡ right id
  unfolding info_dict_from
  info_dict_from_lem id d l p r both =
      rw (l, p, r, to_bint-bdata ben id.piece_length, to_bstring-bdata ben id.pieces, both) refl

  -- Over any library of bencoded data whose `find` gives back what was inserted, an info
  -- dictionary that is written and read again is the same one, whether of a single file or of
  -- several.
  pub info_dict_from-info_dict_to :
      (id : InfoDict) → info_dict_from ben (info_dict_to ben id) ≡ right id
  unfolding info_dict_to mode sized filled
  info_dict_from-info_dict_to id =
      let sized_in : ben.find key_piece_length (info_dict_to ben id)
          ≡ some (ben.bdata (bint id.piece_length)) =
        skip_private ben key_piece_length id.publish (filled id) refl
        ∙ skip ben key_piece_length key_pieces _ (sized id) refl
        ∙ ben.find-insert_self key_piece_length _ (mode id)
            (find-file_mode_to key_piece_length id.file_mode refl refl refl refl) in
      let pieces_in : ben.find key_pieces (info_dict_to ben id)
          ≡ some (ben.bdata (bstring id.pieces)) =
        skip_private ben key_pieces id.publish (filled id) refl
        ∙ ben.find-insert_self key_pieces _ (sized id) (
            skip ben key_pieces key_piece_length _ (mode id) refl
            ∙ find-file_mode_to key_pieces id.file_mode refl refl refl refl) in
      let private_in = find-insert_private ben id.publish (filled id) (
        skip ben key_private key_pieces _ (sized id) refl
        ∙ skip ben key_private key_piece_length _ (mode id) refl
        ∙ find-file_mode_to key_private id.file_mode refl refl refl refl) in
      let both = file_mode_lem id id.file_mode refl in
      info_dict_from_lem id (info_dict_to ben id) sized_in pieces_in private_in both
