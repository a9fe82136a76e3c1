-- ===== src/Bencode/RoundTrip.antt =====
-- `fromBdict` of what `toBdict` made.
use mathlib.Core.Path.{ap₂}
use fractals.Prelude.{◌≡◌, refl, ap, ◌∙◌, ℕ, none, some, List, [], ◌∷◌, map}
use fractals.Maybe.{
  Bencode, right, left, ◌>>=◌, bint, bstring, blist, bdict, to_bstring, maybe_to_either, mmap,
  mmap_maybe, cons_maybe,
}
use fractals.MetaInfo.{FileInfo, SingleFile, MultiFile}
use fractals.Bencode.{
  bdata_to_value, insert_md5sum, single_file_from, file_info_from, file_info_of, multi_file_from,
  file_info_to, key_length, key_md5sum, key_name, key_path, key_files,
}
use fractals.Bencode.Keys.{
  skip, skip_md5sum, to_bint-bdata, to_bstring-bdata, to_blist-bdata, as_dict-bdata, given,
  find-insert_md5sum, get_or-given,
}

module _ {Data Dict : Type 0} (ben : Bencode Data Dict) where
  -- What the readers look up, on any dictionary.
  pub single_file_from_lem :
      (sf : SingleFile) (d : Dict)
      → ben.find key_name d ≡ some (ben.bdata (bstring sf.name))
      → bdata_to_value ben (to_bstring ben) (ben.find key_md5sum d) ≡ right (given sf.md5sum)
      → ben.find key_length d ≡ some (ben.bdata (bint sf.file_length))
      → single_file_from ben d ≡ right sf
  unfolding single_file_from
  single_file_from_lem sf d n m l =
      rw
        (
          m,
          n,
          l,
          to_bint-bdata ben sf.file_length,
          to_bstring-bdata ben sf.name,
          get_or-given sf.md5sum,
        )
        refl

  pub no_single_file :
      (d : Dict)
      → ben.find key_md5sum d ≡ none
      → ben.find key_length d ≡ none
      → single_file_from ben d ≡ left "Missing length field for structure SingleFile"
  unfolding single_file_from
  no_single_file d m l = rw (m, l) refl

  mmap_maybe-bstring :
      (path : List (List ℕ))
      → mmap_maybe (to_bstring ben) (map (λ s. ben.bdata (bstring s)) path) ≡ some path
  mmap_maybe-bstring [] = refl
  mmap_maybe-bstring (s ∷ path) = ap₂ cons_maybe (to_bstring-bdata ben s) (mmap_maybe-bstring path)

  file_info_from_lem :
      (fi : FileInfo) (d : Dict)
      → ben.find key_path d ≡ some (ben.bdata (blist (map (λ s. ben.bdata (bstring s)) fi.path)))
      → bdata_to_value ben (to_bstring ben) (ben.find key_md5sum d) ≡ right (given fi.md5sum)
      → ben.find key_length d ≡ some (ben.bdata (bint fi.file_length))
      → file_info_from ben d ≡ right fi
  unfolding file_info_from
  file_info_from_lem fi d p m l =
      rw
        (
          m,
          p,
          l,
          to_bint-bdata ben fi.file_length,
          to_blist-bdata ben (map (λ s. ben.bdata (bstring s)) fi.path),
          mmap_maybe-bstring fi.path,
          get_or-given fi.md5sum,
        )
        refl

  file_info_from-file_info_to :
      (fi : FileInfo) → file_info_from ben (file_info_to ben fi) ≡ right fi
  unfolding file_info_to
  file_info_from-file_info_to fi =
      let len = ben.insert key_length (ben.bdata (bint fi.file_length)) ben.empty in
      let paths = ben.bdata (blist (map (λ s. ben.bdata (bstring s)) fi.path)) in
      let sum = insert_md5sum ben fi.md5sum len in
      file_info_from_lem fi (file_info_to ben fi)
        (ben.find-insert_self key_path paths sum (
          skip_md5sum ben key_path fi.md5sum len refl
          ∙ skip ben key_path key_length _ ben.empty refl
          ∙ ben.find-empty key_path))
        (ap (bdata_to_value ben (to_bstring ben)) (skip ben key_md5sum key_path paths sum refl)
          ∙ find-insert_md5sum ben fi.md5sum len
              (skip ben key_md5sum key_length _ ben.empty refl ∙ ben.find-empty key_md5sum))
        (skip ben key_length key_path paths sum refl
          ∙ skip_md5sum ben key_length fi.md5sum len refl
          ∙ ben.find-insert_self key_length _ ben.empty (ben.find-empty key_length))

  mmap-file_info_of :
      (files : List FileInfo)
      → mmap (file_info_of ben) (map (λ fi. ben.bdata (bdict (file_info_to ben fi))) files)
        ≡ right files
  unfolding file_info_of
  mmap-file_info_of [] = refl
  mmap-file_info_of (fi ∷ files) =
      let e : file_info_of ben (ben.bdata (bdict (file_info_to ben fi))) ≡ right fi =
        ap
          (λ o.
            maybe_to_either o "Bencode should start with bdict for FileInfo" >>= file_info_from ben)
          (as_dict-bdata ben (file_info_to ben fi))
        ∙ file_info_from-file_info_to fi in
      ap
        (λ r. r >>= λ b.
          mmap (file_info_of ben) (map (λ fi. ben.bdata (bdict (file_info_to ben fi))) files)
          >>= λ bs. right (b ∷ bs))
        e
      ∙ ap (λ r. r >>= λ bs. right (fi ∷ bs)) (mmap-file_info_of files)

  pub multi_file_from_lem :
      (mf : MultiFile) (d : Dict)
      → ben.find key_name d ≡ some (ben.bdata (bstring mf.name))
      → ben.find key_files d
        ≡ some (ben.bdata (blist (map (λ fi. ben.bdata (bdict (file_info_to ben fi))) mf.files)))
      → multi_file_from ben d ≡ right mf
  unfolding multi_file_from
  multi_file_from_lem mf d n f =
      rw
        (
          n,
          f,
          to_bstring-bdata ben mf.name,
          to_blist-bdata ben (map (λ fi. ben.bdata (bdict (file_info_to ben fi))) mf.files),
          mmap-file_info_of mf.files,
        )
        refl
