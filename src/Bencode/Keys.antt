-- ===== src/Bencode/Keys.antt =====
-- Looking up keys of the dictionaries that `toBdict` makes.
use mathlib.Core.Option.{get_or}
use fractals.Prelude.{◌≡◌, refl, ap, ℕ, false, Option, none, some, List, [], ◌∷◌}
use fractals.Prelude.Eq.{list_beq, list_beq_iff}
use fractals.Maybe.{
  Bencode, right, bint, bstring, blist, bdict, to_bint, to_bstring, to_blist, as_dict, flat_map,
  int_of, text_of, list_of, dict_of,
}
use fractals.Bencode.{
  bdata_to_value, or_throw, insert_md5sum, insert_private, key_md5sum, key_private,
}

-- An md5 sum as it is read.
abbrev pub given : List ℕ → Option (List ℕ)
given [] = none
given (c ∷ m) = some (c ∷ m)

pub get_or-given : (m : List ℕ) → get_or (given m) [] ≡ m
get_or-given [] = refl
get_or-given (c ∷ m) = refl

module _ {Data Dict : Type 0} (ben : Bencode Data Dict) where
  pub skip :
      (k j : List ℕ) (v : Data) (d : Dict)
      → list_beq j k ≡ false
      → ben.find k (ben.insert j v d) ≡ ben.find k d
  skip k j v d h = ben.find-insert_other k j v d (λ e. let t = (list_beq_iff j k).1 e in cc)

  pub to_bint-bdata : (n : ℕ) → to_bint ben (ben.bdata (bint n)) ≡ some n
  to_bint-bdata n = ap int_of (ben.value-bdata (bint n))

  pub to_bstring-bdata : (s : List ℕ) → to_bstring ben (ben.bdata (bstring s)) ≡ some s
  to_bstring-bdata s = ap text_of (ben.value-bdata (bstring s))

  pub to_blist-bdata : (l : List Data) → to_blist ben (ben.bdata (blist l)) ≡ some l
  to_blist-bdata l = ap list_of (ben.value-bdata (blist l))

  pub as_dict-bdata : (d : Dict) → as_dict ben (ben.bdata (bdict d)) ≡ some d
  as_dict-bdata d = ap dict_of (ben.value-bdata (bdict d))

  pub skip_md5sum :
      (k m : List ℕ) (d : Dict)
      → list_beq key_md5sum k ≡ false
      → ben.find k (insert_md5sum ben m d) ≡ ben.find k d
  unfolding insert_md5sum
  skip_md5sum k [] d h = refl
  skip_md5sum k (c ∷ m) d h = skip k key_md5sum (ben.bdata (bstring (c ∷ m))) d h

  pub skip_private :
      (k : List ℕ) (o : Option ℕ) (d : Dict)
      → list_beq key_private k ≡ false
      → ben.find k (insert_private ben o d) ≡ ben.find k d
  unfolding insert_private
  skip_private k none d h = refl
  skip_private k (some n) d h = skip k key_private (ben.bdata (bint n)) d h

  pub find-insert_private :
      (o : Option ℕ) (d : Dict)
      → ben.find key_private d ≡ none
      → flat_map (ben.find key_private (insert_private ben o d)) (to_bint ben) ≡ o
  unfolding insert_private
  find-insert_private none d h = rw h refl
  find-insert_private (some n) d h =
      rw (ben.find-insert_self key_private (ben.bdata (bint n)) d h) (to_bint-bdata n)

  pub find-insert_md5sum :
      (m : List ℕ) (d : Dict)
      → ben.find key_md5sum d ≡ none
      → bdata_to_value ben (to_bstring ben) (ben.find key_md5sum (insert_md5sum ben m d))
        ≡ right (given m)
  unfolding insert_md5sum
  find-insert_md5sum [] d h = rw h refl
  find-insert_md5sum (c ∷ m) d h =
      rw (ben.find-insert_self key_md5sum (ben.bdata (bstring (c ∷ m))) d h)
        (ap or_throw (to_bstring-bdata (c ∷ m)))
