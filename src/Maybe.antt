-- ===== src/Maybe.antt =====
-- include/fractals/common/maybe.h, and what the code relies on in the library of bencoded data, an
-- interface. `Maybe` and `std::optional` are `Option`; `Result` is `Either<std::string, A>`, or
-- `thrown` for `std::get` of another alternative.
use Prim.Native.String.{String}
use mathlib.Core.Option
use fractals.Prelude.{ℕ, ◌≡◌, ◌≢◌, Option, none, some, List, [], ◌∷◌}

-- The alternatives of `bdata`.
pub data Value (Data : Type 0) (Dict : Type 0) : Type 0 where
  bint : ℕ → Value Data Dict
  bstring : List ℕ → Value Data Dict
  blist : List Data → Value Data Dict
  bdict : Dict → Value Data Dict

-- What the code relies on in the bencode library.
pub record Bencode (Data : Type 0) (Dict : Type 0) : Type 0 where
  pub bdata : Value Data Dict → Data
  pub value : Data → Value Data Dict
  pub value-bdata : (v : Value Data Dict) → value (bdata v) ≡ v
  pub empty : Dict
  pub insert : List ℕ → Data → Dict → Dict
  pub find : List ℕ → Dict → Option Data
  pub find-empty : (k : List ℕ) → find k empty ≡ none
  pub find-insert_self :
      (k : List ℕ) (v : Data) (d : Dict) → find k d ≡ none → find k (insert k v d) ≡ some v
  pub find-insert_other :
      (k j : List ℕ) (v : Data) (d : Dict) → j ≢ k → find k (insert j v d) ≡ find k d

pub data Result (A : Type 0) : Type 0 where
  right : A → Result A
  left : String → Result A
  thrown : Result A

infixl 5 ◌>>=◌
abbrev pub ◌>>=◌ : {A B : Type 0} → Result A → (A → Result B) → Result B
right a >>= f = f a
left s >>= f = left s
thrown >>= f = thrown

-- `mmapVector`, over `Either` and over `Maybe`: the first failure is the result.
abbrev pub mmap : {A B : Type 0} → (A → Result B) → List A → Result (List B)
mmap f [] = right []
mmap f (a ∷ as₁) = f a >>= λ b. mmap f as₁ >>= λ bs. right (b ∷ bs)

abbrev pub cons_maybe : {B : Type 0} → Option B → Option (List B) → Option (List B)
cons_maybe none bs = none
cons_maybe (some b) bs = Option.map (◌∷◌ b) bs

abbrev pub mmap_maybe : {A B : Type 0} → (A → Option B) → List A → Option (List B)
mmap_maybe f [] = some []
mmap_maybe f (a ∷ as₁) = cons_maybe (f a) (mmap_maybe f as₁)

abbrev pub maybe_to_either : {A : Type 0} → Option A → String → Result A
maybe_to_either none s = left s
maybe_to_either (some a) s = right a

abbrev pub flat_map : {A B : Type 0} → Option A → (A → Option B) → Option B
flat_map none f = none
flat_map (some a) f = f a

-- `std::holds_alternative` and `std::get`.
abbrev pub int_of : {Data Dict : Type 0} → Value Data Dict → Option ℕ
int_of (bint n) = some n
int_of (bstring s) = none
int_of (blist l) = none
int_of (bdict b) = none

abbrev pub text_of : {Data Dict : Type 0} → Value Data Dict → Option (List ℕ)
text_of (bint n) = none
text_of (bstring s) = some s
text_of (blist l) = none
text_of (bdict b) = none

abbrev pub list_of : {Data Dict : Type 0} → Value Data Dict → Option (List Data)
list_of (bint n) = none
list_of (bstring s) = none
list_of (blist l) = some l
list_of (bdict b) = none

abbrev pub dict_of : {Data Dict : Type 0} → Value Data Dict → Option Dict
dict_of (bint n) = none
dict_of (bstring s) = none
dict_of (blist l) = none
dict_of (bdict b) = some b

module _ {Data Dict : Type 0} (ben : Bencode Data Dict) where
  abbrev pub to_bint : Data → Option ℕ
  to_bint d = int_of (ben.value d)

  abbrev pub to_bstring : Data → Option (List ℕ)
  to_bstring d = text_of (ben.value d)

  abbrev pub to_blist : Data → Option (List Data)
  to_blist d = list_of (ben.value d)

  abbrev pub as_dict : Data → Option Dict
  as_dict d = dict_of (ben.value d)
