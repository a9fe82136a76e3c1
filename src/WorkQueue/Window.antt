-- ===== src/WorkQueue/Window.antt =====
-- The slots of the array of WorkQueue.h from a position on.
use native.Mathlib.Nat.{add-mod_right, div-add-mod, mul-le-mul_left}
use native.Mathlib.Decide.{dec_lt}
use fractals.Prelude.{
  ℕ, zero, suc, ◌+◌, ◌*◌, ◌/◌, ◌%◌, ◌≤◌, ◌<◌, ◌≡◌, ◌≢◌, refl, ap, Option, List, [], ◌∷◌, ◌++◌,
  arith, get_elem?, set, length, get_elem?-set_ne, sym, ◌∙◌,
}

quotients : (n a b q r : ℕ) → a < b → b < a + n → n * q + r ≡ a → (p : ℕ) → n * p + r ≡ b → ⊥
quotients n a b q r h k e p f = elim (dec_lt q p) [
  | yes lt ↦ omega (arith, mul-le-mul_left n lt)
  | no ge ↦ omega (arith, mul-le-mul_left n (let le : p ≤ q = omega arith in le))
]

pub mod_ne : (n a b : ℕ) → a < b → b < a + n → a % n ≢ b % n
mod_ne n a b h k e =
    quotients n a b (a / n) (a % n) h k (div-add-mod a n) (b / n) (omega (arith, div-add-mod b n))

module _ {ℓ} {A : Type ℓ} (SIZE : ℕ) where
  -- The `count` slots from position `pos` on, around the array.
  abbrev pub window : List A → ℕ → ℕ → List (Option A)
  window events pos zero = []
  window events pos (suc count) = get_elem? events (pos % SIZE) ∷ window events (suc pos) count

  pub window_snoc :
      (events : List A) (pos count : ℕ)
      → window events pos (suc count)
        ≡ window events pos count ++ (get_elem? events ((pos + count) % SIZE) ∷ [])
  window_snoc events pos zero = ap (λ k. get_elem? events (k % SIZE) ∷ []) (omega arith)
  window_snoc events pos (suc count) = ap (◌∷◌ (get_elem? events (pos % SIZE))) (
      window_snoc events (suc pos) count
      ∙ ap (λ k. window events (suc pos) count ++ (get_elem? events (k % SIZE) ∷ [])) (omega arith))

  -- A write past the window, less than one round on, does not show in it.
  pub window-set_outside :
      (events : List A) (x : A) (pos count at : ℕ)
      → pos + count ≤ at
      → at < pos + SIZE
      → window (set events (at % SIZE) x) pos count ≡ window events pos count
  window-set_outside events x pos zero at h k = refl
  window-set_outside events x pos (suc count) at h k =
      rw (get_elem?-set_ne events x (λ e. mod_ne SIZE pos at (omega arith) k (sym e))) (
        ap (◌∷◌ (get_elem? events (pos % SIZE)))
          (window-set_outside events x (suc pos) count at (omega arith) (omega arith)))

  pub window_round :
      (events : List A) (pos count : ℕ) → window events (pos + SIZE) count ≡ window events pos count
  window_round events pos zero = refl
  window_round events pos (suc count) = rw (add-mod_right pos SIZE) (
      ap (◌∷◌ (get_elem? events (pos % SIZE)))
        (ap (λ k. window events k count) (omega arith) ∙ window_round events (suc pos) count))

  pub length-window : (events : List A) (pos count : ℕ) → length (window events pos count) ≡ count
  length-window events pos zero = refl
  length-window events pos (suc count) = ap suc (length-window events (suc pos) count)
