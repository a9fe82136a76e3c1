-- ===== src/Prelude/Set.antt =====
-- `std::unordered_set` as a list in the order of its iteration, which the standard leaves open.
use mathlib.Core.Path.{◌≡◌}
use mathlib.Core.Bool.{Bool, false, ◌||◌}
use mathlib.Core.List.{List, [], ◌∷◌}
use native.Mathlib.Omega.{arith}
use fractals.Prelude.Tests.{if◌then◌else◌}
use fractals.Prelude.Eq.{Eq}

module _ {ℓ} {A : Type ℓ} ⦃e : Eq A⦄ where
  unfoldable pub member : A → List A → Bool
  member a [] = false
  member a (b ∷ s) = e.beq b a || member a s

  -- `s.emplace(a)`.
  unfoldable pub insert : A → List A → List A
  insert a s = if member a s then s else a ∷ s

  -- `s.erase(a)`.
  unfoldable pub remove : A → List A → List A
  remove a [] = []
  remove a (b ∷ s) = let rest = remove a s in if e.beq b a then rest else b ∷ rest

  pub member-insert : (a b : A) (s : List A) → member b (insert a s) ≡ (e.beq a b || member b s)
  unfolding member insert
  member-insert a b s = ground (arith, e.beq_iff a b)

  pub member-remove :
      (a b : A) (s : List A) → member b (remove a s) ≡ (if e.beq a b then false else member b s)
  unfolding member remove
  member-remove a b [] = ground arith
  member-remove a b (c ∷ s) =
      ground (arith, e.beq_iff a b, e.beq_iff c a, e.beq_iff c b, member-remove a b s)
