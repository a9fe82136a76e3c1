-- ===== src/Prelude/Map.antt =====
-- `std::unordered_map` as an association list in the order of its iteration. The standard leaves
-- that order open.
use mathlib.Core.Path.{◌≡◌, refl, ◌∙◌}
use mathlib.Core.Logic.{inl, inr}
use mathlib.Core.Bool.{Bool, true, false}
use mathlib.Core.Option.{Option, none, some}
use mathlib.Core.List.{List, [], ◌∷◌}
use native.Mathlib.Omega.{arith}
use fractals.Prelude.Tests.{if◌then◌else◌, Bool-cases, Option-cases}
use fractals.Prelude.Eq.{Eq}

abbrev pub Map {ℓ κ} : Type ℓ → Type κ → Type (ℓ ⊔ κ)
Map K V = List (K × V)

abbrev pub is_some {ℓ} : {A : Type ℓ} → Option A → Bool
is_some none = false
is_some (some a) = true

module _ {ℓ κ} {K : Type ℓ} {V : Type κ} ⦃e : Eq K⦄ where
  unfoldable pub find : K → Map K V → Option V
  find k [] = none
  find k ((j, v) ∷ m) = if e.beq j k then some v else find k m

  unfoldable pub contains : K → Map K V → Bool
  contains k m = is_some (find k m)

  -- `m[k] = v`: an entry of that key is overwritten, a new one is added.
  unfoldable pub assign : K → V → Map K V → Map K V
  assign k v [] = (k, v) ∷ []
  assign k v ((j, w) ∷ m) = if e.beq j k then (j, v) ∷ m else (j, w) ∷ assign k v m

  -- `m.emplace(k, v)`: an entry of that key stays as it is.
  unfoldable pub emplace : K → V → Map K V → Map K V
  emplace k v m = if contains k m then m else (k, v) ∷ m

  unfoldable pub erase : K → Map K V → Map K V
  erase k [] = []
  erase k ((j, v) ∷ m) = let rest = erase k m in if e.beq j k then rest else (j, v) ∷ rest

  pub find-assign :
      (k j : K) (v : V) (m : Map K V)
      → find j (assign k v m) ≡ (if e.beq k j then some v else find j m)
  unfolding find assign
  find-assign k j v [] = refl
  find-assign k j v ((i, w) ∷ m) =
      ground (arith, e.beq_iff k j, e.beq_iff i k, e.beq_iff i j, find-assign k j v m)

  pub find-erase :
      (k j : K) (m : Map K V) → find j (erase k m) ≡ (if e.beq k j then none else find j m)
  unfolding find erase
  find-erase k j [] = ground arith
  find-erase k j ((i, w) ∷ m) =
      ground (arith, e.beq_iff k j, e.beq_iff i k, e.beq_iff i j, find-erase k j m)

  pub find-emplace :
      (k j : K) (v : V) (m : Map K V)
      → find j (emplace k v m)
        ≡ (if e.beq k j then (if contains k m then find j m else some v) else find j m)
  unfolding find emplace
  find-emplace k j v m = ground arith

  -- An entry stays what it is under `emplace`.
  pub find-emplace_kept :
      (k j : K) (v w : V) (m : Map K V) → find j m ≡ some w → find j (emplace k v m) ≡ some w
  unfolding find emplace contains
  find-emplace_kept k j v w m h = ground (arith, h, e.beq_iff k j)

  pub find-emplace_self :
      (k : K) (v : V) (m : Map K V) → contains k m ≡ false → find k (emplace k v m) ≡ some v
  find-emplace_self k v m h = rw (find-emplace k k v m, (e.beq_iff k k).1 refl, h) refl

  pub find-assign_self : (k : K) (v : V) (m : Map K V) → find k (assign k v m) ≡ some v
  find-assign_self k v m = rw (find-assign k k v m, (e.beq_iff k k).1 refl)

  pub find-erase_self : (k : K) (m : Map K V) → find k (erase k m) ≡ none
  find-erase_self k m = rw (find-erase k k m, (e.beq_iff k k).1 refl)

  pub emplace_known : (k : K) (v w : V) (m : Map K V) → find k m ≡ some w → emplace k v m ≡ m
  unfolding emplace contains
  emplace_known k v w m h = rw (h, emplace, contains) refl

  -- Each key has one entry.
  abbrev pub IsMap : Map K V → Type (ℓ ⊔ κ)
  IsMap [] = Unit
  IsMap ((k, v) ∷ m) = (find k m ≡ none) × IsMap m

  pub IsMap-assign : (k : K) (v : V) (m : Map K V) → IsMap m → IsMap (assign k v m)
  unfolding assign find
  IsMap-assign k v [] h = (refl, tt)
  IsMap-assign k v ((j, w) ∷ m) h = elim (Bool-cases (e.beq j k)) [
    | inl t ↦ rw t h
    | inr f ↦ rw f (
      find-assign k j v m ∙ ground (arith, h.0, e.beq_iff j k, e.beq_iff k j),
      IsMap-assign k v m h.1,
    )
  ]

  pub IsMap-emplace : (k : K) (v : V) (m : Map K V) → IsMap m → IsMap (emplace k v m)
  unfolding emplace contains
  IsMap-emplace k v m h = elim (Option-cases (find k m)) [
    | inl n ↦ rw (n, emplace, contains) (n, h)
    | inr (w, s) ↦ rw (s, emplace, contains) h
  ]

  pub IsMap-erase : (k : K) (m : Map K V) → IsMap m → IsMap (erase k m)
  unfolding erase
  IsMap-erase k [] h = tt
  IsMap-erase k ((j, w) ∷ m) h = elim (Bool-cases (e.beq j k)) [
    | inl t ↦ rw t (IsMap-erase k m h.1)
    | inr f ↦
        rw f (
          find-erase k j m ∙ ground (arith, h.0, e.beq_iff j k, e.beq_iff k j),
          IsMap-erase k m h.1,
        )
  ]
