-- ===== src/BitTorrentManager/Values.antt =====
-- A predicate on the values of a map.
use fractals.Prelude.{◌≡◌, subst, some, [], ◌∷◌, Bool-cases, inl, inr}
use fractals.Prelude.Eq.{Eq}
use fractals.Prelude.Map.{Map, find, contains, assign, emplace, erase}

abbrev pub Values : {K V : Type 0} → (V → Type 0) → Map K V → Type 0
Values P [] = Unit
Values P ((k, v) ∷ m) = P v × Values P m

module _ {K V : Type 0} ⦃e : Eq K⦄ (P : V → Type 0) where
  pub find-Values : (k : K) (v : V) (m : Map K V) → Values P m → find k m ≡ some v → P v
  unfolding find
  find-Values k v [] h f = absurd (cc)
  find-Values k v ((j, w) ∷ m) h f = elim (Bool-cases (e.beq j k)) [
    | inl t ↦ let g : some w ≡ some v = rw t at f in let q : w ≡ v = cc in subst P q h.0
    | inr n ↦ find-Values k v m h.1 (rw n at f)
  ]

  pub assign-Values : (k : K) (v : V) (m : Map K V) → P v → Values P m → Values P (assign k v m)
  unfolding assign
  assign-Values k v [] p h = (p, tt)
  assign-Values k v ((j, w) ∷ m) p h = elim (Bool-cases (e.beq j k)) [
    | inl t ↦ rw t (p, h.1)
    | inr n ↦ rw n (h.0, assign-Values k v m p h.1)
  ]

  pub emplace-Values : (k : K) (v : V) (m : Map K V) → P v → Values P m → Values P (emplace k v m)
  unfolding emplace
  emplace-Values k v m p h = elim (Bool-cases (contains k m)) [
    | inl t ↦ rw (t, emplace) h
    | inr n ↦ rw (n, emplace) (p, h)
  ]

  pub erase-Values : (k : K) (m : Map K V) → Values P m → Values P (erase k m)
  unfolding erase
  erase-Values k [] h = tt
  erase-Values k ((j, w) ∷ m) h = elim (Bool-cases (e.beq j k)) [
    | inl t ↦ rw t (erase-Values k m h.1)
    | inr n ↦ rw n (h.0, erase-Values k m h.1)
  ]

module _ {K V : Type 0} (P Q : V → Type 0) (f : (v : V) → P v → Q v) where
  pub Values-map : (m : Map K V) → Values P m → Values Q m
  Values-map [] h = tt
  Values-map ((k, v) ∷ m) h = (f v h.0, Values-map m h.1)
