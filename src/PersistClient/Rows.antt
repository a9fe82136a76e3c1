-- ===== src/PersistClient/Rows.antt =====
-- The rows of a torrent, by the key in them.
use fractals.Prelude.{
  ℕ, ◌≡◌, ◌≢◌, refl, ◌∙◌, ap, inl, inr, List, [], ◌∷◌, ◌++◌, ◌==◌, ==_iff, ==_ne, All, Bool-cases,
}
use fractals.Database.{select}
use fractals.PersistClient.Pieces.{values}

module _ {A : Type 0} (f : A → ℕ) (id : ℕ) where
  abbrev pub of_torrent : List A → List A
  of_torrent xs = select (λ x. f x == id) xs

  -- No row is of this torrent.
  abbrev pub Lacks : List (ℕ × A) → Type 0
  Lacks rows = All (λ (r : ℕ × A). f r.1 ≢ id) rows

  pub values-select :
      (rows : List (ℕ × A))
      → values (select (λ (r : ℕ × A). f r.1 == id) rows) ≡ of_torrent (values rows)
  values-select [] = refl
  values-select ((k, x) ∷ rows) = elim (Bool-cases (f x == id)) [
    | inl t ↦ rw t (ap (◌∷◌ x) (values-select rows))
    | inr n ↦ rw n (values-select rows)
  ]

  of_torrent-append : (xs ys : List A) → of_torrent (xs ++ ys) ≡ of_torrent xs ++ of_torrent ys
  of_torrent-append [] ys = refl
  of_torrent-append (x ∷ xs) ys = elim (Bool-cases (f x == id)) [
    | inl t ↦ rw t (ap (◌∷◌ x) (of_torrent-append xs ys))
    | inr n ↦ rw n (of_torrent-append xs ys)
  ]

  of_torrent-All : (xs : List A) → All (λ x. f x ≡ id) xs → of_torrent xs ≡ xs
  of_torrent-All [] h = refl
  of_torrent-All (x ∷ xs) h = rw ((==_iff (f x) id).1 h.0) (ap (◌∷◌ x) (of_torrent-All xs h.1))

  of_torrent-Lacks : (rows : List (ℕ × A)) → Lacks rows → of_torrent (values rows) ≡ []
  of_torrent-Lacks [] h = refl
  of_torrent-Lacks ((k, x) ∷ rows) h = rw (==_ne (f x) id h.0) (of_torrent-Lacks rows h.1)

  -- New rows of the torrent behind rows of others.
  pub of_torrent_new :
      (rows : List (ℕ × A)) (xs : List A)
      → Lacks rows
      → All (λ x. f x ≡ id) xs
      → of_torrent (values rows ++ xs) ≡ xs
  of_torrent_new rows xs h k =
      of_torrent-append (values rows) xs
      ∙ ap (λ l. l ++ of_torrent xs) (of_torrent-Lacks rows h)
      ∙ of_torrent-All xs k
