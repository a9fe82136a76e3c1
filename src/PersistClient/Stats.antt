-- ===== src/PersistClient/Stats.antt =====
-- The count of downloaded bytes that `loadTorrentStats` makes of the complete pieces.
use fractals.Prelude.{
  ℕ, ◌+◌, ◌%◌, ◌^◌, ◌<◌, ◌≤◌, ◌≡◌, ◌↔◌, ◌∙◌, sym, ap, subst, inl, inr, none, List, [], ◌∷◌,
  if◌then◌else◌, ltb, Bool-cases, ltb→lt, arith,
}
use fractals.Prelude.Eq.{list_eq}
use fractals.Prelude.Map.{find}
use fractals.Database.{Sql, PieceRow}
use fractals.PersistClient.{PersistClient, accumulate, extended, load_pieces, load_torrent_stats}

-- The sizes of the complete pieces together.
abbrev pub completed : List (ℕ × PieceRow) → ℕ
completed [] = 0
completed ((id, p) ∷ ps) = (if p.complete then p.size else 0) + completed ps

extended_lem :
    (acc size : ℕ) → acc < 2 ^ 32 → (extended acc + size) % 2 ^ 64 % 2 ^ 32 ≡ (acc + size) % 2 ^ 32
extended_lem acc size h = elim (Bool-cases (ltb acc (2 ^ 31))) [
  | inl t ↦ rw t (omega arith)
  | inr f ↦ rw f (omega arith)
]

accumulate-completed :
    (acc : ℕ) (ps : List (ℕ × PieceRow))
    → acc < 2 ^ 32
    → accumulate acc ps ≡ (acc + completed ps) % 2 ^ 32
unfolding accumulate
accumulate-completed acc [] h = omega arith
accumulate-completed acc ((id, p) ∷ ps) h =
    let size = (if p.complete then p.size else 0) in
    rw (extended_lem acc size h)
      (accumulate-completed ((acc + size) % 2 ^ 32) ps (omega arith) ∙ omega arith)

-- The value is right exactly below 2 ^ 31.
extended-eq_iff : (n : ℕ) → n < 2 ^ 63 → (extended (n % 2 ^ 32) ≡ n) ↔ (n < 2 ^ 31)
extended-eq_iff n h = elim (Bool-cases (ltb (n % 2 ^ 32) (2 ^ 31))) [
  | inl t ↦ rw t (let k = ltb→lt _ _ t in (λ e. omega arith, λ b. omega arith))
  | inr f ↦ rw f (
      let k : 2 ^ 31 ≤ n % 2 ^ 32 = ground arith in
      (λ e. absurd (omega arith), λ b. absurd (omega arith)))
]

module _ {Table : Type 0 → Type 0} (sql : Sql Table) where
  -- For a torrent whose counts are not in memory, and whose complete pieces have fewer than 2 ^ 63
  -- bytes, the count of downloaded bytes that is loaded is their size exactly when that is below 2
  -- ^ 31.
  pub load_torrent_stats-completed :
      (ih : List ℕ) (c : PersistClient Table)
      → find ih c.in_memory_stats ≡ none
      → completed (load_pieces sql ih c) < 2 ^ 63
      → ((load_torrent_stats sql ih c).0.downloaded ≡ completed (load_pieces sql ih c))
        ↔ (completed (load_pieces sql ih c) < 2 ^ 31)
  unfolding load_torrent_stats
  load_torrent_stats-completed ih c n h =
      let sum = completed (load_pieces sql ih c) in
      let zero_add : (0 + sum) % 2 ^ 32 ≡ sum % 2 ^ 32 = omega arith in
      let e : (load_torrent_stats sql ih c).0.downloaded ≡ extended (sum % 2 ^ 32) =
        rw (n, load_torrent_stats)
          (ap extended (accumulate-completed 0 (load_pieces sql ih c) (omega arith) ∙ zero_add)) in
      subst (λ d. (d ≡ sum) ↔ (sum < 2 ^ 31)) (sym e) (extended-eq_iff sum h)
