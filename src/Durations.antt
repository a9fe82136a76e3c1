-- ===== src/Durations.antt =====
-- include/fractals/common/utils.h and src/fractals/common/utils.cpp: ppTime, which prints the time that
-- a torrent will still take.
use fractals.Prelude.{
  ℕ, zero, suc, ◌+◌, ◌-◌, ◌*◌, ◌/◌, ◌%◌, ◌^◌, ◌≤◌, ◌<◌, ◌≡◌, refl, ◌∙◌, ap, sym, subst, ◌⊎◌, ltb→lt,
  false, inl, inr, List, [], ◌∷◌, ◌++◌, if◌then◌else◌, ltb, leb, Bool-cases, length, arith,
}
use native.Mathlib.Nat.{div-mul-le_self, lt-div-mul-add, mul-le-mul_right}
use fractals.TrackerResponse.{to_string}

-- A number of units and the letter of the unit.
abbrev pub Measurement : Type 0
Measurement = ℕ × ℕ

-- The units above the seconds: a letter and how many of the unit below it is.
abbrev units : List (ℕ × ℕ)
units = (109, 60) ∷ (104, 60) ∷ (100, 24) ∷ (109, 30) ∷ (121, 12) ∷ []

-- The loop over the units, with the measurements that are at the front already.
unfoldable pub measure_loop : List (ℕ × ℕ) → Measurement → List Measurement → List Measurement
measure_loop [] prev measurements = prev ∷ measurements
measure_loop ((letter, size) ∷ rest) (n, u) measurements =
    let more = measure_loop rest (n / size, letter) ((n - n / size * size, u) ∷ measurements) in
    if ltb 0 (n / size) then more else (n, u) ∷ measurements

-- `std::to_string` of an `int`.
abbrev to_string_int : ℕ → List ℕ
to_string_int n = if ltb n (2 ^ 31) then to_string n else 45 ∷ to_string (2 ^ 32 - n)

unfoldable pub print : List Measurement → List ℕ
print [] = []
print ((n, u) ∷ measurements) = to_string_int n ++ (u ∷ print measurements)

-- A negative number of seconds is measured in seconds alone, and its low 32 bits are printed.
unfoldable pub pp_time : ℕ → List ℕ
unfolding measure_loop print
pp_time seconds =
    if leb (2 ^ 63) seconds
    then print ((seconds % 2 ^ 32, 115) ∷ [])
    else if leb 279936000 seconds
    then 105 ∷ 110 ∷ 102 ∷ []
    else print (measure_loop units (seconds, 115) [])

-- How many seconds the unit at a height above the seconds has.
abbrev weight : ℕ → ℕ
weight zero = 1
weight (suc zero) = 60
weight (suc (suc zero)) = 3600
weight (suc (suc (suc zero))) = 86400
weight (suc (suc (suc (suc zero)))) = 2592000
weight (suc (suc (suc (suc (suc n))))) = 31104000

-- What measurements, the highest unit first, stand for in seconds.
abbrev pub in_seconds : List Measurement → ℕ
in_seconds [] = 0
in_seconds ((n, u) ∷ rest) = n * weight (length rest) + in_seconds rest

-- The letter of that unit.
abbrev letter_at : ℕ → ℕ
letter_at zero = 115
letter_at (suc zero) = 109
letter_at (suc (suc zero)) = 104
letter_at (suc (suc (suc zero))) = 100
letter_at (suc (suc (suc (suc zero)))) = 109
letter_at (suc (suc (suc (suc (suc n))))) = 121

-- Each measurement has the letter of its unit, and those behind it are less than one of that unit.
abbrev pub IsReduced : List Measurement → Type 0
IsReduced [] = Unit
IsReduced ((n, u) ∷ rest) =
    (u ≡ letter_at (length rest)) × (in_seconds rest < weight (length rest)) × IsReduced rest

-- The highest measurement is not zero, unless it is alone.
abbrev pub Leads : List Measurement → Type 0
Leads [] = Unit
Leads ((n, u) ∷ rest) = (0 < n) ⊎ (rest ≡ [])

-- The units that are left fit the height that is reached.
abbrev Fits : ℕ → List (ℕ × ℕ) → Type 0
Fits h [] = Unit
Fits h ((letter, size) ∷ rest) =
    (weight (suc h) ≡ weight h * size)
    × (letter ≡ letter_at (suc h))
    × (0 < size)
    × Fits (suc h) rest

units-Fits : Fits 0 units
units-Fits = (
  refl,
  refl,
  omega arith,
  (
    refl,
    refl,
    omega arith,
    (refl, refl, omega arith, (refl, refl, omega arith, (refl, refl, omega arith, tt))),
  ),
)

distribute : (q size r w v : ℕ) → q * (w * size) + (r * w + v) ≡ (q * size + r) * w + v
distribute q size r w v = omega arith

-- Whole units are carried to the unit above.
carry : (n size w v : ℕ) → n / size * (w * size) + ((n - n / size * size) * w + v) ≡ n * w + v
carry n size w v =
    let r = n - n / size * size in
    let split : n / size * size + r ≡ n = omega (arith, div-mul-le_self n size) in
    distribute (n / size) size r w v ∙ ap (λ k. k * w + v) split

measure_loop-in_seconds :
    (rest : List (ℕ × ℕ)) (n u : ℕ) (measurements : List Measurement)
    → Fits (length measurements) rest
    → in_seconds (measure_loop rest (n, u) measurements)
      ≡ n * weight (length measurements) + in_seconds measurements
unfolding measure_loop
measure_loop-in_seconds [] n u measurements h = refl
measure_loop-in_seconds ((letter, size) ∷ rest) n u measurements h =
    elim (Bool-cases (ltb 0 (n / size))) [
      | inl t ↦ rw t (
          measure_loop-in_seconds rest (n / size) letter ((n - n / size * size, u) ∷ measurements)
            h.3
          ∙ ap
              (λ w.
                n / size * w
                + ((n - n / size * size) * weight (length measurements) + in_seconds measurements))
              h.0
          ∙ carry n size (weight (length measurements)) (in_seconds measurements))
      | inr f ↦ rw f refl
    ]

below_next : (n size w v : ℕ) → 0 < size → v < w → (n - n / size * size) * w + v < w * size
below_next n size w v h k =
    let r : suc (n - n / size * size) ≤ size =
      omega (arith, div-mul-le_self n size, lt-div-mul-add {a = n} {b = size} h) in
    let m : suc (n - n / size * size) * w ≤ size * w = mul-le-mul_right w r in omega (arith, m, k)

measure_loop-IsReduced :
    (rest : List (ℕ × ℕ)) (n u : ℕ) (measurements : List Measurement)
    → Fits (length measurements) rest
    → IsReduced ((n, u) ∷ measurements)
    → Leads ((n, u) ∷ measurements)
    → IsReduced (measure_loop rest (n, u) measurements)
      × Leads (measure_loop rest (n, u) measurements)
unfolding measure_loop
measure_loop-IsReduced [] n u measurements h d l = (d, l)
measure_loop-IsReduced ((letter, size) ∷ rest) n u measurements h d l =
    elim (Bool-cases (ltb 0 (n / size))) [
      | inl t ↦ rw t (
          measure_loop-IsReduced rest (n / size) letter ((n - n / size * size, u) ∷ measurements)
            h.3
            (
              h.1,
              subst
                  (λ w.
                    (n - n / size * size) * weight (length measurements) + in_seconds measurements
                    < w)
                  (sym h.0)
                  (below_next n size (weight (length measurements)) (in_seconds measurements) h.2
                    d.1),
              d,
            )
            (inl (ltb→lt _ _ t)))
      | inr f ↦ rw f (d, l)
    ]

-- A time of fewer than 279936000 seconds is printed as measurements that make up this time, the
-- highest unit first, each with the letter of its unit and those behind it together less than one
-- of that unit, and the first is not zero unless it is the seconds alone.
pub pp_time-in_seconds :
    (seconds : ℕ)
    → seconds < 279936000
    → (measurements : List Measurement) × (pp_time seconds ≡ print measurements)
      × (in_seconds measurements ≡ seconds)
      × IsReduced measurements
      × Leads measurements
unfolding pp_time
pp_time-in_seconds seconds h =
    let small : leb (2 ^ 63) seconds ≡ false = ground arith in
    let finite : leb 279936000 seconds ≡ false = ground arith in
    let one : seconds * 1 + 0 ≡ seconds = omega arith in
    (
      measure_loop units (seconds, 115) [],
      rw (small, pp_time) (rw finite refl),
      measure_loop-in_seconds units seconds 115 [] units-Fits ∙ one,
      (measure_loop-IsReduced units seconds 115 [] units-Fits (refl, omega arith, tt) (inr refl)).0,
      (measure_loop-IsReduced units seconds 115 [] units-Fits (refl, omega arith, tt) (inr refl)).1,
    )
