-- ===== src/Bytes/Hex.antt =====
-- include/fractals/common/utils.h and src/fractals/common/utils.cpp: bytesToHex and hexToBytes.
use fractals.Prelude.{
  ℕ, ◌+◌, ◌-◌, ◌*◌, ◌/◌, ◌%◌, ◌^◌, ◌<◌, ◌≡◌, refl, ◌∙◌, ap, inl, inr, Option, none, some, List, [],
  ◌∷◌, if◌then◌else◌, ◌==◌, ◌&&◌, ◌||◌, ltb, leb, Bool-cases, arith,
}
use fractals.Bytes.{IsBytes}

-- A digit that `std::hex` prints.
unfoldable pub hex_digit : ℕ → ℕ
hex_digit n = if ltb n 10 then 48 + n else 87 + n

-- The loop over the bytes, which prints two digits for each.
unfoldable pub bytes_to_hex : List ℕ → List ℕ
bytes_to_hex [] = []
bytes_to_hex (b ∷ view) = hex_digit (b / 16) ∷ hex_digit (b % 16) ∷ bytes_to_hex view

-- A digit that `std::hex` reads, of both cases.
unfoldable pub digit_value : ℕ → Option ℕ
digit_value c =
    if leb 48 c && leb c 57
    then some (c - 48)
    else if leb 97 c && leb c 102
    then some (c - 87)
    else if leb 65 c && leb c 70
    then some (c - 55)
    else none

abbrev or_zero : Option ℕ → ℕ
or_zero none = 0
or_zero (some n) = n

-- What a stream of two characters gives as an `unsigned int`: white space is skipped, a sign may come
-- first, the digits end at another character, and the value is 0 where there is none, as after the
-- prefix `0x`.
unfoldable pub read_hex : ℕ → ℕ → ℕ
read_hex a b = elim (digit_value a) [
  | some m ↦ elim (digit_value b) [ some n ↦ m * 16 + n | none ↦ m ]
  | none ↦
      if (leb 9 a && leb a 13) || ((a == 32) || (a == 43))
      then or_zero (digit_value b)
      else if a == 45
      then (2 ^ 32 - or_zero (digit_value b)) % 2 ^ 32
      else 0
]

-- The loop over the pairs of characters. A last one alone is left.
unfoldable pub hex_to_bytes : List ℕ → List ℕ
hex_to_bytes [] = []
hex_to_bytes (a ∷ []) = []
hex_to_bytes (a ∷ (b ∷ s)) = (read_hex a b % 256) ∷ hex_to_bytes s

digit_value-hex_digit : (n : ℕ) → n < 16 → digit_value (hex_digit n) ≡ some n
unfolding digit_value hex_digit
digit_value-hex_digit n h = elim (Bool-cases (ltb n 10)) [
  | inl t ↦ ground arith
  | inr f ↦ ground arith
]

read_hex-hex_digit : (b : ℕ) → b < 256 → read_hex (hex_digit (b / 16)) (hex_digit (b % 16)) ≡ b
unfolding read_hex
read_hex-hex_digit b h =
    rw (digit_value-hex_digit (b / 16) (omega (arith, h)), read_hex)
      (rw (digit_value-hex_digit (b % 16) (omega arith)) (omega arith))

-- The text of bytes is read back as these bytes.
pub hex_to_bytes-bytes_to_hex :
    (view : List ℕ) → IsBytes view → hex_to_bytes (bytes_to_hex view) ≡ view
unfolding hex_to_bytes bytes_to_hex
hex_to_bytes-bytes_to_hex [] h = refl
hex_to_bytes-bytes_to_hex (b ∷ view) h =
    let e : read_hex (hex_digit (b / 16)) (hex_digit (b % 16)) % 256 ≡ b =
      rw (read_hex-hex_digit b h.0) (omega (arith, h.0)) in
    ap (λ c. c ∷ hex_to_bytes (bytes_to_hex view)) e
    ∙ ap (◌∷◌ b) (hex_to_bytes-bytes_to_hex view h.1)
