-- ===== src/Bytes/Bitfield.antt =====
-- `bitfieldToBytes` and `bytesToBitfield` of utils.cpp.
use Prim.Native.Nat.{bit_or, bit_and}
use fractals.Prelude.{
  ℕ, zero, suc, ◌+◌, ◌-◌, ◌*◌, ◌/◌, ◌%◌, ◌^◌, Bool, true, false, Option, none, some, List, [], ◌∷◌,
  ◌++◌, ◌==◌, not, if◌then◌else◌,
}

-- `bits[i]` as an integer.
abbrev pub bit : Bool → ℕ
bit true = 1
bit false = 0

-- The loop of `bitfieldToBytes` from index `i` on, with the byte `c` begun.
unfoldable pub bitfield_loop : List Bool → ℕ → ℕ → List ℕ
bitfield_loop [] i c = if i % 8 == 0 then [] else c ∷ []
bitfield_loop (b ∷ bits) i c =
    let c' = bit_or c (bit b * 2 ^ (7 - i % 8)) in
    let full = bitfield_loop bits (i + 1) 0 in
    let rest = bitfield_loop bits (i + 1) c' in if (i + 1) % 8 == 0 then c' ∷ full else rest

unfoldable pub bitfield_to_bytes : List Bool → List ℕ
unfolding bitfield_loop
bitfield_to_bytes bits = bitfield_loop bits 0 0

-- The inner loop of `bytesToBitfield`. A picked sign bit, shifted, is -1, which is true as well.
unfoldable pub picked_bits : ℕ → ℕ → ℕ → List Bool
picked_bits zero j c = []
picked_bits (suc rounds) j c =
    not (bit_and c (128 / 2 ^ j) / 2 ^ (7 - j) == 0) ∷ picked_bits rounds (j + 1) c

-- `bytesToBitfield` of a view; `none` is a read outside the view.
unfoldable pub bytes_to_bitfield : ℕ → List ℕ → Option (List Bool)
unfolding picked_bits
bytes_to_bitfield zero bytes = some []
bytes_to_bitfield (suc len) [] = none
bytes_to_bitfield (suc len) (c ∷ bytes) = elim (bytes_to_bitfield len bytes) [
  | none ↦ none
  | some v ↦ some (picked_bits 8 0 c ++ v)
]
