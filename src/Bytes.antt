-- ===== src/Bytes.antt =====
-- include/fractals/common/utils.h and src/fractals/common/utils.cpp: integers and bit fields as
-- sequences of bytes. A `char` is its bit pattern, below 256.
pub mod Bits
pub mod Bitfield
pub mod BitfieldRoundTrip
pub mod Endian
pub mod RoundTrip
pub mod Hex
use Prim.Native.Nat.{bit_or, bit_and}
use fractals.Prelude.{
  ℕ, zero, suc, ◌+◌, ◌-◌, ◌*◌, ◌/◌, ◌%◌, ◌^◌, ◌≤◌, ◌<◌, ◌≡◌, min, Bool, Option, none, some, List,
  [], ◌∷◌, ◌++◌, arith, length, All, ◌==◌, not, if◌then◌else◌, true, false,
}

abbrev pub IsByte : ℕ → Type 0
IsByte b = b < 256

abbrev pub IsBytes : List ℕ → Type 0
IsBytes = All IsByte

-- The loop of `intToBytes` with `size` rounds left. `v.emplace_back(t >> 8 * size)` keeps the low
-- byte of the shifted value.
unfoldable pub int_to_bytes : ℕ → ℕ → List ℕ
int_to_bytes zero t = []
int_to_bytes (suc size) t = (t / 2 ^ (8 * size) % 256) ∷ int_to_bytes size t

-- The loop of `bytesToInt` with so many rounds left: the value read so far and the rest of the view.
unfoldable pub bytes_to_int_loop : ℕ → ℕ → List ℕ → ℕ × List ℕ
bytes_to_int_loop zero n d = (n, d)
bytes_to_int_loop (suc rounds) n [] = (n, [])
bytes_to_int_loop (suc rounds) n (b ∷ d) =
    bytes_to_int_loop rounds (bit_or n (b * 2 ^ (8 * rounds))) d

-- `bytesToInt<T>` with `sizeof(T)`: a view that is shorter than that is read whole.
unfoldable pub bytes_to_int : ℕ → List ℕ → ℕ × List ℕ
unfolding bytes_to_int_loop
bytes_to_int width d = bytes_to_int_loop (min (length d) width) 0 d
