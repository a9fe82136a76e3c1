-- ===== src/Bytes/BitfieldRoundTrip.antt =====
-- A bit field read from its bytes.
use Prim.Native.Nat.{bit_or}
use mathlib.Core.Option
use fractals.Prelude.{
  ℕ, zero, suc, ◌+◌, ◌-◌, ◌*◌, ◌%◌, ◌^◌, ◌≡◌, refl, ap, ◌∙◌, Bool, true, false, ◌&&◌, Option, none,
  some, List, [], ◌∷◌, ◌++◌, length, replicate, arith,
}
use fractals.Bytes.Bitfield.{bit, bitfield_loop, bitfield_to_bytes, picked_bits, bytes_to_bitfield}

-- Whether a test holds of every list of `n` bits, and of each such list then.
abbrev every : ℕ → (List Bool → Bool) → Bool
every zero f = f []
every (suc n) f = every n (λ v. f (true ∷ v)) && every n (λ v. f (false ∷ v))

every-holds :
    (n : ℕ) (f : List Bool → Bool) → every n f ≡ true → (v : List Bool) → length v ≡ n → f v ≡ true
every-holds zero f h [] e = h
every-holds zero f h (b ∷ v) e = absurd (omega arith)
every-holds (suc n) f h [] e = absurd (omega arith)
every-holds (suc n) f h (true ∷ v) e =
    every-holds n (λ v. f (true ∷ v)) (ground arith) v (omega arith)
every-holds (suc n) f h (false ∷ v) e =
    every-holds n (λ v. f (false ∷ v)) (ground arith) v (omega arith)

abbrev bits_beq : List Bool → List Bool → Bool
bits_beq [] [] = true
bits_beq [] (b ∷ ys) = false
bits_beq (a ∷ xs) [] = false
bits_beq (true ∷ xs) (true ∷ ys) = bits_beq xs ys
bits_beq (true ∷ xs) (false ∷ ys) = false
bits_beq (false ∷ xs) (true ∷ ys) = false
bits_beq (false ∷ xs) (false ∷ ys) = bits_beq xs ys

bits_beq_sound : (xs ys : List Bool) → bits_beq xs ys ≡ true → xs ≡ ys
bits_beq_sound [] [] h = refl
bits_beq_sound [] (b ∷ ys) h = absurd (ground arith)
bits_beq_sound (a ∷ xs) [] h = absurd (ground arith)
bits_beq_sound (true ∷ xs) (true ∷ ys) h = ap (◌∷◌ true) (bits_beq_sound xs ys h)
bits_beq_sound (true ∷ xs) (false ∷ ys) h = absurd (ground arith)
bits_beq_sound (false ∷ xs) (true ∷ ys) h = absurd (ground arith)
bits_beq_sound (false ∷ xs) (false ∷ ys) h = ap (◌∷◌ false) (bits_beq_sound xs ys h)

-- The loop looks at its index up to a multiple of 8.
bitfield_loop_shift :
    (bits : List Bool) (i c : ℕ) → bitfield_loop bits (i + 8) c ≡ bitfield_loop bits i c
unfolding bitfield_loop
bitfield_loop_shift [] i c = let same : (i + 8) % 8 ≡ i % 8 = omega arith in rw same
bitfield_loop_shift (b ∷ bits) i c =
    let same : (i + 8) % 8 ≡ i % 8 = omega arith in
    let next : i + 8 + 1 ≡ i + 1 + 8 = omega arith in
    let after : (i + 1 + 8) % 8 ≡ (i + 1) % 8 = omega arith in
    rw (
      next,
      same,
      after,
      bitfield_loop_shift bits (i + 1) 0,
      bitfield_loop_shift bits (i + 1) (bit_or c (bit b * 2 ^ (7 - i % 8))),
    )

-- What is read back from the bytes of a bit field.
abbrev Reads : List Bool → List Bool → Type 0
Reads bits padding =
    bytes_to_bitfield (length (bitfield_to_bytes bits)) (bitfield_to_bytes bits)
    ≡ some (bits ++ padding)

read_back : List Bool → Option (List Bool)
read_back bits = bytes_to_bitfield (length (bitfield_to_bytes bits)) (bitfield_to_bytes bits)

same? : List Bool → Option (List Bool) → Bool
same? xs none = false
same? xs (some ys) = bits_beq ys xs

same?_sound : (xs : List Bool) (o : Option (List Bool)) → same? xs o ≡ true → o ≡ some xs
unfolding same?
same?_sound xs none e = absurd (ground arith)
same?_sound xs (some ys) e = ap some (bits_beq_sound ys xs e)

-- Up to eight bits, tried one and all.
short_read :
    (n : ℕ) (padding : List Bool)
    → every n (λ v. same? (v ++ padding) (read_back v)) ≡ true
    → (v : List Bool) → length v ≡ n
    → Reads v padding
unfolding read_back
short_read n padding h v e =
    same?_sound (v ++ padding) (read_back v)
      (every-holds n (λ v. same? (v ++ padding) (read_back v)) h v e)

next_byte_read :
    (a b c d e f g h : Bool) (bits padding : List Bool)
    → Reads (a ∷ b ∷ c ∷ d ∷ e ∷ f ∷ g ∷ h ∷ []) []
    → Reads bits padding
    → Reads (a ∷ b ∷ c ∷ d ∷ e ∷ f ∷ g ∷ h ∷ bits) padding
unfolding bytes_to_bitfield bitfield_to_bytes bitfield_loop
next_byte_read a b c d e f g h bits padding first r =
    rw (bitfield_loop_shift bits 0 0, r) (ap (Option.map (λ v. v ++ (bits ++ padding))) first)

-- The bytes of a bit field, read back, give its bits and after them clear bits up to a multiple of
-- 8.
pub bytes_to_bitfield-bitfield_to_bytes :
    (bits : List Bool)
    → bytes_to_bitfield (length (bitfield_to_bytes bits)) (bitfield_to_bytes bits)
      ≡ some (bits ++ replicate ((8 - length bits % 8) % 8) false)
unfolding read_back same? bytes_to_bitfield bitfield_to_bytes bitfield_loop picked_bits
bytes_to_bitfield-bitfield_to_bytes [] = refl
bytes_to_bitfield-bitfield_to_bytes (a ∷ []) = short_read 1 (replicate 7 false) refl (a ∷ []) refl
bytes_to_bitfield-bitfield_to_bytes (a ∷ b ∷ []) =
    short_read 2 (replicate 6 false) refl (a ∷ b ∷ []) refl
bytes_to_bitfield-bitfield_to_bytes (a ∷ b ∷ c ∷ []) =
    short_read 3 (replicate 5 false) refl (a ∷ b ∷ c ∷ []) refl
bytes_to_bitfield-bitfield_to_bytes (a ∷ b ∷ c ∷ d ∷ []) =
    short_read 4 (replicate 4 false) refl (a ∷ b ∷ c ∷ d ∷ []) refl
bytes_to_bitfield-bitfield_to_bytes (a ∷ b ∷ c ∷ d ∷ e ∷ []) =
    short_read 5 (replicate 3 false) refl (a ∷ b ∷ c ∷ d ∷ e ∷ []) refl
bytes_to_bitfield-bitfield_to_bytes (a ∷ b ∷ c ∷ d ∷ e ∷ f ∷ []) =
    short_read 6 (replicate 2 false) refl (a ∷ b ∷ c ∷ d ∷ e ∷ f ∷ []) refl
bytes_to_bitfield-bitfield_to_bytes (a ∷ b ∷ c ∷ d ∷ e ∷ f ∷ g ∷ []) =
    short_read 7 (replicate 1 false) refl (a ∷ b ∷ c ∷ d ∷ e ∷ f ∷ g ∷ []) refl
bytes_to_bitfield-bitfield_to_bytes (a ∷ b ∷ c ∷ d ∷ e ∷ f ∷ g ∷ h ∷ bits) =
    let modulo : (8 - length bits % 8) % 8
        ≡ (8 - length (a ∷ b ∷ c ∷ d ∷ e ∷ f ∷ g ∷ h ∷ bits) % 8) % 8 =
      omega arith in
    next_byte_read a b c d e f g h bits (replicate ((8 - length bits % 8) % 8) false)
      (short_read 8 [] refl (a ∷ b ∷ c ∷ d ∷ e ∷ f ∷ g ∷ h ∷ []) refl)
      (bytes_to_bitfield-bitfield_to_bytes bits)
    ∙ ap (λ k. some (a ∷ b ∷ c ∷ d ∷ e ∷ f ∷ g ∷ h ∷ (bits ++ replicate k false))) modulo
