-- ===== src/Bytes/Endian.antt =====
-- The loops of `intToBytes` and `bytesToInt` against the big-endian value of a byte sequence.
use Prim.Native.Nat.{bit_or}
use native.Mathlib.Nat.{
  mul-add-div_right, mod-eq_of_lt, pow-suc, mul-le-mul_right, mul-add-mod_self_right, mod-lt,
  div-add-mod, div-eq_of_lt,
}
use mathlib.Core.Path.{ap₂}
use fractals.Prelude.{
  ℕ, zero, suc, ◌+◌, ◌*◌, ◌/◌, ◌%◌, ◌^◌, ◌≤◌, ◌<◌, ◌≡◌, min, List, [], ◌∷◌, arith, length, refl, ap,
  sym, ◌∙◌, take, drop, length-take,
}
use fractals.Bytes.{IsBytes, int_to_bytes, bytes_to_int, bytes_to_int_loop}
use fractals.Bytes.Bits.{bit_or-eq-add}

-- 256 ^ n, in the form of the shifts.
abbrev pub radix : ℕ → ℕ
radix n = 2 ^ (8 * n)

pub radix-suc : (n : ℕ) → radix (suc n) ≡ 256 * radix n
radix-suc n =
    ap (λ k. 2 ^ k) {y = suc (suc (suc (suc (suc (suc (suc (suc (8 * n))))))))} (omega arith)
    ∙ simp pow-suc (omega arith)

abbrev pub be_value : List ℕ → ℕ
be_value [] = 0
be_value (b ∷ d) = b * radix (length d) + be_value d

pub be_value-lt : (d : List ℕ) → IsBytes d → be_value d < radix (length d)
be_value-lt [] h = omega arith
be_value-lt (b ∷ d) h = omega (
  arith,
  radix-suc (length d),
  be_value-lt d h.1,
  mul-le-mul_right (radix (length d)) (let le : b ≤ 255 = omega (arith, h.0) in le),
)

pub length-int_to_bytes : (size t : ℕ) → length (int_to_bytes size t) ≡ size
unfolding int_to_bytes
length-int_to_bytes zero t = refl
length-int_to_bytes (suc size) t = ap suc (length-int_to_bytes size t)

pub int_to_bytes-IsBytes : (size t : ℕ) → IsBytes (int_to_bytes size t)
unfolding int_to_bytes
int_to_bytes-IsBytes zero t = tt
int_to_bytes-IsBytes (suc size) t = (omega arith, int_to_bytes-IsBytes size t)

pub radix_pos : (n : ℕ) → 0 < radix n
radix_pos zero = omega arith
radix_pos (suc n) = omega (arith, radix-suc n, radix_pos n)

-- The loop reads the next `rounds` bytes below the bytes that it has read.
loop_reads :
    (rounds c : ℕ) (d : List ℕ)
    → IsBytes d
    → rounds ≤ length d
    → bytes_to_int_loop rounds (c * radix rounds) d
      ≡ (c * radix rounds + be_value (take rounds d), drop rounds d)
unfolding bytes_to_int_loop
loop_reads zero c d h k = ap (λ n. (n, d)) (omega arith)
loop_reads (suc rounds) c [] h k = absurd (omega arith)
loop_reads (suc rounds) c (b ∷ d) h k =
    let fits : b * radix rounds < radix (suc rounds) = omega (
      arith,
      h.0,
      radix-suc rounds,
      radix_pos rounds,
      mul-le-mul_right (radix rounds) (let le : b ≤ 255 = omega (arith, h.0) in le),
    ) in
    let joined : bit_or (c * radix (suc rounds)) (b * radix rounds) ≡ (256 * c + b) * radix rounds =
      omega (
        arith,
        bit_or-eq-add (8 * suc rounds) c (b * radix rounds) fits,
        ap (◌*◌ c) (radix-suc rounds),
      ) in
    let read : length (take rounds d) ≡ rounds = omega (arith, length-take rounds d) in
    ap (λ n. bytes_to_int_loop rounds n d) joined
    ∙ loop_reads rounds (256 * c + b) d h.1 (omega arith)
    ∙ ap (λ n. (n, drop rounds d))
        (omega (arith, ap (λ n. b * radix n) read, ap (◌*◌ c) (radix-suc rounds)))

-- `bytesToInt` takes the value of the first bytes, as many as there are up to the width, and
-- removes them from the view.
pub bytes_to_int_lem :
    (width : ℕ) (d : List ℕ)
    → IsBytes d
    → bytes_to_int width d
      ≡ (be_value (take (min (length d) width) d), drop (min (length d) width) d)
unfolding bytes_to_int
bytes_to_int_lem width d h =
    ap (λ n. bytes_to_int_loop (min (length d) width) n d) (omega arith)
    ∙ loop_reads (min (length d) width) 0 d h (omega arith)
    ∙ ap (λ n. (n, drop (min (length d) width) d)) (omega arith)

-- The bytes of a number do not depend on what stands above them.
int_to_bytes_low : (size c v : ℕ) → int_to_bytes size (c * radix size + v) ≡ int_to_bytes size v
unfolding int_to_bytes
int_to_bytes_low zero c v = refl
int_to_bytes_low (suc size) c v =
    let shifted : c * radix (suc size) + v ≡ 256 * c * radix size + v =
      omega (arith, ap (◌*◌ c) (radix-suc size)) in
    ap₂ ◌∷◌
      (ap (λ n. n / radix size % 256) shifted
        ∙ omega (arith, mul-add-div_right (radix_pos size) (256 * c) v))
      (ap (int_to_bytes size) shifted ∙ int_to_bytes_low size (256 * c) v)

pub int_to_bytes-be_value : (d : List ℕ) → IsBytes d → int_to_bytes (length d) (be_value d) ≡ d
unfolding int_to_bytes
int_to_bytes-be_value [] h = refl
int_to_bytes-be_value (b ∷ d) h =
    ap₂ ◌∷◌
      (omega (
        arith,
        h.0,
        mul-add-div_right (radix_pos (length d)) b (be_value d),
        div-eq_of_lt (be_value-lt d h.1),
      ))
      (int_to_bytes_low (length d) b (be_value d) ∙ int_to_bytes-be_value d h.1)

pub be_value-int_to_bytes : (size t : ℕ) → be_value (int_to_bytes size t) ≡ t % radix size
unfolding int_to_bytes
be_value-int_to_bytes zero t = omega arith
be_value-int_to_bytes (suc size) t =
    let P = radix size in
    let q = t / P in
    let top : q % 256 * P ≤ 255 * P = mul-le-mul_right P (omega arith) in
    let low : t % P < P = mod-lt t (radix_pos size) in
    let parts : t ≡ q / 256 * (256 * P) + (q % 256 * P + t % P) = omega (
      arith,
      div-add-mod t P,
      ap (λ x. P * x) (let e : q ≡ 256 * (q / 256) + q % 256 = omega arith in e),
    ) in
    ap₂ (λ n v. q % 256 * radix n + v) (length-int_to_bytes size t) (be_value-int_to_bytes size t)
    ∙ sym (
        ap₂ ◌%◌ parts (radix-suc size)
        ∙ mul-add-mod_self_right (q / 256) (256 * P) (q % 256 * P + t % P)
        ∙ mod-eq_of_lt (omega arith))
