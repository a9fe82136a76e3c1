-- ===== src/Bytes/RoundTrip.antt =====
-- `intToBytes` and `bytesToInt` of utils.h after each other.
use native.Mathlib.Nat.{mod-eq_of_lt}
use fractals.Prelude.{
  ℕ, ◌*◌, ◌^◌, ◌≤◌, ◌<◌, ◌≡◌, min, List, ◌++◌, arith, length, ap, sym, ◌∙◌, take, drop, length-take,
  take-append, drop-append, length-append, All-append, All-take, take-append-drop,
}
use mathlib.Core.Path.{ap₂}
use fractals.Bytes.{IsByte, IsBytes, int_to_bytes, bytes_to_int}
use fractals.Bytes.Endian.{
  be_value, be_value-int_to_bytes, int_to_bytes-be_value, bytes_to_int_lem, length-int_to_bytes,
  int_to_bytes-IsBytes, radix, be_value-lt,
}

-- Reading a number below 2 ^ (8 * width) off the front of its big-endian bytes, with bytes behind
-- them, gives the number back and leaves what follows.
pub bytes_to_int-int_to_bytes :
    (width t : ℕ) (rest : List ℕ)
    → IsBytes rest
    → t < 2 ^ (8 * width)
    → bytes_to_int width (int_to_bytes width t ++ rest) ≡ (t, rest)
bytes_to_int-int_to_bytes width t rest h lt =
    let bytes = int_to_bytes width t in
    let cut : min (length (bytes ++ rest)) width ≡ length bytes =
      omega (arith, length-append bytes rest, length-int_to_bytes width t) in
    bytes_to_int_lem width (bytes ++ rest)
      (All-append IsByte bytes rest (int_to_bytes-IsBytes width t) h)
    ∙ ap₂ (λ a b. (a, b))
        (ap be_value (take-append _ bytes rest cut)
          ∙ be_value-int_to_bytes width t
          ∙ mod-eq_of_lt lt)
        (drop-append _ bytes rest cut)

-- Writing back what was read off a view of at least width bytes gives the view.
pub int_to_bytes-bytes_to_int :
    (width : ℕ) (d : List ℕ)
    → IsBytes d
    → width ≤ length d
    → int_to_bytes width (bytes_to_int width d).0 ++ (bytes_to_int width d).1 ≡ d
int_to_bytes-bytes_to_int width d h k =
    let cut : min (length d) width ≡ width = omega arith in
    let front = take width d in
    let size : length front ≡ width = omega (arith, length-take width d) in
    ap (λ r. int_to_bytes width r.0 ++ r.1)
      (bytes_to_int_lem width d h ∙ ap (λ n. (be_value (take n d), drop n d)) cut)
    ∙ ap (λ n. int_to_bytes n (be_value front) ++ drop width d) (sym size)
    ∙ ap (λ xs. xs ++ drop width d) (int_to_bytes-be_value front (All-take IsByte width d h))
    ∙ take-append-drop width d

-- The value read is below 2 ^ (8 * width), and the rest of the view is the view without its front.
pub bytes_to_int_bounds :
    (width : ℕ) (d : List ℕ)
    → IsBytes d
    → width ≤ length d
    → ((bytes_to_int width d).0 < 2 ^ (8 * width)) × ((bytes_to_int width d).1 ≡ drop width d)
bytes_to_int_bounds width d h k =
    let cut : min (length d) width ≡ width = omega arith in
    let eq = bytes_to_int_lem width d h ∙ ap (λ n. (be_value (take n d), drop n d)) cut in
    let size : length (take width d) ≡ width = omega (arith, length-take width d) in
    (
      omega (
        arith,
        ap (λ r. r.0) eq,
        be_value-lt (take width d) (All-take IsByte width d h),
        ap radix size,
      ),
      ap (λ r. r.1) eq,
    )
