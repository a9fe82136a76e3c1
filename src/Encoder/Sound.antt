-- ===== src/Encoder/Sound.antt =====
-- The buffers that `decode` of BitTorrentEncoder.h accepts.
use Prim.Native.String.{String}
use fractals.Prelude.{
  ℕ, zero, suc, ◌+◌, ◌%◌, ◌^◌, ◌≤◌, ◌<◌, ◌≡◌, Bool, none, some, List, [], ◌∷◌, ◌++◌, arith, length,
  leb, if◌then◌else◌, true, false, ◌==◌, refl, ap, sym, ◌∙◌, append-nil, subst, ==_iff, drop_all,
  eq_nil_of_length, leb→le, length-drop, All-drop,
}
use mathlib.Core.Path.{ap₂}
use fractals.Bytes.{IsByte, IsBytes, int_to_bytes, bytes_to_int}
use fractals.Bytes.RoundTrip.{int_to_bytes-bytes_to_int, bytes_to_int_bounds}
use fractals.Message.{
  Message, choke, unchoke, interested, not_interested, keep_alive, have, bitfield, request, piece,
  cancel, port, sign_extend,
}
use fractals.Encoder.{encode}
use fractals.Encoder.RoundTrip.{IsWire, one_byte}
use fractals.Encoder.Decode.{decode, decode_body, dispatch, handle_failure, failure, no_type}

-- A number that was read off a view of just its width is written back as the view.
write_last :
    (width : ℕ) (v : List ℕ)
    → IsBytes v
    → length v ≡ width
    → int_to_bytes width (bytes_to_int width v).0 ≡ v
write_last width v h e =
    let rest : (bytes_to_int width v).1 ≡ [] =
      (bytes_to_int_bounds width v h (omega arith)).1 ∙ drop_all width v (omega arith) in
    sym (append-nil (int_to_bytes width (bytes_to_int width v).0))
    ∙ ap (◌++◌ (int_to_bytes width (bytes_to_int width v).0)) (sym rest)
    ∙ int_to_bytes-bytes_to_int width v h (omega arith)

-- A number off the front of a view, and what the rest of the view was written back as.
write_next :
    (v tail : List ℕ)
    → IsBytes v
    → 4 ≤ length v
    → tail ≡ (bytes_to_int 4 v).1
    → int_to_bytes 4 (bytes_to_int 4 v).0 ++ tail ≡ v
write_next v tail h le e =
    ap (◌++◌ (int_to_bytes 4 (bytes_to_int 4 v).0)) e ∙ int_to_bytes-bytes_to_int 4 v h le

rest-IsBytes : (v : List ℕ) → IsBytes v → 4 ≤ length v → IsBytes (bytes_to_int 4 v).1
rest-IsBytes v h le = subst IsBytes (sym (bytes_to_int_bounds 4 v h le).1) (All-drop IsByte 4 v h)

rest_length : (v : List ℕ) → IsBytes v → 4 ≤ length v → length (bytes_to_int 4 v).1 + 4 ≡ length v
rest_length v h le = omega (arith, ap length (bytes_to_int_bounds 4 v h le).1, length-drop 4 v)

write_three :
    (v : List ℕ)
    → IsBytes v
    → length v ≡ 12
    → let r₁ = bytes_to_int 4 v in
      let r₂ = bytes_to_int 4 r₁.1 in
      let r₃ = bytes_to_int 4 r₂.1 in
      int_to_bytes 4 r₁.0 ++ (int_to_bytes 4 r₂.0 ++ int_to_bytes 4 r₃.0) ≡ v
write_three v h e =
    let h₁ = rest-IsBytes v h (omega arith) in
    let l₁ = rest_length v h (omega arith) in
    let v₁ = (bytes_to_int 4 v).1 in
    let h₂ = rest-IsBytes v₁ h₁ (omega arith) in
    let l₂ = rest_length v₁ h₁ (omega arith) in
    write_next v _ h (omega arith)
      (write_next v₁ _ h₁ (omega arith) (write_last 4 (bytes_to_int 4 v₁).1 h₂ (omega arith)))

-- A result of `handleFailure` that is no error: the check passed.
checked :
    (b : Bool) (x m : Message) (view : List ℕ)
    → handle_failure (if b then some x else none) view ≡ m
    → IsWire m
    → (b ≡ true) × (x ≡ m)
unfolding handle_failure
checked true x m view e w = (refl, e)
checked false x m view e w = absurd (subst IsWire (sym e) w)

-- The bytes that a message of that type and payload is written as.
abbrev frame : ℕ → ℕ → List ℕ → List ℕ
frame len type v = int_to_bytes 4 len ++ (type ∷ v)

module _ (v : List ℕ) (len : ℕ) (buf : List ℕ) (m : Message) (h : IsBytes v)
    (size : len ≡ suc (length v)) (small : len < 2 ^ 32) (w : IsWire m) where
  abbrev Sound : ℕ → Type 0
  Sound type = dispatch (sign_extend type) v len buf ≡ m → encode m ≡ some (frame len type v)

  landed :
      (x : Message) (type k : ℕ) (payload : List ℕ)
      → type < 256
      → encode x ≡ some (int_to_bytes 4 k ++ (int_to_bytes 1 type ++ payload))
      → len ≡ k
      → payload ≡ v
      → x ≡ m
      → encode m ≡ some (frame len type v)
  landed x type k payload t enc e p same =
      ap encode (sym same)
      ∙ enc
      ∙ ap₂ (λ b pay. some (int_to_bytes 4 k ++ (b ++ pay))) (one_byte type t) p
      ∙ ap (λ n. some (frame n type v)) (sym e)

  sound_empty :
      (x : Message) (type : ℕ)
      → type < 256
      → encode x ≡ some (int_to_bytes 4 1 ++ (int_to_bytes 1 type ++ []))
      → handle_failure (if len == 1 then some x else none) v ≡ m
      → encode m ≡ some (frame len type v)
  sound_empty x type t enc e =
      let (b, same) = checked (len == 1) x m v e w in
      let one : len ≡ 1 = (==_iff len 1).0 b in
      landed x type 1 [] t enc one (sym (eq_nil_of_length v (omega arith))) same

  Sound-have : Sound 4
  unfolding dispatch encode
  Sound-have e =
      let (b, same) =
        checked (len == 5) (have (record { piece_index = (bytes_to_int 4 v).0 })) m v e w in
      let five : len ≡ 5 = (==_iff len 5).0 b in
      landed _ 4 5 _ (omega arith) refl five (write_last 4 v h (omega arith)) same

  Sound-port : Sound 9
  unfolding dispatch encode
  Sound-port e =
      let (b, same) = checked (len == 3) (port (record { port = (bytes_to_int 2 v).0 })) m v e w in
      let three : len ≡ 3 = (==_iff len 3).0 b in
      landed _ 9 3 _ (omega arith) refl three (write_last 2 v h (omega arith)) same

  Sound-bitfield : Sound 5
  unfolding dispatch encode
  Sound-bitfield e =
      let (b, same) = checked (leb 0 len) (bitfield (record { bitfield = v })) m v e w in
      landed _ 5 ((1 + length v) % 2 ^ 32) v (omega arith) refl (omega arith) refl same

  Sound-request : Sound 6
  unfolding dispatch encode
  Sound-request e =
      let r₁ = bytes_to_int 4 v in
      let r₂ = bytes_to_int 4 r₁.1 in
      let r₃ = bytes_to_int 4 r₂.1 in
      let x = request (record { req_index = r₁.0; req_begin = r₂.0; req_length = r₃.0 }) in
      let (b, same) = checked (len == 13) x m v e w in
      let thirteen : len ≡ 13 = (==_iff len 13).0 b in
      landed x 6 13 _ (omega arith) refl thirteen (write_three v h (omega arith)) same

  Sound-cancel : Sound 8
  unfolding dispatch encode
  Sound-cancel e =
      let r₁ = bytes_to_int 4 v in
      let r₂ = bytes_to_int 4 r₁.1 in
      let r₃ = bytes_to_int 4 r₂.1 in
      let x = cancel (record { index = r₁.0; begin = r₂.0; len = r₃.0 }) in
      let (b, same) = checked (len == 13) x m v e w in
      let thirteen : len ≡ 13 = (==_iff len 13).0 b in
      landed x 8 13 _ (omega arith) refl thirteen (write_three v h (omega arith)) same

  Sound-piece : Sound 7
  unfolding dispatch encode
  Sound-piece e =
      let r₁ = bytes_to_int 4 v in
      let r₂ = bytes_to_int 4 r₁.1 in
      let x = piece (record { index = r₁.0; begin = r₂.0; block = r₂.1 }) in
      let (b, same) = checked (leb 9 len) x m v e w in
      let le : 9 ≤ len = leb→le 9 len b in
      let h₁ = rest-IsBytes v h (omega arith) in
      let l₁ = rest_length v h (omega arith) in
      let l₂ = rest_length r₁.1 h₁ (omega arith) in
      let size₂ : (9 + length r₂.1) % 2 ^ 32 ≡ len = omega arith in
      landed x 7 ((9 + length r₂.1) % 2 ^ 32) _ (omega arith) refl (sym size₂)
        (write_next v _ h (omega arith) (int_to_bytes-bytes_to_int 4 r₁.1 h₁ (omega arith))) same

  not_matched :
      (type : ℕ)
      → 9 < type
      → dispatch type v len buf ≡ failure type buf "Cannot match parsed msgType to message"
  unfolding dispatch
  not_matched type lt = ground arith

  Sound-type : (c : ℕ) → c < 256 → Sound c
  unfolding dispatch encode
  Sound-type zero lt e = sound_empty choke 0 (omega arith) refl e
  Sound-type (suc zero) lt e = sound_empty unchoke 1 (omega arith) refl e
  Sound-type (suc (suc zero)) lt e = sound_empty interested 2 (omega arith) refl e
  Sound-type (suc (suc (suc zero))) lt e = sound_empty not_interested 3 (omega arith) refl e
  Sound-type (suc (suc (suc (suc zero)))) lt e = Sound-have e
  Sound-type (suc (suc (suc (suc (suc zero))))) lt e = Sound-bitfield e
  Sound-type (suc (suc (suc (suc (suc (suc zero)))))) lt e = Sound-request e
  Sound-type (suc (suc (suc (suc (suc (suc (suc zero))))))) lt e = Sound-piece e
  Sound-type (suc (suc (suc (suc (suc (suc (suc (suc zero)))))))) lt e = Sound-cancel e
  Sound-type (suc (suc (suc (suc (suc (suc (suc (suc (suc zero))))))))) lt e = Sound-port e
  Sound-type (suc (suc (suc (suc (suc (suc (suc (suc (suc (suc c)))))))))) lt e =
      let t : ℕ = sign_extend (suc (suc (suc (suc (suc (suc (suc (suc (suc (suc c)))))))))) in
      absurd (subst IsWire (sym e ∙ not_matched t (ground arith)) w)

sound_body :
    (view : List ℕ) (len : ℕ) (buf : List ℕ) (m : Message)
    → IsBytes view
    → len ≡ length view
    → len < 2 ^ 32
    → IsWire m
    → decode_body len view buf ≡ m
    → encode m ≡ some (int_to_bytes 4 len ++ view)
unfolding decode_body encode
sound_body [] len buf m h size small w e =
    let (b, same) = checked (len == 0) keep_alive m [] e w in
    ap encode (sym same)
    ∙ ap some (sym (append-nil (int_to_bytes 4 0)))
    ∙ ap (λ n. some (int_to_bytes 4 n ++ [])) (sym size)
sound_body (c ∷ view) len buf m h size small w e =
    Sound-type view len buf m h.1 size small w c h.0 e

tested :
    (b : Bool) (x m : Message) (type : ℕ) (buf : List ℕ) (reason : String)
    → (if b then x else failure type buf reason) ≡ m
    → IsWire m
    → (b ≡ true) × (x ≡ m)
tested true x m type buf reason e w = (refl, e)
tested false x m type buf reason e w = absurd (subst IsWire (sym e) w)

-- A buffer of at least four bytes that decode accepts, with a result that is no handshake and no
-- serialize error, is the encoding of the message returned.
pub encode-decode :
    (buf : List ℕ) (m : Message)
    → IsBytes buf
    → 4 ≤ length buf
    → decode buf ≡ m
    → IsWire m
    → encode m ≡ some buf
unfolding decode
encode-decode buf m h le e w =
    let len = (bytes_to_int 4 buf).0 in
    let view = (bytes_to_int 4 buf).1 in
    let (b, same) = tested (len == length view) (decode_body len view buf) m no_type buf _ e w in
    sound_body view len buf m (rest-IsBytes buf h le) ((==_iff len (length view)).0 b)
      (bytes_to_int_bounds 4 buf h le).0 w same
    ∙ ap some (int_to_bytes-bytes_to_int 4 buf h le)
