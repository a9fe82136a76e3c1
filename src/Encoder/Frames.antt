-- ===== src/Encoder/Frames.antt =====
-- The encoding of a message as a frame of the stream: its length, and a body of that length.

use fractals.Prelude.{
  ℕ, ◌+◌, ◌≡◌, some, List, [], ◌++◌, arith, length, refl, ap, sym, ◌∙◌, length-append,
}
use fractals.Bytes.{int_to_bytes}
use fractals.Bytes.Endian.{length-int_to_bytes}
use fractals.Message.{
  Message, choke, unchoke, interested, not_interested, keep_alive, have, bitfield, request, piece,
  cancel, port, hand_shake, serialize_error, IsWellFormed, get_len,
}
use fractals.Encoder.{encode}
use fractals.Encoder.RoundTrip.{IsWire}
use fractals.BufferedQueueManager.Frames.{frame}

abbrev pub Framed : Message → Type 0
Framed m = (body : List ℕ) × (encode m ≡ some (frame body)) × (length body ≡ get_len m)

framed :
    (m : Message) (k : ℕ) (body : List ℕ)
    → encode m ≡ some (int_to_bytes 4 k ++ body)
    → length body ≡ k
    → k ≡ get_len m
    → Framed m
framed m k body e l g = (body, e ∙ ap (λ n. some (int_to_bytes 4 n ++ body)) (sym l), l ∙ g)

typed :
    (m : Message) (k type : ℕ) (payload : List ℕ)
    → encode m ≡ some (int_to_bytes 4 k ++ (int_to_bytes 1 type ++ payload))
    → 1 + length payload ≡ k
    → k ≡ get_len m
    → Framed m
typed m k type payload e l g =
    framed m k (int_to_bytes 1 type ++ payload) e
      (omega (arith, length-append (int_to_bytes 1 type) payload, length-int_to_bytes 1 type)) g

three_numbers :
    (a b c : ℕ) → length (int_to_bytes 4 a ++ (int_to_bytes 4 b ++ int_to_bytes 4 c)) ≡ 12
three_numbers a b c = omega (
  arith,
  length-append (int_to_bytes 4 a) (int_to_bytes 4 b ++ int_to_bytes 4 c),
  length-append (int_to_bytes 4 b) (int_to_bytes 4 c),
  length-int_to_bytes 4 a,
  length-int_to_bytes 4 b,
  length-int_to_bytes 4 c,
)

pub encode-Framed : (m : Message) → IsWellFormed m → IsWire m → Framed m
unfolding encode
encode-Framed choke h w = typed choke 1 0 [] refl refl refl
encode-Framed unchoke h w = typed unchoke 1 1 [] refl refl refl
encode-Framed interested h w = typed interested 1 2 [] refl refl refl
encode-Framed not_interested h w = typed not_interested 1 3 [] refl refl refl
encode-Framed keep_alive h w = framed keep_alive 0 [] refl refl refl
encode-Framed (have t) h w =
    typed (have t) 5 4 (int_to_bytes 4 t.piece_index) refl
      (omega (arith, length-int_to_bytes 4 t.piece_index)) refl
encode-Framed (bitfield t) h w =
    typed (bitfield t) (get_len (bitfield t)) 5 t.bitfield refl (omega (arith, h.1)) refl
encode-Framed (request t) h w =
    typed (request t) 13 6 _ refl
      (omega (arith, three_numbers t.req_index t.req_begin t.req_length)) refl
encode-Framed (piece t) h w =
    typed (piece t) (get_len (piece t)) 7
      (int_to_bytes 4 t.index ++ (int_to_bytes 4 t.begin ++ t.block)) refl
      (omega (
        arith,
        h.3,
        length-append (int_to_bytes 4 t.index) (int_to_bytes 4 t.begin ++ t.block),
        length-append (int_to_bytes 4 t.begin) t.block,
        length-int_to_bytes 4 t.index,
        length-int_to_bytes 4 t.begin,
      ))
      refl
encode-Framed (cancel t) h w =
    typed (cancel t) 13 8 _ refl (omega (arith, three_numbers t.index t.begin t.len)) refl
encode-Framed (port t) h w =
    typed (port t) 3 9 (int_to_bytes 2 t.port) refl (omega (arith, length-int_to_bytes 2 t.port))
      refl
encode-Framed (hand_shake t) h w = absurd w
encode-Framed (serialize_error t) h w = absurd w
