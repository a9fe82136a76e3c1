-- ===== src/BufferedQueueManager/SplitLength.antt =====
-- `parseMessage` of BufferedQueueManager.h at a length that arrives in two pieces.
use fractals.Prelude.{
  ℕ, ◌+◌, ◌-◌, ◌%◌, ◌^◌, ◌≤◌, ◌<◌, ◌≡◌, min, some, List, [], ◌∷◌, ◌++◌, arith, length, true, false,
  take, drop, append_assoc, ap, ◌∙◌, sym, length-append, lt→ltb, le→leb, lt→leb_false, take_all,
  drop_all, take-append_ge, All-take, length-take,
}
use fractals.Prelude.Int.{pos, negsuc}
use fractals.Bytes.{IsByte, IsBytes, int_to_bytes, bytes_to_int}
use fractals.Bytes.Endian.{length-int_to_bytes}
use fractals.Bytes.RoundTrip.{bytes_to_int-int_to_bytes}
use fractals.BufferedQueueManager.Deque.{ReadMsgState, parse_deque, parse_length}
use fractals.BufferedQueueManager.Frames.{IsIdle, frame, parse_idle}

abbrev partial : List ℕ → ReadMsgState
partial bytes = record { m_length = negsuc 0; buffer = bytes }

first_piece :
    (dq : List ReadMsgState) (h₁ : List ℕ)
    → IsIdle dq
    → length h₁ < 4
    → parse_deque (some dq) h₁ ≡ some (false, partial h₁ ∷ dq, [])
unfolding parse_length
first_piece dq h₁ i k =
    let all : min 4 (length h₁) ≡ length h₁ = omega arith in
    parse_idle dq h₁ i
    ∙ rw (
      all,
      take_all (length h₁) h₁ (omega arith),
      drop_all (length h₁) h₁ (omega arith),
      lt→leb_false 4 (length h₁) k,
      parse_length,
    )

module _ (dq : List ReadMsgState) (h₁ h₂ body next : List ℕ) (i : IsIdle dq)
    (cut : h₁ ++ h₂ ≡ int_to_bytes 4 (length body)) (k : length h₁ < 4)
    (short : length body < length h₁) (bytes : IsBytes (body ++ next))
    (room : 4 ≤ length (h₂ ++ (body ++ next))) where
  second_piece :
      parse_deque (some (partial h₁ ∷ dq)) (h₂ ++ (body ++ next))
      ≡ some (
        true,
        record { m_length = pos (length body + 4); buffer = h₁ ++ take 4 (h₂ ++ (body ++ next)) }
            ∷ dq,
        drop 4 (h₂ ++ (body ++ next)),
      )
  unfolding parse_deque
  second_piece =
      let input = h₂ ++ (body ++ next) in
      let four : min 4 (length input) ≡ 4 = omega arith in
      let size : length (h₁ ++ take 4 input) ≡ length h₁ + 4 =
        omega (arith, length-append h₁ (take 4 input), length-take 4 input) in
      let halves : length h₁ + length h₂ ≡ 4 =
        omega (arith, length-append h₁ h₂, ap length cut, length-int_to_bytes 4 (length body)) in
      let tail = take (4 - length h₂) (body ++ next) in
      let parts : h₁ ++ take 4 input ≡ int_to_bytes 4 (length body) ++ tail =
        ap (◌++◌ h₁) (take-append_ge 4 h₂ (body ++ next) (omega arith))
        ∙ sym (append_assoc h₁ h₂ tail)
        ∙ ap (λ xs. xs ++ tail) cut in
      let value : ((bytes_to_int 4 (h₁ ++ take 4 input)).0 + 4) % 2 ^ 32 ≡ length body + 4 = omega (
        arith,
        ap (λ xs. (bytes_to_int 4 xs).0) parts,
        ap (λ r. r.0)
            (bytes_to_int-int_to_bytes 4 (length body) tail
              (All-take IsByte (4 - length h₂) (body ++ next) bytes) (omega arith)),
      ) in
      rw (
        four,
        le→leb 4 (length (h₁ ++ take 4 input)) (omega arith),
        value,
        lt→ltb (length body + 4) (2 ^ 31) (omega arith),
        le→leb (length body + 4) (length (h₁ ++ take 4 input)) (omega arith),
        parse_length,
      )

  -- When one to three bytes of a frame's length arrive first, with no message underway, the body
  -- is shorter than that piece, and at least four bytes follow together, the message that is
  -- declared complete holds more bytes than the frame has.
  pub split_length_overruns :
      (m : ReadMsgState) × (parse_deque (some dq) h₁ ≡ some (false, partial h₁ ∷ dq, []))
      × (parse_deque (some (partial h₁ ∷ dq)) (h₂ ++ (body ++ next))
          ≡ some (true, m ∷ dq, drop 4 (h₂ ++ (body ++ next))))
      × (length (frame body) < length m.buffer)
  split_length_overruns =
      let input = h₂ ++ (body ++ next) in
      (
        record { m_length = pos (length body + 4); buffer = h₁ ++ take 4 input },
        first_piece dq h₁ i k,
        second_piece,
        omega (
          arith,
          length-append h₁ (take 4 input),
          length-take 4 input,
          length-append (int_to_bytes 4 (length body)) body,
          length-int_to_bytes 4 (length body),
        ),
      )
