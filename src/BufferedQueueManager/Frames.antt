-- ===== src/BufferedQueueManager/Frames.antt =====
-- One frame of a stream, read by `parseMessage` of BufferedQueueManager.h.
use fractals.Prelude.{
  ℕ, ◌+◌, ◌-◌, ◌%◌, ◌^◌, ◌<◌, ◌≡◌, min, Bool, some, List, [], ◌∷◌, ◌++◌, arith, length, leb, true,
  false, take, drop, ◌||◌, ap, sym, Bool-cases, inl, inr, refl, length-append, take-append,
  drop-append, lt→ltb,
}
use fractals.Prelude.Int.{pos}
use fractals.Bytes.{int_to_bytes, bytes_to_int}
use fractals.Bytes.Endian.{length-int_to_bytes}
use fractals.Encoder.RoundTrip.{read_last}
use fractals.BufferedQueueManager.Deque.{
  ReadMsgState, parse_deque, parse_length, parse_more, is_complete, is_initialized, new,
}

-- No message is underway.
abbrev pub IsIdle : List ReadMsgState → Type 0
IsIdle [] = Unit
IsIdle (m ∷ older) = is_complete m ≡ true

abbrev pub frame : List ℕ → List ℕ
frame body = int_to_bytes 4 (length body) ++ body

-- The state that a frame leaves.
abbrev pub framed : List ℕ → ReadMsgState
framed body = record { m_length = pos (length body + 4); buffer = frame body }

pub parse_idle :
    (dq : List ReadMsgState) (input : List ℕ)
    → IsIdle dq
    → parse_deque (some dq) input ≡ parse_length new dq input
unfolding parse_deque
parse_idle [] input h = refl
parse_idle (m ∷ older) input h = elim (Bool-cases (is_initialized m)) [
  | inl known ↦ rw (h, known)
  | inr unknown ↦ rw (h, unknown)
]

pub header :
    (len : ℕ) (dq : List ReadMsgState) (rest : List ℕ)
    → len + 4 < 2 ^ 31
    → parse_length new dq (int_to_bytes 4 len ++ rest)
      ≡ some (
        leb (len + 4) 4,
        record { m_length = pos (len + 4); buffer = int_to_bytes 4 len } ∷ dq,
        rest,
      )
unfolding parse_length
header len dq rest small =
    let size = length-int_to_bytes 4 len in
    let four : min 4 (length (int_to_bytes 4 len ++ rest)) ≡ 4 =
      omega (arith, length-append (int_to_bytes 4 len) rest, size) in
    let whole : take 4 (int_to_bytes 4 len ++ rest) ≡ int_to_bytes 4 len =
      take-append 4 _ rest (sym size) in
    let after : drop 4 (int_to_bytes 4 len ++ rest) ≡ rest = drop-append 4 _ rest (sym size) in
    let value : ((bytes_to_int 4 (int_to_bytes 4 len)).0 + 4) % 2 ^ 32 ≡ len + 4 =
      omega (arith, ap (λ r. r.0) (read_last 4 len (omega arith))) in
    rw (four, whole, after, size, value, lt→ltb (len + 4) (2 ^ 31) small, parse_length) (rw size)

pub or_true : (b : Bool) → (b || true) ≡ true
or_true true = refl
or_true false = refl

pub body_read :
    (body : List ℕ) (dq : List ReadMsgState) (rest : List ℕ)
    → 0 < length body
    → parse_deque
        (some
          (record { m_length = pos (length body + 4); buffer = int_to_bytes 4 (length body) } ∷ dq))
        (body ++ rest)
      ≡ some (true, framed body ∷ dq, rest)
unfolding parse_deque
body_read body dq rest h =
    let len = length body in
    let size = length-int_to_bytes 4 len in
    let missing : leb (len + 4) (length (int_to_bytes 4 len)) ≡ false = ground arith in
    let some_left : leb (length (int_to_bytes 4 len)) (len + 4) ≡ true = ground arith in
    let left : min (len + 4 - length (int_to_bytes 4 len)) (length (body ++ rest)) ≡ len =
      omega (arith, length-append body rest) in
    let whole : leb (len + 4) (length (int_to_bytes 4 len ++ body)) ≡ true =
      ground (arith, length-append (int_to_bytes 4 len) body) in
    rw (
      missing,
      some_left,
      left,
      take-append len body rest refl,
      drop-append len body rest refl,
      whole,
      or_true,
      parse_more,
    )

pub length-frame :
    (body rest : List ℕ) → length (frame body ++ rest) ≡ 4 + length body + length rest
length-frame body rest = omega (
  arith,
  length-append (frame body) rest,
  length-append (int_to_bytes 4 (length body)) body,
  length-int_to_bytes 4 (length body),
)
