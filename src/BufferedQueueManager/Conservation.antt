-- ===== src/BufferedQueueManager/Conservation.antt =====
-- The bytes that a round of `parseMessage` of BufferedQueueManager.h takes and holds.
use fractals.Prelude.{
  ℕ, suc, ◌+◌, ◌-◌, ◌%◌, ◌^◌, ◌<◌, ◌≡◌, min, Option, none, some, List, [], ◌∷◌, ◌++◌, arith, length,
  ltb, leb, true, false, take, drop, append_assoc, take-append-drop, length-drop, ap, Bool-cases,
  inl, inr, append-nil,
}
use fractals.Prelude.Int.{ℤ, pos, negsuc}
use fractals.Bytes.{bytes_to_int}
use fractals.BufferedQueueManager.Deque.{
  ReadMsgState, parse_deque, parse_first, parse_more, parse_length, Parsed, is_complete,
  is_initialized,
}

-- The bytes that a deque holds, in the order of their arrival.
abbrev pub held : List ReadMsgState → List ℕ
held [] = []
held (m ∷ older) = held older ++ m.buffer

abbrev pub held? : Option (List ReadMsgState) → List ℕ
held? none = []
held? (some deque) = held deque

-- A round moved at least one byte from the front of the data to the end of what is held.
pub record Moves (before : List ℕ) (input : List ℕ) (deque : List ReadMsgState) (rest : List ℕ)
    : Type 0 where
  pub kept : held deque ++ rest ≡ before ++ input
  pub shorter : length rest < length input

moved :
    (n : ℕ) (older : List ReadMsgState) (l : ℤ) (buffer input : List ℕ)
    → 0 < n
    → 0 < length input
    → Moves
        (held older ++ buffer)
        input
        (record { m_length = l; buffer = buffer ++ take n input } ∷ older)
        (drop n input)
moved n older l buffer input pos_n pos_input = record {
  kept = simp append_assoc (ap (λ xs. held older ++ (buffer ++ xs)) (take-append-drop n input));
  shorter = omega (arith, length-drop n input);
}

-- What a call leaves, if it returns.
abbrev pub Leaves : List ℕ → List ℕ → Parsed → Type 0
Leaves before input none = Unit
Leaves before input (some (complete, deque, rest)) = Moves before input deque rest

parse_first-Leaves : (input : List ℕ) → Leaves [] input (parse_first input)
unfolding parse_first
parse_first-Leaves [] = tt
parse_first-Leaves (c ∷ input) = elim (Bool-cases (ltb (49 + c) (2 ^ 31))) [
  | inr big ↦ rw (big, parse_first) tt
  | inl small ↦
      let some_left : leb 0 (49 + c) ≡ true = ground arith in
      rw (small, some_left, parse_first)
        (moved (min (49 + c - 0) (suc (length input))) [] (pos (49 + c)) [] (c ∷ input)
          (omega arith) (omega arith))
]

more-Leaves :
    (l : ℤ) (buffer : List ℕ) (older : List ReadMsgState) (input : List ℕ)
    → is_initialized (record { m_length = l; buffer = buffer }) ≡ true
    → is_complete (record { m_length = l; buffer = buffer }) ≡ false
    → 0 < length input
    → Leaves
        (held older ++ buffer)
        input
        (parse_more (record { m_length = l; buffer = buffer }) older input)
unfolding parse_more is_initialized
more-Leaves (pos n) buffer older input i c h =
    let le : leb (length buffer) n ≡ true = ground arith in
    rw (le, parse_more)
      (moved (min (n - length buffer) (length input)) older (pos n) buffer input (ground arith) h)
more-Leaves (negsuc n) buffer older input i c h = cc

length-Leaves :
    (l : ℤ) (buffer : List ℕ) (older : List ReadMsgState) (input : List ℕ)
    → 0 < length input
    → Leaves
        (held older ++ buffer)
        input
        (parse_length (record { m_length = l; buffer = buffer }) older input)
unfolding parse_length
length-Leaves l buffer older input h =
    let n = min 4 (length input) in
    let size = length (buffer ++ take n input) in
    let value = ((bytes_to_int 4 (buffer ++ take n input)).0 + 4) % 2 ^ 32 in
    let left = λ (l' : ℤ). moved n older l' buffer input (omega arith) h in
    elim (Bool-cases (leb 4 size)) [
      | inr few ↦ rw (few, parse_length) (left l)
      | inl enough ↦ elim (Bool-cases (ltb value (2 ^ 31))) [
        | inl small ↦ rw (enough, small, parse_length) (left (pos value))
        | inr big ↦ rw (enough, big, parse_length) tt
      ]
    ]

-- A call of `parseMessage` that returns has moved at least one byte off the data, and lost none.
pub parse_deque-Leaves :
    (deque : Option (List ReadMsgState)) (input : List ℕ)
    → 0 < length input
    → Leaves (held? deque) input (parse_deque deque input)
unfolding parse_deque
parse_deque-Leaves none input h = parse_first-Leaves input
parse_deque-Leaves (some []) input h = length-Leaves (negsuc 0) [] [] input h
parse_deque-Leaves (some (m ∷ older)) input h = elim (Bool-cases (is_complete m)) [
  | inl full ↦
      let fresh =
        rw (append-nil (held (m ∷ older))) at (length-Leaves (negsuc 0) [] (m ∷ older) input h) in
      elim (Bool-cases (is_initialized m)) [
        | inl known ↦ rw (full, known) fresh
        | inr unknown ↦ rw (full, unknown) fresh
      ]
  | inr missing ↦ elim (Bool-cases (is_initialized m)) [
    | inl known ↦ rw (missing, known) (more-Leaves m.m_length m.buffer older input known missing h)
    | inr unknown ↦ rw (missing, unknown) (length-Leaves m.m_length m.buffer older input h)
  ]
]
