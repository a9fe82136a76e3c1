-- ===== src/BufferedQueueManager/Framing.antt =====
-- `addToReadBuffer` of BufferedQueueManager.h on a stream of whole frames.
use fractals.Prelude.{
  ℕ, zero, suc, ◌+◌, ◌^◌, ◌≤◌, ◌<◌, ◌≡◌, ◌≢◌, Bool, some, List, [], ◌∷◌, ◌++◌, arith, length, leb,
  true, false, ◌||◌, append_assoc, ap, ◌∙◌, sym, refl, append-nil, subst, All, length-append,
  le→leb,
}
use fractals.Prelude.Eq.{Eq}
use fractals.Prelude.Int.{pos}
use fractals.Prelude.Map.{assign, find-assign_self}
use fractals.Bytes.{int_to_bytes}
use fractals.Bytes.Endian.{length-int_to_bytes}
use fractals.BufferedQueueManager.{
  BufferedQueueManager, Outcome, done, add_loop, add_to_read_buffer,
}
use fractals.BufferedQueueManager.Deque.{ReadMsgState, parse_deque, is_complete}
use fractals.BufferedQueueManager.Manager.{stored, add_round}
use fractals.BufferedQueueManager.Frames.{
  IsIdle, frame, framed, parse_idle, header, or_true, body_read, length-frame,
}

module _ {K : Type 0} ⦃e : Eq K⦄ where
  -- The manager after whole frames: `deque` is what it holds for the peer.
  pub record Reads (fuel : ℕ) (p : K) (completed : Bool) (input rest : List ℕ)
      (q : BufferedQueueManager K) (deque : List ReadMsgState) : Type 0 where
    pub fuel' : ℕ
    pub after : BufferedQueueManager K
    pub enough : length rest ≤ fuel'
    pub holds : stored p after ≡ some deque
    pub reads : add_loop fuel p completed input q ≡ add_loop fuel' p true rest after

  after_deque : K → List ReadMsgState → BufferedQueueManager K → BufferedQueueManager K
  after_deque p deque q = record q { read_buffers = assign p deque q.read_buffers }

  header_round :
      (fuel : ℕ) (p : K) (completed : Bool) (body rest : List ℕ) (q : BufferedQueueManager K)
      (dq : List ReadMsgState)
      → stored p q ≡ some dq
      → IsIdle dq
      → length body + 4 < 2 ^ 31
      → add_loop (suc fuel) p completed (frame body ++ rest) q
        ≡ add_loop fuel p (completed || leb (length body + 4) 4) (body ++ rest) (
            after_deque p
              (record { m_length = pos (length body + 4); buffer = int_to_bytes 4 (length body) }
                ∷ dq)
              q)
  unfolding after_deque
  header_round fuel p completed body rest q dq s i small =
      let input = int_to_bytes 4 (length body) ++ (body ++ rest) in
      ap (λ xs. add_loop (suc fuel) p completed xs q)
        (append_assoc (int_to_bytes 4 (length body)) body rest)
      ∙ add_round fuel p completed _ input _ q _
          (omega (
            arith,
            length-append (int_to_bytes 4 (length body)) (body ++ rest),
            length-int_to_bytes 4 (length body),
          ))
          (ap (λ o. parse_deque o input) s
            ∙ parse_idle dq input i
            ∙ header (length body) dq (body ++ rest) small)

  stored-after_deque :
      (p : K) (deque : List ReadMsgState) (q : BufferedQueueManager K)
      → stored p (after_deque p deque q) ≡ some deque
  unfolding after_deque
  stored-after_deque p deque q = find-assign_self p deque q.read_buffers

  body_round :
      (fuel : ℕ) (p : K) (completed : Bool) (body rest : List ℕ) (q : BufferedQueueManager K)
      (dq : List ReadMsgState)
      → 0 < length body
      → stored p q
        ≡ some (
            record { m_length = pos (length body + 4); buffer = int_to_bytes 4 (length body) } ∷ dq)
      → add_loop (suc fuel) p completed (body ++ rest) q
        ≡ add_loop fuel p true rest (after_deque p (framed body ∷ dq) q)
  unfolding after_deque
  body_round fuel p completed body rest q dq h s =
      add_round fuel p completed true (body ++ rest) rest q (framed body ∷ dq)
        (omega (arith, length-append body rest))
        (ap (λ o. parse_deque o (body ++ rest)) s ∙ body_read body dq rest h)
      ∙ ap (λ b. add_loop fuel p b rest (after_deque p (framed body ∷ dq) q)) (or_true completed)

  -- A frame at the front of the data becomes one complete message of just its bytes.
  frame-Reads :
      (fuel : ℕ) (p : K) (completed : Bool) (body rest : List ℕ) (q : BufferedQueueManager K)
      (dq : List ReadMsgState)
      → length (frame body ++ rest) ≤ fuel
      → stored p q ≡ some dq
      → IsIdle dq
      → length body + 4 < 2 ^ 31
      → Reads fuel p completed (frame body ++ rest) rest q (framed body ∷ dq)
  frame-Reads zero p completed body rest q dq h s i small =
      absurd (omega (arith, length-frame body rest))
  frame-Reads (suc zero) p completed body rest q dq h s i small =
      absurd (omega (arith, length-frame body rest))
  frame-Reads (suc (suc fuel)) p completed [] rest q dq h s i small =
      let m : ReadMsgState = record { m_length = pos 4; buffer = int_to_bytes 4 0 } in
      record {
        fuel' = suc fuel;
        after = after_deque p (m ∷ dq) q;
        enough = omega (arith, length-frame [] rest);
        holds =
            stored-after_deque p (m ∷ dq) q
            ∙ ap (λ b. some (record { m_length = pos 4; buffer = b } ∷ dq))
                (sym (append-nil (int_to_bytes 4 0)));
        reads =
            header_round (suc fuel) p completed [] rest q dq s i small
            ∙ ap (λ b. add_loop (suc fuel) p b rest (after_deque p (m ∷ dq) q)) (or_true completed);
      }
  frame-Reads (suc (suc fuel)) p completed (c ∷ body) rest q dq h s i small =
      let len : ℕ = suc (length body) in
      let m : ReadMsgState = record { m_length = pos (len + 4); buffer = int_to_bytes 4 len } in
      let q₁ = after_deque p (m ∷ dq) q in
      record {
        fuel' = fuel;
        after = after_deque p (framed (c ∷ body) ∷ dq) q₁;
        enough = omega (arith, length-frame (c ∷ body) rest);
        holds = stored-after_deque p (framed (c ∷ body) ∷ dq) q₁;
        reads =
            header_round (suc fuel) p completed (c ∷ body) rest q dq s i small
            ∙ body_round fuel p (completed || leb (len + 4) 4) (c ∷ body) rest q₁ dq (omega arith)
                (stored-after_deque p (m ∷ dq) q);
      }

-- One complete message for each frame, the last one at the back.
abbrev pub framed_all : List (List ℕ) → List ReadMsgState → List ReadMsgState
framed_all [] dq = dq
framed_all (body ∷ bodies) dq = framed_all bodies (framed body ∷ dq)

abbrev pub stream : List (List ℕ) → List ℕ
stream [] = []
stream (body ∷ bodies) = frame body ++ stream bodies

-- Bodies whose size with the four bytes of the length fits in an `int32_t`.
abbrev pub IsShort : List ℕ → Type 0
IsShort body = length body + 4 < 2 ^ 31

pub framed-IsIdle : (body : List ℕ) (dq : List ReadMsgState) → IsIdle (framed body ∷ dq)
unfolding is_complete
framed-IsIdle body dq = le→leb (length body + 4) (length (frame body)) (
    omega (
      arith,
      length-append (int_to_bytes 4 (length body)) body,
      length-int_to_bytes 4 (length body),
    ))

module _ {K : Type 0} ⦃e : Eq K⦄ where
  -- A call returned, told that a message is complete, and left this deque for the peer.
  abbrev pub Delivers : K → List ReadMsgState → Outcome (Bool × BufferedQueueManager K) → Type 0
  Delivers p dq (done (completed, q)) = (completed ≡ true) × (stored p q ≡ some dq)
  Delivers p dq _ = ⊥

  add_loop-stream :
      (fuel : ℕ) (p : K) (completed : Bool) (bodies : List (List ℕ)) (q : BufferedQueueManager K)
      (dq : List ReadMsgState)
      → length (stream bodies) ≤ fuel
      → stored p q ≡ some dq
      → IsIdle dq
      → All IsShort bodies
      → (bodies ≡ [] → completed ≡ true)
      → Delivers p (framed_all bodies dq) (add_loop fuel p completed (stream bodies) q)
  add_loop-stream fuel p completed [] q dq h s i short c = unfold add_loop in (c refl, s)
  add_loop-stream fuel p completed (body ∷ bodies) q dq h s i short c =
      let r = frame-Reads fuel p completed body (stream bodies) q dq h s i short.0 in
      subst (Delivers p (framed_all bodies (framed body ∷ dq))) (sym r.reads) (
        add_loop-stream r.fuel' p true bodies r.after (framed body ∷ dq) r.enough r.holds
          (framed-IsIdle body dq) short.1 (λ _. refl))

  -- One or more whole frames, each with a body of fewer than 2 ^ 31 - 4 bytes, that arrive in one
  -- piece from a known peer with no message underway become one complete message each, in order,
  -- of just the bytes of that frame; the call returns, and reports a complete message.
  pub add_to_read_buffer-stream :
      (p : K) (bodies : List (List ℕ)) (q : BufferedQueueManager K) (dq : List ReadMsgState)
      → stored p q ≡ some dq
      → IsIdle dq
      → All IsShort bodies
      → bodies ≢ []
      → Delivers p (framed_all bodies dq) (add_to_read_buffer p (stream bodies) q)
  unfolding add_to_read_buffer
  add_to_read_buffer-stream p bodies q dq s i short ne =
      add_loop-stream (length (stream bodies)) p false bodies q dq (omega arith) s i short
        (λ empty. absurd (ne empty))
