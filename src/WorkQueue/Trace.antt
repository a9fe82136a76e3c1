-- ===== src/WorkQueue/Trace.antt =====
-- Whole runs of WorkQueue.h against a bounded queue, and `forEach`.
use fractals.Prelude.{
  ℕ, zero, suc, ◌+◌, ◌-◌, ◌*◌, ◌^◌, ◌≤◌, ◌<◌, ◌≡◌, refl, ap, Option, none, some, List, [], ◌∷◌,
  ◌++◌, arith, get_elem?, length, map, take, inl, inr, sym, ◌∙◌, if◌then◌else◌, ◌==◌, replicate,
  length-replicate, ltb, ltb→lt, Bool-cases, ==_ne,
}
use native.Mathlib.Nat.{mod-eq_of_lt}
use fractals.WorkQueue.{WorkQueue, is_empty, push, pop, for_each, for_each_from}
use fractals.WorkQueue.Window.{window}
use fractals.WorkQueue.Ring.{Holds, push-Holds, pop-Holds, is_empty-Holds}

-- A producer pushes; a consumer pops where the queue is not empty.
pub data Op {ℓ} (A : Type ℓ) : Type ℓ where
  put : A → Op A
  get : Op A

module _ {ℓ} {A : Type ℓ} (SIZE : ℕ) where
  -- The queue of a new object: `fill` stands for the default-constructed events.
  unfoldable pub init : A → WorkQueue A
  init fill = record { events = replicate SIZE fill; head = 0; tail = 0 }

  unfoldable pub run : WorkQueue A → List (Op A) → List (Option A)
  run q [] = []
  run q (put x ∷ ops) = run (push SIZE x q) ops
  run q (get ∷ ops) =
      let taken = pop SIZE q in
      let popped = taken.0 ∷ run taken.1 ops in
      let idle = none ∷ run q ops in if is_empty SIZE q then idle else popped

  -- The contract: a list, oldest first, of at most SIZE events; what does not fit is dropped.
  pub fifo : List A → List (Op A) → List (Option A)
  fifo xs [] = []
  fifo xs (put x ∷ ops) = fifo (if length xs == SIZE then xs else xs ++ x ∷ []) ops
  fifo [] (get ∷ ops) = none ∷ fifo [] ops
  fifo (x ∷ xs) (get ∷ ops) = some x ∷ fifo xs ops

module _ {ℓ} {A : Type ℓ} (SIZE : ℕ) (positive : 0 < SIZE) (small : 2 * SIZE < 2 ^ 31) where
  run-eq-fifo :
      (q : WorkQueue A) (xs : List A) (ops : List (Op A))
      → Holds SIZE q xs
      → run SIZE q ops ≡ fifo SIZE xs ops
  unfolding run fifo
  run-eq-fifo q xs [] h = refl
  run-eq-fifo q xs (put x ∷ ops) h =
      run-eq-fifo (push SIZE x q) _ ops (push-Holds SIZE positive small q xs x h)
  run-eq-fifo q [] (get ∷ ops) h =
      rw (is_empty-Holds SIZE positive small q [] h) (ap (◌∷◌ none) (run-eq-fifo q [] ops h))
  run-eq-fifo q (x ∷ xs) (get ∷ ops) h =
      let (first, rest) = pop-Holds SIZE positive small q x xs h in
      rw
        (
          is_empty-Holds SIZE positive small q (x ∷ xs) h,
          ==_ne (suc (length xs)) 0 (omega arith),
          first,
        )
        (ap (◌∷◌ (some x)) (run-eq-fifo (pop SIZE q).1 xs ops rest))

  init-Holds : (fill : A) → Holds SIZE (init SIZE fill) []
  unfolding init
  init-Holds fill = record {
    valid = record {
      slots = length-replicate SIZE fill;
      ordered = omega arith;
      fits = omega arith;
      calibrated = omega arith;
    };
    stored = refl;
  }

  -- For a SIZE above 0 and below 2 ^ 30, and from a new queue on, every run of pushes and guarded
  -- pops gives what the bounded queue gives.
  pub run-init-eq-fifo :
      (fill : A) (ops : List (Op A)) → run SIZE (init SIZE fill) ops ≡ fifo SIZE [] ops
  run-init-eq-fifo fill ops = run-eq-fifo (init SIZE fill) [] ops (init-Holds fill)

module _ {ℓ} {A : Type ℓ} (SIZE : ℕ) where
  read_past : (events : List A) (i : ℕ) → length events ≤ i → get_elem? events i ≡ none
  read_past [] i h = refl
  read_past (x ∷ events) zero h = absurd (omega arith)
  read_past (x ∷ events) (suc i) h = read_past events i (omega arith)

  take_nil : (n : ℕ) → (let xs : List A = [] in take n xs) ≡ []
  take_nil zero = refl
  take_nil (suc n) = refl

  for_each_past :
      (events : List A) (count ptr : ℕ)
      → length events ≤ ptr
      → for_each_from SIZE count ptr events ≡ replicate count none
  unfolding for_each_from
  for_each_past events zero ptr h = refl
  for_each_past events (suc count) ptr h =
      rw (read_past events ptr h)
        (ap (◌∷◌ none) (for_each_past events count (suc ptr) (omega arith)))

  for_each-window :
      (events : List A) (count ptr : ℕ) (xs : List A)
      → length events ≡ SIZE
      → ptr ≤ SIZE
      → window SIZE events ptr count ≡ map some xs
      → for_each_from SIZE count ptr events
        ≡ map some (take (SIZE - ptr) xs) ++ replicate (ptr + count - SIZE) none
  unfolding for_each_from
  for_each-window events zero ptr [] e p w =
      let k : ptr + 0 - SIZE ≡ 0 = omega arith in rw (k, take_nil (SIZE - ptr)) refl
  for_each-window events zero ptr (x ∷ xs) e p w = absurd (cc)
  for_each-window events (suc count) ptr [] e p w = absurd (cc)
  for_each-window events (suc count) ptr (x ∷ xs) e p w = elim (Bool-cases (ltb ptr SIZE)) [
    | inl t ↦
        let lt : ptr < SIZE = ltb→lt _ _ t in
        let first : get_elem? events ptr ≡ some x =
          ap (get_elem? events) (sym (mod-eq_of_lt lt)) ∙ cc in
        let room : SIZE - ptr ≡ suc (SIZE - suc ptr) = omega arith in
        let past : ptr + suc count - SIZE ≡ suc ptr + count - SIZE = omega arith in
        rw (room, past, first)
          (ap (◌∷◌ (some x)) (for_each-window events count (suc ptr) xs e lt (cc)))
    | inr f ↦
        let room : SIZE - ptr ≡ 0 = ground arith in
        let past : ptr + suc count - SIZE ≡ suc count = ground arith in
        rw (room, past) (for_each_past events (suc count) ptr (ground arith))
  ]

  -- On a valid queue, forEach visits the events held, in order, up to the end of the array, and
  -- then reads as many elements outside the array as the events held run past its end.
  pub for_each-take :
      (q : WorkQueue A) (xs : List A)
      → Holds SIZE q xs
      → for_each SIZE q ≡ map some (take (SIZE - q.tail) xs) ++ replicate (q.head - SIZE) none
  unfolding for_each
  for_each-take q xs h =
      let end : q.tail + (q.head - q.tail) ≡ q.head = omega (arith, h.valid.ordered) in
      for_each-window q.events (q.head - q.tail) q.tail xs h.valid.slots h.valid.calibrated h.stored
      ∙ ap (λ k. map some (take (SIZE - q.tail) xs) ++ replicate (k - SIZE) none) end
