-- ===== src/Examples/Queues.antt =====
-- The queues of four slots.
use fractals.Prelude.{
  ℕ, ◌≡◌, refl, none, some, List, [], ◌∷◌, arith, ◌++◌, map, take, replicate, false,
}
use fractals.WorkQueue.{WorkQueue, push, pop, is_empty, for_each}
use fractals.WorkQueue.Ring.{Holds}
use fractals.WorkQueue.Trace.{Op, put, get, init, run, fifo, run-init-eq-fifo, for_each-take}
use fractals.FullDuplexQueue
use fractals.FullDuplexQueue.{FullDuplexQueue, can_push-false}
use fractals.FullDuplexQueue.Transfer.{
  left_pushes, right_pushes, left_pops, right_pops, pops-pushes,
}

-- Six pushes on four slots, with two pops between: the ring goes round once.
abbrev trace : List (Op ℕ)
trace = put 1 ∷ put 2 ∷ get ∷ put 3 ∷ put 4 ∷ put 5 ∷ put 6 ∷ get ∷ get ∷ get ∷ get ∷ get ∷ []

run-init-eq-fifo_example : run 4 (init 4 0) trace ≡ fifo 4 [] trace
run-init-eq-fifo_example = run-init-eq-fifo 4 (omega arith) (omega arith) 0 trace

run-trace : run 4 (init 4 0) trace ≡ some 1 ∷ some 2 ∷ some 3 ∷ some 4 ∷ some 5 ∷ none ∷ []
unfolding run init push pop is_empty
run-trace = refl

-- Two events, one in the last slot and one in the first.
abbrev wrapped : WorkQueue ℕ
wrapped = record { events = 5 ∷ 2 ∷ 3 ∷ 4 ∷ []; head = 5; tail = 3 }

abbrev wrapped-Holds : Holds 4 wrapped (4 ∷ 5 ∷ [])
wrapped-Holds = record {
  valid = record {
    slots = refl;
    ordered = omega arith;
    fits = omega arith;
    calibrated = omega arith;
  };
  stored = refl;
}

for_each-take_example : for_each 4 wrapped ≡ map some (take 1 (4 ∷ 5 ∷ [])) ++ replicate 1 none
for_each-take_example = for_each-take 4 wrapped (4 ∷ 5 ∷ []) wrapped-Holds

for_each-wrapped : for_each 4 wrapped ≡ some 4 ∷ none ∷ []
unfolding for_each
for_each-wrapped = refl

abbrev duplex : FullDuplexQueue ℕ ℕ
duplex = record { left_queue = wrapped; right_queue = wrapped }

-- One event more from the left, and two from the right.
pops-pushes_example :
    (right_pops 4 3 (right_pushes 4 (8 ∷ 9 ∷ []) (left_pushes 4 (7 ∷ []) duplex))
      ≡ some 4 ∷ some 5 ∷ some 7 ∷ [])
    × (left_pops 4 4 (right_pushes 4 (8 ∷ 9 ∷ []) (left_pushes 4 (7 ∷ []) duplex))
        ≡ some 4 ∷ some 5 ∷ some 8 ∷ some 9 ∷ [])
pops-pushes_example =
    pops-pushes 4 (omega arith) (omega arith) (4 ∷ 5 ∷ []) (7 ∷ []) (4 ∷ 5 ∷ []) (8 ∷ 9 ∷ []) duplex
      wrapped-Holds wrapped-Holds (omega arith) (omega arith)

can_push-false_left : FullDuplexQueue.can_push 4 (FullDuplexQueue.get_left_end duplex) ≡ false
can_push-false_left = can_push-false 4 (FullDuplexQueue.get_left_end duplex) (omega arith)
