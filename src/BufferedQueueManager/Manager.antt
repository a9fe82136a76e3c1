-- ===== src/BufferedQueueManager/Manager.antt =====
-- `addToReadBuffer` of BufferedQueueManager.h over the deques of all peers.
use fractals.Prelude.{
  ℕ, zero, suc, ◌≤◌, ◌<◌, ◌≡◌, ◌≢◌, Bool, Option, none, some, List, [], ◌∷◌, ◌++◌, arith, length,
  false, ◌||◌, ap, ◌∙◌, sym, refl, append-nil, subst,
}
use fractals.Prelude.Eq.{Eq, beq_ne}
use fractals.Prelude.Map.{Map, find, assign, find-assign, find-assign_self}
use fractals.BufferedQueueManager.{
  BufferedQueueManager, Outcome, done, thrown, out_of_fuel, parse_message, add_loop,
  add_to_read_buffer,
}
use fractals.BufferedQueueManager.Deque.{ReadMsgState, parse_deque, Parsed}
use fractals.BufferedQueueManager.Conservation.{held?, Leaves, parse_deque-Leaves}

module _ {K : Type 0} ⦃e : Eq K⦄ where
  abbrev pub stored : K → BufferedQueueManager K → Option (List ReadMsgState)
  stored p q = find p q.read_buffers

  -- What adding data for a peer leaves: its bytes and the new ones after them, and every other
  -- peer's deque as it was. It may throw, and it does not run on.
  abbrev pub Adds :
      K → List ℕ → BufferedQueueManager K → Outcome (Bool × BufferedQueueManager K) → Type 0
  Adds p input q (done (completed, q')) =
      (held? (stored p q') ≡ held? (stored p q) ++ input)
      × ((j : K) → p ≢ j → stored j q' ≡ stored j q)
  Adds p input q thrown = Unit
  Adds p input q out_of_fuel = ⊥

  Adds-trans :
      (p : K) (input rest : List ℕ) (q q' : BufferedQueueManager K)
      (o : Outcome (Bool × BufferedQueueManager K))
      → held? (stored p q') ++ rest ≡ held? (stored p q) ++ input
      → ((j : K) → p ≢ j → stored j q' ≡ stored j q)
      → Adds p rest q' o
      → Adds p input q o
  Adds-trans p input rest q q' (done (b, r)) kept others a =
      (a.0 ∙ kept, λ j ne. a.1 j ne ∙ others j ne)
  Adds-trans p input rest q q' thrown kept others a = tt
  Adds-trans p input rest q q' out_of_fuel kept others a = a

  -- One round of the loop.
  pub add_round :
      (fuel : ℕ) (p : K) (completed complete : Bool) (input rest : List ℕ)
      (q : BufferedQueueManager K) (deque : List ReadMsgState)
      → 0 < length input
      → parse_deque (stored p q) input ≡ some (complete, deque, rest)
      → add_loop (suc fuel) p completed input q
        ≡ add_loop fuel p
            (completed || complete)
            rest
            (record q { read_buffers = assign p deque q.read_buffers })
  unfolding add_loop parse_message
  add_round fuel p completed complete [] rest q deque h parsed = absurd (omega arith)
  add_round fuel p completed complete (c ∷ input) rest q deque h parsed = rw (parsed, add_loop)

  add_round_throws :
      (fuel : ℕ) (p : K) (completed : Bool) (input : List ℕ) (q : BufferedQueueManager K)
      → 0 < length input
      → parse_deque (stored p q) input ≡ none
      → add_loop (suc fuel) p completed input q ≡ thrown
  unfolding add_loop parse_message
  add_round_throws fuel p completed [] q h parsed = absurd (omega arith)
  add_round_throws fuel p completed (c ∷ input) q h parsed = rw (parsed, add_loop)

  others_assign :
      (p : K) (deque : List ReadMsgState) (m : Map K (List ReadMsgState)) (j : K)
      → p ≢ j
      → find j (assign p deque m) ≡ find j m
  others_assign p deque m j ne = rw (find-assign p j deque m, beq_ne p j ne)

  add_loop-Adds :
      (fuel : ℕ) (p : K) (completed : Bool) (input : List ℕ) (q : BufferedQueueManager K)
      → length input ≤ fuel
      → Adds p input q (add_loop fuel p completed input q)
  add_loop-Adds fuel p completed [] q h =
      unfold add_loop in (sym (append-nil (held? (stored p q))), λ j ne. refl)
  add_loop-Adds zero p completed (c ∷ input) q h = absurd (omega arith)
  add_loop-Adds (suc fuel) p completed (c ∷ input) q h =
      go (add_loop-Adds fuel p) (parse_deque (stored p q) (c ∷ input)) refl
    where
      go :
          ((b : Bool) (rest : List ℕ) (r : BufferedQueueManager K)
            → length rest ≤ fuel
            → Adds p rest r (add_loop fuel p b rest r))
          → (r : Parsed) → parse_deque (stored p q) (c ∷ input) ≡ r
          → Adds p (c ∷ input) q (add_loop (suc fuel) p completed (c ∷ input) q)
      go ih none parsed =
          rw (add_round_throws fuel p completed (c ∷ input) q (omega arith) parsed) tt
      go ih (some (complete, deque, rest)) parsed =
          let moves =
            subst (Leaves (held? (stored p q)) (c ∷ input)) parsed
              (parse_deque-Leaves (stored p q) (c ∷ input) (omega arith)) in
          let q' : BufferedQueueManager K = record q {
            read_buffers = assign p deque q.read_buffers;
          } in
          rw (add_round fuel p completed complete (c ∷ input) rest q deque (omega arith) parsed) (
            Adds-trans p (c ∷ input) rest q q' (add_loop fuel p (completed || complete) rest q')
              (ap (λ s. held? s ++ rest) (find-assign_self p deque q.read_buffers) ∙ moves.kept)
              (others_assign p deque q.read_buffers)
              (ih (completed || complete) rest q' (omega (arith, h, moves.shorter))))

  -- Adding data for a peer ends within the fuel it is given; unless it throws, the peer's deque
  -- then holds its former bytes and the new ones after them, in order, and no other deque has
  -- changed.
  pub add_to_read_buffer-Adds :
      (p : K) (input : List ℕ) (q : BufferedQueueManager K)
      → Adds p input q (add_to_read_buffer p input q)
  unfolding add_to_read_buffer
  add_to_read_buffer-Adds p input q = add_loop-Adds (length input) p false input q (omega arith)
