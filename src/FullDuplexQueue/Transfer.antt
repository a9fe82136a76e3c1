-- ===== src/FullDuplexQueue/Transfer.antt =====
-- What one end of FullDuplexQueue.h pushes, the other end pops.
use fractals.Prelude.{
  ℕ, zero, suc, ◌+◌, ◌*◌, ◌^◌, ◌≤◌, ◌<◌, ◌≡◌, refl, ap, sym, subst, ◌∙◌, Option, some, List, [],
  ◌∷◌, ◌++◌, map, length, length-append, append-nil, append_assoc, if◌then◌else◌, ==_ne, arith,
}
use fractals.WorkQueue
use fractals.WorkQueue.{WorkQueue}
use fractals.WorkQueue.Ring.{Holds, push-Holds, pop-Holds}
use fractals.FullDuplexQueue.{FullDuplexQueue, get_left_end, get_right_end, push, pop}

module _ {ℓ κ} {L : Type ℓ} {R : Type κ} (SIZE : ℕ) where
  -- The queue after pushes at the left end, and after pushes at the right end: each end writes to the
  -- queue that its `pushEnd` refers to.
  unfoldable pub left_pushes : List L → FullDuplexQueue L R → FullDuplexQueue L R
  left_pushes [] d = d
  left_pushes (x ∷ xs) d =
      left_pushes xs (record d { left_queue = (push SIZE x (get_left_end d)).push_end })

  unfoldable pub right_pushes : List R → FullDuplexQueue L R → FullDuplexQueue L R
  right_pushes [] d = d
  right_pushes (x ∷ xs) d =
      right_pushes xs (record d { right_queue = (push SIZE x (get_right_end d)).push_end })

  -- What so many pops at the left end give, and at the right end.
  unfoldable pub left_pops : ℕ → FullDuplexQueue L R → List (Option R)
  left_pops zero d = []
  left_pops (suc n) d =
      let (event, e) = pop SIZE (get_left_end d) in
      event ∷ left_pops n (record d { right_queue = e.pop_end })

  unfoldable pub right_pops : ℕ → FullDuplexQueue L R → List (Option L)
  right_pops zero d = []
  right_pops (suc n) d =
      let (event, e) = pop SIZE (get_right_end d) in
      event ∷ right_pops n (record d { left_queue = e.pop_end })

module _ {ℓ} {A : Type ℓ} (SIZE : ℕ) (positive : 0 < SIZE) (small : 2 * SIZE < 2 ^ 31) where
  pushed :
      (q : WorkQueue A) (ys : List A) (x : A)
      → Holds SIZE q ys
      → length ys < SIZE
      → Holds SIZE (WorkQueue.push SIZE x q) (ys ++ x ∷ [])
  pushed q ys x h room =
      subst (Holds SIZE (WorkQueue.push SIZE x q))
        (ap (λ b. if b then ys else ys ++ x ∷ []) (==_ne (length ys) SIZE (omega arith)))
        (push-Holds SIZE positive small q ys x h)

module _ {ℓ κ} {L : Type ℓ} {R : Type κ} (SIZE : ℕ) (positive : 0 < SIZE)
    (small : 2 * SIZE < 2 ^ 31) where
  left_pushes-Holds :
      (xs ys : List L) (d : FullDuplexQueue L R)
      → Holds SIZE d.left_queue ys
      → length ys + length xs ≤ SIZE
      → Holds SIZE (left_pushes SIZE xs d).left_queue (ys ++ xs)
  unfolding left_pushes push get_left_end
  left_pushes-Holds [] ys d h room = subst (Holds SIZE d.left_queue) (sym (append-nil ys)) h
  left_pushes-Holds (x ∷ xs) ys d h room =
      let next : FullDuplexQueue L R = record d {
        left_queue = WorkQueue.push SIZE x d.left_queue;
      } in
      subst (Holds SIZE (left_pushes SIZE xs next).left_queue) (append_assoc ys (x ∷ []) xs) (
        left_pushes-Holds xs (ys ++ x ∷ []) next
          (pushed SIZE positive small d.left_queue ys x h (omega (arith, room)))
          (omega (arith, room, length-append ys (x ∷ []))))

  right_pops-Holds :
      (xs : List L) (d : FullDuplexQueue L R)
      → Holds SIZE d.left_queue xs
      → right_pops SIZE (length xs) d ≡ map some xs
  unfolding right_pops pop get_right_end
  right_pops-Holds [] d h = refl
  right_pops-Holds (x ∷ xs) d h =
      let (first, rest) = pop-Holds SIZE positive small d.left_queue x xs h in
      let next : FullDuplexQueue L R = record d {
        left_queue = (WorkQueue.pop SIZE d.left_queue).1;
      } in
      ap (λ o. o ∷ right_pops SIZE (length xs) next) first
      ∙ ap (◌∷◌ (some x)) (right_pops-Holds xs next rest)

  pub right_pushes-Holds :
      (xs ys : List R) (d : FullDuplexQueue L R)
      → Holds SIZE d.right_queue ys
      → length ys + length xs ≤ SIZE
      → Holds SIZE (right_pushes SIZE xs d).right_queue (ys ++ xs)
  unfolding right_pushes push get_right_end
  right_pushes-Holds [] ys d h room = subst (Holds SIZE d.right_queue) (sym (append-nil ys)) h
  right_pushes-Holds (x ∷ xs) ys d h room =
      let next : FullDuplexQueue L R = record d {
        right_queue = WorkQueue.push SIZE x d.right_queue;
      } in
      subst (Holds SIZE (right_pushes SIZE xs next).right_queue) (append_assoc ys (x ∷ []) xs) (
        right_pushes-Holds xs (ys ++ x ∷ []) next
          (pushed SIZE positive small d.right_queue ys x h (omega (arith, room)))
          (omega (arith, room, length-append ys (x ∷ []))))

  pub left_pops-Holds :
      (xs : List R) (d : FullDuplexQueue L R)
      → Holds SIZE d.right_queue xs
      → left_pops SIZE (length xs) d ≡ map some xs
  unfolding left_pops pop get_left_end
  left_pops-Holds [] d h = refl
  left_pops-Holds (x ∷ xs) d h =
      let (first, rest) = pop-Holds SIZE positive small d.right_queue x xs h in
      let next : FullDuplexQueue L R = record d {
        right_queue = (WorkQueue.pop SIZE d.right_queue).1;
      } in
      ap (λ o. o ∷ left_pops SIZE (length xs) next) first
      ∙ ap (◌∷◌ (some x)) (left_pops-Holds xs next rest)

  left_pushes-right :
      (xs : List L) (d : FullDuplexQueue L R) → (left_pushes SIZE xs d).right_queue ≡ d.right_queue
  unfolding left_pushes
  left_pushes-right [] d = refl
  left_pushes-right (x ∷ xs) d = left_pushes-right xs _

  right_pushes-left :
      (xs : List R) (d : FullDuplexQueue L R) → (right_pushes SIZE xs d).left_queue ≡ d.left_queue
  unfolding right_pushes
  right_pushes-left [] d = refl
  right_pushes-left (x ∷ xs) d = right_pushes-left xs _

  -- For a SIZE above 0 and below 2 ^ 30, and two ends whose queues hold some events each, when
  -- both ends push more, as many as there is room for, then the right end pops what the left end
  -- has pushed, the oldest first, and the left end what the right end has pushed.
  pub pops-pushes :
      (ls ls' : List L) (rs rs' : List R) (d : FullDuplexQueue L R)
      → Holds SIZE d.left_queue ls
      → Holds SIZE d.right_queue rs
      → length ls + length ls' ≤ SIZE
      → length rs + length rs' ≤ SIZE
      → (right_pops SIZE (length (ls ++ ls')) (right_pushes SIZE rs' (left_pushes SIZE ls' d))
          ≡ map some (ls ++ ls'))
        × (left_pops SIZE (length (rs ++ rs')) (right_pushes SIZE rs' (left_pushes SIZE ls' d))
            ≡ map some (rs ++ rs'))
  pops-pushes ls ls' rs rs' d hl hr kl kr = (
    right_pops-Holds (ls ++ ls') (right_pushes SIZE rs' (left_pushes SIZE ls' d)) (
        subst (λ q. Holds SIZE q (ls ++ ls')) (sym (right_pushes-left rs' (left_pushes SIZE ls' d)))
          (left_pushes-Holds ls' ls d hl kl)),
    left_pops-Holds (rs ++ rs') (right_pushes SIZE rs' (left_pushes SIZE ls' d)) (
        right_pushes-Holds rs' rs (left_pushes SIZE ls' d)
          (subst (λ q. Holds SIZE q rs) (sym (left_pushes-right ls' d)) hr) kr),
  )
