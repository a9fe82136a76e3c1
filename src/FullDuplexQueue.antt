-- ===== src/FullDuplexQueue.antt =====
-- include/fractals/common/FullDuplexQueue.h: two ring buffers, one for each direction, seen from
-- two ends. An end point holds references to the two queues; here an operation of an end point
-- returns the end point after it. The mutexes and condition variables of the class are used by no
-- operation.
pub mod Transfer
use fractals.Prelude.{
  ℕ, ◌*◌, ◌%◌, ◌^◌, ◌<◌, ◌≡◌, ap, Bool, Option, some, List, [], ◌∷◌, ◌++◌, arith, length,
  if◌then◌else◌, ◌==◌, subst, false, ==_ne, not,
}
use fractals.WorkQueue
use fractals.WorkQueue.{WorkQueue}
use fractals.WorkQueue.Ring.{Holds, push-Holds, pop-Holds}

pub record FullDuplexQueue {ℓ κ} (L : Type ℓ) (R : Type κ) : Type (ℓ ⊔ κ) where
  pub left_queue : WorkQueue L
  pub right_queue : WorkQueue R

pub record QueueEndPoint {ℓ κ} (Push : Type ℓ) (Pop : Type κ) : Type (ℓ ⊔ κ) where
  pub push_end : WorkQueue Push
  pub pop_end : WorkQueue Pop

module _ {ℓ κ} {L : Type ℓ} {R : Type κ} where
  unfoldable pub get_left_end : FullDuplexQueue L R → QueueEndPoint L R
  get_left_end d = record { push_end = d.left_queue; pop_end = d.right_queue }

  unfoldable pub get_right_end : FullDuplexQueue L R → QueueEndPoint R L
  get_right_end d = record { push_end = d.right_queue; pop_end = d.left_queue }

module _ {ℓ κ} {A : Type ℓ} {B : Type κ} (SIZE : ℕ) where
  unfoldable pub push : A → QueueEndPoint A B → QueueEndPoint A B
  push event e = record e { push_end = WorkQueue.push SIZE event e.push_end }

  unfoldable pub pop : QueueEndPoint A B → Option B × QueueEndPoint A B
  pop e = let (res, rest) = WorkQueue.pop SIZE e.pop_end in (res, record e { pop_end = rest })

  unfoldable pub can_pop : QueueEndPoint A B → Bool
  can_pop e = not (WorkQueue.is_empty SIZE e.pop_end)

  -- `!pushEnd.size() == SIZE`: the negation binds tighter than the comparison.
  unfoldable pub can_push : QueueEndPoint A B → Bool
  can_push e = (if WorkQueue.size SIZE e.push_end == 0 then 1 else 0) == SIZE

  unfoldable pub num_to_read : QueueEndPoint A B → ℕ
  num_to_read e = WorkQueue.size SIZE e.pop_end % 2 ^ 32

  -- canPush answers no for every queue of two or more slots, also for an empty one.
  pub can_push-false : (e : QueueEndPoint A B) → 1 < SIZE → can_push e ≡ false
  unfolding can_push
  can_push-false e h = ground arith
