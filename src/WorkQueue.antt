-- ===== src/WorkQueue.antt =====
-- include/fractals/common/WorkQueue.h: the ring buffer behind every queue between two threads.
-- `SIZE` is the template's parameter. The `int32_t` counters are their bit patterns, below 2 ^ 32;
-- signed overflow, which the standard leaves undefined, is written as wrap-around. The
-- mutex and the condition variable order the accesses of threads and hold no data: a call is one
-- atomic step here.
pub mod Window
pub mod Ring
pub mod Trace
use fractals.Prelude.{
  ℕ, zero, suc, ◌+◌, ◌-◌, ◌*◌, ◌/◌, ◌%◌, ◌^◌, Bool, Option, List, [], ◌∷◌, ltb, ◌==◌, if◌then◌else◌,
  get_elem?, set,
}

pub record WorkQueue {ℓ} (A : Type ℓ) : Type ℓ where
  pub events : List A
  pub head : ℕ
  pub tail : ℕ

-- `size_t` of an `int32_t`: sign extension.
abbrev pub to_size : ℕ → ℕ
to_size w = if ltb w (2 ^ 31) then w else w + 2 ^ 64 - 2 ^ 32

abbrev pub sub32 : ℕ → ℕ → ℕ
sub32 a b = (a + 2 ^ 32 - b) % 2 ^ 32

module _ {ℓ} {A : Type ℓ} (SIZE : ℕ) where
  unfoldable pub size : WorkQueue A → ℕ
  size q = to_size (sub32 q.head q.tail)

  unfoldable pub is_empty : WorkQueue A → Bool
  unfolding size
  is_empty q = size q == 0

  unfoldable pub push : A → WorkQueue A → WorkQueue A
  unfolding size
  push event q =
      if size q == SIZE
      then q
      else record q { events = set q.events (q.head % SIZE) event; head = (q.head + 1) % 2 ^ 32 }

  unfoldable pub calibrate : WorkQueue A → WorkQueue A
  calibrate q =
      let queue_start = SIZE * (q.tail / SIZE) % 2 ^ 32 in
      record q { head = sub32 q.head queue_start; tail = sub32 q.tail queue_start }

  -- The reference that `pop` returns, `none` if it lies outside the array, and the queue after.
  unfoldable pub pop : WorkQueue A → Option A × WorkQueue A
  unfolding calibrate
  pop q =
      let res = get_elem? q.events (q.tail % SIZE) in
      let q' = calibrate q in (res, record q' { tail = (q'.tail + 1) % 2 ^ 32 })

  unfoldable pub for_each_from : ℕ → ℕ → List A → List (Option A)
  for_each_from zero ptr events = []
  for_each_from (suc rounds) ptr events =
      get_elem? events ptr ∷ for_each_from rounds (suc ptr) events

  -- What the callback of `forEach` is given, in order: the array is read at `ptr` itself.
  unfoldable pub for_each : WorkQueue A → List (Option A)
  unfolding for_each_from
  for_each q = for_each_from (q.head - q.tail) q.tail q.events
