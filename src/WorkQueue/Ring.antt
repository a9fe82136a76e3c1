-- ===== src/WorkQueue/Ring.antt =====
-- The operations of WorkQueue.h on a valid queue, as operations on the list of its events.
use native.Mathlib.Nat.{add-mod_right, mod-lt, div_self, div-eq_of_lt, mul-one, mul-zero}
use native.Mathlib.Decide.{ℕ_discrete}
use mathlib.Core.Path.{ap₂}
use mathlib.Core.List.{map-append}
use fractals.Prelude.{
  ℕ, suc, ◌+◌, ◌-◌, ◌*◌, ◌/◌, ◌%◌, ◌^◌, ◌≤◌, ◌<◌, ◌≡◌, refl, ap, some, List, [], ◌∷◌, ◌++◌, arith,
  get_elem?, set, length, length-set, get_elem?-set_self, map, sym, ◌∙◌, if◌then◌else◌, ◌==◌, subst,
  length-map, ==_iff, ==_ne,
}
use fractals.WorkQueue.{WorkQueue, size, is_empty, push, pop, calibrate}
use fractals.WorkQueue.Window.{window, window_snoc, window-set_outside, window_round, length-window}

module _ {ℓ} {A : Type ℓ} (SIZE : ℕ) where
  pub record IsValid (q : WorkQueue A) : Type 0 where
    pub slots : length q.events ≡ SIZE
    pub ordered : q.tail ≤ q.head
    pub fits : q.head ≤ q.tail + SIZE
    pub calibrated : q.tail ≤ SIZE

  -- The queue holds the events `xs`, oldest first.
  pub record Holds (q : WorkQueue A) (xs : List A) : Type ℓ where
    pub valid : IsValid q
    pub stored : window SIZE q.events q.tail (q.head - q.tail) ≡ map some xs

  pub length-Holds : (q : WorkQueue A) (xs : List A) → Holds q xs → q.head ≡ q.tail + length xs
  length-Holds q xs h = omega (
    arith,
    h.valid.ordered,
    length-window SIZE q.events q.tail (q.head - q.tail),
    ap length h.stored,
    length-map xs some,
  )

-- The counters of a valid queue stay far from the sign bit.
module _ {ℓ} {A : Type ℓ} (SIZE : ℕ) (positive : 0 < SIZE) (small : 2 * SIZE < 2 ^ 31) where
  -- The size is the number of events held.
  pub size-Holds : (q : WorkQueue A) (xs : List A) → Holds SIZE q xs → size SIZE q ≡ length xs
  unfolding size
  size-Holds q xs h = ground (arith, length-Holds SIZE q xs h, h.valid.fits, h.valid.calibrated)

  push_full :
      (q : WorkQueue A) (xs : List A) (x : A)
      → Holds SIZE q xs
      → length xs ≡ SIZE
      → push SIZE x q ≡ q
  unfolding push
  push_full q xs x h full = ground (arith, size-Holds q xs h)

  push_room :
      (q : WorkQueue A) (xs : List A) (x : A)
      → Holds SIZE q xs
      → length xs < SIZE
      → push SIZE x q
        ≡ record { events = set q.events (q.head % SIZE) x; head = suc q.head; tail = q.tail }
  unfolding push
  push_room q xs x h room =
      ground (arith, size-Holds q xs h, length-Holds SIZE q xs h, h.valid.fits, h.valid.calibrated)

  push_room-Holds :
      (q : WorkQueue A) (xs : List A) (x : A)
      → Holds SIZE q xs
      → length xs < SIZE
      → Holds SIZE (push SIZE x q) (xs ++ x ∷ [])
  push_room-Holds q xs x h room = rw (push_room q xs x h room) (record {
    valid = record {
      slots = length-set q.events _ x ∙ h.valid.slots;
      ordered = omega arith;
      fits = omega (arith, length-Holds SIZE q xs h);
      calibrated = h.valid.calibrated;
    };
    stored =
        ap (window SIZE (set q.events (q.head % SIZE) x) q.tail) {y = suc (q.head - q.tail)}
          (omega (arith, h.valid.ordered))
        ∙ window_snoc SIZE (set q.events (q.head % SIZE) x) q.tail (q.head - q.tail)
        ∙ ap₂ ◌++◌
            (window-set_outside SIZE q.events x q.tail (q.head - q.tail) q.head
                (omega (arith, h.valid.ordered)) (omega (arith, length-Holds SIZE q xs h))
              ∙ h.stored)
            (ap (λ o. o ∷ [])
              (ap (λ k. get_elem? (set q.events (q.head % SIZE) x) (k % SIZE))
                  (let e : q.tail + (q.head - q.tail) ≡ q.head = omega (arith, h.valid.ordered) in
                    e)
                ∙ get_elem?-set_self q.events (q.head % SIZE) x
                    (rw h.valid.slots (mod-lt q.head positive))))
        ∙ sym (map-append some xs (x ∷ []));
  })

  -- Pushing onto a valid queue appends the event, and drops it where the queue is full.
  pub push-Holds :
      (q : WorkQueue A) (xs : List A) (x : A)
      → Holds SIZE q xs
      → Holds SIZE (push SIZE x q) (if length xs == SIZE then xs else xs ++ x ∷ [])
  push-Holds q xs x h = elim (ℕ_discrete (length xs) SIZE) [
    | yes full ↦ rw ((==_iff (length xs) SIZE).1 full, push_full q xs x h full) h
    | no room ↦
        rw (==_ne (length xs) SIZE room)
          (push_room-Holds q xs x h (omega (arith, room, length-Holds SIZE q xs h, h.valid.fits)))
  ]

  calibrate_round :
      (q : WorkQueue A)
      → q.tail ≡ SIZE
      → q.tail ≤ q.head
      → q.head ≤ q.tail + SIZE
      → calibrate SIZE q ≡ record q { head = q.head - SIZE; tail = 0 }
  unfolding calibrate
  calibrate_round q e h k =
      let start : SIZE * (q.tail / SIZE) ≡ SIZE =
        ap (λ t. SIZE * (t / SIZE)) e ∙ ap (◌*◌ SIZE) (div_self positive) ∙ mul-one SIZE in
      ground arith

  calibrate_low :
      (q : WorkQueue A)
      → q.tail < SIZE
      → q.tail ≤ q.head
      → q.head ≤ q.tail + SIZE
      → calibrate SIZE q ≡ q
  unfolding calibrate
  calibrate_low q l h k =
      let start : SIZE * (q.tail / SIZE) ≡ 0 = ap (◌*◌ SIZE) (div-eq_of_lt l) ∙ mul-zero SIZE in
      ground arith

  -- Calibration keeps what the queue holds and its front slot, and leaves room to step on.
  calibrate-Holds :
      (q : WorkQueue A) (xs : List A)
      → Holds SIZE q xs
      → Holds SIZE (calibrate SIZE q) xs
        × ((calibrate SIZE q).tail < SIZE)
        × (get_elem? (calibrate SIZE q).events ((calibrate SIZE q).tail % SIZE)
            ≡ get_elem? q.events (q.tail % SIZE))
  calibrate-Holds q xs h = elim (ℕ_discrete q.tail SIZE) [
    | yes e ↦
        let round : 0 + SIZE ≡ q.tail = omega arith in
        let count : q.head - SIZE ≡ q.head - q.tail = omega arith in
        rw (calibrate_round q e h.valid.ordered h.valid.fits) (
          record {
            valid = record {
              slots = h.valid.slots;
              ordered = omega arith;
              fits = omega (arith, h.valid.fits);
              calibrated = omega arith;
            };
            stored =
                ap (window SIZE q.events 0) {y = q.head - SIZE} (omega arith)
                ∙ sym (window_round SIZE q.events 0 (q.head - SIZE))
                ∙ ap₂ (window SIZE q.events) round count
                ∙ h.stored;
          },
          positive,
          ap (get_elem? q.events) (sym (add-mod_right 0 SIZE) ∙ ap (λ t. t % SIZE) round),
        )
    | no ne ↦
        let low : q.tail < SIZE = omega (arith, h.valid.calibrated) in
        rw (calibrate_low q low h.valid.ordered h.valid.fits) (h, low, refl)
  ]

  step_tail-Holds :
      (q : WorkQueue A) (x : A) (xs : List A)
      → Holds SIZE q (x ∷ xs)
      → q.tail < SIZE
      → (get_elem? q.events (q.tail % SIZE) ≡ some x)
        × Holds SIZE (record q { tail = suc q.tail }) xs
  step_tail-Holds q x xs h low =
      let longer = length-Holds SIZE q (x ∷ xs) h in
      let count : q.head - q.tail ≡ suc (q.head - suc q.tail) = omega arith in
      let cells = sym (ap (window SIZE q.events q.tail) count) ∙ h.stored in
      (
        cc,
        record {
          valid = record {
            slots = h.valid.slots;
            ordered = omega arith;
            fits = omega (arith, h.valid.fits);
            calibrated = low;
          };
          stored = cc;
        },
      )

  stepped :
      (q : WorkQueue A)
      → q.tail < SIZE
      → record q { tail = (q.tail + 1) % 2 ^ 32 } ≡ record q { tail = suc q.tail }
  stepped q low = ground arith

  -- Popping a valid queue that holds an event returns the oldest one and leaves the others.
  pub pop-Holds :
      (q : WorkQueue A) (x : A) (xs : List A)
      → Holds SIZE q (x ∷ xs)
      → ((pop SIZE q).0 ≡ some x) × Holds SIZE (pop SIZE q).1 xs
  unfolding pop
  pop-Holds q x xs h =
      let (kept, low, front) = calibrate-Holds q (x ∷ xs) h in
      let (first, rest) = step_tail-Holds (calibrate SIZE q) x xs kept low in
      (sym front ∙ first, subst (λ r. Holds SIZE r xs) (sym (stepped (calibrate SIZE q) low)) rest)

  -- A valid queue is empty exactly when it holds nothing.
  pub is_empty-Holds :
      (q : WorkQueue A) (xs : List A) → Holds SIZE q xs → is_empty SIZE q ≡ (length xs == 0)
  unfolding is_empty
  is_empty-Holds q xs h = ap (λ n. n == 0) (size-Holds q xs h)
