-- ===== src/AnnounceService/Loop.antt =====
-- The loop of `pollOnce` over the delayed requests ends, when each is kept under its own torrent.
use fractals.Prelude.{
  ℕ, ◌<◌, ◌≤◌, true, ◌≡◌, refl, ◌∙◌, sym, ap, subst, inl, inr, Option, none, some, List, [], ◌∷◌,
  arith, All, length, Bool-cases, Option-cases,
}
use fractals.Prelude.Eq.{list_eq, list_beq, list_beq_iff}
use fractals.Prelude.Map.{Map, find, contains, erase, find-emplace_kept}
use fractals.AnnounceService.{
  AnnounceService, Ran, done, aborted, invalid, unfinished, also, Effect, get_next_announce,
  executable_loop, run_delayed, RequestAnnounce, executed, query,
}
use fractals.AnnounceService.States.{
  HasStates, Extends, Covers, Covers-Extends, Extends-assign, get_next_announce-HasStates,
}

abbrev pub Requests : Type 0
Requests = Map (List ℕ) RequestAnnounce

-- Each request is kept under its torrent.
abbrev pub IsLinked : Requests → Type 0
IsLinked m = All (λ (e : List ℕ × RequestAnnounce). e.1.info_hash ≡ e.0) m

-- A query underway, which `executedRequests` has, at a tracker that has a state.
abbrev pub Waits : Option (List ℕ × RequestAnnounce) → AnnounceService → Type 0
Waits none s = Unit
Waits (some (u, req)) s =
    (find u s.executed_requests ≡ some req) × (contains u s.tracker_states ≡ true)

abbrev pub IsSound : Option (List ℕ × RequestAnnounce) → AnnounceService → Type 0
IsSound w s = HasStates s × IsLinked s.delayed_requests × Waits w s

-- A step that ends, in a sound state.
abbrev pub Ends : Option (List ℕ × RequestAnnounce) → Ran → Type 0
Ends w (done s es) = IsSound w s
Ends w aborted = ⊥
Ends w invalid = ⊥
Ends w unfinished = ⊥

pub Ends-also :
    (w : Option (List ℕ × RequestAnnounce)) (es : List Effect) (r : Ran)
    → Ends w r
    → Ends w (also es r)
Ends-also w es (done s fs) h = h
Ends-also w es aborted h = h
Ends-also w es invalid h = h
Ends-also w es unfinished h = h

pub IsLinked-erase : (k : List ℕ) (m : Requests) → IsLinked m → IsLinked (erase k m)
unfolding erase
IsLinked-erase k [] h = tt
IsLinked-erase k ((j, v) ∷ m) h = elim (Bool-cases (list_beq j k)) [
  | inl t ↦ rw t (IsLinked-erase k m h.1)
  | inr f ↦ rw f (h.0, IsLinked-erase k m h.1)
]

pub length-erase-le : (k : List ℕ) (m : Requests) → length (erase k m) ≤ length m
unfolding erase
length-erase-le k [] = omega arith
length-erase-le k ((j, v) ∷ m) = ground (arith, length-erase-le k m)

length-erase : (k : List ℕ) (m : Requests) → contains k m ≡ true → length (erase k m) < length m
unfolding erase contains find
length-erase k [] h = cc
length-erase k ((j, v) ∷ m) h = ground (arith, length-erase k m, length-erase-le k m)

-- What the loop finds is a request of the list.
abbrev IsFound : Requests → Option (List ℕ × RequestAnnounce) → Type 0
IsFound l none = Unit
IsFound l (some (u, req)) = contains req.info_hash l ≡ true

IsFound-cons :
    (e : List ℕ × RequestAnnounce) (l : Requests) (next : Option (List ℕ × RequestAnnounce))
    → IsFound l next
    → IsFound (e ∷ l) next
unfolding contains find
IsFound-cons (j, v) l none h = tt
IsFound-cons (j, v) l (some (u, req)) h = ground (arith, h)

pub executed-HasStates :
    (u : List ℕ) (req : RequestAnnounce) (s : AnnounceService)
    → HasStates s
    → HasStates (executed u req s)
executed-HasStates u req s h =
    Covers-Extends _ _ s.tracker_set (Extends-assign u _ s.tracker_states) h

pub executed-Waits :
    (w : Option (List ℕ × RequestAnnounce)) (u : List ℕ) (req : RequestAnnounce)
    (s : AnnounceService)
    → Waits w s
    → Waits w (executed u req s)
executed-Waits none u req s h = tt
executed-Waits (some (v, q)) u req s h =
    (find-emplace_kept u v req q s.executed_requests h.0, Extends-assign u _ s.tracker_states v h.1)

-- More states do no harm.
pub Waits-Extends :
    (w : Option (List ℕ × RequestAnnounce)) (s t : AnnounceService)
    → s.executed_requests ≡ t.executed_requests
    → Extends s.tracker_states t.tracker_states
    → Waits w s
    → Waits w t
Waits-Extends none s t e x h = tt
Waits-Extends (some (u, q)) s t e x h = (ap (find u) (sym e) ∙ h.0, x u h.1)

-- The other fields do not matter.
pub Waits_lem :
    (w : Option (List ℕ × RequestAnnounce)) (s t : AnnounceService)
    → s.executed_requests ≡ t.executed_requests
    → s.tracker_states ≡ t.tracker_states
    → Waits w s
    → Waits w t
Waits_lem none s t e f h = tt
Waits_lem (some (u, q)) s t e f h = rw (← e, ← f) h

contains-head :
    (ih : List ℕ) (req : RequestAnnounce) (l : Requests)
    → req.info_hash ≡ ih
    → contains req.info_hash ((ih, req) ∷ l) ≡ true
unfolding contains find
contains-head ih req l e = ground (arith, list_beq_iff ih req.info_hash, e)

executable_loop-IsFound :
    (l : Requests) (now : ℕ) (s : AnnounceService)
    → HasStates s
    → IsLinked l
    → (next : Option (List ℕ × RequestAnnounce)) × (set : Map (List ℕ) (List (List ℕ)))
      × (executable_loop l now s ≡ some (next, record s { tracker_set = set }))
      × Covers s.tracker_states set
      × IsFound l next
unfolding executable_loop
executable_loop-IsFound [] now s h k = (none, s.tracker_set, refl, h, tt)
executable_loop-IsFound ((ih, req) ∷ l) now s h k =
    let (next, set, e, c) = get_next_announce-HasStates ih now s h in
    elim (Option-cases next) [
      | inl n ↦
          let (found, set', e', c', f) =
            executable_loop-IsFound l now (record s { tracker_set = set }) c k.1 in
          let e₀ : get_next_announce ih now s ≡ some (none, record s { tracker_set = set }) =
            e ∙ ap (λ o. some (o, record s { tracker_set = set })) n in
          (found, set', rw (e₀, executable_loop) e', c', IsFound-cons (ih, req) l found f)
      | inr (u, n) ↦
          let e₀ : get_next_announce ih now s ≡ some (some u, record s { tracker_set = set }) =
            e ∙ ap (λ o. some (o, record s { tracker_set = set })) n in
          (some (u, req), set, rw (e₀, executable_loop) refl, c, contains-head ih req l k.0)
    ]

module _ (w : Option (List ℕ × RequestAnnounce)) where
  -- With a reading of the clock for each delayed request and one more, the loop comes to its end.
  pub run_delayed-Ends :
      (times : List ℕ) (s : AnnounceService)
      → length s.delayed_requests < length times
      → IsSound w s
      → Ends w (run_delayed times s)
  unfolding run_delayed
  run_delayed-Ends [] s b h = absurd (omega arith)
  run_delayed-Ends (now ∷ times) s b h =
      let (found, set, e, c, f) = executable_loop-IsFound s.delayed_requests now s h.0 h.1 in
      elim (Option-cases found) [
        | inl n ↦
            let e₀ : executable_loop s.delayed_requests now s
                ≡ some (none, record s { tracker_set = set }) =
              e ∙ ap (λ o. some (o, record s { tracker_set = set })) n in
            rw (e₀, run_delayed)
              (c, h.1, Waits_lem w s (record s { tracker_set = set }) refl refl h.2)
        | inr ((u, req), n) ↦
            let e₀ : executable_loop s.delayed_requests now s
                ≡ some (some (u, req), record s { tracker_set = set }) =
              e ∙ ap (λ o. some (o, record s { tracker_set = set })) n in
            let k : contains req.info_hash s.delayed_requests ≡ true =
              subst (IsFound s.delayed_requests) n f in
            let shorter = length-erase req.info_hash s.delayed_requests k in
            let rest = record s {
              tracker_set = set;
              delayed_requests = erase req.info_hash s.delayed_requests;
            } in
            rw (e₀, run_delayed)
              (Ends-also w (query u req.torrent ∷ []) (run_delayed times (executed u req rest)) (
                run_delayed-Ends times (executed u req rest) (omega arith) (
                  executed-HasStates u req rest c,
                  IsLinked-erase req.info_hash s.delayed_requests h.1,
                  executed-Waits w u req rest (Waits_lem w s rest refl refl h.2),
                )))
      ]
