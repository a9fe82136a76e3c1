-- ===== src/AnnounceService/States.antt =====
-- The trackers of a torrent and the states that are kept for them.
use fractals.Prelude.{
  ℕ, zero, suc, true, ◌≡◌, refl, subst, inl, inr, Option, none, some, List, [], ◌∷◌, ◌++◌, arith,
  All, All-append, Bool-cases, Option-cases, leb, ◌&&◌,
}
use fractals.Prelude.Eq.{list_eq, list_beq, beq_refl}
use fractals.Prelude.Map.{
  Map, find, contains, assign, emplace, erase, find-assign, find-emplace, find-erase,
}
use fractals.AnnounceService.{
  AnnounceService, next_announce_loop, get_next_announce, count, reset_all,
}
use fractals.AnnounceService.Tracker.{TrackerState, can_announce}

abbrev pub States : Type 0
States = Map (List ℕ) TrackerState

-- Each tracker has a state.
abbrev pub Known : States → List (List ℕ) → Type 0
Known states us = All (λ u. contains u states ≡ true) us

-- Each tracker of each torrent has one.
abbrev pub Covers : States → Map (List ℕ) (List (List ℕ)) → Type 0
Covers m set = (ih : List ℕ) (us : List (List ℕ)) → find ih set ≡ some us → Known m us

abbrev pub HasStates : AnnounceService → Type 0
HasStates s = Covers s.tracker_states s.tracker_set

-- More states keep what is known.
abbrev pub Extends : States → States → Type 0
Extends m n = (u : List ℕ) → contains u m ≡ true → contains u n ≡ true

pub Known-Extends : (m n : States) (us : List (List ℕ)) → Extends m n → Known m us → Known n us
Known-Extends m n [] h k = tt
Known-Extends m n (u ∷ us) h k = (h u k.0, Known-Extends m n us h k.1)

pub Extends-assign : (u : List ℕ) (t : TrackerState) (m : States) → Extends m (assign u t m)
unfolding contains
Extends-assign u t m v h = rw (find-assign u v t m) (ground (arith, h))

pub Extends-emplace : (u : List ℕ) (t : TrackerState) (m : States) → Extends m (emplace u t m)
unfolding contains
Extends-emplace u t m v h = rw (find-emplace u v t m, contains) (ground (arith, h))

pub contains-emplace_self :
    (u : List ℕ) (t : TrackerState) (m : States) → contains u (emplace u t m) ≡ true
unfolding contains
contains-emplace_self u t m = rw (find-emplace u u t m, beq_refl u, contains) (ground arith)

pub Extends-reset_all : (m : States) → Extends m (reset_all m)
unfolding contains find
Extends-reset_all [] v h = h
Extends-reset_all ((u, t) ∷ m) v h = ground (arith, h, Extends-reset_all m v)

pub find-Known :
    (m : States) (u : List ℕ) → contains u m ≡ true → (t : TrackerState) × (find u m ≡ some t)
unfolding contains
find-Known m u h = elim (Option-cases (find u m)) [ inl n ↦ absurd (ground arith) | inr s ↦ s ]

-- The loop does not fail, and rotates trackers that are known.
pub next_announce_loop-Known :
    (n now : ℕ) (m : States) (us : List (List ℕ))
    → Known m us
    → (next : Option (List ℕ)) × (vs : List (List ℕ)) × (next_announce_loop n now m us
        ≡ some (next, vs))
      × Known m vs
unfolding next_announce_loop
next_announce_loop-Known zero now m us h = (none, us, refl, h)
next_announce_loop-Known (suc n) now m [] h = (none, [], refl, tt)
next_announce_loop-Known (suc n) now m (u ∷ us) h =
    let (t, e) = find-Known m u h.0 in
    elim (Bool-cases (can_announce now t && leb t.retry_count 2)) [
      | inl y ↦ (some u, u ∷ us, rw (e, next_announce_loop) (rw y refl), h)
      | inr n' ↦
          let (next, vs, r, k) =
            next_announce_loop-Known n now m (us ++ u ∷ [])
              (All-append (λ v. contains v m ≡ true) us (u ∷ []) h.1 (h.0, tt)) in
          (next, vs, rw (e, next_announce_loop) (rw n' r), k)
    ]

pub Covers-assign :
    (m : States) (set : Map (List ℕ) (List (List ℕ))) (ih : List ℕ) (vs : List (List ℕ))
    → Covers m set
    → Known m vs
    → Covers m (assign ih vs set)
Covers-assign m set ih vs h k j ws f = elim (Bool-cases (list_beq ih j)) [
  | inl t ↦
      let e : vs ≡ ws = ground (arith, find-assign ih j vs set, f, t) in
      subst (λ us. Known m us) e k
  | inr n ↦ h j ws (ground (arith, find-assign ih j vs set, f, n))
]

pub Covers-erase :
    (m : States) (set : Map (List ℕ) (List (List ℕ))) (ih : List ℕ)
    → Covers m set
    → Covers m (erase ih set)
Covers-erase m set ih h j ws f = h j ws (ground (arith, find-erase ih j set, f))

pub Covers-Extends :
    (m n : States) (set : Map (List ℕ) (List (List ℕ))) → Extends m n → Covers m set → Covers n set
Covers-Extends m n set e h ih us f = Known-Extends m n us e (h ih us f)

-- `getNextAnnounce` meets no failed `assert`, and only rotates the trackers of a torrent.
pub get_next_announce-HasStates :
    (ih : List ℕ) (now : ℕ) (s : AnnounceService)
    → HasStates s
    → (next : Option (List ℕ)) × (set : Map (List ℕ) (List (List ℕ))) × (get_next_announce ih now s
        ≡ some (next, record s { tracker_set = set }))
      × HasStates (record s { tracker_set = set })
unfolding get_next_announce
get_next_announce-HasStates ih now s h = elim (Option-cases (find ih s.tracker_set)) [
  | inl n ↦ (none, s.tracker_set, rw (n, get_next_announce) refl, h)
  | inr (us, e) ↦
      let (next, vs, r, k) =
        next_announce_loop-Known (count us) now s.tracker_states us (h ih us e) in
      (
        next,
        assign ih vs s.tracker_set,
        rw (e, get_next_announce) (rw (r) refl),
        Covers-assign s.tracker_states s.tracker_set ih vs h k,
      )
]
