-- ===== src/AnnounceService/Rounds.antt =====
-- A round of `pollOnce` ends, and keeps what the rounds rely on.
use fractals.Prelude.{
  ℕ, ◌+◌, ◌<◌, ◌≤◌, Bool, true, false, not, ◌≡◌, refl, ◌∙◌, ap, subst, inl, inr, Option, none, some,
  List, [], ◌∷◌, ◌++◌, arith, All-append, length, Bool-cases, Option-cases, if◌then◌else◌,
}
use fractals.Prelude.Eq.{list_eq, list_beq_iff}
use fractals.Prelude.Map.{find, contains, emplace, erase}
use fractals.Prelude.Set.{member, insert}
use fractals.BitTorrentManager.Queues.{
  AnnounceRequest, add_trackers, request_announce, delete_trackers, pause,
}
use fractals.TrackerResponse.{TrackerResponse, Announce, PeerId, to_announce}
use fractals.AnnounceService.{
  AnnounceService, Ran, done, aborted, invalid, unfinished, get_next_announce, run_delayed,
  RequestAnnounce, process, ◌>>=◌, process_request_announce, process_add_trackers, add_tracker,
  process_delete_trackers, process_pause, is_udp, trackers_of, on_result, on_response, on_error,
  PollResult, Round, poll_once, is_empty, failed, on_announced, on_request, answered, refreshed,
  state_of,
}
use fractals.AnnounceService.Tracker.{TrackerState, fresh, on_announce}
use fractals.AnnounceService.States.{
  Known, HasStates, Covers-assign, Covers-erase, Covers-Extends, Extends-assign, Extends-emplace,
  Extends-reset_all, contains-emplace_self, get_next_announce-HasStates,
}
use fractals.AnnounceService.Loop.{
  Requests, IsLinked, IsSound, Ends, Ends-also, Waits_lem, Waits-Extends, executed-Waits,
  executed-HasStates, IsLinked-erase, length-erase-le, run_delayed-Ends,
}

IsLinked-emplace :
    (req : RequestAnnounce) (m : Requests) → IsLinked m → IsLinked (emplace req.info_hash req m)
unfolding emplace
IsLinked-emplace req m h = elim (Bool-cases (contains req.info_hash m)) [
  | inl t ↦ rw (t, emplace) h
  | inr f ↦ rw (f, emplace) (refl, h)
]

IsLinked-emplace_kept :
    (ih : List ℕ) (req : RequestAnnounce) (m : Requests)
    → req.info_hash ≡ ih
    → IsLinked m
    → IsLinked (emplace ih req m)
IsLinked-emplace_kept ih req m e h =
    subst (λ k. IsLinked (emplace k req m)) e (IsLinked-emplace req m h)

length-emplace :
    (req : RequestAnnounce) (m : Requests) → length (emplace req.info_hash req m) ≤ length m + 1
unfolding emplace
length-emplace req m = ground arith

add_tracker-HasStates :
    (ih url : List ℕ) (s : AnnounceService) → HasStates s → HasStates (add_tracker ih url s)
add_tracker-HasStates ih url s h =
    let m = emplace url fresh s.tracker_states in
    let more =
      Covers-Extends s.tracker_states m s.tracker_set (Extends-emplace url fresh s.tracker_states)
        h in
    let k : Known m (trackers_of ih s) = elim (Option-cases (find ih s.tracker_set)) [
      | inl n ↦ rw (n, trackers_of) tt
      | inr (us, e) ↦ rw (e, trackers_of) (more ih us e)
    ] in
    Covers-assign m s.tracker_set ih (trackers_of ih s ++ url ∷ []) more (
      All-append (λ u. contains u m ≡ true) (trackers_of ih s) (url ∷ []) k
        (contains-emplace_self url fresh s.tracker_states, tt))

-- What does not touch the requests, and keeps the states covered, keeps a service sound.
module _ (w : Option (List ℕ × RequestAnnounce)) where
  add_tracker-IsSound :
      (b : Bool) (ih url : List ℕ) (s : AnnounceService)
      → IsSound w s
      → IsSound w (if b then s else add_tracker ih url s)
  add_tracker-IsSound true ih url s h = h
  add_tracker-IsSound false ih url s h = (
    add_tracker-HasStates ih url s h.0,
    h.1,
    Waits-Extends w s (add_tracker ih url s) refl (Extends-emplace url fresh s.tracker_states) h.2,
  )

  process_add_trackers-IsSound :
      (ih : List ℕ) (urls : List (List ℕ)) (s : AnnounceService)
      → IsSound w s
      → IsSound w (process_add_trackers ih urls s)
  unfolding process_add_trackers
  process_add_trackers-IsSound ih [] s h = h
  process_add_trackers-IsSound ih (url ∷ urls) s h =
      process_add_trackers-IsSound ih urls (if is_udp url then s else add_tracker ih url s)
        (add_tracker-IsSound (is_udp url) ih url s h)

add_tracker-delayed :
    (b : Bool) (ih url : List ℕ) (s : AnnounceService)
    → (if b then s else add_tracker ih url s).delayed_requests ≡ s.delayed_requests
add_tracker-delayed true ih url s = refl
add_tracker-delayed false ih url s = refl

process_add_trackers-delayed :
    (ih : List ℕ) (urls : List (List ℕ)) (s : AnnounceService)
    → (process_add_trackers ih urls s).delayed_requests ≡ s.delayed_requests
unfolding process_add_trackers
process_add_trackers-delayed ih [] s = refl
process_add_trackers-delayed ih (url ∷ urls) s =
    process_add_trackers-delayed ih urls (if is_udp url then s else add_tracker ih url s)
    ∙ add_tracker-delayed (is_udp url) ih url s

-- A step that ends in a sound state with at most `n` delayed requests.
abbrev EndsWithin : ℕ → Option (List ℕ × RequestAnnounce) → Ran → Type 0
EndsWithin n w (done s es) = IsSound w s × (length s.delayed_requests ≤ n)
EndsWithin n w aborted = ⊥
EndsWithin n w invalid = ⊥
EndsWithin n w unfinished = ⊥

module _ (w : Option (List ℕ × RequestAnnounce)) where
  process_request_announce-EndsWithin :
      (req : RequestAnnounce) (now : ℕ) (s : AnnounceService)
      → IsSound w s
      → EndsWithin (length s.delayed_requests + 1) w (process_request_announce req now s)
  unfolding process_request_announce
  process_request_announce-EndsWithin req now s h =
      elim (Bool-cases (member req.info_hash s.subscribers)) [
        | inl t ↦ rw t (h, omega arith)
        | inr f ↦
            let s₀ = record s { subscribers = insert req.info_hash s.subscribers } in
            let (next, set, e, c) = get_next_announce-HasStates req.info_hash now s₀ h.0 in
            let s₁ = record s₀ { tracker_set = set } in
            let waits = Waits_lem w s s₁ refl refl h.2 in
            elim (Option-cases next) [
              | inl n ↦
                  let e₀ : get_next_announce req.info_hash now s₀ ≡ some (none, s₁) =
                    e ∙ ap (λ o. some (o, s₁)) n in
                  rw f (
                    rw (e₀, process_request_announce)
                      (
                        (
                          c,
                          IsLinked-emplace req s.delayed_requests h.1,
                          Waits_lem w s₁ _ refl refl waits,
                        ),
                        length-emplace req s.delayed_requests,
                      ))
              | inr (u, n) ↦
                  let e₀ : get_next_announce req.info_hash now s₀ ≡ some (some u, s₁) =
                    e ∙ ap (λ o. some (o, s₁)) n in
                  rw f (
                    rw (e₀, process_request_announce)
                      (
                        (executed-HasStates u req s₁ c, h.1, executed-Waits w u req s₁ waits),
                        omega arith,
                      ))
            ]
      ]

  process-EndsWithin :
      (r : AnnounceRequest) (now : ℕ) (s : AnnounceService)
      → IsSound w s
      → EndsWithin (length s.delayed_requests + 1) w (process r now s)
  unfolding process process_delete_trackers process_pause
  process-EndsWithin (request_announce ih torrent) now s h =
      process_request_announce-EndsWithin (record { info_hash = ih; torrent = torrent }) now s h
  process-EndsWithin (add_trackers ih urls) now s h = (
    process_add_trackers-IsSound w ih urls s h,
    omega (arith, ap length (process_add_trackers-delayed ih urls s)),
  )
  process-EndsWithin (delete_trackers ih) now s h = (
    (
      Covers-erase s.tracker_states s.tracker_set ih h.0,
      IsLinked-erase ih s.delayed_requests h.1,
      Waits_lem w s _ refl refl h.2,
    ),
    omega (arith, length-erase-le ih s.delayed_requests),
  )
  process-EndsWithin (pause ih) now s h = (
    (
      Covers-Extends s.tracker_states _ s.tracker_set (Extends-reset_all s.tracker_states) h.0,
      IsLinked-erase ih s.delayed_requests h.1,
      Waits-Extends w s _ refl (Extends-reset_all s.tracker_states) h.2,
    ),
    omega (arith, length-erase-le ih s.delayed_requests),
  )
  process-EndsWithin AnnounceRequest.shutdown now s h =
      ((h.0, h.1, Waits_lem w s _ refl refl h.2), omega arith)

  -- The request and the loop of a round.
  begin-Ends :
      (r : Ran) (times : List ℕ) (n : ℕ)
      → n < length times
      → EndsWithin n w r
      → Ends w (r >>= run_delayed times)
  begin-Ends (done s es) times n b h =
      Ends-also w es (run_delayed times s) (run_delayed-Ends w times s (omega (arith, h.1)) h.0)
  begin-Ends aborted times n b h = h
  begin-Ends invalid times n b h = h
  begin-Ends unfinished times n b h = h

answered-Ends :
    (p : PollResult) (q : RequestAnnounce) (ann : Announce) (found : List PeerId × TrackerState)
    (s : AnnounceService)
    → q.info_hash ≡ p.info_hash
    → HasStates s
    → IsLinked s.delayed_requests
    → Ends none (answered p q ann found s)
answered-Ends p q ann ([], t) s e h k = (
  Covers-Extends s.tracker_states _ s.tracker_set (Extends-assign p.announce _ s.tracker_states) h,
  IsLinked-emplace_kept p.info_hash q s.delayed_requests e k,
  tt,
)
answered-Ends p q ann (a ∷ as₁, t) s e h k = (
  Covers-Extends s.tracker_states _ s.tracker_set (Extends-assign p.announce _ s.tracker_states) h,
  k,
  tt,
)

module _ (to_int : Option ℕ → ℕ) where
  on_error-Ends :
      (p : PollResult) (q : RequestAnnounce) (s : AnnounceService)
      → q.info_hash ≡ p.info_hash
      → IsSound (some (p.announce, q)) s
      → Ends none (on_error p s)
  unfolding on_error
  on_error-Ends p q s e h =
      rw (h.2.0, on_error)
        (rw ((list_beq_iff q.info_hash p.info_hash).1 e) (
          Covers-Extends s.tracker_states _ s.tracker_set
              (Extends-assign p.announce _ s.tracker_states) h.0,
          IsLinked-emplace_kept p.info_hash q s.delayed_requests e h.1,
          tt,
        ))

  on_response-Ends :
      (now : ℕ) (p : PollResult) (r : TrackerResponse) (q : RequestAnnounce) (s : AnnounceService)
      → q.info_hash ≡ p.info_hash
      → IsSound (some (p.announce, q)) s
      → Ends none (on_response to_int now p r s)
  unfolding on_response
  on_response-Ends now p r q s e h =
      let ann = to_announce to_int p.info_hash now r in
      let found = on_announce ann.peers (refreshed to_int now r (state_of p.announce s)) in
      rw (h.2.0, on_response)
        (answered-Ends p q ann found
          (record s { executed_requests = erase p.announce s.executed_requests }) e h.0 h.1)

  if-Ends : (b : Bool) (r t : Ran) → Ends none r → Ends none t → Ends none (if b then r else t)
  if-Ends true r t h k = h
  if-Ends false r t h k = k

  failed-Ends :
      (p : PollResult) (q : RequestAnnounce) (s : AnnounceService)
      → q.info_hash ≡ p.info_hash
      → IsSound (some (p.announce, q)) s
      → Ends none (failed p s)
  failed-Ends p q s e h =
      if-Ends (not (is_empty p.error)) (on_error p s) _ (on_error-Ends p q s e h) (h.0, h.1, tt)

  on_announced-Ends :
      (now : ℕ) (p : PollResult) (o : Option TrackerResponse) (q : RequestAnnounce)
      (s : AnnounceService)
      → q.info_hash ≡ p.info_hash
      → IsSound (some (p.announce, q)) s
      → Ends none (on_announced to_int now p o s)
  on_announced-Ends now p none q s e h = failed-Ends p q s e h
  on_announced-Ends now p (some r) q s e h =
      if-Ends (member p.info_hash s.subscribers) _ _ (on_response-Ends now p r q s e h)
        (failed-Ends p q s e h)

  -- The result of `client.poll()`, if it is for the torrent whose query went to this tracker.
  on_result-Ends :
      (now : ℕ) (p : PollResult) (q : RequestAnnounce) (s : AnnounceService)
      → q.info_hash ≡ p.info_hash
      → IsSound (some (p.announce, q)) s
      → Ends none (on_result to_int now p s)
  unfolding on_result
  on_result-Ends now p q s e h = rw (h.2.1, on_result) (on_announced-Ends now p p.response q s e h)

-- A result that is empty, or for the torrent whose query went to the tracker.
abbrev pub Matches : PollResult → Option (List ℕ × RequestAnnounce) → Type 0
Matches p none = is_empty p.announce ≡ true
Matches p (some (u, q)) = (u ≡ p.announce) × (q.info_hash ≡ p.info_hash)

module _ (to_int : Option ℕ → ℕ) where
  end-Ends :
      (now : ℕ) (p : PollResult) (w : Option (List ℕ × RequestAnnounce)) (s : AnnounceService)
      → Matches p w
      → IsSound w s
      → Ends none (if is_empty p.announce then done s [] else on_result to_int now p s)
  end-Ends now p none s m h = rw m (h.0, h.1, tt)
  end-Ends now p (some (u, q)) s m h =
      if-Ends to_int (is_empty p.announce) (done s []) (on_result to_int now p s) (h.0, h.1, tt)
        (on_result-Ends to_int now p q s m.1 (subst (λ v. IsSound (some (v, q)) s) m.0 h))

  bind-Ends :
      (w : Option (List ℕ × RequestAnnounce)) (r : Ran) (f : AnnounceService → Ran)
      → ((s : AnnounceService) → IsSound w s → Ends none (f s))
      → Ends w r
      → Ends none (r >>= f)
  bind-Ends w (done s es) f k h = Ends-also none es (f s) (k s h)
  bind-Ends w aborted f k h = h
  bind-Ends w invalid f k h = h
  bind-Ends w unfinished f k h = h

  on_request-EndsWithin :
      (w : Option (List ℕ × RequestAnnounce)) (o : Option AnnounceRequest) (now : ℕ)
      (s : AnnounceService)
      → IsSound w s
      → EndsWithin (length s.delayed_requests + 1) w (on_request o now s)
  on_request-EndsWithin w none now s h = (h, omega arith)
  on_request-EndsWithin w (some req) now s h = process-EndsWithin w req now s h

  -- From a state in which each tracker of a torrent has a state, each delayed request is kept
  -- under its own torrent, and a query that is underway has its entry and its tracker a state, a
  -- round of pollOnce, whose result is empty or answers that query for the torrent of its entry,
  -- ends in such a state without a failed assert or a use of the end of a map, given more readings
  -- of the clock than there are delayed requests and one.
  pub poll_once-Ends :
      (r : Round) (w : Option (List ℕ × RequestAnnounce)) (s : AnnounceService)
      → Matches r.result w
      → length s.delayed_requests + 1 < length r.times
      → IsSound w s
      → Ends none (poll_once to_int r s)
  unfolding poll_once
  poll_once-Ends r w s m b h =
      bind-Ends w (on_request r.request r.at s >>= run_delayed r.times) _
        (λ t k. end-Ends r.seconds r.result w t m k)
        (begin-Ends w (on_request r.request r.at s) r.times (length s.delayed_requests + 1) b
          (on_request-EndsWithin w r.request r.at s h))
