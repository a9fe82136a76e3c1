-- ===== src/AnnounceService/Shared.antt =====
-- Two torrents with one tracker: `executedRequests` has one entry for both.
use fractals.Prelude.{
  ℕ, ◌+◌, ◌%◌, ◌^◌, ◌<◌, ◌≤◌, true, ◌≡◌, ◌≢◌, refl, ◌∙◌, sym, ap, subst, Option, some, List, [],
  ◌∷◌, arith, All, map, ◌*◌, lt→ltb, le→leb,
}
use fractals.Prelude.Eq.{list_eq, beq_ne}
use fractals.Prelude.Map.{find, contains, assign, emplace, erase, find-assign_self}
use fractals.AnnounceService.{
  AnnounceService, done, unfinished, also, query, get_next_announce, next_announce_loop,
  executable_loop, run_delayed, RequestAnnounce, executed, state_of, set_state, on_response,
  refreshed, answered, PollResult,
}
use fractals.AnnounceService.Tracker.{
  TrackerState, can_announce, notify_of_request, notify_of_retry, on_announce, on_announce_loop,
}
use fractals.TrackerResponse.{TrackerResponse, Peer, PeerId, peer_id_eq, to_announce}
use fractals.Prelude.Set.{member}

pub state_of_known :
    (u : List ℕ) (s : AnnounceService) (t : TrackerState)
    → find u s.tracker_states ≡ some t
    → state_of u s ≡ t
state_of_known u s t e = rw (e, state_of) refl

-- The one delayed request stands under another torrent, `k`, than its own, and the first tracker of
-- that torrent can be asked at any time after `limit`.
pub record IsStuck (k u : List ℕ) (us : List (List ℕ)) (req : RequestAnnounce) (limit : ℕ)
    (s : AnnounceService) : Type 0 where
  pub delayed : s.delayed_requests ≡ (k, req) ∷ []
  pub other : req.info_hash ≢ k
  pub trackers : find k s.tracker_set ≡ some (u ∷ us)
  pub state : TrackerState
  pub known : find u s.tracker_states ≡ some state
  pub retries : state.retry_count ≤ 2
  pub free : (state.prev_request_time + state.min_interval) % 2 ^ 64 ≡ limit

module _ (k u : List ℕ) (us : List (List ℕ)) (req : RequestAnnounce) (limit : ℕ) where
  next-IsStuck :
      (now : ℕ) (s : AnnounceService)
      → limit < now
      → IsStuck k u us req limit s
      → get_next_announce k now s
        ≡ some (some u, record s { tracker_set = assign k (u ∷ us) s.tracker_set })
  unfolding get_next_announce next_announce_loop can_announce
  next-IsStuck now s b h =
      let t = h.state in
      let late : (t.prev_request_time + t.min_interval) % 2 ^ 64 < now =
        subst (λ n. n < now) (sym h.free) b in
      rw (h.trackers, get_next_announce)
        (rw (h.known, next_announce_loop)
          (rw (lt→ltb _ now late, can_announce) (rw (le→leb t.retry_count 2 h.retries) refl)))

  executable_loop-IsStuck :
      (now : ℕ) (s : AnnounceService)
      → limit < now
      → IsStuck k u us req limit s
      → executable_loop s.delayed_requests now s
        ≡ some (some (u, req), record s { tracker_set = assign k (u ∷ us) s.tracker_set })
  unfolding executable_loop
  executable_loop-IsStuck now s b h =
      ap (λ l. executable_loop l now s) h.delayed
      ∙ rw (next-IsStuck now s b h, executable_loop) refl

  -- The state after a round of the loop.
  abbrev asked : AnnounceService → AnnounceService
  asked s = executed u req (record s {
    tracker_set = assign k (u ∷ us) s.tracker_set;
    delayed_requests = erase req.info_hash s.delayed_requests;
  })

  asked-IsStuck :
      (s : AnnounceService) → IsStuck k u us req limit s → IsStuck k u us req limit (asked s)
  unfolding erase
  asked-IsStuck s h = record {
    delayed =
        ap (erase req.info_hash) h.delayed
        ∙ rw (beq_ne k req.info_hash (λ e. h.other (sym e)), erase) refl;
    other = h.other;
    trackers = find-assign_self k (u ∷ us) s.tracker_set;
    state = notify_of_request h.state;
    known =
        find-assign_self u _ s.tracker_states
        ∙ ap (λ t. some (notify_of_request t)) (state_of_known u s h.state h.known);
    retries = h.retries;
    free = h.free;
  }

  -- However long the clock is read, the loop does not end.
  pub run_delayed-IsStuck :
      (times : List ℕ) (s : AnnounceService)
      → All (λ now. limit < now) times
      → IsStuck k u us req limit s
      → run_delayed times s ≡ unfinished
  unfolding run_delayed
  run_delayed-IsStuck [] s b h = refl
  run_delayed-IsStuck (now ∷ times) s b h =
      rw (executable_loop-IsStuck now s b.0 h, run_delayed)
        (ap (also (query u req.torrent ∷ []))
          (run_delayed-IsStuck times (asked s) b.1 (asked-IsStuck s h)))

-- Peers that are known are not new.
on_announce_loop-known :
    (ps : List Peer) (seen : List PeerId)
    → All (λ (p : Peer). member p.id seen ≡ true) ps
    → on_announce_loop (map (λ (p : Peer). p.id) ps) seen ≡ ([], seen)
unfolding on_announce_loop
on_announce_loop-known [] seen h = refl
on_announce_loop-known (p ∷ ps) seen h =
    rw (h.0, on_announce_loop) (on_announce_loop-known ps seen h.1)

on_announce-known :
    (ps : List Peer) (t : TrackerState)
    → All (λ (p : Peer). member p.id t.peers ≡ true) ps
    → on_announce (map (λ (p : Peer). p.id) ps) t ≡ ([], t)
unfolding on_announce
on_announce-known ps t h = rw (on_announce_loop-known ps t.peers h) refl

-- When the tracker that is first in line for a torrent answers for it without a new peer, but its
-- entry is that of another torrent, nothing is delayed and it was retried less than twice, then
-- the answer leaves a state from which the loop over the delayed requests never ends, however
-- often the clock is read, once each reading is later than the answer by the least interval as
-- nanoseconds.
pub on_response-run_delayed :
    (to_int : Option ℕ → ℕ) (now : ℕ) (p : PollResult) (r : TrackerResponse) (s : AnnounceService)
    (req : RequestAnnounce) (us : List (List ℕ)) (t : TrackerState)
    → find p.announce s.executed_requests ≡ some req
    → req.info_hash ≢ p.info_hash
    → s.delayed_requests ≡ []
    → find p.info_hash s.tracker_set ≡ some (p.announce ∷ us)
    → find p.announce s.tracker_states ≡ some t
    → t.retry_count < 2
    → All (λ (q : Peer). member q.id t.peers ≡ true) r.peers
    → (s' : AnnounceService) × (on_response to_int now p r s ≡ done s' [])
      × ((times : List ℕ)
          → All (λ x. (now * 10 ^ 9 + to_int r.min_interval) % 2 ^ 64 < x) times
          → run_delayed times s' ≡ unfinished)
unfolding on_response to_announce emplace contains find
on_response-run_delayed to_int now p r s req us t e o d k f b seen =
    let t' = notify_of_retry (refreshed to_int now r t) in
    let s' = set_state p.announce t' (record s {
      executed_requests = erase p.announce s.executed_requests;
      delayed_requests = (p.info_hash, req) ∷ [];
    }) in
    let ann = to_announce to_int p.info_hash now r in
    let found : on_announce ann.peers (refreshed to_int now r (state_of p.announce s))
        ≡ ([], refreshed to_int now r t) =
      ap (λ x. on_announce ann.peers (refreshed to_int now r x)) (state_of_known p.announce s t f)
      ∙ on_announce-known r.peers (refreshed to_int now r t) seen in
    let s₁ = record s { executed_requests = erase p.announce s.executed_requests } in
    let ends : on_response to_int now p r s ≡ done s' [] =
      rw (e, on_response)
        (ap (λ x. answered p req ann x s₁) found
          ∙ ap
              (λ l.
                done
                  (set_state p.announce t'
                    (record s₁ { delayed_requests = emplace p.info_hash req l }))
                  [])
              d) in
    (
      s',
      ends,
      λ times late. run_delayed-IsStuck p.info_hash p.announce us req _ times s' late (record {
        delayed = refl;
        other = o;
        trackers = k;
        state = t';
        known = find-assign_self p.announce t' s.tracker_states;
        retries = omega arith;
        free = refl;
      }),
    )
