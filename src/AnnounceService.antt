-- ===== src/AnnounceService.antt =====
-- include/fractals/network/http/AnnounceService.h and AnnounceService.ipp: the service that asks the
-- trackers for peers. A round of `pollOnce` takes as inputs what the queue and `client.poll()` give
-- and what the clock shows, one reading for each test of the loop over the delayed requests. It gives
-- the queries and the announces in order.
pub mod Tracker
pub mod States
pub mod Loop
pub mod Rounds
pub mod Shared
use fractals.Prelude.{
  ℕ, zero, suc, ◌+◌, ◌-◌, ◌*◌, ◌%◌, ◌^◌, Bool, true, false, not, ◌&&◌, Option, none, some, List, [],
  ◌∷◌, ◌++◌, if◌then◌else◌, ltb, leb,
}
use fractals.Prelude.Eq.{list_eq, list_beq}
use fractals.Prelude.Map.{Map, find, contains, assign, emplace, erase}
use fractals.Prelude.Set.{member, insert, remove}
use fractals.DiskIoService.{TorrentModel}
use fractals.BitTorrentManager.Queues.{
  AnnounceRequest, add_trackers, request_announce, delete_trackers, pause,
}
use fractals.TrackerResponse.{PeerId, Announce, TrackerResponse, to_announce, codes}
use Tracker.{
  TrackerState, fresh, reset, can_announce, notify_of_request, notify_of_retry, set_interval,
  update, on_announce,
}

pub record RequestAnnounce : Type 0 where
  pub info_hash : List ℕ
  pub torrent : TorrentModel

-- `outstandingRequests` is used nowhere.
pub record AnnounceService : Type 0 where
  pub running : Bool
  pub delayed_requests : Map (List ℕ) RequestAnnounce
  pub executed_requests : Map (List ℕ) RequestAnnounce
  pub tracker_states : Map (List ℕ) TrackerState
  pub subscribers : List (List ℕ)
  pub tracker_set : Map (List ℕ) (List (List ℕ))

pub data Effect : Type 0 where
  query : List ℕ → TorrentModel → Effect
  push : Announce → Effect

-- `TrackerClient::PollResult`.
pub record PollResult : Type 0 where
  pub info_hash : List ℕ
  pub announce : List ℕ
  pub error : List ℕ
  pub response : Option TrackerResponse

-- How a step ends: with a state and effects, in a failed `assert`, with the end of a map that is
-- dereferenced, or not before the readings of the clock are used up.
pub data Ran : Type 0 where
  done : AnnounceService → List Effect → Ran
  aborted invalid unfinished : Ran

abbrev pub also : List Effect → Ran → Ran
also es (done s fs) = done s (es ++ fs)
also es aborted = aborted
also es invalid = invalid
also es unfinished = unfinished

infixl 5 ◌>>=◌
abbrev pub ◌>>=◌ : Ran → (AnnounceService → Ran) → Ran
done s es >>= f = also es (f s)
aborted >>= f = aborted
invalid >>= f = invalid
unfinished >>= f = unfinished

-- `trackerStates[announce]`, where a missing state is made.
abbrev pub state_of : List ℕ → AnnounceService → TrackerState
state_of u s = elim (find u s.tracker_states) [ none ↦ fresh | some t ↦ t ]

abbrev pub set_state : List ℕ → TrackerState → AnnounceService → AnnounceService
set_state u t s = record s { tracker_states = assign u t s.tracker_states }

-- The loop of `getNextAnnounce`, with the rounds that are left. `none` is the failed `assert`.
unfoldable pub next_announce_loop :
    ℕ → ℕ → Map (List ℕ) TrackerState → List (List ℕ) → Option (Option (List ℕ) × List (List ℕ))
next_announce_loop zero now states trackers = some (none, trackers)
next_announce_loop (suc n) now states [] = some (none, [])
next_announce_loop (suc n) now states (u ∷ trackers) =
    let rest = next_announce_loop n now states (trackers ++ u ∷ []) in
    elim (find u states) [
      | none ↦ none
      | some t ↦
          if can_announce now t && leb t.retry_count 2 then some (some u, u ∷ trackers) else rest
    ]

abbrev count : List (List ℕ) → ℕ
count [] = 0
count (u ∷ us) = suc (count us)

unfoldable pub get_next_announce :
    List ℕ → ℕ → AnnounceService → Option (Option (List ℕ) × AnnounceService)
unfolding next_announce_loop
get_next_announce ih now s = elim (find ih s.tracker_set) [
  | none ↦ some (none, s)
  | some trackers ↦ elim (next_announce_loop (count trackers) now s.tracker_states trackers) [
    | none ↦ none
    | some (next, trackers') ↦
        some (next, record s { tracker_set = assign ih trackers' s.tracker_set })
  ]
]

-- The loop of `getExecutableDelayedRequest` over the delayed requests that are left.
unfoldable pub executable_loop :
    Map (List ℕ) RequestAnnounce
    → ℕ
    → AnnounceService
    → Option (Option (List ℕ × RequestAnnounce) × AnnounceService)
executable_loop [] now s = some (none, s)
executable_loop ((ih, req) ∷ delayed) now s = elim (get_next_announce ih now s) [
  | none ↦ none
  | some (none, s') ↦ executable_loop delayed now s'
  | some (some u, s') ↦ some (some (u, req), s')
]

-- `execute`, and the state after it.
abbrev pub executed : List ℕ → RequestAnnounce → AnnounceService → AnnounceService
executed u req s =
    set_state u (notify_of_request (state_of u s))
      (record s { executed_requests = emplace u req s.executed_requests })

abbrev pub execute : List ℕ → RequestAnnounce → AnnounceService → Ran
execute u req s = done (executed u req s) (query u req.torrent ∷ [])

-- The loop of `pollOnce` over the delayed requests.
unfoldable pub run_delayed : List ℕ → AnnounceService → Ran
run_delayed [] s = unfinished
run_delayed (now ∷ times) s = elim (executable_loop s.delayed_requests now s) [
  | none ↦ aborted
  | some (none, s') ↦ done s' []
  | some (some (u, req), s') ↦
      execute u req (record s' { delayed_requests = erase req.info_hash s'.delayed_requests })
      >>= run_delayed times
]

unfoldable pub process_request_announce : RequestAnnounce → ℕ → AnnounceService → Ran
process_request_announce req now s =
    if member req.info_hash s.subscribers
    then done s []
    else elim (get_next_announce req.info_hash now
        (record s { subscribers = insert req.info_hash s.subscribers })) [
          | none ↦ aborted
          | some (none, s') ↦
              done (record s' { delayed_requests = emplace req.info_hash req s'.delayed_requests })
                []
          | some (some u, s') ↦ execute u req s'
        ]

abbrev is_udp : List ℕ → Bool
is_udp (a ∷ (b ∷ (c ∷ url))) = list_beq (a ∷ b ∷ c ∷ []) (codes "udp")
is_udp url = false

-- The trackers of a torrent, or none.
abbrev trackers_of : List ℕ → AnnounceService → List (List ℕ)
trackers_of ih s = elim (find ih s.tracker_set) [ none ↦ [] | some us ↦ us ]

-- A round of the loop of `process(AddTrackers)`, for a tracker that is asked over HTTP.
abbrev pub add_tracker : List ℕ → List ℕ → AnnounceService → AnnounceService
add_tracker ih url s = record s {
  tracker_set = assign ih (trackers_of ih s ++ url ∷ []) s.tracker_set;
  tracker_states = emplace url fresh s.tracker_states;
}

unfoldable pub process_add_trackers : List ℕ → List (List ℕ) → AnnounceService → AnnounceService
process_add_trackers ih [] s = s
process_add_trackers ih (url ∷ urls) s =
    process_add_trackers ih urls (if is_udp url then s else add_tracker ih url s)

unfoldable pub process_delete_trackers : List ℕ → AnnounceService → AnnounceService
process_delete_trackers ih s = record s {
  tracker_set = erase ih s.tracker_set;
  delayed_requests = erase ih s.delayed_requests;
  subscribers = remove ih s.subscribers;
}

abbrev reset_all : Map (List ℕ) TrackerState → Map (List ℕ) TrackerState
reset_all [] = []
reset_all ((u, t) ∷ states) = (u, reset t) ∷ reset_all states

unfoldable pub process_pause : List ℕ → AnnounceService → AnnounceService
process_pause ih s = record s {
  tracker_states = reset_all s.tracker_states;
  delayed_requests = erase ih s.delayed_requests;
  subscribers = remove ih s.subscribers;
}

-- `process`, by the kind of the request.
unfoldable pub process : AnnounceRequest → ℕ → AnnounceService → Ran
process (request_announce ih torrent) now s =
    process_request_announce (record { info_hash = ih; torrent = torrent }) now s
process (add_trackers ih urls) now s = done (process_add_trackers ih urls s) []
process (delete_trackers ih) now s = done (process_delete_trackers ih s) []
process (pause ih) now s = done (process_pause ih s) []
process AnnounceRequest.shutdown now s = done (record s { running = false }) []

-- An `int` as a `uint64_t`.
abbrev sign_extend : ℕ → ℕ
sign_extend n = if ltb n (2 ^ 31) then n else n + 2 ^ 64 - 2 ^ 32

-- What `pollOnce` does with the peers that are new, and with none.
abbrev pub answered :
    PollResult → RequestAnnounce → Announce → List PeerId × TrackerState → AnnounceService → Ran
answered p req ann ([], t) s =
    done
      (set_state p.announce (notify_of_retry t)
        (record s { delayed_requests = emplace p.info_hash req s.delayed_requests }))
      []
answered p req ann (q ∷ qs, t) s =
    done (set_state p.announce t (record s { subscribers = remove p.info_hash s.subscribers }))
      (push (record ann { peers = q ∷ qs }) ∷ [])

-- The state of a tracker that has answered at `now` seconds.
abbrev pub refreshed : (Option ℕ → ℕ) → ℕ → TrackerResponse → TrackerState → TrackerState
refreshed to_int now r t =
    update (now * 10 ^ 9) (set_interval (to_int r.min_interval) (sign_extend r.interval) t)

module _ (to_int : Option ℕ → ℕ) where
  -- `pollOnce` for a response of a torrent that is subscribed.
  unfoldable pub on_response : ℕ → PollResult → TrackerResponse → AnnounceService → Ran
  on_response now p r s = elim (find p.announce s.executed_requests) [
    | none ↦ invalid
    | some req ↦
        let ann = to_announce to_int p.info_hash now r in
        answered p req ann (on_announce ann.peers (refreshed to_int now r (state_of p.announce s)))
          (record s { executed_requests = erase p.announce s.executed_requests })
  ]

-- `pollOnce` for the text of an error. The `assert` compares the torrents.
unfoldable pub on_error : PollResult → AnnounceService → Ran
on_error p s = elim (find p.announce s.executed_requests) [
  | none ↦ invalid
  | some req ↦
      if list_beq req.info_hash p.info_hash
      then done
          (set_state p.announce (notify_of_retry (state_of p.announce s)) (record s {
            executed_requests = erase p.announce s.executed_requests;
            delayed_requests = emplace p.info_hash req s.delayed_requests;
          }))
          []
      else aborted
]

abbrev is_empty : List ℕ → Bool
is_empty [] = true
is_empty (c ∷ cs) = false

-- What a round is given: a request, the time it is taken at, the readings of the loop, the result of
-- `client.poll()` and the seconds then.
pub record Round : Type 0 where
  pub request : Option AnnounceRequest
  pub at : ℕ
  pub times : List ℕ
  pub result : PollResult
  pub seconds : ℕ

-- What the queue gives.
abbrev pub on_request : Option AnnounceRequest → ℕ → AnnounceService → Ran
on_request none at s = done s []
on_request (some req) at s = process req at s

-- A response of a torrent that is not subscribed is taken as this too.
abbrev pub failed : PollResult → AnnounceService → Ran
failed p s =
    if not (is_empty p.error)
    then on_error p s
    else done (record s { executed_requests = erase p.announce s.executed_requests }) []

module _ (to_int : Option ℕ → ℕ) where
  abbrev pub on_announced : ℕ → PollResult → Option TrackerResponse → AnnounceService → Ran
  on_announced now p none s = failed p s
  on_announced now p (some r) s =
      if member p.info_hash s.subscribers then on_response to_int now p r s else failed p s

  -- `pollOnce` behind the test for an empty result.
  unfoldable pub on_result : ℕ → PollResult → AnnounceService → Ran
  on_result now p s =
      if contains p.announce s.tracker_states then on_announced now p p.response s else aborted

  unfoldable pub poll_once : Round → AnnounceService → Ran
  poll_once r s = on_request r.request r.at s >>= run_delayed r.times >>= λ s'.
      if is_empty r.result.announce then done s' [] else on_result r.seconds r.result s'
