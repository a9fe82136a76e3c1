-- ===== src/Examples/Announces.antt =====
-- The announce service at work: one tracker for one torrent, and for two.
use fractals.Prelude.{
  ℕ, ◌^◌, ◌*◌, ◌+◌, ◌%◌, ◌<◌, ◌≡◌, refl, true, Option, none, some, List, [], ◌∷◌, arith, All,
}
use fractals.Prelude.Eq.{list_eq}
use fractals.Prelude.Map.{find, contains, assign, emplace, erase}
use fractals.Prelude.Set.{member, insert, remove}
use fractals.DiskIoService.{TorrentModel}
use fractals.BitTorrentManager.Queues.{AnnounceRequest, add_trackers, request_announce}
use fractals.TrackerResponse.{TrackerResponse, peer_id_eq, to_announce}
use fractals.AnnounceService.{
  AnnounceService, query, push, PollResult, Round, done, unfinished, ◌>>=◌, poll_once, run_delayed,
  on_response, process, process_request_announce, process_add_trackers, get_next_announce,
  next_announce_loop, executable_loop, on_result,
}
use fractals.AnnounceService.Tracker.{fresh, can_announce, on_announce, on_announce_loop}
use fractals.AnnounceService.States.{Covers-assign}
use fractals.AnnounceService.Loop.{Ends, IsSound}
use fractals.AnnounceService.Rounds.{poll_once-Ends}
use fractals.AnnounceService.Shared.{on_response-run_delayed}

-- The torrents 1 and 2, and the URL "http".
abbrev one : List ℕ
one = 1 ∷ []

abbrev two : List ℕ
two = 2 ∷ []

abbrev url : List ℕ
url = 104 ∷ 116 ∷ 116 ∷ 112 ∷ []

abbrev model : List ℕ → TorrentModel
model ih = record { torrent_hash = ih; torrent_dir = [] }

abbrev to_int : Option ℕ → ℕ
to_int none = 0
to_int (some n) = 1

abbrev idle : AnnounceService
idle = record {
  running = true;
  delayed_requests = [];
  executed_requests = [];
  tracker_states = [];
  subscribers = [];
  tracker_set = [];
}

abbrev no_result : PollResult
no_result = record { info_hash = []; announce = []; error = []; response = none }

abbrev no_peers : TrackerResponse
no_peers = record {
  warning_message = none;
  interval = 1800;
  min_interval = some 1;
  tracker_id = none;
  complete = 0;
  incomplete = 0;
  peers = [];
}

abbrev some_peer : TrackerResponse
some_peer = record no_peers {
  peers = record { name = []; id = record { ip = 7 ∷ []; port = 80 } } ∷ [];
}

abbrev answer : List ℕ → TrackerResponse → PollResult
answer ih r = record { info_hash = ih; announce = url; error = []; response = some r }

abbrev round_of : Option AnnounceRequest → PollResult → Round
round_of req p = record {
  request = req;
  at = 10;
  times = 10 ^ 18 ∷ 10 ^ 18 ∷ 10 ^ 18 ∷ [];
  result = p;
  seconds = 5;
}

-- The torrent 1 waits for the answer of the tracker.
abbrev asked : AnnounceService
asked = record idle {
  executed_requests = (url, record { info_hash = one; torrent = model one }) ∷ [];
  tracker_states = (url, fresh) ∷ [];
  subscribers = one ∷ [];
  tracker_set = (one, url ∷ []) ∷ [];
}

asked-IsSound : IsSound (some (url, record { info_hash = one; torrent = model one })) asked
unfolding find contains assign
asked-IsSound = (
  Covers-assign asked.tracker_states [] one (url ∷ []) (λ ih us f. cc) (refl, tt),
  tt,
  (refl, refl),
)

poll_once-Ends_example : Ends none (
    poll_once to_int
      (round_of (some (request_announce two (model two))) (answer one no_peers))
      asked)
poll_once-Ends_example =
    poll_once-Ends to_int (round_of (some (request_announce two (model two))) (answer one no_peers))
      (some (url, record { info_hash = one; torrent = model one })) asked (refl, refl) (omega arith)
      asked-IsSound

-- Both torrents have asked, and the entry is that of the torrent 1.
abbrev both_asked : AnnounceService
both_asked = record idle {
  executed_requests = (url, record { info_hash = one; torrent = model one }) ∷ [];
  tracker_states = (url, record fresh { request_num = 2 }) ∷ [];
  subscribers = two ∷ one ∷ [];
  tracker_set = (two, url ∷ []) ∷ (one, url ∷ []) ∷ [];
}

-- The state is one that the service comes to.
both_asked_reached :
    (poll_once to_int (round_of (some (add_trackers two (url ∷ []))) no_result) idle
      >>= poll_once to_int (round_of (some (add_trackers one (url ∷ []))) no_result)
      >>= poll_once to_int (round_of (some (request_announce one (model one))) no_result)
      >>= poll_once to_int (round_of (some (request_announce two (model two))) no_result))
    ≡ done both_asked (query url (model one) ∷ query url (model two) ∷ [])
unfolding poll_once process process_add_trackers process_request_announce run_delayed
    executable_loop get_next_announce next_announce_loop can_announce find contains assign emplace
    erase member insert
both_asked_reached = refl

-- One peer is pushed, and the torrent 1 is no subscriber any more.
peer_found :
    (poll_once to_int (round_of none (answer one some_peer)) asked >>= λ s. done s [])
    ≡ done
        (record idle {
          tracker_states =
              (
                url,
                record fresh {
                  min_interval = 1;
                  interval = 1800;
                  prev_request_time = 5 * 10 ^ 9;
                  peers = record { ip = 7 ∷ []; port = 80 } ∷ [];
                },
              )
              ∷ [];
          tracker_set = (one, url ∷ []) ∷ [];
        })
        (push (record {
          info_hash = one;
          announce_time = 5;
          interval = 1800;
          min_interval = some 1;
          peers = record { ip = 7 ∷ []; port = 80 } ∷ [];
        })
          ∷ [])
unfolding poll_once run_delayed executable_loop on_result on_response on_announce on_announce_loop
    to_announce find contains assign erase member insert remove
peer_found = refl

on_response-run_delayed_example :
    (s' : AnnounceService) × (on_response to_int 5 (answer two no_peers) no_peers both_asked
      ≡ done s' [])
    × ((times : List ℕ)
        → All (λ x. (5 * 10 ^ 9 + 1) % 2 ^ 64 < x) times
        → run_delayed times s' ≡ unfinished)
unfolding find
on_response-run_delayed_example =
    on_response-run_delayed to_int 5 (answer two no_peers) no_peers both_asked
      (record { info_hash = one; torrent = model one }) [] (record fresh { request_num = 2 }) refl
      (λ e. ground arith) refl refl refl (omega arith) tt
