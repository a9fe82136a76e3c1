-- ===== src/AnnounceService/Tracker.antt =====
-- `TrackerState` of include/fractals/network/http/AnnounceService.h and src/fractals/network/http/
-- AnnounceService.cpp: what the announce service knows of one tracker. A number is the bit pattern of
-- a `uint64_t`.
use fractals.Prelude.{ℕ, ◌+◌, ◌%◌, ◌^◌, List, [], ◌∷◌, Bool, if◌then◌else◌, ltb}
use fractals.Prelude.Set.{member, insert}
use fractals.TrackerResponse.{PeerId, peer_id_eq}

pub record TrackerState : Type 0 where
  pub min_interval : ℕ
  pub interval : ℕ
  pub request_num : ℕ
  pub retry_count : ℕ
  pub prev_request_time : ℕ
  pub peers : List PeerId

-- `TrackerState{}`.
abbrev pub fresh : TrackerState
fresh = record {
  min_interval = 0;
  interval = 0;
  request_num = 0;
  retry_count = 0;
  prev_request_time = 0;
  peers = [];
}

abbrev pub reset : TrackerState → TrackerState
reset t = record t { peers = []; prev_request_time = 0; retry_count = 0 }

-- A time is in nanoseconds, and the least interval is added to it as it is.
unfoldable pub can_announce : ℕ → TrackerState → Bool
can_announce now t = ltb ((t.prev_request_time + t.min_interval) % 2 ^ 64) now

abbrev pub notify_of_request : TrackerState → TrackerState
notify_of_request t = record t { request_num = (t.request_num + 1) % 2 ^ 64 }

abbrev pub notify_of_retry : TrackerState → TrackerState
notify_of_retry t = record t { retry_count = (t.retry_count + 1) % 2 ^ 64 }

abbrev pub set_interval : ℕ → ℕ → TrackerState → TrackerState
set_interval min_interval interval t = record t { min_interval = min_interval; interval = interval }

abbrev pub update : ℕ → TrackerState → TrackerState
update now t = record t { prev_request_time = now }

-- The peers of an announce that were not seen before, and all that were seen.
unfoldable pub on_announce_loop : List PeerId → List PeerId → List PeerId × List PeerId
on_announce_loop [] seen = ([], seen)
on_announce_loop (p ∷ ps) seen =
    let known = on_announce_loop ps seen in
    let (new_peers, seen') = on_announce_loop ps (insert p seen) in
    if member p seen then known else (p ∷ new_peers, seen')

unfoldable pub on_announce : List PeerId → TrackerState → List PeerId × TrackerState
unfolding on_announce_loop
on_announce ps t =
    let (new_peers, seen) = on_announce_loop ps t.peers in (new_peers, record t { peers = seen })
