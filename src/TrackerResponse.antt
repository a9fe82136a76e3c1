-- ===== src/TrackerResponse.antt =====
-- include/fractals/network/http/Request.h, Peer.h, Announce.h and src/fractals/network/http/Request.cpp:
-- the answer of a tracker, out of bencoded data. An `int` is its bit pattern. What the library makes
-- of a `Maybe` that is used as an `int` is the parameter `to_int`, and `inet_ntop` of four bytes is
-- the parameter `ntop`.
pub mod Peers
use Prim.Native.Char.{code}
use Prim.Native.String.{String}
use fractals.Prelude.{
  ℕ, zero, suc, ◌+◌, ◌*◌, ◌/◌, ◌%◌, ◌^◌, ◌≡◌, ◌↔◌, Bool, true, ◌&&◌, Option, none, some, List, [],
  ◌∷◌, ◌++◌, map, if◌then◌else◌, ◌==◌, ==_iff, ltb, length, arith,
}
use fractals.Prelude.Eq.{Eq, list_beq, list_beq_iff}
use fractals.Maybe.{
  Bencode, Result, right, left, thrown, ◌>>=◌, mmap, maybe_to_either, flat_map, to_bint, to_bstring,
  to_blist, as_dict,
}

-- The bytes of a text in ASCII.
abbrev pub codes : String → List ℕ
codes String.[] = []
codes (String.◌∷◌ c s) = code c ∷ codes s

pub record PeerId : Type 0 where
  pub ip : List ℕ
  pub port : ℕ

-- `PeerId::operator==`.
abbrev peer_id_beq : PeerId → PeerId → Bool
peer_id_beq p q = list_beq p.ip q.ip && p.port == q.port

pub peer_id_beq_iff : (p q : PeerId) → (peer_id_beq p q ≡ true) ↔ (p ≡ q)
peer_id_beq_iff p q = ground (arith, list_beq_iff p.ip q.ip, ==_iff p.port q.port)

instance abbrev pub peer_id_eq : Eq PeerId
peer_id_eq = record { beq = peer_id_beq; beq_iff = peer_id_beq_iff }

pub record Peer : Type 0 where
  pub name : List ℕ
  pub id : PeerId

pub record Announce : Type 0 where
  pub info_hash : List ℕ
  pub announce_time : ℕ
  pub interval : ℕ
  pub min_interval : Option ℕ
  pub peers : List PeerId

pub record TrackerResponse : Type 0 where
  pub warning_message : Option (List ℕ)
  pub interval : ℕ
  pub min_interval : Option ℕ
  pub tracker_id : Option (List ℕ)
  pub complete : ℕ
  pub incomplete : ℕ
  pub peers : List Peer

-- `std::to_string` of a number below 10 ^ 20, the digits before `acc`.
unfoldable pub decimal : ℕ → ℕ → List ℕ → List ℕ
decimal zero n acc = acc
decimal (suc d) n acc =
    let rest = decimal d (n / 10) ((48 + n % 10) ∷ acc) in if ltb n 10 then (48 + n) ∷ acc else rest

unfoldable pub to_string : ℕ → List ℕ
unfolding decimal
to_string n = decimal 20 n []

unfoldable pub intercalate : List ℕ → List (List ℕ) → List ℕ
intercalate del [] = []
intercalate del (s ∷ []) = s
intercalate del (s ∷ (t ∷ ss)) = s ++ (del ++ intercalate del (t ∷ ss))

-- `TrackerRequest`, made from a torrent's model, as a text. The two encoded texts are curl's.
unfoldable pub to_http_get_url : List ℕ → List ℕ → List ℕ → List ℕ
unfolding intercalate to_string
to_http_get_url announce url_info_hash url_app_id =
    announce
    ++ (codes "?"
        ++ intercalate (codes "&") (
            (codes "info_hash=" ++ url_info_hash)
            ∷ (codes "peer_id=" ++ url_app_id)
            ∷ (codes "port=" ++ to_string 6882)
            ∷ (codes "uploaded=" ++ to_string 0)
            ∷ (codes "downloaded=" ++ to_string 0)
            ∷ (codes "left=" ++ to_string 0)
            ∷ codes "compact=1"
            ∷ []))

-- What `TrackerResponse::decode` gives: a response, the reason of a failure, the text of an error, or
-- the value of an empty `Maybe`.
pub data Decoded : Type 0 where
  response : TrackerResponse → Decoded
  failure : List ℕ → Decoded
  error : String → Decoded
  undefined : Decoded

-- An `Either` as that variant. Nothing here throws.
abbrev or_error : {A : Type 0} → Result A → (A → Decoded) → Decoded
or_error (right a) f = f a
or_error (left s) f = error s
or_error thrown f = undefined

module _ (ntop : List ℕ → List ℕ) where
  -- The loop of `parsePeersBin`.
  unfoldable pub peers_loop : List ℕ → List Peer
  unfolding to_string
  peers_loop (a ∷ (b ∷ (c ∷ (d ∷ (h ∷ (l ∷ bytes)))))) =
      let port = (h * 256 + l) % 2 ^ 16 in
      let ip = ntop (a ∷ b ∷ c ∷ d ∷ []) in
      record { name = ip ++ (codes ":" ++ to_string port); id = record { ip = ip; port = port } }
      ∷ peers_loop bytes
  peers_loop bytes = []

  unfoldable pub parse_peers_bin : List ℕ → Result (List Peer)
  unfolding peers_loop
  parse_peers_bin bytes =
      if length bytes % 6 == 0
      then right (peers_loop bytes)
      else left "Peer binary data is not a multiple of 6"

module _ {Data Dict : Type 0} (ben : Bencode Data Dict) where
  -- A text or a number under a key, or nothing.
  abbrev pub text_at : String → Dict → Option (List ℕ)
  text_at k d = flat_map (ben.find (codes k) d) (to_bstring ben)

  abbrev pub int_at : String → Dict → Option ℕ
  int_at k d = flat_map (ben.find (codes k) d) (to_bint ben)

  unfoldable pub parse_peer : Data → Result Peer
  parse_peer bd =
      maybe_to_either (as_dict ben bd) "Could not coerce bdata to bdict for peer" >>= λ d.
      maybe_to_either (text_at "peer id" d) "Could not find field peer id in peers dictionary"
      >>= λ name.
          maybe_to_either (text_at "ip" d) "Could not find field ip in peers dictionary" >>= λ ip.
          maybe_to_either (int_at "port" d) "Could not find field port in peers dictionary"
          >>= λ port. right (record { name = name; id = record { ip = ip; port = port % 2 ^ 16 } })

  unfoldable pub parse_peers_dict : List Data → Result (List Peer)
  unfolding parse_peer
  parse_peers_dict bl = mmap parse_peer bl

module _ {Data Dict : Type 0} (ben : Bencode Data Dict) (ntop : List ℕ → List ℕ) where
  -- "peers" as a list, or else as a text.
  unfoldable pub parse_peers : Dict → Result (List Peer)
  unfolding parse_peers_dict parse_peers_bin
  parse_peers d = elim (flat_map (ben.find (codes "peers") d) (to_blist ben)) [
    | some bl ↦ parse_peers_dict ben bl
    | none ↦ elim (text_at ben "peers" d) [
      | some bytes ↦ parse_peers_bin ntop bytes
      | none ↦ left "Could not find field peers in tracker response"
    ]
  ]

module _ {Data Dict : Type 0} (ben : Bencode Data Dict) (ntop : List ℕ → List ℕ)
    (to_int : Option ℕ → ℕ) where
  -- `decode` behind the test of "failure reason".
  unfoldable pub decode_success : Dict → Decoded
  unfolding parse_peers
  decode_success d = or_error (parse_peers ben ntop d) λ peers.
      or_error
        (maybe_to_either (int_at ben "interval" d)
          "Could not find field interval in tracker response")
        λ interval.
          or_error
            (maybe_to_either (int_at ben "complete" d)
              "Could not find field complete in tracker respone")
            λ complete.
              or_error
                (maybe_to_either (int_at ben "incomplete" d)
                  "Could not find field incomplete in tracker response")
                λ incomplete. response (record {
                  warning_message = text_at ben "warning message" d;
                  interval = interval % 2 ^ 32;
                  min_interval = some (to_int (int_at ben "min interval" d));
                  tracker_id = text_at ben "tracker id" d;
                  complete = complete % 2 ^ 32;
                  incomplete = incomplete % 2 ^ 32;
                  peers = peers;
                })

  unfoldable pub decode : Dict → Decoded
  unfolding decode_success
  decode d = elim (ben.find (codes "failure reason") d) [
    | none ↦ decode_success d
    | some bd ↦ elim (to_bstring ben bd) [ none ↦ undefined | some reason ↦ failure reason ]
  ]

-- `toAnnounce`.
unfoldable pub to_announce : (Option ℕ → ℕ) → List ℕ → ℕ → TrackerResponse → Announce
to_announce to_int info_hash now r = record {
  info_hash = info_hash;
  announce_time = now;
  interval = r.interval;
  min_interval = some (to_int r.min_interval);
  peers = map (λ (p : Peer). p.id) r.peers;
}
