-- ===== src/PeerService/Wire.antt =====
-- What one side of a connection writes, read by the other side.
use fractals.Prelude.{
  ℕ, ◌≡◌, ◌≢◌, ◌<◌, refl, ap, subst, ◌∙◌, true, false, Option, none, some, List, [], ◌∷◌, ◌++◌,
  length, map, All, Option-cases, inl, inr,
}
use mathlib.Core.Option
use fractals.Prelude.Int.{pos}
use fractals.Prelude.Eq.{Eq, beq_refl}
use fractals.Prelude.Map.{find, assign}
use fractals.Prelude.Set.{member, insert, member-insert, member-remove}
use fractals.Message
use fractals.Message.{
  HandShake, SerializeError, IsWellFormed, choke, unchoke, interested, not_interested, keep_alive,
  have, bitfield, request, piece, cancel, port, hand_shake, serialize_error,
}
use fractals.Encoder.{encode}
use fractals.Encoder.Decode.{decode, decode_hand_shake}
use fractals.Encoder.RoundTrip.{IsWire, decode-encode}
use fractals.Encoder.HandShakes.{decode_hand_shake-encode}
use fractals.PeerService.{
  PeerFd, PeerService, EpollServiceRequest, write_event, subscribe, un_subscribe, deactivate,
  read_event, PeerEvent, message, Called, connect, write, read, read_active, read_message,
  check_parse_error,
}

-- The bytes of the events written.
abbrev pub frames : {K : Type 0} → List (EpollServiceRequest K) → List (List ℕ)
frames [] = []
frames (write_event p bytes ∷ requests) = bytes ∷ frames requests
frames (subscribe p ∷ requests) = frames requests
frames (un_subscribe p ∷ requests) = frames requests
frames (deactivate ∷ requests) = frames requests

module _ {K : Type 0} ⦃ek : Eq K⦄ where
  -- The events pushed by writing messages to a peer in turn. `none`: a call throws.
  unfoldable pub write_all :
      K → ℕ → List Message.Message → PeerService K → Option (List (EpollServiceRequest K))
  write_all peer time [] s = some []
  write_all peer time (m ∷ ms) s = elim (write true peer m time s) [
    | none ↦ none
    | some c ↦ elim (write_all peer time ms c.service) [
      | none ↦ none
      | some requests ↦ some (c.requests ++ requests)
    ]
  ]

  -- The events that `read` returns for frames of a peer, each in its `ReadEvent`.
  unfoldable pub read_all :
      PeerFd K → ℕ → List (List ℕ) → PeerService K → Option (List (Option (PeerEvent K)))
  read_all p time [] s = some []
  read_all p time (bytes ∷ rest) s = elim (read true (read_event p bytes) time s) [
    | none ↦ none
    | some c ↦ elim (read_all p time rest c.service) [
      | none ↦ none
      | some events ↦ some (c.result ∷ events)
    ]
  ]

  check_parse_error_message :
      (peer : K) (time : ℕ) (m : Message.Message) (s : PeerService K)
      → ((t : SerializeError) → m ≢ serialize_error t)
      → ((check_parse_error peer time m s).result ≡ some (message peer m))
        × ((check_parse_error peer time m s).service.hand_shaked ≡ s.hand_shaked)
  unfolding check_parse_error
  check_parse_error_message peer time (serialize_error t) s h = absurd (h t refl)
  check_parse_error_message peer time choke s h = (refl, refl)
  check_parse_error_message peer time unchoke s h = (refl, refl)
  check_parse_error_message peer time interested s h = (refl, refl)
  check_parse_error_message peer time not_interested s h = (refl, refl)
  check_parse_error_message peer time keep_alive s h = (refl, refl)
  check_parse_error_message peer time (have t) s h = (refl, refl)
  check_parse_error_message peer time (bitfield t) s h = (refl, refl)
  check_parse_error_message peer time (request t) s h = (refl, refl)
  check_parse_error_message peer time (piece t) s h = (refl, refl)
  check_parse_error_message peer time (cancel t) s h = (refl, refl)
  check_parse_error_message peer time (port t) s h = (refl, refl)
  check_parse_error_message peer time (hand_shake t) s h = (refl, refl)

  read_known :
      (p : PeerFd K) (bytes : List ℕ) (time : ℕ) (s : PeerService K) (m : Message.Message)
      → member p.id s.hand_shaked ≡ true
      → decode bytes ≡ m
      → read true (read_event p bytes) time s ≡ some (check_parse_error p.id time m s)
  unfolding read read_active read_message
  read_known p bytes time s m h d = rw (h, d, read, read_active, read_message) refl

  read_all-cons :
      (p : PeerFd K) (bytes : List ℕ) (rest : List (List ℕ)) (time : ℕ) (s : PeerService K)
      (c : Called K (Option (PeerEvent K))) (events : List (Option (PeerEvent K)))
      → read true (read_event p bytes) time s ≡ some c
      → read_all p time rest c.service ≡ some events
      → read_all p time (bytes ∷ rest) s ≡ some (c.result ∷ events)
  unfolding read_all
  read_all-cons p bytes rest time s c events e f = rw (e, f, read_all) refl

  -- The frames of encoded messages, from a peer that has shaken hands.
  pub read_all-encode :
      (p : PeerFd K) (time : ℕ) (ms : List Message.Message) (s : PeerService K)
      → All (λ m. IsWellFormed m × IsWire m) ms
      → member p.id s.hand_shaked ≡ true
      → (rest : List (List ℕ)) → map some rest ≡ map encode ms
      → read_all p time rest s ≡ some (map (λ m. some (message p.id m)) ms)
  unfolding read_all
  read_all-encode p time [] s hm hh [] he = refl
  read_all-encode p time [] s hm hh (b ∷ rest) he = absurd (cc)
  read_all-encode p time (m ∷ ms) s hm hh [] he = absurd (cc)
  read_all-encode p time (m ∷ ms) s hm hh (b ∷ rest) he =
      let e1 : some b ≡ encode m = cc in
      let e2 : map some rest ≡ map encode ms = cc in
      let d : decode b ≡ m =
        let e : some (decode b) ≡ some m =
          ap (Option.map decode) e1 ∙ decode-encode m hm.0.0 hm.0.1 in
        cc in
      let (result, kept) =
        check_parse_error_message p.id time m s (λ t e. absurd (subst IsWire e hm.0.1)) in
      let ih =
        read_all-encode p time ms ((check_parse_error p.id time m s).service) hm.1
          (ap (member p.id) kept ∙ hh) rest e2 in
      read_all-cons p b rest time s (check_parse_error p.id time m s) _
        (read_known p b time s m hh d) ih
      ∙ ap (λ r. some (r ∷ map (λ m. some (message p.id m)) ms)) result

  write_all-cons :
      (peer : K) (time : ℕ) (m : Message.Message) (ms : List Message.Message) (s : PeerService K)
      (p : PeerFd K) (bytes : List ℕ) (requests : List (EpollServiceRequest K))
      → find peer s.peer_fds ≡ some p
      → encode m ≡ some bytes
      → write_all peer time ms (record s { timestamps = assign peer time s.timestamps })
        ≡ some requests
      → write_all peer time (m ∷ ms) s ≡ some (write_event p bytes ∷ requests)
  unfolding write_all write
  write_all-cons peer time m ms s p bytes requests e f g = rw (e, f, g, write_all, write) refl

  -- Messages that are encoded are written to a known peer, each in one event.
  write_all-encode :
      (peer : K) (time : ℕ) (ms : List Message.Message) (s : PeerService K) (p : PeerFd K)
      → find peer s.peer_fds ≡ some p
      → All (λ m. encode m ≢ none) ms
      → (requests : List (EpollServiceRequest K)) × (write_all peer time ms s ≡ some requests)
        × (map some (frames requests) ≡ map encode ms)
  unfolding write_all
  write_all-encode peer time [] s p e h = ([], refl, refl)
  write_all-encode peer time (m ∷ ms) s p e h =
      let (requests, ih, ihf) =
        write_all-encode peer time ms (record s { timestamps = assign peer time s.timestamps }) p e
          h.1 in
      elim (Option-cases (encode m)) [
        | inl n ↦ absurd (h.0 n)
        | inr (bytes, f) ↦ (
          write_event p bytes ∷ requests,
          write_all-cons peer time m ms s p bytes requests e f ih,
          cc,
        )
      ]

  -- The first frame after a new connection.
  read_new :
      (p : PeerFd K) (bytes : List ℕ) (time : ℕ) (s : PeerService K) (m : Message.Message)
      → member p.id s.hand_shaked ≡ false
      → decode_hand_shake bytes ≡ some m
      → read true (read_event p bytes) time s
        ≡ some
            (check_parse_error p.id time m (record s { hand_shaked = insert p.id s.hand_shaked }))
  unfolding read read_active read_message
  read_new p bytes time s m h d = rw (h, d, read, read_active, read_message) refl

encode-wire : (m : Message.Message) → IsWellFormed m → IsWire m → encode m ≢ none
encode-wire m h w e = let d : Option.map decode none ≡ some m = rw e at (decode-encode m h w) in cc

encode-wires :
    (ms : List Message.Message)
    → All (λ m. IsWellFormed m × IsWire m) ms
    → All (λ m. encode m ≢ none) ms
encode-wires [] h = tt
encode-wires (m ∷ ms) h = (encode-wire m h.0.0 h.0.1, encode-wires ms h.1)

encode-hand_shake : (t : HandShake) → encode (hand_shake t) ≢ none
unfolding encode
encode-hand_shake t e = cc

module _ {K : Type 0} ⦃ek : Eq K⦄ where
  -- After a successful connect, the frames that the other side writes to a known peer for a
  -- well-formed handshake, whose protocol name has fewer than 128 bytes, and for well-formed
  -- messages after it, none a handshake or an error, are read as these messages, in order.
  pub read_all-write_all :
      (t : HandShake) (ms : List Message.Message) (p q : K) (fd : ℕ) (peer_fd : PeerFd K)
      (time later : ℕ) (s r : PeerService K)
      → IsWellFormed (hand_shake t)
      → length t.pstr < 128
      → All (λ m. IsWellFormed m × IsWire m) ms
      → find p s.peer_fds ≡ some peer_fd
      → (requests : List (EpollServiceRequest K)) × (write_all p time (hand_shake t ∷ ms) s
          ≡ some requests)
        × (read_all
              (record { id = q; fd = pos fd })
              later
              (frames requests)
              ((connect true (pos fd) q time r).service)
            ≡ some (map (λ m. some (message q m)) (hand_shake t ∷ ms)))
  unfolding connect
  read_all-write_all t ms p q fd peer_fd time later s r h short hm e =
      let pf : PeerFd K = record { id = q; fd = pos fd } in
      let r₁ = (connect true (pos fd) q time r).service in
      let fresh : member q r₁.hand_shaked ≡ false =
        member-remove q q r.hand_shaked ∙ rw (beq_refl q) refl in
      let opened : PeerService K = record r₁ { hand_shaked = insert q r₁.hand_shaked } in
      let shaken : member q opened.hand_shaked ≡ true =
        member-insert q q r₁.hand_shaked ∙ rw (beq_refl q) refl in
      let stamped : PeerService K = record s { timestamps = assign p time s.timestamps } in
      let (requests, sent, given) =
        write_all-encode p time ms stamped peer_fd e (encode-wires ms hm) in
      elim (Option-cases (encode (hand_shake t))) [
        | inl n ↦ absurd (encode-hand_shake t n)
        | inr (bytes, f) ↦
            let pf : PeerFd K = record { id = q; fd = pos fd } in
            let (result, kept) =
              check_parse_error_message q later (hand_shake t) opened (λ t e. cc) in
            let first =
              read_new pf bytes later r₁ (hand_shake t) fresh
                (decode_hand_shake-encode t bytes h short f) in
            let others =
              read_all-encode pf later ms _ hm (ap (member q) kept ∙ shaken) (frames requests)
                given in
            (
              write_event peer_fd bytes ∷ requests,
              write_all-cons p time (hand_shake t) ms s peer_fd bytes requests e f sent,
              read_all-cons pf bytes (frames requests) later r₁ _ _ first others
                  ∙ ap (λ x. some (x ∷ map (λ m. some (message q m)) ms)) result,
            )
      ]
