-- ===== src/TrackerResponse/Peers.antt =====
-- The compact form of peers, which a tracker sends, and what `parsePeersBin` makes of it.
use fractals.Prelude.{
  ℕ, true, none, some, Option, ◌+◌, ◌*◌, ◌/◌, ◌%◌, ◌^◌, ◌<◌, ◌≡◌, refl, ◌∙◌, ap, List, [], ◌∷◌,
  ◌++◌, map, All, length, ◌==◌, ==_iff, arith,
}
use Prim.Native.String.{String}
use fractals.Bencode.Keys.{to_bint-bdata}
use fractals.Maybe.{
  Bencode, bint, bstring, right, flat_map, list_of, text_of, to_bint, to_bstring, to_blist,
}
use fractals.TrackerResponse.{
  TrackerResponse, decode, decode_success, parse_peers, response, text_at, int_at, Peer, codes,
  to_string, peers_loop, parse_peers_bin,
}

-- The four bytes of an address and a port.
pub record Address : Type 0 where
  pub a : ℕ
  pub b : ℕ
  pub c : ℕ
  pub d : ℕ
  pub port : ℕ

-- Six bytes, the port with its higher byte first.
abbrev pub compact : List Address → List ℕ
compact [] = []
compact (x ∷ xs) = x.a ∷ (x.b ∷ (x.c ∷ (x.d ∷ ((x.port / 256) ∷ ((x.port % 256) ∷ compact xs)))))

-- A peer is named after its address and its port.
abbrev pub peer_at : (List ℕ → List ℕ) → Address → Peer
peer_at ntop x =
    let ip = ntop (x.a ∷ x.b ∷ x.c ∷ x.d ∷ []) in
    record { name = ip ++ (codes ":" ++ to_string x.port); id = record { ip = ip; port = x.port } }

length-compact : (xs : List Address) → length (compact xs) ≡ 6 * length xs
length-compact [] = omega arith
length-compact (x ∷ xs) = omega (arith, length-compact xs)

module _ (ntop : List ℕ → List ℕ) where
  peers_loop-compact :
      (xs : List Address)
      → All (λ x. x.port < 2 ^ 16) xs
      → peers_loop ntop (compact xs) ≡ map (peer_at ntop) xs
  unfolding peers_loop
  peers_loop-compact [] h = refl
  peers_loop-compact (x ∷ xs) h =
      let e : (x.port / 256 * 256 + x.port % 256) % 2 ^ 16 ≡ x.port = omega (arith, h.0) in
      rw (e, peers_loop-compact xs h.1) refl

  pub parse_peers_bin-compact :
      (xs : List Address)
      → All (λ x. x.port < 2 ^ 16) xs
      → parse_peers_bin ntop (compact xs) ≡ right (map (peer_at ntop) xs)
  unfolding parse_peers_bin
  parse_peers_bin-compact xs h =
      let e : (length (compact xs) % 6 == 0) ≡ true =
        (==_iff _ 0).1 (omega (arith, length-compact xs)) in
      rw e (ap right (peers_loop-compact xs h))

module _ {Data Dict : Type 0} (ben : Bencode Data Dict) (ntop : List ℕ → List ℕ)
    (xs : List Address) where
  parse_peers-compact :
      (d : Dict)
      → ben.find (codes "peers") d ≡ some (ben.bdata (bstring (compact xs)))
      → All (λ x. x.port < 2 ^ 16) xs
      → parse_peers ben ntop d ≡ right (map (peer_at ntop) xs)
  unfolding parse_peers
  parse_peers-compact d p h =
      let v = ben.value-bdata (bstring (compact xs)) in
      let e₁ : flat_map (ben.find (codes "peers") d) (to_blist ben) ≡ none =
        ap (λ o. flat_map o (to_blist ben)) p ∙ ap list_of v in
      let e₂ : text_at ben "peers" d ≡ some (compact xs) =
        ap (λ o. flat_map o (to_bstring ben)) p ∙ ap text_of v in
      rw (e₁, parse_peers) (rw e₂ (parse_peers_bin-compact ntop xs h))

module _ {Data Dict : Type 0} (ben : Bencode Data Dict) where
  int_at-bdata :
      (k : String) (n : ℕ) (d : Dict)
      → ben.find (codes k) d ≡ some (ben.bdata (bint n))
      → int_at ben k d ≡ some n
  int_at-bdata k n d e = ap (λ o. flat_map o (to_bint ben)) e ∙ to_bint-bdata ben n

-- What is read from a dictionary with compact peers and with the other keys that must be there.
abbrev pub compact_response :
    {Data Dict : Type 0}
    → Bencode Data Dict
    → (List ℕ → List ℕ)
    → (Option ℕ → ℕ)
    → List Address
    → ℕ
    → ℕ
    → ℕ
    → Dict
    → TrackerResponse
compact_response ben ntop to_int xs interval complete incomplete d = record {
  warning_message = text_at ben "warning message" d;
  interval = interval % 2 ^ 32;
  min_interval = some (to_int (int_at ben "min interval" d));
  tracker_id = text_at ben "tracker id" d;
  complete = complete % 2 ^ 32;
  incomplete = incomplete % 2 ^ 32;
  peers = map (peer_at ntop) xs;
}

module _ {Data Dict : Type 0} (ben : Bencode Data Dict) (ntop : List ℕ → List ℕ)
    (to_int : Option ℕ → ℕ) (xs : List Address) (interval complete incomplete : ℕ) where
  -- Over any library of bencoded data, a dictionary without a failure reason, with numbers for
  -- interval, complete and incomplete, and with six bytes for each peer, of a port below 2 ^ 16,
  -- is decoded to a response with exactly these peers, in order, and these numbers modulo 2 ^ 32.
  pub decode-compact :
      (d : Dict)
      → ben.find (codes "failure reason") d ≡ none
      → ben.find (codes "peers") d ≡ some (ben.bdata (bstring (compact xs)))
      → ben.find (codes "interval") d ≡ some (ben.bdata (bint interval))
      → ben.find (codes "complete") d ≡ some (ben.bdata (bint complete))
      → ben.find (codes "incomplete") d ≡ some (ben.bdata (bint incomplete))
      → All (λ x. x.port < 2 ^ 16) xs
      → decode ben ntop to_int d
        ≡ response (compact_response ben ntop to_int xs interval complete incomplete d)
  unfolding decode decode_success
  decode-compact d f p i c n h =
      rw (f, decode)
        (rw
          (
            parse_peers-compact ben ntop xs d p h,
            int_at-bdata ben "interval" interval d i,
            int_at-bdata ben "complete" complete d c,
            int_at-bdata ben "incomplete" incomplete d n,
          )
          refl)
