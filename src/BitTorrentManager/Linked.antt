-- ===== src/BitTorrentManager/Linked.antt =====
-- The piece managers that the connections refer to.
use fractals.Prelude.{
  ◌≡◌, refl, ap, Bool, true, false, Option, none, some, List, [], ◌∷◌, ℕ, Bool-cases, Option-cases,
  inl, inr, arith,
}
use fractals.Prelude.Eq.{Eq, list_eq, list_beq, list_beq_iff}
use fractals.Prelude.Map.{Map, find, contains, is_some, assign, erase, find-assign, find-erase}
use fractals.Message.{
  Message, choke, unchoke, interested, not_interested, keep_alive, have, bitfield, request, piece,
  cancel, port, hand_shake, serialize_error,
}
use fractals.PieceStateManager.{PieceStateManager}
use fractals.Protocol.{
  Protocol, on_message, unknown_piece, partial_piece, completed_piece, rejected_piece,
}
use fractals.Protocol.Cases.{on_unchoke-cases, on_piece-cases, on_have-cases, on_bitfield-cases}
use fractals.PeerTracker.{PeerTracker, PeerCommand, try_connect, disconnect, do_announce, nothing}
use fractals.BitTorrentManager.{
  BitTorrentManager, Ran, ◌>>=◌, also, handle_command, handle_commands, commanded,
}
use fractals.BitTorrentManager.Queues.{Effect}
use fractals.BitTorrentManager.Values.{Values, emplace-Values, Values-map}

pub on_message-info_hash :
    (sha1 : List ℕ → List ℕ) (m : Message) (c : Protocol)
    → (on_message sha1 m c).protocol.info_hash ≡ c.info_hash
unfolding on_message unknown_piece partial_piece completed_piece rejected_piece
on_message-info_hash sha1 (have m) c =
    on_have-cases (λ r. r.protocol.info_hash ≡ c.info_hash) c refl (λ pieces e. refl)
      (λ pieces e. refl) m
on_message-info_hash sha1 (bitfield m) c =
    on_bitfield-cases (λ r. r.protocol.info_hash ≡ c.info_hash) c refl (λ pieces e. refl)
      (λ pieces e. refl) m
on_message-info_hash sha1 unchoke c =
    on_unchoke-cases (λ r. r.protocol.info_hash ≡ c.info_hash) c refl refl
on_message-info_hash sha1 (piece m) c =
    on_piece-cases sha1 (λ r. r.protocol.info_hash ≡ c.info_hash) m c (λ gone. refl) refl
      (λ s n incomplete. refl) (λ s n whole good. refl) (λ s n whole bad. refl)
on_message-info_hash sha1 (hand_shake m) c = refl
on_message-info_hash sha1 keep_alive c = refl
on_message-info_hash sha1 choke c = refl
on_message-info_hash sha1 interested c = refl
on_message-info_hash sha1 not_interested c = refl
on_message-info_hash sha1 (request m) c = refl
on_message-info_hash sha1 (cancel m) c = refl
on_message-info_hash sha1 (port m) c = refl
on_message-info_hash sha1 (serialize_error m) c = refl

-- The torrent of a connection has a piece manager.
abbrev pub Refers : Map (List ℕ) PieceStateManager → Protocol → Type 0
Refers pieces c = contains c.info_hash pieces ≡ true

pub contains-assign :
    (h k : List ℕ) (v : PieceStateManager) (m : Map (List ℕ) PieceStateManager)
    → contains h m ≡ true
    → contains h (assign k v m) ≡ true
unfolding contains
contains-assign h k v m e = ground (arith, find-assign k h v m, e)

pub contains-assign_self :
    (k : List ℕ) (v : PieceStateManager) (m : Map (List ℕ) PieceStateManager)
    → contains k (assign k v m) ≡ true
unfolding contains
contains-assign_self k v m = ground (arith, find-assign k k v m, list_beq_iff k k)

pub contains-erase :
    (h k : List ℕ) (m : Map (List ℕ) PieceStateManager)
    → list_beq h k ≡ false
    → contains h m ≡ true
    → contains h (erase k m) ≡ true
unfolding contains
contains-erase h k m n e = ground (arith, find-erase k h m, e, list_beq_iff h k, list_beq_iff k h)

module _ {K : Type 0} where
  abbrev pub IsLinked : BitTorrentManager K → Type 0
  IsLinked b = Values (Refers b.piece_man) b.connections

  abbrev pub Links : {M : Type 0} → Ran K M → Type 0
  Links none = Unit
  Links (some (effects, b)) = IsLinked b

  also-Links :
      {M : Type 0} (effects : List (Effect K M)) (r : Ran K M) → Links r → Links (also effects r)
  also-Links effects none h = tt
  also-Links effects (some (more, b)) h = h

  pub bind-Links :
      {M : Type 0} (r : Ran K M) (f : BitTorrentManager K → Ran K M)
      → Links r
      → ((b : BitTorrentManager K) → IsLinked b → Links (f b))
      → Links (r >>= f)
  bind-Links none f h k = tt
  bind-Links (some (effects, b)) f h k = also-Links effects (f b) (k b h)

  pub assign-IsLinked :
      (ih : List ℕ) (v : PieceStateManager) (b : BitTorrentManager K)
      → IsLinked b
      → IsLinked (record b { piece_man = assign ih v b.piece_man })
  assign-IsLinked ih v b h =
      Values-map (Refers b.piece_man) (Refers (assign ih v b.piece_man))
        (λ c r. contains-assign c.info_hash ih v b.piece_man r) b.connections h

module _ {K : Type 0} (M : Type 0) ⦃ek : Eq K⦄ (app_id : List ℕ) (connects : K → Bool) where
  handle_command-Links :
      (c : PeerCommand K (List ℕ)) (b : BitTorrentManager K)
      → IsLinked b
      → Links (handle_command M app_id connects c b)
  unfolding handle_command contains
  handle_command-Links (try_connect peer torrent) b h = elim (Bool-cases (connects peer)) [
    | inr n ↦ rw (n, handle_command) h
    | inl t ↦ elim (Option-cases (find torrent b.piece_man)) [
      | inl gone ↦ rw (t, gone, handle_command) tt
      | inr (pm, e) ↦
          rw (t, e, handle_command)
            (emplace-Values (Refers b.piece_man) peer _ b.connections (ap is_some e) h)
    ]
  ]
  handle_command-Links (do_announce torrent) b h = elim (Option-cases (find torrent b.torrents)) [
    | inl gone ↦ rw (gone, handle_command) tt
    | inr (t, e) ↦ rw (e, handle_command) h
  ]
  handle_command-Links (disconnect peer torrent) b h = h
  handle_command-Links nothing b h = h

  pub handle_commands-Links :
      (cmds : List (PeerCommand K (List ℕ))) (b : BitTorrentManager K)
      → IsLinked b
      → Links (handle_commands M app_id connects cmds b)
  unfolding handle_commands
  handle_commands-Links [] b h = h
  handle_commands-Links (c ∷ cmds) b h =
      bind-Links (handle_command M app_id connects c b) (handle_commands M app_id connects cmds)
        (handle_command-Links c b h) (λ b h. handle_commands-Links cmds b h)

  pub commanded-Links :
      (o : Option (List (PeerCommand K (List ℕ)) × PeerTracker K (List ℕ)))
      (b : BitTorrentManager K)
      → IsLinked b
      → Links (commanded M app_id connects o b)
  unfolding commanded
  commanded-Links none b h = tt
  commanded-Links (some (cmds, t)) b h =
      handle_commands-Links cmds (record b { peer_tracker = t }) h
