-- ===== src/BitTorrentManager/Handled.antt =====
-- The references to piece managers over the events of the manager.
use mathlib.Core.Option.{get_or}
use fractals.Prelude.{
  ◌≡◌, ◌≢◌, refl, ap, ◌∙◌, Bool, true, none, some, List, [], ◌∷◌, ℕ, map, Bool-cases, Option-cases,
  inl, inr,
}
use fractals.Prelude.Eq.{Eq, list_eq}
use fractals.Prelude.Map.{find, contains, assign}
use fractals.Message.{Message}
use fractals.PieceStateManager.{PieceStateManager}
use fractals.Protocol.{
  Protocol, ProtocolState, opened, closed, error, hash_check_fail, complete, on_message,
}
use fractals.PeerTracker.{disconnect, deactivate_torrent, info}
use fractals.BitTorrentManager.{
  BitTorrentManager, ◌>>=◌, also, does, handle_command, handle_commands, commanded,
  update_torrent_completed, react, forward_to_peer, handle_message, is_serialize_error, shutdown,
  no_torrent,
}
use fractals.BitTorrentManager.Queues.{Effect, ResponseToApp}
use fractals.BitTorrentManager.Values.{find-Values, assign-Values}
use fractals.BitTorrentManager.Linked.{
  IsLinked, Links, Refers, bind-Links, assign-IsLinked, commanded-Links, on_message-info_hash,
  contains-assign_self,
}

module _ {K : Type 0} (M : Type 0) ⦃ek : Eq K⦄ (app_id : List ℕ) (connects : K → Bool) where
  pub update_torrent_completed-Links :
      (ih : List ℕ) (b : BitTorrentManager K)
      → IsLinked b
      → Links (update_torrent_completed M app_id connects ih b)
  unfolding update_torrent_completed
  update_torrent_completed-Links ih b h =
      elim (Bool-cases ((get_or (find ih b.torrents) no_torrent).is_complete)) [
        | inl t ↦ rw (t, update_torrent_completed) h
        | inr f ↦
            rw (f, update_torrent_completed)
              (let torrent = get_or (find ih b.torrents) no_torrent in
                let b₁ : BitTorrentManager K = record b {
                  torrents = assign ih (record torrent { is_complete = true }) b.torrents;
                } in
                bind-Links
                  (commanded M app_id connects (some (deactivate_torrent ih b.peer_tracker)) b₁) _
                  (commanded-Links M app_id connects (some (deactivate_torrent ih b.peer_tracker))
                    b₁ h)
                  (λ b h. h))
      ]

  react-Links :
      (peer : K) (ih : List ℕ) (s : ProtocolState) (b : BitTorrentManager K)
      → IsLinked b
      → Links (react M app_id connects peer ih s b)
  unfolding react shutdown
  react-Links peer ih opened b h = h
  react-Links peer ih closed b h = h
  react-Links peer ih error b h = h
  react-Links peer ih hash_check_fail b h = h
  react-Links peer ih complete b h =
      bind-Links (update_torrent_completed M app_id connects ih b) _
        (update_torrent_completed-Links ih b h) (λ b h. h)

  -- Only a command to connect or to announce can fail.
  pub handle_commands-disconnect :
      (ih : List ℕ) (peers : List K) (b : BitTorrentManager K)
      → handle_commands M app_id connects (map (λ k. disconnect k ih) peers) b
        ≡ some (map Effect.disconnect_client peers, b)
  unfolding handle_commands handle_command
  handle_commands-disconnect ih [] b = refl
  handle_commands-disconnect ih (k ∷ peers) b =
      ap (also (Effect.disconnect_client k ∷ [])) (handle_commands-disconnect ih peers b)

  update_torrent_completed-returns :
      (ih : List ℕ) (b : BitTorrentManager K)
      → update_torrent_completed M app_id connects ih b ≢ none
  unfolding update_torrent_completed commanded deactivate_torrent
  update_torrent_completed-returns ih b e =
      elim (Bool-cases ((get_or (find ih b.torrents) no_torrent).is_complete)) [
        | inl t ↦ let q = rw (t, update_torrent_completed) at e in cc
        | inr f ↦
            let torrent = get_or (find ih b.torrents) no_torrent in
            let b₁ : BitTorrentManager K = record b {
              torrents = assign ih (record torrent { is_complete = true }) b.torrents;
              peer_tracker = (deactivate_torrent ih b.peer_tracker).1;
            } in
            let d = handle_commands-disconnect ih ((info ih b.peer_tracker).active_peers) b₁ in
            let q = rw (f, update_torrent_completed) at e in
            let q₁ : (handle_commands M app_id connects
                    (map (λ k. disconnect k ih) ((info ih b.peer_tracker).active_peers)) b₁
                  >>= does (Effect.to_app (ResponseToApp.completed_torrent ih) ∷ []))
                ≡ none =
              q in
            let q₂ = rw d at q₁ in cc
      ]

  react-returns :
      (peer : K) (ih : List ℕ) (s : ProtocolState) (b : BitTorrentManager K)
      → react M app_id connects peer ih s b ≢ none
  unfolding react shutdown
  react-returns peer ih opened b e = cc
  react-returns peer ih closed b e = cc
  react-returns peer ih error b e = cc
  react-returns peer ih hash_check_fail b e = cc
  react-returns peer ih complete b e =
      elim (Option-cases (update_torrent_completed M app_id connects ih b)) [
        | inl n ↦ update_torrent_completed-returns ih b n
        | inr ((effects, b'), s) ↦ let q = rw s at e in cc
      ]

module _ {K : Type 0} (M : Type 0) ⦃ek : Eq K⦄ (app_id : List ℕ) (connects : K → Bool)
    (sha1 : List ℕ → List ℕ) where
  -- The manager after the reaction of the peer's protocol, before what follows from its state.
  abbrev reacted :
      K → Message → Protocol → PieceStateManager → BitTorrentManager K → BitTorrentManager K
  reacted peer m c pm b =
      let r = on_message sha1 m (record c { repository = pm }) in
      record b {
        connections = assign peer r.protocol b.connections;
        piece_man = assign c.info_hash r.protocol.repository b.piece_man;
      }

  reacted-IsLinked :
      (peer : K) (m : Message) (c : Protocol) (pm : PieceStateManager) (b : BitTorrentManager K)
      → find c.info_hash b.piece_man ≡ some pm
      → IsLinked b
      → IsLinked (reacted peer m c pm b)
  unfolding contains
  reacted-IsLinked peer m c pm b e h =
      let r = on_message sha1 m (record c { repository = pm }) in
      let new_map = assign c.info_hash r.protocol.repository b.piece_man in
      let same = on_message-info_hash sha1 m (record c { repository = pm }) in
      assign-Values (Refers new_map) peer r.protocol b.connections
        (ap (λ i. contains i new_map) same
          ∙ contains-assign_self c.info_hash r.protocol.repository b.piece_man)
        (assign-IsLinked c.info_hash r.protocol.repository b h)

  forward_to_peer-Links :
      (peer : K) (m : Message) (b : BitTorrentManager K)
      → IsLinked b
      → Links (forward_to_peer M app_id connects sha1 peer m b)
  unfolding forward_to_peer
  forward_to_peer-Links peer m b h = elim (Option-cases (find peer b.connections)) [
    | inl n ↦ rw (n, forward_to_peer) (react-Links M app_id connects peer [] closed b h)
    | inr (c, e) ↦ elim (Option-cases (find c.info_hash b.piece_man)) [
      | inl gone ↦ rw (e, gone, forward_to_peer) tt
      | inr (pm, g) ↦
          let r = on_message sha1 m (record c { repository = pm }) in
          rw (e, g, forward_to_peer)
            (bind-Links (does _ (reacted peer m c pm b)) _ (reacted-IsLinked peer m c pm b g h)
              (λ b h. react-Links M app_id connects peer c.info_hash r.state b h))
    ]
  ]

  -- No message is given to a protocol whose piece manager is gone.
  forward_to_peer-returns :
      (peer : K) (m : Message) (b : BitTorrentManager K)
      → IsLinked b
      → forward_to_peer M app_id connects sha1 peer m b ≢ none
  unfolding forward_to_peer contains
  forward_to_peer-returns peer m b h e = elim (Option-cases (find peer b.connections)) [
    | inl n ↦ react-returns M app_id connects peer [] closed b (rw (n, forward_to_peer) at e)
    | inr (c, f) ↦ elim (Option-cases (find c.info_hash b.piece_man)) [
      | inl gone ↦
          let l = find-Values (Refers b.piece_man) peer c b.connections h f in
          let q = rw gone at l in cc
      | inr (pm, g) ↦
          let r = on_message sha1 m (record c { repository = pm }) in
          elim (Option-cases
            (react M app_id connects peer c.info_hash r.state (reacted peer m c pm b))) [
              | inl n ↦
                  react-returns M app_id connects peer c.info_hash r.state (reacted peer m c pm b) n
              | inr ((effects, b'), s) ↦
                  let q = rw (f, g, forward_to_peer) at e in let q₁ = rw s at q in cc
            ]
    ]
  ]

  pub handle_message-Links :
      (peer : K) (m : Message) (b : BitTorrentManager K)
      → IsLinked b
      → Links (handle_message M app_id connects sha1 peer m b)
  unfolding handle_message
  handle_message-Links peer m b h = elim (Bool-cases (is_serialize_error m)) [
    | inl t ↦ rw (t, handle_message) h
    | inr f ↦ rw (f, handle_message) (forward_to_peer-Links peer m b h)
  ]

  pub handle_message-returns :
      (peer : K) (m : Message) (b : BitTorrentManager K)
      → IsLinked b
      → handle_message M app_id connects sha1 peer m b ≢ none
  unfolding handle_message
  handle_message-returns peer m b h e = elim (Bool-cases (is_serialize_error m)) [
    | inl t ↦ let q = rw (t, handle_message) at e in cc
    | inr f ↦ forward_to_peer-returns peer m b h (rw (f, handle_message) at e)
  ]
