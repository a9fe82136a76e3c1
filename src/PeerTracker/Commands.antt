-- ===== src/PeerTracker/Commands.antt =====
-- What the commands of PeerTracker.cpp do to its counters.
use fractals.Prelude.{
  suc, ◌+◌, ◌≡◌, refl, Option, none, some, List, [], ◌∷◌, ◌++◌, ltb, length, map, arith, Bool-cases,
  inl, inr,
}
use fractals.Prelude.Eq.{Eq}
use fractals.Prelude.Set.{member}
use fractals.PeerTracker.{
  PeerTracker, PeerCommand, try_connect, disconnect, do_announce, nothing, max_peers_per_torrent,
  info, connect_loop, request_announce, or_announce, make_command_for, command_loop, make_command,
}
use fractals.PeerTracker.Torrent.{get_active_peer_count}
use fractals.PeerTracker.Limits.{
  fresh-length, tries, IsLimited, IsServed, Serves, connect_loop-Serves, nothing_done,
}

module _ {K H : Type 0} ⦃ek : Eq K⦄ ⦃eh : Eq H⦄ where
  tries-or_announce :
      (torrent : H) (cmds : List (PeerCommand K H)) (t : PeerTracker K H)
      → tries (or_announce torrent cmds t) ≡ tries cmds
  unfolding or_announce request_announce
  tries-or_announce torrent [] t =
      elim (Bool-cases (ltb (get_active_peer_count (info torrent t)) max_peers_per_torrent)) [
        | inl e ↦ elim (Bool-cases (member torrent t.active_torrents)) [
          | inl f ↦ rw (or_announce, e, request_announce, f)
          | inr f ↦ rw (or_announce, e, request_announce, f)
        ]
        | inr e ↦ rw (or_announce, e)
      ]
  tries-or_announce torrent (cmd ∷ cmds) t = refl

  tries-append : (xs ys : List (PeerCommand K H)) → tries (xs ++ ys) ≡ tries xs + tries ys
  tries-append [] ys = omega arith
  tries-append (try_connect k h ∷ xs) ys = omega (arith, tries-append xs ys)
  tries-append (disconnect k h ∷ xs) ys = tries-append xs ys
  tries-append (do_announce h ∷ xs) ys = tries-append xs ys
  tries-append (nothing ∷ xs) ys = tries-append xs ys

  announced :
      (torrent : H) (t : PeerTracker K H) (o : Option (List (PeerCommand K H) × PeerTracker K H))
      → Serves t o
      → Serves t (elim o [ none ↦ none | some (cmds, t') ↦ some (or_announce torrent cmds t', t') ])
  unfolding Serves
  announced torrent t none s = s
  announced torrent t (some (cmds, t')) s = record {
    limited = s.limited;
    counted = omega (arith, s.counted, tries-or_announce torrent cmds t');
    taken = omega (arith, s.taken, tries-or_announce torrent cmds t');
  }

  make_command_for-Serves :
      (torrent : H) (t : PeerTracker K H) → IsLimited t → Serves t (make_command_for torrent t)
  unfolding make_command_for
  make_command_for-Serves torrent t h =
      announced torrent t (connect_loop (suc (length t.peer_map)) torrent t) (
        connect_loop-Serves (suc (length t.peer_map)) torrent t
          (omega (arith, fresh-length t.peer_map)) h)

  followed :
      (t : PeerTracker K H) (cmds : List (PeerCommand K H)) (t' : PeerTracker K H)
      (o : Option (List (PeerCommand K H) × PeerTracker K H))
      → IsServed t cmds t'
      → Serves t' o
      → Serves t (elim o [ none ↦ none | some (later, t'') ↦ some (cmds ++ later, t'') ])
  unfolding Serves
  followed t cmds t' none s l = l
  followed t cmds t' (some (later, t'')) s l = record {
    limited = l.limited;
    counted = omega (arith, s.counted, l.counted, tries-append cmds later);
    taken = omega (arith, s.taken, l.taken, tries-append cmds later);
  }

  command_step :
      (t : PeerTracker K H) (o : Option (List (PeerCommand K H) × PeerTracker K H))
      (rest : PeerTracker K H → Option (List (PeerCommand K H) × PeerTracker K H))
      → Serves t o
      → ((t' : PeerTracker K H) → IsLimited t' → Serves t' (rest t'))
      → Serves t (elim o [
        | none ↦ none
        | some (cmds, t') ↦ elim (rest t') [
          | none ↦ none
          | some (later, t'') ↦ some (cmds ++ later, t'')
        ]
      ])
  unfolding Serves
  command_step t none rest s k = s
  command_step t (some (cmds, t')) rest s k = followed t cmds t' (rest t') s (k t' s.limited)

  command_loop-Serves :
      (torrents : List H) (t : PeerTracker K H) → IsLimited t → Serves t (command_loop torrents t)
  unfolding command_loop Serves
  command_loop-Serves [] t h = nothing_done t h
  command_loop-Serves (torrent ∷ torrents) t h =
      command_step t (make_command_for torrent t) (command_loop torrents)
        (make_command_for-Serves torrent t h) (λ t' h'. command_loop-Serves torrents t' h')

  -- From a tracker within the limits of 200 connections and of 20 active peers of a torrent,
  -- making commands ends and keeps the limits; each try to connect counts as a connection and
  -- takes one of the peers that were never tried.
  pub make_command-Serves : (t : PeerTracker K H) → IsLimited t → Serves t (make_command t)
  unfolding make_command
  make_command-Serves t h = command_loop-Serves (map (λ entry. entry.0) t.peers_info_map) t h
