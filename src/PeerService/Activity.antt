-- ===== src/PeerService/Activity.antt =====
-- The peers that `activityCheck` disconnects, over the operations of the service.
use fractals.Prelude.{
  ℕ, ◌+◌, ◌≡◌, refl, ◌∙◌, Bool, false, ◌&&◌, ◌||◌, Option, none, some, List, [], ◌∷◌, ◌++◌,
  if◌then◌else◌, ltb, Bool-cases, Option-cases, inl, inr, arith,
}
use fractals.Prelude.Eq.{Eq}
use fractals.Prelude.Map.{Map, find, contains, IsMap}
use fractals.PeerService.{
  PeerFd, PeerService, EpollServiceRequest, write_event, subscribe, un_subscribe, deactivate,
  disconnect_client, activity_loop, activity_check, timeout,
}

-- A time of more than ten seconds before.
abbrev pub is_stale : ℕ → Option ℕ → Bool
is_stale now none = false
is_stale now (some time) = ltb (time + timeout) now

module _ {K : Type 0} ⦃ek : Eq K⦄ where
  -- Whether the epoll service is asked to disconnect a peer.
  unfoldable pub asked : K → List (EpollServiceRequest K) → Bool
  asked peer [] = false
  asked peer (un_subscribe p ∷ requests) = ek.beq p.id peer || asked peer requests
  asked peer (write_event p bytes ∷ requests) = asked peer requests
  asked peer (subscribe p ∷ requests) = asked peer requests
  asked peer (deactivate ∷ requests) = asked peer requests

  pub record IsValid (s : PeerService K) : Type 0 where
    pub one_time : IsMap s.timestamps
    pub keyed : (k : K) (p : PeerFd K) → find k s.peer_fds ≡ some p → p.id ≡ k

  asked-append :
      (peer : K) (xs ys : List (EpollServiceRequest K))
      → asked peer (xs ++ ys) ≡ (asked peer xs || asked peer ys)
  unfolding asked
  asked-append peer [] ys = refl
  asked-append peer (un_subscribe p ∷ xs) ys = ground (arith, asked-append peer xs ys)
  asked-append peer (write_event p bytes ∷ xs) ys = asked-append peer xs ys
  asked-append peer (subscribe p ∷ xs) ys = asked-append peer xs ys
  asked-append peer (deactivate ∷ xs) ys = asked-append peer xs ys

  asked-disconnect_client :
      (j k : K) (s : PeerService K)
      → IsValid s
      → asked j (disconnect_client k s) ≡ (ek.beq k j && contains j s.peer_fds)
  unfolding asked disconnect_client contains
  asked-disconnect_client j k s h = elim (Option-cases (find k s.peer_fds)) [
    | inl n ↦ rw (n, disconnect_client) (ground (arith, ek.beq_iff k j, n))
    | inr (p, e) ↦
        let i = h.keyed k p e in
        rw (e, disconnect_client, asked) (ground (arith, ek.beq_iff k j, i, e))
  ]

  -- What is left of the timestamps, and what is asked, when each peer has one timestamp.
  pub activity_loop_lem :
      (now : ℕ) (s : PeerService K) (m : Map K ℕ) (k : K)
      → IsValid s
      → IsMap m
      → (find k (activity_loop now s m).1 ≡ (if is_stale now (find k m) then none else find k m))
        × (asked k (activity_loop now s m).0 ≡ (is_stale now (find k m) && contains k s.peer_fds))
  unfolding activity_loop find asked
  activity_loop_lem now s [] k h hm = (refl, refl)
  activity_loop_lem now s ((j, time) ∷ m) k h hm =
      let (ih, ia) = activity_loop_lem now s m k h hm.1 in
      let a = asked-append k (disconnect_client j s) (activity_loop now s m).0 in
      let d = asked-disconnect_client k j s h in
      elim (Bool-cases (ltb (time + timeout) now)) [
        | inl t ↦
            rw (t, activity_loop)
              (
                ground (arith, t, ih, hm.0, ek.beq_iff j k),
                a ∙ ground (arith, t, ia, hm.0, d, ek.beq_iff j k),
              )
        | inr f ↦
            rw (f, activity_loop)
              (
                ground (arith, f, ih, hm.0, ek.beq_iff j k),
                ground (arith, f, ia, hm.0, ek.beq_iff j k),
              )
      ]

  pub activity_check-asked :
      (now : ℕ) (s : PeerService K) (k : K)
      → IsValid s
      → (find k (activity_check now s).service.timestamps
          ≡ (if is_stale now (find k s.timestamps) then none else find k s.timestamps))
        × (asked k (activity_check now s).requests
            ≡ (is_stale now (find k s.timestamps) && contains k s.peer_fds))
        × ((activity_check now s).service.peer_fds ≡ s.peer_fds)
  unfolding activity_check
  activity_check-asked now s k h =
      let l = activity_loop_lem now s s.timestamps k h h.one_time in (l.0, l.1, refl)
