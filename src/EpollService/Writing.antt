-- ===== src/EpollService/Writing.antt =====
-- A message that the socket takes only in part.
use fractals.Prelude.{
  ℕ, ◌<◌, ◌≡◌, refl, ap, ◌∙◌, ◌==◌, false, some, List, [], ◌∷◌, ◌++◌, length, drop, length-drop,
  arith,
}
use fractals.Prelude.Eq.{Eq}
use fractals.Prelude.Map.{find, assign, find-assign_self}
use fractals.Prelude.Set.{member}
use fractals.PeerService.{PeerFd, write_event}
use fractals.BufferedQueueManager.{
  BufferedQueueManager, done, add_to_write_buffer, get_write_buffer,
}
use fractals.BufferedQueueManager.WriteMsgState as Write
use fractals.EpollService.{
  EpollService, enable_write, disable_write, handle_request, handle_writable, accept, write_data,
}

module _ {K : Type 0} ⦃ek : Eq K⦄ where
  -- A write of a part.
  write_data-partial :
      (p : PeerFd K) (n : ℕ) (w : Write.WriteMsgState) (s : EpollService K)
      → 0 < n
      → n < length w.view
      → write_data p n w s ≡ (
        disable_write p ∷ [],
        record s {
          buff_man = record s.buff_man {
            write_buffers = assign p.id (Write.flush n w) s.buff_man.write_buffers;
          };
        },
      )
  unfolding write_data Write.is_complete Write.flush
  write_data-partial p n w s h k =
      let z : (n == 0) ≡ false = ground arith in
      let c : (length (drop n w.view) == 0) ≡ false = ground (arith, length-drop n w.view) in
      rw (z, c) refl

  -- A message for a peer that has some waiting.
  add_to_write_buffer-waiting :
      (p : K) (bytes : List ℕ) (q : BufferedQueueManager K) (w : Write.WriteMsgState)
      → find p q.write_buffers ≡ some w
      → 0 < length w.view
      → add_to_write_buffer p bytes q ≡ q
  unfolding add_to_write_buffer Write.is_complete
  add_to_write_buffer-waiting p bytes q w e h =
      let c : (length w.view == 0) ≡ false = ground arith in rw (add_to_write_buffer, e, c) refl

  accept_known :
      (p : PeerFd K) (s : EpollService K) → member p.id s.pending ≡ false → accept p s ≡ ([], s)
  unfolding accept
  accept_known p s m = rw (accept, m) refl

  handle_writable_known :
      (p : PeerFd K) (n : ℕ) (w : Write.WriteMsgState) (s : EpollService K)
      → member p.id s.pending ≡ false
      → find p.id s.buff_man.write_buffers ≡ some w
      → handle_writable p (some n) s ≡ done (write_data p n w s)
  unfolding handle_writable get_write_buffer
  handle_writable_known p n w s m e =
      let a = accept_known p s m in
      rw (handle_writable, get_write_buffer, a, e)
        (ap (λ x. done (x.0 ++ (write_data p n w x.1).0, (write_data p n w x.1).1)) a)

  -- When the socket of a peer that is not pending takes some bytes of its waiting message, but not
  -- all, the epoll service asks for no further event of its readiness and keeps the rest; a
  -- message that is then written to the peer changes nothing but to ask for that event again, so
  -- it is lost.
  pub handle_request-handle_writable :
      (p : PeerFd K) (n : ℕ) (w : Write.WriteMsgState) (s : EpollService K)
      (bytes ctl_error : List ℕ)
      → member p.id s.pending ≡ false
      → find p.id s.buff_man.write_buffers ≡ some w
      → 0 < n
      → n < length w.view
      → (t : EpollService K) × (handle_writable p (some n) s ≡ done (disable_write p ∷ [], t))
        × (find p.id t.buff_man.write_buffers ≡ some (Write.flush n w))
        × (handle_request (write_event p bytes) ctl_error t ≡ (enable_write p ∷ [], t))
  unfolding handle_request
  handle_request-handle_writable p n w s bytes ctl_error m e h k =
      let t : EpollService K = record s {
        buff_man = record s.buff_man {
          write_buffers = assign p.id (Write.flush n w) s.buff_man.write_buffers;
        };
      } in
      let f : find p.id t.buff_man.write_buffers ≡ some (Write.flush n w) =
        find-assign_self p.id (Write.flush n w) s.buff_man.write_buffers in
      let kept : add_to_write_buffer p.id bytes t.buff_man ≡ t.buff_man =
        add_to_write_buffer-waiting p.id bytes t.buff_man (Write.flush n w) f
          (unfold Write.flush in omega (arith, length-drop n w.view)) in
      (
        t,
        handle_writable_known p n w s m e ∙ (ap done (write_data-partial p n w s h k)),
        f,
        ap (λ q. (enable_write p ∷ [], record t { buff_man = q })) kept,
      )
