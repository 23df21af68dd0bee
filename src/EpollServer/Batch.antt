-- ===== src/EpollServer/Batch.antt =====
-- The events of one batch, seen from one descriptor.
use mathlib.Core.Path.{subst}
use pc_env_vu.Base.{
  ℕ, ◌≡◌, ◌≢◌, refl, sym, ap, ap₂, ◌∙◌, inl, inr, Option, none, some, List, [], ◌∷◌, ◌++◌, false,
  arith, ◌==◌, if◌then◌else◌, Bool-cases,
}
use pc_env_vu.EpollServer.{
  Interest, epollin, epollout, only, other_flags, Epoll, Flags, Answer, behind_callback, Ready,
  turned, closed, others, Called, p_rcbk, p_wcbk, handle_client, handle_accept, handle_event,
  handle_events,
}

-- The calls for one descriptor.
abbrev pub calls_of : ℕ → List Called → List Called
calls_of c [] = []
calls_of c (p_rcbk d ∷ called) = if c == d then p_rcbk d ∷ calls_of c called else calls_of c called
calls_of c (p_wcbk d ∷ called) = if c == d then p_wcbk d ∷ calls_of c called else calls_of c called

pub calls_of-append :
    (c : ℕ) (xs ys : List Called) → calls_of c (xs ++ ys) ≡ calls_of c xs ++ calls_of c ys
calls_of-append c [] ys = refl
calls_of-append c (p_rcbk d ∷ xs) ys = ground (arith, calls_of-append c xs ys)
calls_of-append c (p_wcbk d ∷ xs) ys = ground (arith, calls_of-append c xs ys)

-- Events of other descriptors, with no new connection of this one.
abbrev pub AllOthers : ℕ → List Ready → Type 0
AllOthers c [] = Unit
AllOthers c (e ∷ events) = (e.fd ≢ c) × (e.conn ≢ some c) × AllOthers c events

abbrev pub other_side : Interest → Interest
other_side epollin = epollout
other_side epollout = epollin

abbrev pub callback : Interest → ℕ → Called
callback epollin fd = p_rcbk fd
callback epollout fd = p_wcbk fd

module _ {S : Type 0} (epoll : Epoll S) (sfd c : ℕ) where
  -- What a step leaves of a client.
  pub record IsLeft (i : Interest) (calls : List Called) (after : S × List Called) : Type 0 where
    pub watched : epoll.wants after.0 c ≡ some i
    pub called : calls_of c after.1 ≡ calls

  abbrev pub IsUntouched : S → S × List Called → Type 0
  IsUntouched s after = (epoll.wants after.0 c ≡ epoll.wants s c) × (calls_of c after.1 ≡ [])

  callback_other :
      (s : S) (fd : ℕ) (next : Interest) (ret : Answer)
      → fd ≢ c
      → epoll.wants (behind_callback epoll s fd next ret) c ≡ epoll.wants s c
  callback_other s fd next turned n = ground (arith, epoll.wants-mod_ep_evt s fd c next, n)
  callback_other s fd next closed n = ground (arith, epoll.wants-del_ep_evt s fd c, n)
  callback_other s fd next others n = refl

  client_other :
      (s : S) (fd : ℕ) (flags : Flags) (ret : Answer)
      → fd ≢ c
      → IsUntouched s (handle_client epoll s fd flags ret)
  unfolding handle_client
  client_other s fd (only epollin) ret n = (callback_other s fd epollout ret n, ground (arith, n))
  client_other s fd (only epollout) ret n = (callback_other s fd epollin ret n, ground (arith, n))
  client_other s fd other_flags ret n = (refl, refl)

  accept_other :
      (n_ready : ℕ) (s : S) (conn : Option ℕ)
      → conn ≢ some c
      → epoll.wants (handle_accept epoll n_ready s conn) c ≡ epoll.wants s c
  unfolding handle_accept
  accept_other n_ready s none n = ground arith
  accept_other n_ready s (some d) n =
      let other : d ≢ c = λ e. n (ap some e) in
      ground (arith, epoll.wants-add_ep_evt s d c epollin, other)

  event_other :
      (n_ready : ℕ) (s : S) (e : Ready)
      → e.fd ≢ c
      → e.conn ≢ some c
      → IsUntouched s (handle_event epoll sfd n_ready s e)
  unfolding handle_event
  event_other n_ready s e n m = elim (Bool-cases (e.fd == sfd)) [
    | inl own ↦ (rw own (accept_other n_ready s e.conn m), rw own refl)
    | inr client ↦ let (w, k) = client_other s e.fd e.events e.ret n in (rw client w, rw client k)
  ]

  pub events_other :
      (n_ready : ℕ) (events : List Ready) (s : S)
      → AllOthers c events
      → IsUntouched s (handle_events epoll sfd n_ready s events)
  unfolding handle_events
  events_other n_ready [] s all = (refl, refl)
  events_other n_ready (e ∷ events) s all =
      let (w, k) = event_other n_ready s e all.0 all.1 in
      let s1 = handle_event epoll sfd n_ready s e in
      let (w', k') = events_other n_ready events s1.0 all.2 in
      (
        w' ∙ w,
        calls_of-append c s1.1 (handle_events epoll sfd n_ready s1.0 events).1
            ∙ ap₂ (λ x y. x ++ y) k k',
      )

  client_turned :
      (s : S) (i j : Interest)
      → epoll.wants s c ≡ some j
      → IsLeft (other_side i) (callback i c ∷ []) (handle_client epoll s c (only i) turned)
  unfolding handle_client
  client_turned s epollin j w = record {
    watched = ground (arith, epoll.wants-mod_ep_evt s c c epollout, w);
    called = ground arith;
  }
  client_turned s epollout j w = record {
    watched = ground (arith, epoll.wants-mod_ep_evt s c c epollin, w);
    called = ground arith;
  }

  event_client :
      (n_ready : ℕ) (s : S) (e : Ready) (i : Interest)
      → c ≢ sfd
      → e.fd ≡ c
      → e.events ≡ only i
      → e.ret ≡ turned
      → handle_event epoll sfd n_ready s e ≡ handle_client epoll s c (only i) turned
  unfolding handle_event
  event_client n_ready s e i n f v r =
      let client : (e.fd == sfd) ≡ false = ground (arith, n, f) in
      rw client (
        ap (λ d. handle_client epoll s d e.events e.ret) f
        ∙ ap (λ flags. handle_client epoll s c flags e.ret) v
        ∙ ap (handle_client epoll s c (only i)) r)

  -- Of the events of one batch, one is of the client.
  pub events_one :
      (n_ready : ℕ) (before behind : List Ready) (e : Ready) (s : S) (i j : Interest)
      → c ≢ sfd
      → AllOthers c before
      → AllOthers c behind
      → e.fd ≡ c
      → e.events ≡ only i
      → e.ret ≡ turned
      → epoll.wants s c ≡ some j
      → IsLeft
          (other_side i)
          (callback i c ∷ [])
          (handle_events epoll sfd n_ready s (before ++ (e ∷ behind)))
  unfolding handle_events handle_event
  events_one n_ready [] behind e s i j n all all' f v r w =
      let s1 = handle_event epoll sfd n_ready s e in
      let left =
        subst (IsLeft (other_side i) (callback i c ∷ [])) (sym (event_client n_ready s e i n f v r))
          (client_turned s i j w) in
      let (w', k') = events_other n_ready behind s1.0 all' in
      record {
        watched = w' ∙ left.watched;
        called =
            calls_of-append c s1.1 (handle_events epoll sfd n_ready s1.0 behind).1
            ∙ ap₂ (λ x y. x ++ y) left.called k';
      }
  events_one n_ready (x ∷ before) behind e s i j n all all' f v r w =
      let (u, k) = event_other n_ready s x all.0 all.1 in
      let s1 = handle_event epoll sfd n_ready s x in
      let left = events_one n_ready before behind e s1.0 i j n all.2 all' f v r (u ∙ w) in
      record {
        watched = left.watched;
        called =
            calls_of-append c s1.1 (handle_events epoll sfd n_ready s1.0 (before ++ (e ∷ behind))).1
            ∙ ap₂ (λ x y. x ++ y) k left.called;
      }
