-- ===== src/EpollServer/Turns.antt =====
-- A client is read from and written to in turn.
use mathlib.Core.Path.{subst}
use pc_env_vu.Base.{ℕ, zero, suc, ◌≡◌, ◌≢◌, refl, sym, ap₂, ◌∙◌, some, List, [], ◌∷◌, ◌++◌, length}
use pc_env_vu.EpollServer.{
  Interest, only, Epoll, Ready, turned, Called, handle_events, Waited, interrupted, wait_failed,
  ready, epoll_tcp_round, epoll_tcp_run,
}
use pc_env_vu.EpollServer.Batch.{
  calls_of, calls_of-append, AllOthers, other_side, callback, IsLeft, events_other, events_one,
}

-- The calls of `k` reports, the first of them for `i`, and what is watched for behind them.
abbrev pub turns : ℕ → Interest → (k : ℕ) → List Called
turns c i zero = []
turns c i (suc k) = callback i c ∷ turns c (other_side i) k

abbrev pub side_after : Interest → (k : ℕ) → Interest
side_after i zero = i
side_after i (suc k) = side_after (other_side i) k

some_injective : {i j : Interest} → some i ≡ some j → i ≡ j
some_injective e = cc

-- A batch in which the callback of one client is called once, and returns 0.
pub record IsTurn (c : ℕ) (i : Interest) (events : List Ready) : Type 0 where
  pub before : List Ready
  pub event : Ready
  pub behind : List Ready
  pub events_eq : events ≡ before ++ (event ∷ behind)
  pub before_others : AllOthers c before
  pub behind_others : AllOthers c behind
  pub fd_eq : event.fd ≡ c
  pub flags_eq : event.events ≡ only i
  pub ret_eq : event.ret ≡ turned

module _ {S : Type 0} (epoll : Epoll S) (sfd c : ℕ) where
  run_cons :
      (s : S) (events : List Ready) (rounds : List Waited) {s2 : S} {more : List Called}
      → epoll_tcp_run epoll sfd (handle_events epoll sfd (length events) s events).0 rounds
        ≡ some (s2, more)
      → epoll_tcp_run epoll sfd s (ready events ∷ rounds)
        ≡ some (s2, (handle_events epoll sfd (length events) s events).1 ++ more)
  unfolding epoll_tcp_run epoll_tcp_round
  run_cons s events rounds e = rw e refl

  own_turn :
      (s : S) (i j : Interest) (events : List Ready)
      → c ≢ sfd
      → IsTurn c i events
      → epoll.wants s c ≡ some j
      → IsLeft epoll sfd c
          (other_side i)
          (callback i c ∷ [])
          (handle_events epoll sfd (length events) s events)
  own_turn s i j events n t w =
      subst
        (λ l.
          IsLeft epoll sfd c (other_side i) (callback i c ∷ [])
            (handle_events epoll sfd (length events) s l))
        (sym t.events_eq)
        (events_one epoll sfd c (length events) t.before t.behind t.event s i j n t.before_others
          t.behind_others t.fd_eq t.flags_eq t.ret_eq w)

  -- Rounds in which `epoll_wait` reports the client `k` times, each time for what it is watched for
  -- there, and in which its callback returns 0.
  pub data Reports : S → List Waited → (k : ℕ) → Type 0 where
    ended : (s : S) → Reports s [] 0
    breaks :
        (s : S) (rounds : List Waited) (k : ℕ)
        → Reports s rounds k
        → Reports s (interrupted ∷ rounds) k
    passes :
        (s : S) (events : List Ready) (rounds : List Waited) (k : ℕ)
        → AllOthers c events
        → Reports (handle_events epoll sfd (length events) s events).0 rounds k
        → Reports s (ready events ∷ rounds) k
    reports :
        (s : S) (events : List Ready) (rounds : List Waited) (k : ℕ) (i : Interest)
        → epoll.wants s c ≡ some i
        → IsTurn c i events
        → Reports (handle_events epoll sfd (length events) s events).0 rounds k
        → Reports s (ready events ∷ rounds) (suc k)

  -- Of a client that is watched for input or output, in rounds whose epoll_wait reports it only
  -- for what it is watched for when it is called, alone and once in a batch, and whose callback
  -- returns 0 each time: the read and the write callback are called in turn, the one that it is
  -- watched for first, once for each report, and behind that it is watched for the other side of
  -- the last one, whatever happens to other clients in the same rounds and between them.
  pub epoll_tcp_run-turns :
      (s : S) (rounds : List Waited) (k : ℕ) (i : Interest)
      → c ≢ sfd
      → epoll.wants s c ≡ some i
      → Reports s rounds k
      → (after : S × List Called) × (epoll_tcp_run epoll sfd s rounds ≡ some after)
        × (epoll.wants after.0 c ≡ some (side_after i k))
        × (calls_of c after.1 ≡ turns c i k)
  unfolding epoll_tcp_run epoll_tcp_round
  epoll_tcp_run-turns s [] zero i n w (ended _) = ((s, []), refl, w, refl)
  epoll_tcp_run-turns s [] (suc k) i n w r = elim r [ ]
  epoll_tcp_run-turns s (wait_failed ∷ rounds) k i n w r = elim r [ ]
  epoll_tcp_run-turns s (interrupted ∷ rounds) k i n w (breaks _ _ _ r) =
      let (after, e, v, l) = epoll_tcp_run-turns s rounds k i n w r in (after, rw e refl, v, l)
  epoll_tcp_run-turns s (ready events ∷ rounds) k i n w (passes _ _ _ _ all r) =
      let (u, quiet) = events_other epoll sfd c (length events) events s all in
      let s1 = handle_events epoll sfd (length events) s events in
      let (after, e, v, l) = epoll_tcp_run-turns s1.0 rounds k i n (u ∙ w) r in
      (
        (after.0, s1.1 ++ after.1),
        run_cons s events rounds e,
        v,
        calls_of-append c s1.1 after.1 ∙ ap₂ (λ x y. x ++ y) quiet l,
      )
  epoll_tcp_run-turns s (ready events ∷ rounds) (suc k) i n w (reports _ _ _ _ j w' t r) =
      let same : j ≡ i = some_injective (sym w' ∙ w) in
      let left = own_turn s i i events n (subst (λ x. IsTurn c x events) same t) w in
      let s1 = handle_events epoll sfd (length events) s events in
      let (after, e, v, l) = epoll_tcp_run-turns s1.0 rounds k (other_side i) n left.watched r in
      (
        (after.0, s1.1 ++ after.1),
        run_cons s events rounds e,
        v,
        calls_of-append c s1.1 after.1 ∙ ap₂ (λ x y. x ++ y) left.called l,
      )
