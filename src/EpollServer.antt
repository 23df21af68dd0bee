-- ===== src/EpollServer.antt =====
-- The epoll servers of ut_socket.c. The kernel's set of watched descriptors is a parameter.
pub mod Batch
pub mod Turns
mod Tests
use pc_env_vu.Base.{
  ℕ, zero, suc, ◌+◌, ◌≡◌, Option, none, some, List, [], ◌∷◌, ◌++◌, Bool, true, false, ◌==◌, leb,
  if◌then◌else◌, ◌>>=◌, length,
}

-- EPOLLIN or EPOLLOUT, as a descriptor is watched for.
pub data Interest : Type 0 where
  epollin : Interest
  epollout : Interest

-- The flags of an event: one of these alone, or any others (EPOLLHUP, EPOLLERR, several).
pub data Flags : Type 0 where
  only : Interest → Flags
  other_flags : Flags

-- What is watched for behind an addition and behind a change.
abbrev pub added : Option Interest → Interest → Interest
added none i = i
added (some j) i = j

abbrev pub changed : Option Interest → Interest → Option Interest
changed none i = none
changed (some j) i = some i

-- What `epoll_ctl` does to the set, as its manual has it: a second `EPOLL_CTL_ADD` fails, and so do
-- `EPOLL_CTL_MOD` and `EPOLL_CTL_DEL` of a descriptor that is not there.
pub record Epoll (S : Type 0) : Type 0 where
  pub wants : S → ℕ → Option Interest
  pub add_ep_evt : S → ℕ → Interest → S
  pub mod_ep_evt : S → ℕ → Interest → S
  pub del_ep_evt : S → ℕ → S
  pub wants-add_ep_evt :
      (s : S) (fd c : ℕ) (i : Interest)
      → wants (add_ep_evt s fd i) c ≡ (if c == fd then some (added (wants s c) i) else wants s c)
  pub wants-mod_ep_evt :
      (s : S) (fd c : ℕ) (i : Interest)
      → wants (mod_ep_evt s fd i) c ≡ (if c == fd then changed (wants s c) i else wants s c)
  pub wants-del_ep_evt :
      (s : S) (fd c : ℕ) → wants (del_ep_evt s fd) c ≡ (if c == fd then none else wants s c)

-- What a callback returns: 0, 1, or anything else.
pub data Answer : Type 0 where
  turned : Answer
  closed : Answer
  others : Answer

-- An event, with what `accept` or the callback gives where it is called; `none` is -1.
pub record Ready : Type 0 where
  pub fd : ℕ
  pub events : Flags
  pub conn : Option ℕ
  pub ret : Answer

-- A callback that is called.
pub data Called : Type 0 where
  p_rcbk : ℕ → Called
  p_wcbk : ℕ → Called

abbrev pub events_size : ℕ
events_size = 10

module _ {S : Type 0} (epoll : Epoll S) where
  -- The branches for a descriptor that is not the server's own, which are all there is in the servers
  -- for datagrams: the set behind the answer of a callback, and the whole branch.
  abbrev pub behind_callback : S → ℕ → (next : Interest) → Answer → S
  behind_callback s fd next turned = epoll.mod_ep_evt s fd next
  behind_callback s fd next closed = epoll.del_ep_evt s fd
  behind_callback s fd next others = s

  unfoldable pub handle_client : S → (fd : ℕ) → Flags → Answer → S × List Called
  handle_client s fd (only epollin) ret = (behind_callback s fd epollout ret, p_rcbk fd ∷ [])
  handle_client s fd (only epollout) ret = (behind_callback s fd epollin ret, p_wcbk fd ∷ [])
  handle_client s fd other_flags ret = (s, [])

  -- The new connection is added, unless it is 0; -1 is no descriptor that the kernel adds.
  unfoldable pub handle_accept : (n_ready : ℕ) → S → Option ℕ → S
  handle_accept n_ready s conn =
      let accepted = elim conn as (λ o. S) [
        | none ↦ s
        | some c ↦ if c == 0 then s else epoll.add_ep_evt s c epollin
      ] in
      if leb (n_ready + 1) events_size then accepted else s

  unfoldable pub handle_event : (sfd n_ready : ℕ) → S → Ready → S × List Called
  handle_event sfd n_ready s e =
      if e.fd == sfd
      then (handle_accept n_ready s e.conn, [])
      else handle_client s e.fd e.events e.ret

  -- The loop over the events of one `epoll_wait`.
  unfoldable pub handle_events : (sfd n_ready : ℕ) → S → List Ready → S × List Called
  handle_events sfd n_ready s [] = (s, [])
  handle_events sfd n_ready s (e ∷ events) =
      let (s1, called) = handle_event sfd n_ready s e in
      let (s2, more) = handle_events sfd n_ready s1 events in (s2, called ++ more)

  -- The same loop of the servers for datagrams, which have no descriptor of their own.
  unfoldable pub handle_datagrams : S → List Ready → S × List Called
  handle_datagrams s [] = (s, [])
  handle_datagrams s (e ∷ events) =
      let (s1, called) = handle_client s e.fd e.events e.ret in
      let (s2, more) = handle_datagrams s1 events in (s2, called ++ more)

-- What `epoll_wait` gives: -1 with EINTR, -1 with another error, or events, at most `events_size`.
pub data Waited : Type 0 where
  interrupted : Waited
  wait_failed : Waited
  ready : List Ready → Waited

module _ {S : Type 0} (epoll : Epoll S) where
  -- A round of `in_epoll_tcp_server`, and of `un_epoll_tcp_server`, which has the same loop; `none` is
  -- `exit`.
  unfoldable pub epoll_tcp_round : (sfd : ℕ) → S → Waited → Option (S × List Called)
  epoll_tcp_round sfd s interrupted = some (s, [])
  epoll_tcp_round sfd s wait_failed = none
  epoll_tcp_round sfd s (ready events) = some (handle_events epoll sfd (length events) s events)

  -- A round of `in_epoll_udp_server`, and of `un_epoll_udp_server`.
  unfoldable pub epoll_udp_round : S → Waited → Option (S × List Called)
  epoll_udp_round s interrupted = some (s, [])
  epoll_udp_round s wait_failed = none
  epoll_udp_round s (ready events) = some (handle_datagrams epoll s events)

  -- Rounds one after the other.
  unfoldable pub epoll_tcp_run : (sfd : ℕ) → S → List Waited → Option (S × List Called)
  epoll_tcp_run sfd s [] = some (s, [])
  epoll_tcp_run sfd s (w ∷ rounds) = epoll_tcp_round sfd s w >>= λ (s1, called).
      epoll_tcp_run sfd s1 rounds >>= λ (s2, more). some (s2, called ++ more)
