-- ===== src/EpollServer/Tests.antt =====
-- The theorem at a server with two clients.
use pc_env_vu.Base.{ℕ, ◌≡◌, refl, Option, none, some, List, [], ◌∷◌, arith, ◌==◌, if◌then◌else◌}
use pc_env_vu.EpollServer.{
  Interest, epollin, epollout, only, Epoll, added, changed, Ready, turned, others, Called, p_rcbk,
  p_wcbk, Waited, interrupted, ready, handle_client, handle_accept, handle_event, handle_events,
  epoll_tcp_run,
}
use pc_env_vu.EpollServer.Batch.{calls_of}
use pc_env_vu.EpollServer.Turns.{IsTurn, Reports, ended, breaks, reports, epoll_tcp_run-turns}

abbrev map_set : Epoll (ℕ → Option Interest)
map_set = record {
  wants = λ s c. s c;
  add_ep_evt = λ s fd i. λ c. if c == fd then some (added (s c) i) else s c;
  mod_ep_evt = λ s fd i. λ c. if c == fd then changed (s c) i else s c;
  del_ep_evt = λ s fd. λ c. if c == fd then none else s c;
  wants-add_ep_evt = λ s fd c i. refl;
  wants-mod_ep_evt = λ s fd c i. refl;
  wants-del_ep_evt = λ s fd c. refl;
}

-- The server's descriptor is 3; 7 is watched for input.
abbrev one_client : ℕ → Option Interest
one_client c = if c == 7 then some epollin else none

abbrev event_of : ℕ → Interest → Ready
event_of fd i = record { fd = fd; events = only i; conn = none; ret = turned }

-- 8 connects in the batch in which 7 is read from.
abbrev new_client : Ready
new_client = record { fd = 3; events = only epollin; conn = some 8; ret = others }

abbrev read_turn : IsTurn 7 epollin (new_client ∷ event_of 7 epollin ∷ [])
read_turn = record {
  before = new_client ∷ [];
  event = event_of 7 epollin;
  behind = [];
  events_eq = refl;
  before_others = ((λ e. omega (arith, e)), (λ e. absurd (ground (arith, e))), tt);
  behind_others = tt;
  fd_eq = refl;
  flags_eq = refl;
  ret_eq = refl;
}

abbrev write_turn : IsTurn 7 epollout (event_of 7 epollout ∷ [])
write_turn = record {
  before = [];
  event = event_of 7 epollout;
  behind = [];
  events_eq = refl;
  before_others = tt;
  behind_others = tt;
  fd_eq = refl;
  flags_eq = refl;
  ret_eq = refl;
}

abbrev three_rounds : List Waited
three_rounds =
    ready (new_client ∷ event_of 7 epollin ∷ [])
    ∷ interrupted
    ∷ ready (event_of 7 epollout ∷ [])
    ∷ []

three_rounds-Reports : Reports map_set 3 7 one_client three_rounds 2
unfolding handle_events handle_event handle_accept handle_client
three_rounds-Reports =
    reports _ _ _ 1 epollin refl read_turn
      (breaks _ _ 1 (reports _ _ _ 0 epollout refl write_turn (ended _)))

epoll_tcp_run-turns_example :
    (after : (ℕ → Option Interest) × List Called) × (epoll_tcp_run map_set 3 one_client three_rounds
      ≡ some after)
    × (after.0 7 ≡ some epollin)
    × (calls_of 7 after.1 ≡ p_rcbk 7 ∷ p_wcbk 7 ∷ [])
epoll_tcp_run-turns_example =
    epoll_tcp_run-turns map_set 3 7 one_client three_rounds 2 epollin (λ e. omega (arith, e)) refl
      three_rounds-Reports
