-- ===== src/SelectServer.antt =====
-- The select servers of ut_socket.c: the table of connections, and a round of a server.
pub mod Slots
pub mod Datagrams
pub mod Rounds
mod Tests
use pc_env_vu.Base.{
  ℕ, ◌-◌, Option, none, some, List, [], ◌∷◌, Bool, true, false, ◌==◌, if◌then◌else◌,
}

-- `conn_a`: a descriptor, or `none` for -1.
abbrev pub Slots : Type 0
Slots = List (Option ℕ)

-- The loop of `un_select_tcp_server` over the table behind an `accept`.
pub un_accept : Slots → (conn : ℕ) → Slots
un_accept [] conn = []
un_accept (none ∷ conn_a) conn = some conn ∷ un_accept conn_a conn
un_accept (some c ∷ conn_a) conn = some c ∷ un_accept conn_a conn

-- That of `in_select_tcp_server`, which stops at the first free slot.
pub in_accept : Slots → (conn : ℕ) → Slots
in_accept [] conn = []
in_accept (none ∷ conn_a) conn = some conn ∷ conn_a
in_accept (some c ∷ conn_a) conn = some c ∷ in_accept conn_a conn

-- The loop of both over the table behind `select`, from a slot on with `nready` descriptors to go: the
-- slots that are left, and the descriptors that are read, in order. `closes` says where the read
-- callback returns 1. What the write callback returns is not used.
module _ (is_set closes : ℕ → Bool) where
  unfoldable pub serve : (nready : ℕ) → Slots → Slots × List ℕ
  serve nready [] = ([], [])
  serve nready (none ∷ conn_a) = let (left, read) = serve nready conn_a in (none ∷ left, read)
  serve nready (some c ∷ conn_a) =
      let n = if is_set c then nready - 1 else nready in
      let (left, read) = serve n conn_a in
      let slot = if is_set c then (if closes c then none else some c) else some c in
      let out = if n == 0 then (slot ∷ conn_a, []) else (slot ∷ left, read) in
      if is_set c then (out.0, c ∷ out.1) else out

  -- The loop of `in_select_udp_server` and `un_select_udp_server` over their table, with the write
  -- callbacks too: they come behind each read that does not close, also one that fails.
  unfoldable pub serve_datagrams : (nready : ℕ) → Slots → Slots × List ℕ × List ℕ
  serve_datagrams nready [] = ([], [], [])
  serve_datagrams nready (none ∷ tbl) =
      let (left, read, written) = serve_datagrams nready tbl in (none ∷ left, read, written)
  serve_datagrams nready (some fd ∷ tbl) =
      let n = if is_set fd then nready - 1 else nready in
      let (left, read, written) = serve_datagrams n tbl in
      let rest = if n == 0 then tbl else left in
      let reads = if n == 0 then [] else read in
      let writes = if n == 0 then [] else written in
      if is_set fd
      then (if closes fd
          then (none ∷ rest, fd ∷ reads, writes)
          else (some fd ∷ rest, fd ∷ reads, fd ∷ writes))
      else (some fd ∷ rest, reads, writes)

-- What `select` gives: -1 with EINTR, -1 with another error, or a count and the set of the ready.
pub data Selected : Type 0 where
  interrupted : Selected
  select_failed : Selected
  selected : (nready : ℕ) → (rset : ℕ → Bool) → Selected

-- The table behind the accept, if there is one; `none` is -1.
abbrev pub joined :
    (accept_into : Slots → ℕ → Slots) (is_connecting : Bool) (conn : Option ℕ) → Slots → Slots
joined accept_into false conn conn_a = conn_a
joined accept_into true none conn_a = conn_a
joined accept_into true (some c) conn_a = accept_into conn_a c

-- A round of a select server for streams, whose own descriptor is `sfd`, with its way to put a client
-- into the table. `conn` is what `accept` gives, `none` for -1; the outer `none` is `exit`.
unfoldable pub select_tcp_round :
    (accept_into : Slots → ℕ → Slots) (sfd : ℕ) (closes : ℕ → Bool) (conn : Option ℕ)
    → Slots
    → Selected
    → Option (Slots × List ℕ)
select_tcp_round accept_into sfd closes conn conn_a interrupted = some (conn_a, [])
select_tcp_round accept_into sfd closes conn conn_a select_failed = none
select_tcp_round accept_into sfd closes conn conn_a (selected nready rset) =
    let table = joined accept_into (rset sfd) conn conn_a in
    let n = if rset sfd then nready - 1 else nready in
    if nready == 0
    then some (conn_a, [])
    else if n == 0
    then some (table, [])
    else some (serve rset closes n table)

abbrev pub in_select_round :
    (sfd : ℕ) (closes : ℕ → Bool) (conn : Option ℕ) → Slots → Selected → Option (Slots × List ℕ)
in_select_round = select_tcp_round in_accept

abbrev pub un_select_round :
    (sfd : ℕ) (closes : ℕ → Bool) (conn : Option ℕ) → Slots → Selected → Option (Slots × List ℕ)
un_select_round = select_tcp_round un_accept
