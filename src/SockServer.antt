-- ===== src/SockServer.antt =====
-- SockServer (package/app/SockServer/src/SockServer.cpp): a server that takes one request from a client,
-- in a thread for each, and the list of its clients.
pub mod Parsing
pub mod Headers
pub mod Replies
pub mod Clients
mod Tests
use pc_env_vu.Base.{
  ℕ, zero, suc, Option, none, some, List, [], ◌∷◌, ◌++◌, Bool, true, false, ◌&&◌, ◌==◌, ltb,
  if◌then◌else◌, ◌>>=◌, length, take, drop, Text, same, split_at, find_text, c_string, buffer,
}

pub record ReqParam : Type 0 where
  pub key : Text
  pub value : Text

pub record ReqContex : Type 0 where
  pub m_method : Text
  pub m_cmd : Text
  pub m_params : List ReqParam

-- "\r\n\r\n"
abbrev pub header_end : Text
header_end = 13 ∷ 10 ∷ 13 ∷ 10 ∷ []

-- " /"
abbrev pub path_start : Text
path_start = b' ' ∷ b'/' ∷ []

-- `substr(0, idx)` for an `idx` that a search gives: up to what is found, and all of it where nothing is.
abbrev pub up_to : Option (Text × Text) → Text → Text
up_to none t = t
up_to (some (before, rest)) t = before

-- The searches that end a command or the last value, one after the other: a space, or the end of the
-- header.
abbrev pub up_to_space : Text → Text
up_to_space t = elim (split_at b' ' t) [
  | some (before, rest) ↦ before
  | none ↦ up_to (find_text header_end t) t
]

-- The parameter in a text, put behind the others; `none` where it has no '='.
unfoldable pub one_param : Text → ReqContex → Option ReqContex
one_param para ctx = split_at b'=' para >>= λ (key, value).
    some (record ctx { m_params = ctx.m_params ++ (record { key = key; value = value } ∷ []) })

-- `paraParse`: whether it succeeds, and what it leaves. `none` is fuel that runs out.
unfoldable pub para_parse : (fuel : ℕ) → Text → ReqContex → Option (Bool × ReqContex)
para_parse zero tail ctx = none
para_parse (suc fuel) tail ctx = elim (split_at b'&' tail) [
  | none ↦ elim (one_param (up_to_space tail) ctx) [
    | none ↦ some (false, ctx)
    | some ctx' ↦ some (true, ctx')
  ]
  | some (para, more) ↦ elim (one_param para ctx) [
    | none ↦ some (false, ctx)
    | some ctx' ↦ para_parse fuel more ctx'
  ]
]

abbrev pub empty_contex : ReqContex
empty_contex = record { m_method = []; m_cmd = []; m_params = [] }

-- `parse`, on a new `ReqContex`.
unfoldable pub parse : (fuel : ℕ) → Text → Option (Bool × ReqContex)
parse fuel req = elim (find_text path_start req) [
  | none ↦ some (false, empty_contex)
  | some (m_method, tail) ↦ elim (split_at b'?' tail) [
    | none ↦ some (true, record { m_method = m_method; m_cmd = up_to_space tail; m_params = [] })
    | some (m_cmd, more) ↦
        para_parse fuel more (record { m_method = m_method; m_cmd = m_cmd; m_params = [] })
  ]
]

-- What `TCPSocket::Send` comes to: its `select` times out or fails, and it returns ERROR_NOT_WRITEABLE;
-- `send` fails; it moves some bytes.
pub data Sending : Type 0 where
  not_writeable : Sending
  failed : Sending
  moved : ℕ → Sending

-- The value of ERROR_NOT_WRITEABLE, the eighth behind ERROR_GETADDR, which is -1.
abbrev pub error_not_writeable : ℕ
error_not_writeable = 7

-- The loop of `ResponseText` and `ResponseMime`: what goes out of a text; `none` is a loop that goes on
-- after all of these. A `sendIdx` past the end is a `totalLen` that is not positive.
unfoldable pub send_all : Text → List Sending → Option Text
send_all [] answers = some []
send_all (c ∷ t) [] = none
send_all (c ∷ t) (failed ∷ answers) = some []
send_all (c ∷ t) (not_writeable ∷ answers) = send_all (drop error_not_writeable (c ∷ t)) answers
send_all (c ∷ t) (moved zero ∷ answers) = some []
send_all (c ∷ t) (moved (suc n) ∷ answers) =
    send_all (drop (suc n) (c ∷ t)) answers >>= λ out. some (take (suc n) (c ∷ t) ++ out)

-- The texts that are sent as a status: "urlParseErr", "serverRecording", "getUrlErr", "serverExit".
pub data Status : Type 0 where
  url_parse_err : Status
  server_recording : Status
  get_url_err : Status
  server_exit : Status

-- A reply: `ResponseText`, or `ResponseMime` and `SendStreaming` for a file.
pub data Reply : Type 0 where
  text_reply : Status → Reply
  stream_reply : (m_cmd : Text) → Reply

-- "GET"
abbrev pub get_method : Text
get_method = 71 ∷ 69 ∷ 84 ∷ []

-- "getVideo"
abbrev pub get_video : Text
get_video = 103 ∷ 101 ∷ 116 ∷ 86 ∷ 105 ∷ 100 ∷ 101 ∷ 111 ∷ []

-- ".264"
abbrev pub stream_mark : Text
stream_mark = 46 ∷ 50 ∷ 54 ∷ 52 ∷ []

-- `HandleResponse` on what `parse` gives. `recording` says whether `get_pids_by_name` finds a process.
unfoldable pub replies_to : (recording : Bool) → Bool × ReqContex → List Reply
replies_to recording (false, ctx) = text_reply url_parse_err ∷ []
replies_to recording (true, ctx) =
    let streamed : List Reply = elim (find_text stream_mark ctx.m_cmd) [
      | none ↦ []
      | some found ↦ stream_reply ctx.m_cmd ∷ []
    ] in
    let recorded : List Reply = if recording then text_reply server_recording ∷ [] else [] in
    if same ctx.m_method get_method
    then (if same ctx.m_cmd get_video then recorded else streamed)
    else []

unfoldable pub handle_response : (recording : Bool) → Text → Option (List Reply)
handle_response recording req =
    parse (suc (length req)) req >>= λ parsed. some (replies_to recording parsed)

-- What a `Recv` adds to the text: `none` for a result that is not positive.
abbrev pub received : Option (List ℕ) → Option Text
received none = some []
received (some bytes) = c_string (buffer 1024 bytes)

-- The loop of `HandleRequest` over `Recv`, with this many rounds to go: the text, and whether the end of
-- the header is in it.
unfoldable pub receive : (left : ℕ) → (recv : ℕ → Option (List ℕ)) → Text → Option (Text × Bool)
receive zero recv req = some (req, false)
receive (suc left) recv req = elim (received (recv left)) [
  | none ↦ none
  | some got ↦ elim (find_text header_end (req ++ got)) [
    | some found ↦ some (req ++ got, true)
    | none ↦ receive left recv (req ++ got)
  ]
]

-- `m_responseStep`
pub data ResponseStep : Type 0 where
  response_waiting : ResponseStep
  response_start : ResponseStep
  response_finish : ResponseStep

-- The thread of `HandleRequest`, as far as it answers: its replies, and the step that it leaves.
unfoldable pub handle_request :
    (exit_work recording : Bool) → (recv : ℕ → Option (List ℕ)) → Option (List Reply × ResponseStep)
handle_request exit_work recording recv = receive 50 recv [] >>= λ (req, is_find_corect_end).
    let handled = handle_response recording req >>= λ replies. some (replies, response_finish) in
    if ltb (length req) 16
    then some ([], response_start)
    else if is_find_corect_end
    then (if exit_work then some (text_reply server_exit ∷ [], response_start) else handled)
    else some (text_reply get_url_err ∷ [], response_start)

pub record SockClient : Type 0 where
  pub m_sockfd : ℕ
  pub m_response_step : ResponseStep

-- A round of `Run` behind its `select`, or the end of a client's thread. `is_readable` fails only where
-- `select` does.
pub data Event : Type 0 where
  connects : (client_sockfd : ℕ) → Event
  accept_fails : Event
  others : (is_readable : ℕ → Bool) → Event
  thread_ends : (m_sockfd : ℕ) → ResponseStep → Event

unfoldable pub start_all : (is_readable : ℕ → Bool) → List SockClient → List SockClient
start_all is_readable [] = []
start_all is_readable (it ∷ clients) =
    let rest = start_all is_readable clients in
    elim it.m_response_step [
      | response_waiting ↦
          (if is_readable it.m_sockfd then record it { m_response_step = response_start } else it)
          ∷ rest
      | response_start ↦ it ∷ rest
      | response_finish ↦ it ∷ rest
    ]

unfoldable pub erase_finished : List SockClient → List SockClient
erase_finished [] = []
erase_finished (it ∷ clients) =
    let rest = erase_finished clients in
    elim it.m_response_step [
      | response_waiting ↦ it ∷ rest
      | response_start ↦ it ∷ rest
      | response_finish ↦ rest
    ]

-- The client of this descriptor takes the step that its thread leaves.
unfoldable pub end_thread : ℕ → ResponseStep → List SockClient → List SockClient
end_thread fd left [] = []
end_thread fd left (it ∷ clients) =
    let rest = end_thread fd left clients in
    (if it.m_sockfd == fd then record it { m_response_step = left } else it) ∷ rest

unfoldable pub run_round : List SockClient → Event → List SockClient
run_round clients (connects fd) =
    clients ++ (record { m_sockfd = fd; m_response_step = response_waiting } ∷ [])
run_round clients accept_fails = clients
run_round clients (others is_readable) = erase_finished (start_all is_readable clients)
run_round clients (thread_ends fd left) = end_thread fd left clients

unfoldable pub run_rounds : List SockClient → List Event → List SockClient
run_rounds clients [] = clients
run_rounds clients (e ∷ events) = run_rounds (run_round clients e) events
