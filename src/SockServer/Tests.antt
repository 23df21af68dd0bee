-- ===== src/SockServer/Tests.antt =====
-- The theorems at small requests, replies and lists of clients.
use pc_env_vu.Base.{
  ◌≡◌, refl, inl, none, some, List, [], ◌∷◌, Bool, true, false, arith, Text, Lacks-split_at,
  split_at, find_text,
}
use pc_env_vu.SockServer.{
  ReqParam, ReqContex, parse, Sending, moved, not_writeable, send_all, Reply, text_reply,
  url_parse_err, handle_response, ResponseStep, handle_request, connects, others, thread_ends,
  run_rounds, receive,
}
use pc_env_vu.SockServer.Parsing.{parse_halts, IsClean, parse-printed}
use pc_env_vu.SockServer.Headers.{header_amp}
use pc_env_vu.SockServer.Replies.{send_all_whole, send_all_skips}
use pc_env_vu.SockServer.Clients.{In, started, unfinished_stays}

-- "G /c?a=1 H"
abbrev small : Text
small = 71 ∷ 32 ∷ 47 ∷ 99 ∷ 63 ∷ 97 ∷ 61 ∷ 49 ∷ 32 ∷ 72 ∷ []

parse_halts_example : (r : Bool × ReqContex) × (parse 11 small ≡ some r)
parse_halts_example = parse_halts 11 small (ground arith)

abbrev a_is_1 : ReqParam
a_is_1 = record { key = 97 ∷ []; value = 49 ∷ [] }

abbrev b_is_2 : ReqParam
b_is_2 = record { key = 98 ∷ []; value = 50 ∷ [] }

a_is_1-IsClean : IsClean a_is_1
unfolding split_at
a_is_1-IsClean = record {
  key_equals = Lacks-split_at 61 (97 ∷ []) refl;
  key_amp = Lacks-split_at 38 (97 ∷ []) refl;
  key_space = Lacks-split_at 32 (97 ∷ []) refl;
  value_amp = Lacks-split_at 38 (49 ∷ []) refl;
  value_space = Lacks-split_at 32 (49 ∷ []) refl;
}

b_is_2-IsClean : IsClean b_is_2
unfolding split_at
b_is_2-IsClean = record {
  key_equals = Lacks-split_at 61 (98 ∷ []) refl;
  key_amp = Lacks-split_at 38 (98 ∷ []) refl;
  key_space = Lacks-split_at 32 (98 ∷ []) refl;
  value_amp = Lacks-split_at 38 (50 ∷ []) refl;
  value_space = Lacks-split_at 32 (50 ∷ []) refl;
}

-- "G /c?a=1&b=2 H"
parse-printed_example :
    parse 14 (71 ∷ 32 ∷ 47 ∷ 99 ∷ 63 ∷ 97 ∷ 61 ∷ 49 ∷ 38 ∷ 98 ∷ 61 ∷ 50 ∷ 32 ∷ 72 ∷ [])
    ≡ some (true, record { m_method = 71 ∷ []; m_cmd = 99 ∷ []; m_params = a_is_1 ∷ b_is_2 ∷ [] })
unfolding split_at
parse-printed_example =
    parse-printed 14 (71 ∷ []) (99 ∷ []) a_is_1 (b_is_2 ∷ []) (72 ∷ [])
      (Lacks-split_at 32 (71 ∷ []) refl) (Lacks-split_at 63 (99 ∷ []) refl)
      (a_is_1-IsClean, (b_is_2-IsClean, tt)) (Lacks-split_at 38 (72 ∷ []) refl) (ground arith)

-- "G /c?a=1 H&x y"
header_amp_run :
    handle_response false
      (71 ∷ 32 ∷ 47 ∷ 99 ∷ 63 ∷ 97 ∷ 61 ∷ 49 ∷ 32 ∷ 72 ∷ 38 ∷ 120 ∷ 32 ∷ 121 ∷ [])
    ≡ some (text_reply url_parse_err ∷ [])
unfolding split_at
header_amp_run =
    header_amp false (71 ∷ []) (99 ∷ []) a_is_1 (72 ∷ []) (120 ∷ []) (121 ∷ [])
      (Lacks-split_at 32 (71 ∷ []) refl) (Lacks-split_at 63 (99 ∷ []) refl) a_is_1-IsClean
      (Lacks-split_at 38 (72 ∷ []) refl) (Lacks-split_at 38 (120 ∷ []) refl)
      (Lacks-split_at 38 (121 ∷ []) refl) (Lacks-split_at 61 (120 ∷ []) refl)
      (Lacks-split_at 32 (120 ∷ []) refl)

abbrev ten : Text
ten = 1 ∷ 2 ∷ 3 ∷ 4 ∷ 5 ∷ 6 ∷ 7 ∷ 8 ∷ 9 ∷ 10 ∷ []

abbrev ones : List Sending
ones =
    moved 1
    ∷ moved 3
    ∷ moved 1
    ∷ moved 1
    ∷ moved 1
    ∷ moved 1
    ∷ moved 1
    ∷ moved 1
    ∷ moved 1
    ∷ moved 1
    ∷ []

send_all_whole_example : send_all ten ones ≡ some ten
send_all_whole_example = send_all_whole ones ten tt (ground arith)

send_all_skips_run : send_all ten (not_writeable ∷ ones) ≡ some (8 ∷ 9 ∷ 10 ∷ [])
send_all_skips_run = send_all_skips ten ones tt (ground arith)

-- A client that sends nothing.
unfinished_stays_run :
    (replies : List Reply) × (left : ResponseStep) × (handle_request false false (λ k. none)
      ≡ some (replies, left))
    × In
        (started 7)
        (run_rounds (started 7 ∷ []) (thread_ends 7 left ∷ connects 8 ∷ others (λ fd. true) ∷ []))
unfolding receive find_text
unfinished_stays_run =
    unfinished_stays false false (λ k. none) ([], false) 7 (started 7 ∷ [])
      (connects 8 ∷ others (λ fd. true) ∷ []) refl (inl (ground arith)) (inl refl) tt
