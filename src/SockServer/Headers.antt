-- ===== src/SockServer/Headers.antt =====
-- A header that has the mark between two parameters.
use mathlib.Core.List.{append_assoc}
use pc_env_vu.Base.{
  ℕ, zero, suc, ◌<◌, ◌≡◌, ◌≢◌, refl, sym, ap, ◌∙◌, some, none, [], ◌∷◌, ◌++◌, Bool, false, arith,
  ◌>>=◌, length, length-append, Text, Lacks, split_at-Lacks, split_at_found, Lacks-append,
}
use pc_env_vu.SockServer.{
  ReqParam, ReqContex, path_start, one_param, para_parse, text_reply, url_parse_err, replies_to,
  handle_response,
}
use pc_env_vu.SockServer.Parsing.{
  next_param, last_refused, printed, IsClean, with_params, one_param-equals, up_to_space-found,
  print_request, parse-print_request, Lacks-printed,
}

no_equals : (t : Text) (ctx : ReqContex) → Lacks b'=' t → one_param t ctx ≡ none
unfolding one_param
no_equals t ctx h = rw (split_at-Lacks b'=' t h) refl

-- The target "key=value", and a header of `before`, an '&', the word `word`, and `after`.
abbrev pub header_with_amp : ReqParam → (before word after : Text) → Text
header_with_amp p before word after =
    printed p ++ (b' ' ∷ (before ++ (b'&' ∷ (word ++ (b' ' ∷ after)))))

-- The value of the parameter with the start of the header.
abbrev longer : ReqParam → Text → ReqParam
longer p before = record { key = p.key; value = p.value ++ (b' ' ∷ before) }

para_parse_refuses :
    (p : ReqParam) (before word after : Text) (fuel : ℕ) (ctx : ReqContex)
    → 1 < fuel
    → IsClean p
    → Lacks b'&' before
    → Lacks b'&' word
    → Lacks b'&' after
    → Lacks b'=' word
    → Lacks b' ' word
    → para_parse fuel (header_with_amp p before word after) ctx
      ≡ some (false, with_params ctx (longer p before ∷ []))
para_parse_refuses p before word after zero ctx lt i ba wa aa we ws = absurd (omega (arith, lt))
para_parse_refuses p before word after (suc zero) ctx lt i ba wa aa we ws =
    absurd (omega (arith, lt))
para_parse_refuses p before word after (suc (suc fuel)) ctx lt i ba wa aa we ws =
    let rest = word ++ (b' ' ∷ after) in
    let para = printed p ++ (b' ' ∷ before) in
    let not_amp : b' ' ≢ b'&' = λ e. omega (arith, e) in
    let amp =
      Lacks-append b'&' (printed p) (b' ' ∷ before)
        (Lacks-printed b'&' p (λ e. omega (arith, e)) i.key_amp i.value_amp) (not_amp, ba) in
    let ctx' = with_params ctx (longer p before ∷ []) in
    ap (λ t. para_parse (suc (suc fuel)) t ctx)
      (sym (append_assoc (printed p) (b' ' ∷ before) (b'&' ∷ rest)))
    ∙ next_param (suc fuel) (para ++ (b'&' ∷ rest)) ctx (split_at_found b'&' para rest amp) (
        ap (λ t. one_param t ctx) (append_assoc p.key (b'=' ∷ p.value) (b' ' ∷ before))
        ∙ one_param-equals p.key (p.value ++ (b' ' ∷ before)) ctx i.key_equals)
    ∙ last_refused fuel rest ctx'
        (split_at-Lacks b'&' rest (Lacks-append b'&' word (b' ' ∷ after) wa (not_amp, aa)))
        (ap (λ t. one_param t ctx') (up_to_space-found word after ws) ∙ no_equals word ctx' we)

-- A request whose target is well formed is answered as a parse error, whatever its method and command,
-- where its header has one '&' and no '=' from there to the next space.
pub header_amp :
    (recording : Bool) (m_method m_cmd : Text) (p : ReqParam) (before word after : Text)
    → Lacks b' ' m_method
    → Lacks b'?' m_cmd
    → IsClean p
    → Lacks b'&' before
    → Lacks b'&' word
    → Lacks b'&' after
    → Lacks b'=' word
    → Lacks b' ' word
    → handle_response recording (print_request m_method m_cmd (header_with_amp p before word after))
      ≡ some (text_reply url_parse_err ∷ [])
unfolding handle_response replies_to
header_amp recording m_method m_cmd p before word after m c i ba wa aa we ws =
    let query = header_with_amp p before word after in
    let req = print_request m_method m_cmd query in
    let long : 1 < suc (length req) =
      omega (arith, length-append m_method (path_start ++ (m_cmd ++ (b'?' ∷ query)))) in
    ap (λ o. o >>= λ parsed. some (replies_to recording parsed))
      (parse-print_request (suc (length req)) m_method m_cmd query m c
        ∙ para_parse_refuses p before word after (suc (length req))
            (record { m_method = m_method; m_cmd = m_cmd; m_params = [] }) long i ba wa aa we ws)
