-- ===== src/SockServer/Parsing.antt =====
-- What the parser makes of a request.
use mathlib.Core.List.{append_assoc}
use pc_env_vu.Base.{
  ℕ, zero, suc, ◌<◌, ◌≡◌, ◌≢◌, refl, sym, ap, ◌∙◌, Option, some, none, List, [], ◌∷◌, ◌++◌, Bool,
  true, false, arith, length, Text, split_at, find_text, Lacks, split_at-Lacks, split_at_found,
  Lacks-append, find_text-append, length-split_at, length-find_text,
}
use pc_env_vu.SockServer.{
  ReqParam, ReqContex, path_start, up_to_space, one_param, para_parse, empty_contex, parse,
}

module _ (fuel : ℕ) (tail : Text) (ctx : ReqContex) where
  pub last_param :
      {ctx' : ReqContex}
      → split_at b'&' tail ≡ none
      → one_param (up_to_space tail) ctx ≡ some ctx'
      → para_parse (suc fuel) tail ctx ≡ some (true, ctx')
  unfolding para_parse
  last_param s q = rw (s, para_parse) (rw q refl)

  pub last_refused :
      split_at b'&' tail ≡ none
      → one_param (up_to_space tail) ctx ≡ none
      → para_parse (suc fuel) tail ctx ≡ some (false, ctx)
  unfolding para_parse
  last_refused s q = rw (s, para_parse) (rw q refl)

  pub next_param :
      {para more : Text} {ctx' : ReqContex}
      → split_at b'&' tail ≡ some (para, more)
      → one_param para ctx ≡ some ctx'
      → para_parse (suc fuel) tail ctx ≡ para_parse fuel more ctx'
  unfolding para_parse
  next_param s q = rw (s, para_parse) (rw q refl)

  next_refused :
      {para more : Text}
      → split_at b'&' tail ≡ some (para, more)
      → one_param para ctx ≡ none
      → para_parse (suc fuel) tail ctx ≡ some (false, ctx)
  unfolding para_parse
  next_refused s q = rw (s, para_parse) (rw q refl)

para_parse_halts :
    (fuel : ℕ) (tail : Text) (ctx : ReqContex)
    → length tail < fuel
    → (r : Bool × ReqContex) × (para_parse fuel tail ctx ≡ some r)
para_parse_halts zero tail ctx lt = absurd (omega (arith, lt))
para_parse_halts (suc fuel) tail ctx lt = by_split (split_at b'&' tail) refl (para_parse_halts fuel)
  where
    one :
        (o : Option ReqContex)
        → one_param (up_to_space tail) ctx ≡ o
        → split_at b'&' tail ≡ none
        → (r : Bool × ReqContex) × (para_parse (suc fuel) tail ctx ≡ some r)
    one none q s = ((false, ctx), last_refused fuel tail ctx s q)
    one (some ctx') q s = ((true, ctx'), last_param fuel tail ctx s q)

    next :
        (para more : Text) (o : Option ReqContex)
        → one_param para ctx ≡ o
        → split_at b'&' tail ≡ some (para, more)
        → ((t : Text) (c : ReqContex)
            → length t < fuel
            → (r : Bool × ReqContex) × (para_parse fuel t c ≡ some r))
        → (r : Bool × ReqContex) × (para_parse (suc fuel) tail ctx ≡ some r)
    next para more none q s rec = ((false, ctx), next_refused fuel tail ctx s q)
    next para more (some ctx') q s rec =
        let (r, e) = rec more ctx' (omega (arith, lt, length-split_at b'&' tail s)) in
        (r, next_param fuel tail ctx s q ∙ e)

    by_split :
        (o : Option (Text × Text))
        → split_at b'&' tail ≡ o
        → ((t : Text) (c : ReqContex)
            → length t < fuel
            → (r : Bool × ReqContex) × (para_parse fuel t c ≡ some r))
        → (r : Bool × ReqContex) × (para_parse (suc fuel) tail ctx ≡ some r)
    by_split none s rec = one (one_param (up_to_space tail) ctx) refl s
    by_split (some (para, more)) s rec = next para more (one_param para ctx) refl s rec

-- With more fuel than the request has bytes, the parser comes to an end on every request.
pub parse_halts :
    (fuel : ℕ) (req : Text) → length req < fuel → (r : Bool × ReqContex) × (parse fuel req ≡ some r)
unfolding parse
parse_halts fuel req lt = by_path (find_text path_start req) refl
  where
    by_query :
        (m_method tail : Text) (o : Option (Text × Text))
        → split_at b'?' tail ≡ o
        → find_text path_start req ≡ some (m_method, tail)
        → (r : Bool × ReqContex) × (parse fuel req ≡ some r)
    by_query m_method tail none q e = (
      (true, record { m_method = m_method; m_cmd = up_to_space tail; m_params = [] }),
      rw (e, parse) (rw q refl),
    )
    by_query m_method tail (some (m_cmd, more)) q e =
        let (r, p) =
          para_parse_halts fuel more (record { m_method = m_method; m_cmd = m_cmd; m_params = [] })
            (omega (arith, lt, length-split_at b'?' tail q, length-find_text path_start req e)) in
        (r, rw (e, parse) (rw q p))

    by_path :
        (o : Option (Text × Text))
        → find_text path_start req ≡ o
        → (r : Bool × ReqContex) × (parse fuel req ≡ some r)
    by_path none e = ((false, empty_contex), rw (e, parse) refl)
    by_path (some (m_method, tail)) e = by_query m_method tail (split_at b'?' tail) refl e

-- Parameters, as a request has them.
abbrev pub printed : ReqParam → Text
printed p = p.key ++ (b'=' ∷ p.value)

abbrev pub print_params : ReqParam → List ReqParam → (rest : Text) → Text
print_params p [] rest = printed p ++ rest
print_params p (q ∷ ps) rest = printed p ++ (b'&' ∷ print_params q ps rest)

pub record IsClean (p : ReqParam) : Type 0 where
  pub key_equals : Lacks b'=' p.key
  pub key_amp : Lacks b'&' p.key
  pub key_space : Lacks b' ' p.key
  pub value_amp : Lacks b'&' p.value
  pub value_space : Lacks b' ' p.value

abbrev pub AllClean : List ReqParam → Type 0
AllClean [] = Unit
AllClean (p ∷ ps) = IsClean p × AllClean ps

abbrev pub with_params : ReqContex → List ReqParam → ReqContex
with_params ctx ps = record ctx { m_params = ctx.m_params ++ ps }

pub one_param-equals :
    (key value : Text) (ctx : ReqContex)
    → Lacks b'=' key
    → one_param (key ++ (b'=' ∷ value)) ctx
      ≡ some (with_params ctx (record { key = key; value = value } ∷ []))
unfolding one_param
one_param-equals key value ctx h = rw (split_at_found b'=' key value h) refl

pub Lacks-printed :
    (mark : ℕ) (p : ReqParam)
    → mark ≢ b'='
    → Lacks mark p.key
    → Lacks mark p.value
    → Lacks mark (printed p)
Lacks-printed mark p n k v = Lacks-append mark p.key (b'=' ∷ p.value) k ((λ e. n (sym e)), v)

pub up_to_space-found : (t more : Text) → Lacks b' ' t → up_to_space (t ++ (b' ' ∷ more)) ≡ t
up_to_space-found t more h = rw (split_at_found b' ' t more h, up_to_space) refl

-- The parameters of a target, before a header that has no '&', are all read, in order.
para_parse-printed :
    (ps : List ReqParam) (p : ReqParam) (more : Text) (fuel : ℕ) (ctx : ReqContex)
    → AllClean (p ∷ ps)
    → Lacks b'&' more
    → length ps < fuel
    → para_parse fuel (print_params p ps (b' ' ∷ more)) ctx ≡ some (true, with_params ctx (p ∷ ps))
para_parse-printed ps p more zero ctx all h lt = absurd (omega (arith, lt))
para_parse-printed [] p more (suc fuel) ctx all h lt =
    let amp =
      Lacks-append b'&' (printed p) (b' ' ∷ more)
        (Lacks-printed b'&' p (λ e. omega (arith, e)) all.0.key_amp all.0.value_amp)
        ((λ e. omega (arith, e)), h) in
    let space = Lacks-printed b' ' p (λ e. omega (arith, e)) all.0.key_space all.0.value_space in
    last_param fuel (print_params p [] (b' ' ∷ more)) ctx
      (split_at-Lacks b'&' (printed p ++ (b' ' ∷ more)) amp)
      (ap (λ t. one_param t ctx) (up_to_space-found (printed p) more space)
        ∙ one_param-equals p.key p.value ctx all.0.key_equals)
para_parse-printed (q ∷ ps) p more (suc fuel) ctx all h lt =
    let amp = Lacks-printed b'&' p (λ e. omega (arith, e)) all.0.key_amp all.0.value_amp in
    next_param fuel (print_params p (q ∷ ps) (b' ' ∷ more)) ctx
      (split_at_found b'&' (printed p) (print_params q ps (b' ' ∷ more)) amp)
      (one_param-equals p.key p.value ctx all.0.key_equals)
    ∙ para_parse-printed ps q more fuel (with_params ctx (p ∷ [])) all.1 h (omega (arith, lt))
    ∙ ap (λ l. some (true, record ctx { m_params = l }))
        (append_assoc ctx.m_params (p ∷ []) (q ∷ ps))

-- A request up to its parameters.
abbrev pub print_request : (m_method m_cmd query : Text) → Text
print_request m_method m_cmd query = m_method ++ (path_start ++ (m_cmd ++ (b'?' ∷ query)))

pub parse-print_request :
    (fuel : ℕ) (m_method m_cmd query : Text)
    → Lacks b' ' m_method
    → Lacks b'?' m_cmd
    → parse fuel (print_request m_method m_cmd query)
      ≡ para_parse fuel query (record { m_method = m_method; m_cmd = m_cmd; m_params = [] })
unfolding parse para_parse
parse-print_request fuel m_method m_cmd query m c =
    rw (find_text-append b' ' (b'/' ∷ []) m_method (m_cmd ++ (b'?' ∷ query)) m, parse)
      (rw (split_at_found b'?' m_cmd query c) refl)

-- A request with one parameter or more is read back from its text: the method, the command, and
-- all parameters in order, where no part has a byte that ends it and the header behind the target
-- has no '&'.
pub parse-printed :
    (fuel : ℕ) (m_method m_cmd : Text) (p : ReqParam) (ps : List ReqParam) (more : Text)
    → Lacks b' ' m_method
    → Lacks b'?' m_cmd
    → AllClean (p ∷ ps)
    → Lacks b'&' more
    → length ps < fuel
    → parse fuel (print_request m_method m_cmd (print_params p ps (b' ' ∷ more)))
      ≡ some (true, record { m_method = m_method; m_cmd = m_cmd; m_params = p ∷ ps })
parse-printed fuel m_method m_cmd p ps more m c all h lt =
    parse-print_request fuel m_method m_cmd (print_params p ps (b' ' ∷ more)) m c
    ∙ para_parse-printed ps p more fuel
        (record { m_method = m_method; m_cmd = m_cmd; m_params = [] }) all h lt
