-- ===== src/Uartd/Requests.antt =====
-- A command from the serial line, up to its handler.
use mathlib.Core.List.{append_assoc}
use pc_env_vu.Base.{
  ℕ, ◌<◌, ◌≡◌, refl, ap, ◌∙◌, Option, some, List, [], ◌∷◌, ◌++◌, true, false, arith, ◌>>=◌, Text,
  same, same_refl, Lacks, Lacks-append,
}
use pc_env_vu.Argv.{argl_to_argv, space}
use pc_env_vu.Argv.Words.{IsPlain, AllWords, spaced, argl_to_argv-spaced}
use pc_env_vu.CondFifo.{CondFifo, read_one, write_one}
use pc_env_vu.Uartd.{newline, Reader, hard_read, CmdItem, Parsed, ran, run_cmd, parse_cmd}
use pc_env_vu.Uartd.Pieces.{IsRead, hard_read-one}

spaced-append : (ws : List Text) (rest : Text) → spaced ws [] ++ rest ≡ spaced ws rest
spaced-append [] rest = refl
spaced-append (w ∷ ws) rest =
    ap (λ t. space ∷ t)
      (append_assoc w (spaced ws []) rest ∙ ap (λ t. w ++ t) (spaced-append ws rest))

Lacks-plain : (w : Text) → IsPlain w → Lacks newline w
Lacks-plain [] p = tt
Lacks-plain (c ∷ w) p = ((λ e. absurd (ground (arith, p.0, e))), Lacks-plain w p.1)

Lacks-spaced : (ws : List Text) → AllWords ws → Lacks newline (spaced ws [])
Lacks-spaced [] all = tt
Lacks-spaced (w ∷ ws) all = (
  (λ e. omega (arith, e)),
  Lacks-append newline w (spaced ws []) (Lacks-plain w all.0) (Lacks-spaced ws all.2),
)

-- No entry has the name.
abbrev pub NotAmong : List CmdItem → Text → Type 0
NotAmong [] name = Unit
NotAmong (i ∷ items) name = (same i.name name ≡ false) × NotAmong items name

run_cmd_passes :
    (items more : List CmdItem) (argv : List Text) (name : Text)
    → NotAmong items name
    → run_cmd (items ++ more) argv name ≡ run_cmd more argv name
unfolding run_cmd
run_cmd_passes [] more argv name h = refl
run_cmd_passes (i ∷ items) more argv name h = rw (h.0) (run_cmd_passes items more argv name h.1)

run_cmd_takes :
    (i : CmdItem) (items : List CmdItem) (argv : List Text)
    → run_cmd (i ∷ items) argv i.name ≡ ran i.name (i.handle argv)
unfolding run_cmd
run_cmd_takes i items argv = rw (same_refl i.name) refl

-- The text between a start mark and its end mark, of words with one space between two of them, goes to
-- the first entry of the table that has the first word for its whole name.
parse_cmd_runs :
    (before after : List CmdItem) (i : CmdItem) (ws : List Text)
    → AllWords (i.name ∷ ws)
    → NotAmong before i.name
    → parse_cmd (before ++ (i ∷ after)) (b'^' ∷ (i.name ++ spaced ws []))
      ≡ some (ran i.name (i.handle (i.name ∷ ws)))
unfolding parse_cmd
parse_cmd_runs before after i ws all h =
    let cut : argl_to_argv ((i.name ++ spaced ws []) ++ (0 ∷ [])) ≡ some (some (i.name ∷ ws)) =
      ap argl_to_argv (
        append_assoc i.name (spaced ws []) (0 ∷ [])
        ∙ ap (λ t. i.name ++ t) (spaced-append ws (0 ∷ [])))
      ∙ argl_to_argv-spaced i.name ws 0 [] all (ground arith) (λ e. omega (arith, e)) in
    rw (cut, ◌>>=◌)
      (ap some (
        run_cmd_passes before (i ∷ after) (i.name ∷ ws) i.name h
        ∙ run_cmd_takes i after (i.name ∷ ws)))

-- What comes out of reading these bytes, taking the next command, and running it.
abbrev pub answer_read : List CmdItem → Reader → List ℕ → Option Parsed
answer_read items r bytes =
    hard_read r bytes >>= λ r'. read_one r'.r_fifo >>= λ (cmd, f). parse_cmd items cmd

queued_first :
    (f : CondFifo) (one : Text)
    → f.q ≡ []
    → 0 < f.max_count
    → read_one (write_one f one).1 ≡ some (one, f)
unfolding read_one write_one
queued_first f one e lt = rw e (ground (arith, e, lt))

-- Where the reader holds nothing and is between two commands, nothing waits in the queue and it
-- has room, a read of fewer than 128 bytes with no 0 among them, that brings a command of words
-- with one space between two of them, between its start mark and its end mark, runs the first
-- entry of the table that has the first word for its whole name, on exactly these words. What else
-- the read brings before the start mark, with no start mark in it, and behind the end mark does
-- not change that.
pub answer_read-first :
    (r : Reader) (noise rest : Text) (before after : List CmdItem) (i : CmdItem) (ws : List Text)
    → r.need_to_get_new_cmd ≡ true
    → r.req ≡ []
    → r.r_fifo.q ≡ []
    → 0 < r.r_fifo.max_count
    → Lacks b'^' noise
    → AllWords (i.name ∷ ws)
    → NotAmong before i.name
    → IsRead (noise ++ (b'^' ∷ ((i.name ++ spaced ws []) ++ (newline ∷ rest))))
    → answer_read
        (before ++ (i ∷ after))
        r
        (noise ++ (b'^' ∷ ((i.name ++ spaced ws []) ++ (newline ∷ rest))))
      ≡ some (ran i.name (i.handle (i.name ∷ ws)))
answer_read-first r noise rest before after i ws between e eq room hn all h is_read =
    let cmd = i.name ++ spaced ws [] in
    let lacks : Lacks newline cmd =
      Lacks-append newline i.name (spaced ws []) (Lacks-plain i.name all.0)
        (Lacks-spaced ws (all.2)) in
    ap (λ o. o >>= λ r'. read_one r'.r_fifo >>= λ (cmd, f). parse_cmd (before ++ (i ∷ after)) cmd)
      (hard_read-one r noise cmd rest between e hn lacks is_read)
    ∙ ap (λ o. o >>= λ (cmd, f). parse_cmd (before ++ (i ∷ after)) cmd)
        (queued_first r.r_fifo (b'^' ∷ cmd) eq room)
    ∙ parse_cmd_runs before after i ws all h
