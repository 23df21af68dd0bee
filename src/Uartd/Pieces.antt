-- ===== src/Uartd/Pieces.antt =====
-- A command that is read in pieces.
use mathlib.Core.List.{append_assoc, append-nil}
use pc_env_vu.Base.{
  c_string-buffer, ℕ, ◌<◌, ◌≡◌, ◌≢◌, refl, sym, ap, ◌∙◌, some, List, [], ◌∷◌, ◌++◌, true, false,
  arith, ◌>>=◌, length, Text, split_at, Lacks, split_at-Lacks, split_at_found, Lacks-append, ltb,
  if◌then◌else◌,
}
use pc_env_vu.CondFifo.{CondFifo, write_one}
use pc_env_vu.Uartd.{newline, Reader, seek, finish, hard_read, hard_reads}

-- What one read may bring: fewer than 128 bytes, none of them 0.
pub record IsRead (bytes : List ℕ) : Type 0 where
  pub short : length bytes < 128
  pub no_zero : Lacks 0 bytes

hard_read-finish :
    (r : Reader) (bytes : List ℕ)
    → IsRead bytes
    → hard_read r bytes ≡ some (finish (seek (record r { req = r.req ++ bytes })))
unfolding hard_read
hard_read-finish r bytes i =
    ap (λ o. o >>= λ s. some (finish (seek (record r { req = r.req ++ s }))))
      (c_string-buffer 128 bytes i.short i.no_zero)

seek_within : (r : Reader) → r.need_to_get_new_cmd ≡ false → seek r ≡ r
unfolding seek
seek_within r e = ground arith

-- Between two commands, the bytes before the start mark go.
seek_start :
    (r : Reader) (noise t : Text)
    → r.need_to_get_new_cmd ≡ true
    → Lacks b'^' noise
    → r.req ≡ noise ++ (b'^' ∷ t)
    → seek r ≡ record r { req = b'^' ∷ t; need_to_get_new_cmd = false }
unfolding seek
seek_start r noise t e h q = rw e (rw q (rw (split_at_found b'^' noise t h) refl))

finish_kept : (r : Reader) → Lacks newline r.req → finish r ≡ r
unfolding finish
finish_kept r h = rw (split_at-Lacks newline r.req h, finish) refl

finish_found :
    (r : Reader) (cmd rest : Text)
    → Lacks newline cmd
    → r.req ≡ cmd ++ (newline ∷ rest)
    → finish r
      ≡ record { req = rest; need_to_get_new_cmd = true; r_fifo = (write_one r.r_fifo cmd).1 }
unfolding finish
finish_found r cmd rest h q =
    let e : split_at newline r.req ≡ some (cmd, rest) =
      ap (split_at newline) q ∙ split_at_found newline cmd rest h in
    rw (e, finish) refl

-- In the middle of a command a piece without its end is kept.
kept_piece :
    (r : Reader) (bytes : List ℕ)
    → IsRead bytes
    → r.need_to_get_new_cmd ≡ false
    → Lacks newline (r.req ++ bytes)
    → hard_read r bytes ≡ some (record r { req = r.req ++ bytes })
kept_piece r bytes i within h =
    hard_read-finish r bytes i
    ∙ ap (λ x. some (finish x)) (seek_within (record r { req = r.req ++ bytes }) within)
    ∙ ap some (finish_kept (record r { req = r.req ++ bytes }) h)

-- The piece with the end completes it.
last_piece :
    (r : Reader) (bytes rest : List ℕ)
    → IsRead (bytes ++ (newline ∷ rest))
    → r.need_to_get_new_cmd ≡ false
    → Lacks newline (r.req ++ bytes)
    → hard_read r (bytes ++ (newline ∷ rest))
      ≡ some (record {
        req = rest;
        need_to_get_new_cmd = true;
        r_fifo = (write_one r.r_fifo (r.req ++ bytes)).1;
      })
last_piece r bytes rest i within h =
    hard_read-finish r (bytes ++ (newline ∷ rest)) i
    ∙ ap (λ x. some (finish x))
        (seek_within (record r { req = r.req ++ (bytes ++ (newline ∷ rest)) }) within)
    ∙ ap some (
        finish_found (record r { req = r.req ++ (bytes ++ (newline ∷ rest)) }) (r.req ++ bytes) rest
          h (sym (append_assoc r.req bytes (newline ∷ rest))))

-- The first piece of a command, at a reader that holds nothing.
first_piece :
    (r : Reader) (noise t : Text)
    → IsRead (noise ++ (b'^' ∷ t))
    → r.need_to_get_new_cmd ≡ true
    → r.req ≡ []
    → Lacks b'^' noise
    → hard_read r (noise ++ (b'^' ∷ t))
      ≡ some (finish (record r { req = b'^' ∷ t; need_to_get_new_cmd = false }))
first_piece r noise t i between e h =
    hard_read-finish r (noise ++ (b'^' ∷ t)) i
    ∙ ap (λ x. some (finish x))
        (seek_start (record r { req = r.req ++ (noise ++ (b'^' ∷ t)) }) noise t between h
          (ap (λ q. q ++ (noise ++ (b'^' ∷ t))) e))

-- A queue with room takes the command, and one without drops it.
queued :
    (f : CondFifo) (cmd : Text)
    → (write_one f cmd).1 ≡ (if ltb (length f.q) f.max_count then record f { q = cmd ∷ f.q } else f)
unfolding write_one
queued f cmd = ground arith

-- Pieces with no end mark.
abbrev pub AllMiddle : List Text → Type 0
AllMiddle [] = Unit
AllMiddle (p ∷ ps) = IsRead p × Lacks newline p × AllMiddle ps

abbrev pub concat : List Text → Text
concat [] = []
concat (p ∷ ps) = p ++ concat ps

middle_pieces :
    (ps more : List Text) (r : Reader)
    → AllMiddle ps
    → r.need_to_get_new_cmd ≡ false
    → Lacks newline r.req
    → hard_reads r (ps ++ more) ≡ hard_reads (record r { req = r.req ++ concat ps }) more
unfolding hard_reads
middle_pieces [] more r all within h =
    ap (λ q. hard_reads (record r { req = q }) more) (sym (append-nil r.req))
middle_pieces (p ∷ ps) more r all within h =
    let longer = Lacks-append newline r.req p h all.1 in
    ap (λ o. o >>= λ r'. hard_reads r' (ps ++ more)) (kept_piece r p all.0 within longer)
    ∙ middle_pieces ps more (record r { req = r.req ++ p }) all.2 within longer
    ∙ ap (λ q. hard_reads (record r { req = q }) more) (append_assoc r.req p (concat ps))

Lacks-concat : (ps : List Text) → AllMiddle ps → Lacks newline (concat ps)
Lacks-concat [] all = tt
Lacks-concat (p ∷ ps) all = Lacks-append newline p (concat ps) all.1 (Lacks-concat ps all.2)

hard_reads_one :
    (r : Reader) (bytes : List ℕ) {r' : Reader}
    → hard_read r bytes ≡ some r'
    → hard_reads r (bytes ∷ []) ≡ some r'
unfolding hard_reads
hard_reads_one r bytes e = rw e refl

hard_reads_cons :
    (r : Reader) (bytes : List ℕ) (more : List (List ℕ)) {r' : Reader}
    → hard_read r bytes ≡ some r'
    → hard_reads r (bytes ∷ more) ≡ hard_reads r' more
unfolding hard_reads
hard_reads_cons r bytes more e = rw e refl

-- A command that comes in pieces, in two reads or more, the first of which brings its start mark
-- and the last its end mark, however it is cut between them, each read of fewer than 128 bytes
-- with no 0 among them, to a reader that holds nothing and is between two commands: once its end
-- mark is read it is put into the queue, whole and with its start mark, where the queue has room,
-- and is dropped where it has none. What comes before that start mark, with no other in it, goes,
-- and what comes behind the end mark is kept for the next read.
pub hard_reads-pieces :
    (r : Reader) (noise p : Text) (ps : List Text) (q rest : Text)
    → r.need_to_get_new_cmd ≡ true
    → r.req ≡ []
    → Lacks b'^' noise
    → Lacks newline p
    → Lacks newline q
    → AllMiddle ps
    → IsRead (noise ++ (b'^' ∷ p))
    → IsRead (q ++ (newline ∷ rest))
    → hard_reads r ((noise ++ (b'^' ∷ p)) ∷ (ps ++ ((q ++ (newline ∷ rest)) ∷ [])))
      ≡ some (record {
        req = rest;
        need_to_get_new_cmd = true;
        r_fifo =
            if ltb (length r.r_fifo.q) r.r_fifo.max_count
            then record r.r_fifo { q = (((b'^' ∷ p) ++ concat ps) ++ q) ∷ r.r_fifo.q }
            else r.r_fifo;
      })
hard_reads-pieces r noise p ps q rest between e hn hp hq all i j =
    let begun = record r { req = b'^' ∷ p; need_to_get_new_cmd = false } in
    let mark : b'^' ≢ newline = λ x. omega (arith, x) in
    hard_reads_cons r (noise ++ (b'^' ∷ p)) (ps ++ ((q ++ (newline ∷ rest)) ∷ []))
      (first_piece r noise p i between e hn ∙ ap some (finish_kept begun (mark, hp)))
    ∙ middle_pieces ps ((q ++ (newline ∷ rest)) ∷ []) begun all refl (mark, hp)
    ∙ hard_reads_one (record begun { req = (b'^' ∷ p) ++ concat ps }) (q ++ (newline ∷ rest))
        (last_piece (record begun { req = (b'^' ∷ p) ++ concat ps }) q rest j refl
          (Lacks-append newline ((b'^' ∷ p) ++ concat ps) q
            (Lacks-append newline (b'^' ∷ p) (concat ps) (mark, hp) (Lacks-concat ps all)) hq))
    ∙ ap (λ f. some (record { req = rest; need_to_get_new_cmd = true; r_fifo = f }))
        (queued r.r_fifo (((b'^' ∷ p) ++ concat ps) ++ q))

-- A read that brings a whole command queues that one. All that is behind its end mark waits for the
-- next read, also where it holds whole commands.
pub hard_read-one :
    (r : Reader) (noise cmd rest : Text)
    → r.need_to_get_new_cmd ≡ true
    → r.req ≡ []
    → Lacks b'^' noise
    → Lacks newline cmd
    → IsRead (noise ++ (b'^' ∷ (cmd ++ (newline ∷ rest))))
    → hard_read r (noise ++ (b'^' ∷ (cmd ++ (newline ∷ rest))))
      ≡ some (record {
        req = rest;
        need_to_get_new_cmd = true;
        r_fifo = (write_one r.r_fifo (b'^' ∷ cmd)).1;
      })
hard_read-one r noise cmd rest between e hn hc i =
    let mark : b'^' ≢ newline = λ x. omega (arith, x) in
    first_piece r noise (cmd ++ (newline ∷ rest)) i between e hn
    ∙ ap some (
        finish_found
          (record r { req = b'^' ∷ (cmd ++ (newline ∷ rest)); need_to_get_new_cmd = false })
          (b'^' ∷ cmd) rest (mark, hc) refl)
