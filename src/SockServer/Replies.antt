-- ===== src/SockServer/Replies.antt =====
-- What goes out of a reply.
use pc_env_vu.Base.{
  zero, suc, ◌≤◌, ◌≡◌, refl, ap, some, List, [], ◌∷◌, arith, length, drop, length-drop,
  take-append-drop, Text,
}
use pc_env_vu.SockServer.{Sending, not_writeable, failed, moved, error_not_writeable, send_all}

-- Every call moves bytes.
abbrev pub AllMove : List Sending → Type 0
AllMove [] = Unit
AllMove (not_writeable ∷ answers) = ⊥
AllMove (failed ∷ answers) = ⊥
AllMove (moved zero ∷ answers) = ⊥
AllMove (moved (suc n) ∷ answers) = AllMove answers

-- Where each call moves bytes, as many calls as the reply has bytes send it whole and in order.
pub send_all_whole :
    (answers : List Sending) (t : Text)
    → AllMove answers
    → length t ≤ length answers
    → send_all t answers ≡ some t
unfolding send_all
send_all_whole answers [] all enough = refl
send_all_whole [] (c ∷ t) all enough = absurd (omega (arith, enough))
send_all_whole (not_writeable ∷ answers) (c ∷ t) all enough = absurd all
send_all_whole (failed ∷ answers) (c ∷ t) all enough = absurd all
send_all_whole (moved zero ∷ answers) (c ∷ t) all enough = absurd all
send_all_whole (moved (suc n) ∷ answers) (c ∷ t) all enough =
    rw (send_all_whole answers (drop n t) all (omega (arith, enough, length-drop n t)))
      (ap (λ r. some (c ∷ r)) (take-append-drop n t))

-- Where the first `Send` finds the socket not writeable and the later ones move bytes, the first seven
-- bytes of the reply are missing, and exactly these.
pub send_all_skips :
    (t : Text) (answers : List Sending)
    → AllMove answers
    → length t ≤ length answers
    → send_all t (not_writeable ∷ answers) ≡ some (drop error_not_writeable t)
unfolding send_all
send_all_skips [] answers all enough = refl
send_all_skips (c ∷ t) answers all enough =
    send_all_whole answers (drop 6 t) all (omega (arith, enough, length-drop 6 t))
