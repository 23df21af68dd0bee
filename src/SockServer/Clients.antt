-- ===== src/SockServer/Clients.antt =====
-- Which clients stay in the list.
use mathlib.Core.Path.{subst}
use pc_env_vu.Base.{
  ℕ, ◌<◌, ◌≡◌, ◌≢◌, refl, sym, ap, ◌⊎◌, inl, inr, Option, some, List, [], ◌∷◌, ◌++◌, Bool, true,
  false, arith, ltb, if◌then◌else◌, length, Text, Bool-cases,
}
use pc_env_vu.SockServer.{
  Reply, text_reply, server_exit, get_url_err, receive, ResponseStep, response_waiting,
  response_start, response_finish, handle_request, SockClient, Event, connects, accept_fails,
  others, thread_ends, start_all, erase_finished, end_thread, run_round, run_rounds,
}

abbrev pub In : SockClient → List SockClient → Type 0
In c [] = ⊥
In c (x ∷ xs) = (x ≡ c) ⊎ In c xs

-- The client of a descriptor, with its thread started.
abbrev pub started : ℕ → SockClient
started fd = record { m_sockfd = fd; m_response_step = response_start }

In-append : (c : SockClient) (xs ys : List SockClient) → In c xs → In c (xs ++ ys)
In-append c [] ys h = absurd h
In-append c (x ∷ xs) ys (inl e) = inl e
In-append c (x ∷ xs) ys (inr h) = inr (In-append c xs ys h)

module _ (is_readable : ℕ → Bool) (x : SockClient) (xs : List SockClient) where
  start_all-cons :
      (s : ResponseStep)
      → x.m_response_step ≡ s
      → (y : SockClient) × (start_all is_readable (x ∷ xs) ≡ y ∷ start_all is_readable xs)
  unfolding start_all
  start_all-cons response_waiting e = (
    (if is_readable x.m_sockfd then record x { m_response_step = response_start } else x),
    ground (arith, e),
  )
  start_all-cons response_start e = (x, ground (arith, e))
  start_all-cons response_finish e = (x, ground (arith, e))

  start_all_kept :
      x.m_response_step ≡ response_start
      → start_all is_readable (x ∷ xs) ≡ x ∷ start_all is_readable xs
  unfolding start_all
  start_all_kept e = ground (arith, e)

  erase_finished-cons :
      (s : ResponseStep)
      → x.m_response_step ≡ s
      → (erase_finished (x ∷ xs) ≡ x ∷ erase_finished xs)
        ⊎ (erase_finished (x ∷ xs) ≡ erase_finished xs)
  unfolding erase_finished
  erase_finished-cons response_waiting e = inl (ground (arith, e))
  erase_finished-cons response_start e = inl (ground (arith, e))
  erase_finished-cons response_finish e = inr (ground (arith, e))

  erase_finished_kept :
      x.m_response_step ≡ response_start → erase_finished (x ∷ xs) ≡ x ∷ erase_finished xs
  unfolding erase_finished
  erase_finished_kept e = ground (arith, e)

In-start_all :
    (is_readable : ℕ → Bool) (fd : ℕ) (xs : List SockClient)
    → In (started fd) xs
    → In (started fd) (start_all is_readable xs)
In-start_all is_readable fd [] h = absurd h
In-start_all is_readable fd (x ∷ xs) (inl e) =
    subst (In (started fd)) (sym (start_all_kept is_readable x xs (ap (λ c. c.m_response_step) e)))
      (inl e)
In-start_all is_readable fd (x ∷ xs) (inr h) =
    let (y, q) = start_all-cons is_readable x xs x.m_response_step refl in
    subst (In (started fd)) (sym q) (inr (In-start_all is_readable fd xs h))

In-erase_finished :
    (fd : ℕ) (xs : List SockClient) → In (started fd) xs → In (started fd) (erase_finished xs)
In-erase_finished fd [] h = absurd h
In-erase_finished fd (x ∷ xs) (inl e) =
    subst (In (started fd))
      (sym (erase_finished_kept (λ c. true) x xs (ap (λ c. c.m_response_step) e))) (inl e)
In-erase_finished fd (x ∷ xs) (inr h) =
    elim (erase_finished-cons (λ c. true) x xs x.m_response_step refl) [
      | inl q ↦ subst (In (started fd)) (sym q) (inr (In-erase_finished fd xs h))
      | inr q ↦ subst (In (started fd)) (sym q) (In-erase_finished fd xs h)
    ]

-- A thread that ends leaves the clients of other descriptors, and, where it leaves its step, its own.
In-end_thread :
    (fd other : ℕ) (left : ResponseStep) (xs : List SockClient)
    → (other ≢ fd) ⊎ (left ≡ response_start)
    → In (started fd) xs
    → In (started fd) (end_thread other left xs)
unfolding end_thread
In-end_thread fd other left [] n h = absurd h
In-end_thread fd other left (x ∷ xs) (inl n) (inl e) = inl (ground (arith, e, n))
In-end_thread fd other left (x ∷ xs) (inr k) (inl e) = inl (ground (arith, e, k))
In-end_thread fd other left (x ∷ xs) n (inr h) = inr (In-end_thread fd other left xs n h)

-- No thread of this descriptor ends.
abbrev pub Others : ℕ → List Event → Type 0
Others fd [] = Unit
Others fd (connects c ∷ events) = Others fd events
Others fd (accept_fails ∷ events) = Others fd events
Others fd (others is_readable ∷ events) = Others fd events
Others fd (thread_ends c left ∷ events) = (c ≢ fd) × Others fd events

In-run_rounds :
    (events : List Event) (fd : ℕ) (xs : List SockClient)
    → Others fd events
    → In (started fd) xs
    → In (started fd) (run_rounds xs events)
unfolding run_rounds run_round
In-run_rounds [] fd xs o h = h
In-run_rounds (connects c ∷ events) fd xs o h =
    In-run_rounds events fd
      (xs ++ (record { m_sockfd = c; m_response_step = response_waiting } ∷ [])) o
      (In-append (started fd) xs (record { m_sockfd = c; m_response_step = response_waiting } ∷ [])
        h)
In-run_rounds (accept_fails ∷ events) fd xs o h = In-run_rounds events fd xs o h
In-run_rounds (others is_readable ∷ events) fd xs o h =
    In-run_rounds events fd (erase_finished (start_all is_readable xs)) o
      (In-erase_finished fd (start_all is_readable xs) (In-start_all is_readable fd xs h))
In-run_rounds (thread_ends c left ∷ events) fd xs o h =
    In-run_rounds events fd (end_thread c left xs) o.1 (In-end_thread fd c left xs (inl o.0) h)

-- What ends a thread before `HandleResponse`.
abbrev pub Early : (exit_work : Bool) → Text × Bool → Type 0
Early exit_work (req, is_find_corect_end) =
    (length req < 16) ⊎ ((is_find_corect_end ≡ false) ⊎ (exit_work ≡ true))

unfinished_step :
    (exit_work recording : Bool) (recv : ℕ → Option (List ℕ)) (got : Text × Bool)
    → receive 50 recv [] ≡ some got
    → Early exit_work got
    → (replies : List Reply) × (handle_request exit_work recording recv
        ≡ some (replies, response_start))
unfolding handle_request
unfinished_step exit_work recording recv (req, found) r early =
    elim (Bool-cases (ltb (length req) 16)) [
      | inl short ↦ ([], rw r (rw short refl))
      | inr long ↦ elim (Bool-cases found) [
        | inr missing ↦ (text_reply get_url_err ∷ [], rw r (rw long (rw missing refl)))
        | inl there ↦ (
          text_reply server_exit ∷ [],
          rw r (rw long (rw there (ground (arith, early, long, there)))),
        )
      ]
    ]

-- A client whose request is shorter than 16 bytes, or has no end of its header after 50 reads, or comes
-- as the server exits, stays in the list when its thread has ended, whatever the server does from then on.
pub unfinished_stays :
    (exit_work recording : Bool) (recv : ℕ → Option (List ℕ)) (got : Text × Bool) (fd : ℕ)
    (clients : List SockClient) (events : List Event)
    → receive 50 recv [] ≡ some got
    → Early exit_work got
    → In (started fd) clients
    → Others fd events
    → (replies : List Reply) × (left : ResponseStep) × (handle_request exit_work recording recv
        ≡ some (replies, left))
      × In (started fd) (run_rounds clients (thread_ends fd left ∷ events))
unfolding run_rounds run_round
unfinished_stays exit_work recording recv got fd clients events r early h o =
    let (replies, e) = unfinished_step exit_work recording recv got r early in
    (
      replies,
      response_start,
      e,
      In-run_rounds events fd (end_thread fd response_start clients) o
          (In-end_thread fd fd response_start clients (inr refl) h),
    )
