-- ===== src/Ue/Main/Program/Reaches.antt =====
-- Which of the results that `main` looks at before its loops decide whether it reaches them.
use lte.Base.{
  ℕ, ◌≡◌, Bool, true, false, ◌&&◌, not, ltb, ◌<◌, Bool-cases, inl, inr, ◌∙◌, ap, refl, Option, none,
  some,
}
use lte.Ue.Main.{Client, run, goes_on}
use lte.Ue.Main.Connection.{Connection, established, connect_client}
use lte.Ue.Main.Connect.{answers, reaches_loop, connect_client_lem}
use lte.Ue.Main.Program.{Kernel, Exit, left, join_and_finish, run_connected, run_client}

-- `main` has begun the loops of its two threads.
abbrev pub has_begun : Exit → Bool
has_begun (left status) = false
has_begun _ = true

join_and_finish-begun : (k : Kernel) (o : Option Client) → has_begun (join_and_finish k o) ≡ true
unfolding join_and_finish
join_and_finish-begun k none = refl
join_and_finish-begun k (some c) = elim (Bool-cases (goes_on c)) [
  | inl on ↦ rw on
  | inr over ↦ elim (Bool-cases k.thread_joined) [
    | inl joined ↦ rw (over, joined)
    | inr lost ↦ rw (over, lost)
  ]
]

run_connected-begun :
    (k : Kernel) (x : Connection)
    → has_begun (run_connected k x) ≡ reaches_loop x && k.thread_created
unfolding run_connected
run_connected-begun k (established c) = elim (Bool-cases k.thread_created) [
  | inr lost ↦ rw lost
  | inl made ↦ simp made (join_and_finish-begun k (run k.turns c))
]
run_connected-begun k _ = refl

-- `main` begins the loops of its two threads exactly when there is an argument for the address,
-- both mutexes are initialised, the socket opens and connects, the preamble is written, the
-- response is of the right type and carries the index of the preamble, the RRC request is
-- written, and the thread is created. The answer to that request plays no part, nor does the
-- `write` of the setup's completion: their results are not looked at.
pub run_client_reaches :
    (argc : ℕ) (k : Kernel)
    → k.start.ra_rnti < 0x1_0000
    → has_begun (run_client argc k)
      ≡ not (ltb argc 2)
        && (k.first_mutex
            && (k.second_mutex
                && ((k.start.socket_ok
                      && (k.start.connect_ok
                          && (k.start.preamble_written
                              && (answers k.start.ra_rnti k.start.response
                                  && k.start.request_written))))
                    && k.thread_created)))
unfolding run_client
run_client_reaches argc k fits = elim (Bool-cases (ltb argc 2)) [
  | inl few ↦ rw few
  | inr given ↦ elim (Bool-cases k.first_mutex) [
    | inr lost ↦ rw (given, lost)
    | inl first ↦ elim (Bool-cases k.second_mutex) [
      | inr lost ↦ rw (given, first, lost)
      | inl second ↦
          simp (given, first, second)
            (run_connected-begun k (connect_client k.start)
              ∙ ap (λ b. b && k.thread_created) (connect_client_lem k.start fits))
    ]
  ]
]
