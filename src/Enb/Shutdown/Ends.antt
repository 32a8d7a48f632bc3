-- ===== src/Enb/Shutdown/Ends.antt =====
-- Where a SIGINT leads: to the end of the process, or to a use of the destroyed map.
use lte.Base.{
  ◌⊎◌, inl, inr, ℕ, ◌≡◌, refl, sym, ap, ◌∙◌, ℤ, true, false, Option, some, List, [], ◌++◌,
}
use mathlib.Core.List.{append-nil, append_assoc}
use lte.Message.{SMessage, decode_type}
use lte.Enb.ClientObject.{ClientMap, Format, Entry}
use lte.Enb.Server.{announce, Server, typed_message, server_destroy}
use lte.Enb.Ping.{ping_clients, drop_clients}
use lte.Enb.Ping.Rounds.{messages, ping_clients_lem, broadcasts_lem}
use lte.Enb.Ping.Inactive.{drop_clients-sends}
use lte.Enb.Shutdown.{
  Loop, testing, acting, dropping, finished, serving, joining, cleaned, Process, State, process,
  use_after_free, test_done, uses_map, on_map, signals, joins, returns, ping_tests, handles_freed,
  pings, drops, measures, Step,
}
use lte.Enb.Shutdown.Path.{Shuts, here, next, IsMeasuring, IsHandling}
use lte.Enb.Shutdown.Guarded.{drop-told, destroy-Keeps}

-- A random access or RRC request, a battery notice, a pong or ue_off.
abbrev pub NeedsMap : ℕ → Type 0
NeedsMap t = (t ≡ 0) ⊎ (t ≡ 2) ⊎ (t ≡ 5) ⊎ (t ≡ 6) ⊎ (t ≡ 8) ⊎ (t ≡ 9)

NeedsMap-uses_map : (t : ℕ) → NeedsMap t → uses_map (decode_type t) ≡ true
NeedsMap-uses_map t (inl e) = rw e refl
NeedsMap-uses_map t (inr (inl e)) = rw e refl
NeedsMap-uses_map t (inr (inr (inl e))) = rw e refl
NeedsMap-uses_map t (inr (inr (inr (inl e)))) = rw e refl
NeedsMap-uses_map t (inr (inr (inr (inr (inl e))))) = rw e refl
NeedsMap-uses_map t (inr (inr (inr (inr (inr e))))) = rw e refl

module _ (h : ClientMap) (f : Format) (garbage : Entry → ℤ) where
  -- `y` has sent what `x` has, and maybe more.
  abbrev pub Extends : Server h → Server h → Type 0
  Extends x y = (more : List (ℕ × SMessage)) × (y.sent ≡ x.sent ++ more)

  Extends-self : (x : Server h) → Extends x x
  Extends-self x = ([], sym (append-nil x.sent))

  Extends-after :
      (x y z : Server h) (ms : List (ℕ × SMessage))
      → y.sent ≡ x.sent ++ ms
      → Extends y z
      → (more : List (ℕ × SMessage)) × (z.sent ≡ x.sent ++ ms ++ more)
  Extends-after x y z ms e (more, all) = (more, rw (all, e))

  Extends-then :
      (x y z : Server h) (ms : List (ℕ × SMessage))
      → y.sent ≡ x.sent ++ ms
      → Extends y z
      → Extends x z
  Extends-then x y z ms e later_on =
      let (more, all) = Extends-after x y z ms e later_on in (ms ++ more, rw (all, append_assoc))

  -- The ping thread has left its loop, and the others have not moved.
  record IsJoined (q r : Process h) : Type 0 where
    ended : r.ping ≡ finished
    work : r.work ≡ q.work
    measure : r.measure ≡ q.measure
    sent : Extends q.server r.server

  -- From `s` the shutdown leads over `q` to where the ping thread has left its loop.
  Ends : State h → Process h → Type 0
  Ends s q = (r : Process h) × Shuts h f garbage s (process r) × IsJoined q r

  on_map-kept : (q : Process h) (s : State h) → q.freed ≡ false → s ≡ on_map q s
  on_map-kept q s kept = simp kept

  module _ (s : State h) (q : Process h) (way : Shuts h f garbage s (process q)) where
    finished-Ends : q.ping ≡ finished → Ends s q
    unfolding Ends
    finished-Ends done =
        (q, way, record { ended = done; work = refl; measure = refl; sent = Extends-self q.server })

    testing-Ends : q.server.threads_done ≡ true → q.ping ≡ testing → Ends s q
    unfolding Ends test_done
    testing-Ends told at_test = (
      record q { ping = finished },
      next way (ping_tests q refl at_test (simp told)) tt,
      record { ended = refl; work = refl; measure = refl; sent = Extends-self q.server },
    )

  -- The rest of a round of pings, in which nobody is visited.
  dropping-Ends :
      (s : State h) (q : Process h)
      → Shuts h f garbage s (process q)
      → q.server.threads_done ≡ true
      → q.freed ≡ false
      → q.ping ≡ dropping
      → Ends s q
  unfolding Ends
  dropping-Ends s q way told kept at_drop =
      let never : Entry → ℕ = λ e. 0 in
      let (r, there, joined) =
        testing-Ends s (record q { server = drop_clients h f never [] q.server; ping = testing })
          (next way (drops q never [] refl at_drop tt (on_map-kept q _ kept)) tt)
          (drop-told h f never [] q.server ∙ told) refl in
      (
        r,
        there,
        record {
          ended = joined.ended;
          work = joined.work;
          measure = joined.measure;
          sent = rw (drop_clients-sends h f never [] q.server) at joined.sent;
        },
      )

  acting-Ends :
      (s : State h) (q : Process h)
      → Shuts h f garbage s (process q)
      → q.server.threads_done ≡ true
      → q.freed ≡ false
      → q.ping ≡ acting
      → Ends s q
  unfolding Ends
  acting-Ends s q way told kept at_ping =
      let never : Entry → ℕ = λ e. 0 in
      let pinged = ping_clients_lem h f never q.server in
      let (r, there, joined) =
        dropping-Ends s (record q { server = ping_clients h f never q.server; ping = dropping })
          (next way (pings q never refl at_ping (on_map-kept q _ kept)) tt)
          (ap (λ (x : Server h). x.threads_done) pinged ∙ told) kept refl in
      (
        r,
        there,
        record {
          ended = joined.ended;
          work = joined.work;
          measure = joined.measure;
          sent =
              Extends-then q.server (ping_clients h f never q.server) r.server _
                (ap (λ (x : Server h). x.sent) pinged) joined.sent;
        },
      )

  -- Once the threads are told to end, the ping thread can leave its loop.
  ping-Ends :
      (l : Loop) (s : State h) (q : Process h)
      → Shuts h f garbage s (process q)
      → q.server.threads_done ≡ true
      → q.freed ≡ false
      → q.ping ≡ l
      → Ends s q
  ping-Ends testing s q way told kept at = testing-Ends s q way told at
  ping-Ends acting s q way told kept at = acting-Ends s q way told kept at
  ping-Ends dropping s q way told kept at = dropping-Ends s q way told kept at
  ping-Ends finished s q way told kept at = finished-Ends s q way at

  -- Behind `clean`, which has told every client and destroyed the map.
  pub record IsCleaned (q r : Process h) (o : Option (ℕ × SMessage)) : Type 0 where
    pub work : r.work ≡ cleaned o
    pub freed : r.freed ≡ true
    measure : r.measure ≡ q.measure
    pub told :
        let notices = messages (λ e. true) (typed_message 10) (h.entries q.server.clients) in
        (more : List (ℕ × SMessage)) × (r.server.sent ≡ q.server.sent ++ notices ++ more)

  -- A SIGINT is handled to the end of `clean`, wherever it comes.
  pub signal_path :
      (q : Process h) (o : Option (ℕ × SMessage))
      → q.work ≡ serving o
      → q.freed ≡ false
      → (r : Process h) × Shuts h f garbage (process q) (process r) × IsCleaned q r o
  unfolding announce Ends
  signal_path q o at kept =
      let p : Process h = record q { server = announce h f q.server; work = joining o } in
      let (r, there, joined) =
        ping-Ends q.ping (process q) p (next here (signals q o refl at (on_map-kept q _ kept)) tt)
          refl kept refl in
      let (_, silent) = destroy-Keeps h f garbage r.server in
      (
        record r { server = server_destroy h f garbage r.server; freed = true; work = cleaned o },
        next there (joins r o refl (joined.work, joined.ended) refl) tt,
        record {
          work = refl;
          freed = refl;
          measure = joined.measure;
          told = rw silent (
              Extends-after q.server p.server r.server _
                (ap (λ (x : Server h). x.sent) (broadcasts_lem h f q.server).1) joined.sent);
        },
      )

  -- `clean` does not wait for the measurement thread. Wherever the threads are, as long as that
  -- thread has passed its test and the map is there, a SIGINT is handled by steps of `clean` and
  -- of the ping thread alone that lead from there to the end of `clean`, where the map is
  -- destroyed and the measurement thread has not moved; and that thread's next step is its
  -- iteration over the destroyed map.
  pub measurement_race :
      (q : Process h) (o : Option (ℕ × SMessage))
      → q.work ≡ serving o
      → q.freed ≡ false
      → q.measure ≡ acting
      → (r : Process h) × Shuts h f garbage (process q) (process r)
        × (r.work ≡ cleaned o)
        × (r.freed ≡ true)
        × (r.measure ≡ acting)
        × (step : Step h f garbage (process r) use_after_free) × IsMeasuring h f garbage step
  measurement_race q o at kept awake =
      let (r, there, done) = signal_path q o at kept in
      (
        r,
        there,
        done.work,
        done.freed,
        done.measure ∙ awake,
        measures r refl (done.measure ∙ awake) (simp (done.freed)),
        tt,
      )

  -- A SIGINT between the `read` of a message and its handler can lead to the handler's use of the
  -- destroyed map, for every random access or RRC request, battery notice, pong and ue_off, and
  -- wherever the threads are, as long as the map is there.
  -- Steps of `clean` and of the ping thread alone lead from there to the end of `clean`, where the
  -- map is destroyed; the next step returns to the handler of that message, and the handling of
  -- that message is the step that uses the map.
  pub signal_before_handler :
      (q : Process h) (socket : ℕ) (m : SMessage)
      → q.work ≡ serving (some (socket, m))
      → q.freed ≡ false
      → NeedsMap m.message_type
      → (r : Process h) × Shuts h f garbage (process q) (process r)
        × (r.work ≡ cleaned (some (socket, m)))
        × (r.freed ≡ true)
        × (let back : Process h = record r { work = serving (some (socket, m)) } in
            Step h f garbage (process r) (process back)
            × (step : Step h f garbage (process back) use_after_free) × IsHandling h f garbage
                socket m step)
  signal_before_handler q socket m at kept needs =
      let (r, there, done) = signal_path q (some (socket, m)) at kept in
      (
        r,
        there,
        done.work,
        done.freed,
        (
          returns r (some (socket, m)) refl done.work refl,
          handles_freed (record r { work = serving (some (socket, m)) }) socket m refl
              (refl, done.freed) (simp (NeedsMap-uses_map m.message_type needs)),
          (refl, refl),
        ),
      )
