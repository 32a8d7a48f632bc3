-- ===== src/System/Shutdown.antt =====
-- The shutdown of the eNodeB, and what its clients make of it.
use lte.Base.{ℕ, ◌≡◌, refl, ℤ, true, false, none, some, List, [], ◌∷◌, ◌++◌}
use lte.Message.{SMessage}
use lte.Ue.Main.{Client, Round, main_turn, goes_on, take_turn}
use lte.Ue.Main.Saving.{disk_of}
use lte.Ue.Main.Unheeded.{notice_unheeded}
use lte.Enb.ClientObject.{ClientT, ClientMap, Format, Entry}
use lte.Enb.Server.{typed_message}
use lte.Enb.Packet.Frame.{found}
use lte.Enb.Ping.Rounds.{messages}
use lte.Enb.Shutdown.{Process, process, gone, serving, cleaned, Step, returns, Reach}
use lte.Enb.Shutdown.Path.{Shuts}
use lte.Enb.Shutdown.Ends.{signal_path}
use lte.Enb.Shutdown.Consistent.{Reach-IsStored}
use lte.System.Network.{inbox}
use lte.System.Network.Inbox.{inbox-append}
use lte.System.Network.Once.{round_once}

module _ (h : ClientMap) (f : Format) (garbage : Entry → ℤ) where
  -- A SIGINT of the eNodeB while its event loop waits can always be handled to the exit: from
  -- every state that the threads reach in which the map is there, steps of `clean` and of the ping
  -- thread alone lead to the end of `clean`, the next step ends the process, and by then every
  -- client that has a record has been sent the notice of the shutdown. But a client in its loop
  -- that receives this notice goes on: it stays in its loop, writes nothing and leaves its files as
  -- they are.
  pub shutdown_unheeded :
      (q : Process h) (socket : ℕ) (c : ClientT) (u : Client) (r : Round)
      → Reach h f garbage (process q)
      → q.work ≡ serving none
      → q.freed ≡ false
      → found h f q.server socket ≡ some c
      → goes_on u ≡ true
      → r.incoming ≡ some (typed_message 10)
      → ((p : Process h) × (more : List SMessage) × Shuts h f garbage (process q) (process p)
          × (p.work ≡ cleaned none)
          × (p.freed ≡ true)
          × Step h f garbage (process p) (gone p.server)
          × (inbox socket p.server.sent
              ≡ inbox socket q.server.sent ++ typed_message 10 ∷ [] ++ more))
        × ((v : Client) × (take_turn (main_turn r) u ≡ some v)
            × (goes_on v ≡ true)
            × (disk_of v ≡ disk_of u)
            × (v.device.sender.wire ≡ u.device.sender.wire))
  shutdown_unheeded q socket c u r reach waits kept here on got =
      let notices = messages (λ e. true) (typed_message 10) (h.entries q.server.clients) in
      let (p, way, done) = signal_path h f garbage q none waits kept in
      let (more, sent) = done.told in
      (
        (
          p,
          inbox socket more,
          way,
          done.work,
          done.freed,
          returns p none refl done.work refl,
          rw
              (
                sent,
                inbox-append socket (q.server.sent ++ notices) more,
                inbox-append socket q.server.sent notices,
                round_once h f q.server socket c (λ e. true) (typed_message 10)
                    (Reach-IsStored h f garbage reach) here refl,
              )
              refl,
        ),
        notice_unheeded r u (typed_message 10) on got refl,
      )
