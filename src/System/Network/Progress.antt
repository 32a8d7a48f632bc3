-- ===== src/System/Network/Progress.antt =====
-- The transfer can be finished from wherever the two programs are.
use lte.Base.{ℤ, ℕ, ◌≡◌, refl, true, some, Option-cases, inl, inr, List, [], ◌∷◌}
use lte.Message.{SMessage}
use lte.Ue.Main.{Round, main_turn, take_turn}
use lte.Ue.Main.Saving.{disk_of}
use lte.Enb.ClientObject.{ClientMap, Format, Entry}
use lte.Enb.Server.{Server, send}
use lte.System.Network.{
  inbox, without_first, Pair, State, both, client_moves, receives, sends, Leads, here, next, Reach,
  later,
}
use lte.System.Network.Inbox.{inbox-without_first}
use lte.System.Network.Kept.{IsSafe}
use lte.System.Network.Safety.{arrived, Reach-IsSafe, file_arrives}

module _ (h : ClientMap) (f : Format) (garbage : Entry → ℤ) (socket : ℕ)
    (before memory rest bytes : List ℕ) where
  abbrev pub Reaches : State h → Type 0
  Reaches s = Reach h f garbage socket before memory rest bytes s

  -- There are steps that lead from `p` to `q`.
  abbrev pub LeadsOn : Pair h → Pair h → Type 0
  LeadsOn p q = Leads h f garbage socket before (both p) (both q)

  -- What is reached stays reached, however the steps lead on.
  pub Leads-Reaches : {s t : State h} → Reaches s → Leads h f garbage socket before s t → Reaches t
  Leads-Reaches r here = r
  Leads-Reaches r (next l st) = later (Leads-Reaches r l) st

  -- The transfer thread sends what is left.
  all_sent :
      (ms : List SMessage) (o p : Pair h)
      → p.file ≡ ms
      → LeadsOn o p
      → (q : Pair h) × LeadsOn o q × (q.file ≡ [])
  all_sent [] o p left l = (p, l, left)
  all_sent (m ∷ ms) o p left l =
      all_sent ms o (record p { server = send h f socket m p.server; file = ms }) refl
        (next l (sends p m ms refl left refl))

  round_for : SMessage → Round
  round_for m = record {
    incoming = some m;
    answered = true;
    noted = true;
    opened = some before;
    now = 0;
    later = 0;
  }

  all_received :
      (ms : List SMessage) (o p : Pair h)
      → Reaches (both o)
      → p.file ≡ []
      → inbox socket p.server.sent ≡ ms
      → LeadsOn o p
      → (q : Pair h) × LeadsOn o q × (q.file ≡ []) × (inbox socket q.server.sent ≡ [])
  unfolding round_for
  all_received [] o p r over left l = (p, l, over, left)
  all_received (m ∷ ms) o p r over left l =
      let x : Server h = record p.server { sent = without_first socket p.server.sent } in
      let moved = next l (receives p (round_for m) m ms refl left refl refl refl) in
      elim (Option-cases (take_turn (main_turn (round_for m)) p.client)) [
        | inl fault ↦
            let lost : IsSafe h f garbage socket before (arrived before bytes)
                (client_moves h (take_turn (main_turn (round_for m)) p.client) x p.file) =
              Reach-IsSafe h f garbage socket before memory rest bytes (Leads-Reaches r moved) in
            absurd (rw fault at lost)
        | inr (c, step) ↦
            all_received ms o (record p { client = c; server = x }) r over
              (inbox-without_first socket p.server.sent left) (rw step at moved)
      ]

  -- The transfer can always be finished: wherever the steps of `Step` have led the two
  -- programs, there are steps that lead on from there to where the client has received all that was sent to it
  -- and has closed one file, with what it held before, the bytes that were sent, and zeros up to a
  -- multiple of sixteen.
  pub transfer_finishes :
      (p : Pair h)
      → Reach h f garbage socket before memory rest bytes (both p)
      → (q : Pair h) × Leads h f garbage socket before (both p) (both q)
        × (q.file ≡ [])
        × (inbox socket q.server.sent ≡ [])
        × (disk_of q.client ≡ arrived before bytes)
  transfer_finishes p r =
      let (x, there, over) = all_sent p.file p p refl here in
      let (q, done, none_left, empty) =
        all_received (inbox socket x.server.sent) p x r over refl there in
      (
        q,
        done,
        none_left,
        empty,
        file_arrives h f garbage socket before memory rest bytes q (Leads-Reaches r done) none_left
            empty,
      )
