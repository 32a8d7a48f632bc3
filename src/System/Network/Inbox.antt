-- ===== src/System/Network/Inbox.antt =====
-- What is under way to a socket, as messages are sent and received.
use lte.Base.{ℕ, ◌≡◌, refl, ap, ◌==◌, ==_iff, Bool, Bool-cases, inl, inr, List, [], ◌∷◌, ◌++◌}
use lte.Message.{SMessage}
use lte.Enb.ClientObject.{Entry}
use lte.Enb.Ping.Rounds.{messages}
use lte.System.Network.{inbox, without_first}

pub inbox-append :
    (socket : ℕ) (xs ys : List (ℕ × SMessage))
    → inbox socket (xs ++ ys) ≡ inbox socket xs ++ inbox socket ys
inbox-append socket [] ys = refl
inbox-append socket ((d, m) ∷ xs) ys = elim (Bool-cases (d == socket)) [
  | inl here ↦ rw here (ap (λ ms. m ∷ ms) (inbox-append socket xs ys))
  | inr other ↦ rw other (inbox-append socket xs ys)
]

pub inbox_self : (socket : ℕ) (m : SMessage) → inbox socket ((socket, m) ∷ []) ≡ m ∷ []
inbox_self socket m = rw ((==_iff socket socket).1 refl)

pub inbox-without_first :
    (socket : ℕ) (sent : List (ℕ × SMessage)) {m : SMessage} {ms : List SMessage}
    → inbox socket sent ≡ m ∷ ms
    → inbox socket (without_first socket sent) ≡ ms
inbox-without_first socket [] e = cc
inbox-without_first socket ((d, n) ∷ sent) e = elim (Bool-cases (d == socket)) [
  | inl here ↦ let same = rw here at e in rw here (cc)
  | inr other ↦
      let later = rw other at e in rw other (rw other (inbox-without_first socket sent later))
]

-- The messages of a round are all the same.
abbrev pub AllAre : SMessage → List SMessage → Type 0
AllAre m [] = Unit
AllAre m (n ∷ ns) = (n ≡ m) × AllAre m ns

pub inbox-messages :
    (socket : ℕ) (test : Entry → Bool) (m : SMessage) (es : List Entry)
    → AllAre m (inbox socket (messages test m es))
inbox-messages socket test m [] = tt
inbox-messages socket test m ((k, c) ∷ es) = elim (Bool-cases (test (k, c))) [
  | inr quiet ↦ rw quiet (inbox-messages socket test m es)
  | inl chosen ↦ rw chosen (elim (Bool-cases (c.socket == socket)) [
    | inl here ↦ rw here (refl, inbox-messages socket test m es)
    | inr other ↦ rw other (inbox-messages socket test m es)
  ])
]
