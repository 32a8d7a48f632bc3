-- ===== src/System/Network/Once.antt =====
-- A round of the eNodeB's reaches a client at most once, by the keys of the map.
use mathlib.Core.Logic.Or
use mathlib.Core.List.{
  Mem, Mem-prop, Nodup, Nodup-cons, mem-cons, mem-cons_self, mem-cons_of_mem, not-mem-nil,
}
use lte.Base.{
  ℕ, ◌≡◌, ◌≢◌, refl, sym, ap, ◌∙◌, ◌==◌, ==_iff, Bool, true, Bool-cases, inl, inr, some, List, [],
  ◌∷◌, map,
}
use lte.Message.{SMessage}
use lte.Enb.ClientObject.{
  ClientT, ClientMap, Format, Entry, Key, key_of_entry, get_client_by_socket,
}
use lte.Enb.Server.{Server}
use lte.Enb.Packet.Frame.{found}
use lte.Enb.Consistent.{IsConsistent, Key-discrete}
use lte.Enb.Ping.Rounds.{messages}
use lte.System.Network.{inbox}

module _ (f : Format) (socket : ℕ) (test : Entry → Bool) (m : SMessage) where
  -- Entries that are stored under their own sockets.
  abbrev AreSpelled : List Entry → Type 0
  AreSpelled es = (k : Key) (d : ClientT) → Mem (k, d) es → k ≡ f.sprintf d.socket

  tail-AreSpelled : {e : Entry} {es : List Entry} → AreSpelled (e ∷ es) → AreSpelled es
  tail-AreSpelled {e} all k d here = all k d (mem-cons_of_mem e here)

  skip :
      (k : Key) (d : ClientT) (es : List Entry)
      → d.socket ≢ socket
      → inbox socket (messages test m ((k, d) ∷ es)) ≡ inbox socket (messages test m es)
  skip k d es ne = elim (Bool-cases (test (k, d))) [
    | inr quiet ↦ rw quiet
    | inl chosen ↦ rw chosen (elim (Bool-cases (d.socket == socket)) [
      | inl same ↦ absurd (ne ((==_iff d.socket socket).0 same))
      | inr apart ↦ rw apart
    ])
  ]

  nobody :
      (es : List Entry)
      → AreSpelled es
      → ¬ (Mem (f.sprintf socket) (map key_of_entry es))
      → inbox socket (messages test m es) ≡ []
  nobody [] all absent = refl
  nobody ((k, d) ∷ es) all absent =
      skip k d es
        (λ same. absent (mem-cons.1 (Or.inl (sym (all k d mem-cons_self ∙ ap f.sprintf same)))))
      ∙ nobody es (tail-AreSpelled all) (λ here. absent (mem-cons_of_mem k here))

  once :
      (es : List Entry) (c : ClientT)
      → AreSpelled es
      → Nodup (map key_of_entry es)
      → ((k : Key) (d : ClientT) → Mem (k, d) es → k ≡ f.sprintf socket → d ≡ c)
      → Mem (f.sprintf socket, c) es
      → c.socket ≡ socket
      → test (f.sprintf socket, c) ≡ true
      → inbox socket (messages test m es) ≡ m ∷ []
  once [] c all apart same here own chosen = absurd (not-mem-nil here)
  once ((k, d) ∷ es) c all apart same here own chosen =
      let (alone, rest) = Nodup-cons.0 apart in
      elim (Key-discrete k (f.sprintf socket)) [
        | yes e ↦
            let stored : d ≡ c = same k d mem-cons_self e in
            let mine : (d.socket == socket) ≡ true =
              (==_iff d.socket socket).1 (ap (λ (x : ClientT). x.socket) stored ∙ own) in
            let due : test (k, d) ≡ true =
              ap test
                (ap (λ (j : Key). (j, d)) e ∙ ap (λ (x : ClientT). (f.sprintf socket, x)) stored)
              ∙ chosen in
            rw (due, mine)
              (ap (λ ms. m ∷ ms)
                (nobody es (tail-AreSpelled all) (λ more. alone (rw (sym e) at more))))
        | no ne ↦
            let tail : Mem (f.sprintf socket, c) es =
              Or.elim Mem-prop (mem-cons.0 here) (λ e. absurd (ne (sym (ap key_of_entry e))))
                (λ more. more) in
            skip k d es (λ e. ne (all k d mem-cons_self ∙ ap f.sprintf e))
            ∙ once es c (tail-AreSpelled all) rest (λ j x more. same j x (mem-cons_of_mem _ more))
                tail own chosen
      ]

module _ (h : ClientMap) (f : Format) where
  pub own_socket :
      (x : Server h) (socket : ℕ) (c : ClientT)
      → IsConsistent h f x
      → found h f x socket ≡ some c
      → c.socket ≡ socket
  unfolding get_client_by_socket
  own_socket x socket c old here =
      sym (f.atoi-sprintf c.socket) ∙ (ap f.atoi (sym (old _ c here)) ∙ f.atoi-sprintf socket)

  -- A round of messages reaches a client that passes its test exactly once.
  pub round_once :
      (x : Server h) (socket : ℕ) (c : ClientT) (test : Entry → Bool) (m : SMessage)
      → IsConsistent h f x
      → found h f x socket ≡ some c
      → test (f.sprintf socket, c) ≡ true
      → inbox socket (messages test m (h.entries x.clients)) ≡ m ∷ []
  unfolding get_client_by_socket
  round_once x socket c test m old here chosen =
      let own = own_socket x socket c old here in
      once f socket test m (h.entries x.clients) c
        (λ k d more. old k d ((h.mem-entries x.clients k d).0 more)) (h.entries-Nodup x.clients)
        (λ k d more e. let there = (h.mem-entries x.clients k d).0 more in same k d e there)
        ((h.mem-entries x.clients (f.sprintf socket) c).1 here) own chosen
    where
      same : (k : Key) (d : ClientT) → k ≡ f.sprintf socket → h.get x.clients k ≡ some d → d ≡ c
      same k d e there =
          let again : h.get x.clients (f.sprintf socket) ≡ some d = rw e at there in cc
