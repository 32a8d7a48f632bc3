-- ===== src/Enb/Transfer/Types.antt =====
-- The types of the messages of a transfer: the first, the blocks and the last.
use lte.Base.{
  ℕ, zero, suc, ltb, length, Bool, true, false, Bool-cases, inl, inr, Option, none, some, List,
}
use lte.Message.{SMessage}
use lte.Message.Types.{TypesAre, TypesAre-snoc}
use lte.Enb.Transfer.{
  Transfer, sent, failed, stuck, data_packet, send_blocks, end_transfer, transfer_file,
  broadcast_sample,
}

module _ (P : ℕ → Type 0) (start : P 13) (block : P 14) (end : P 15) where
  -- What has been sent when the transfer is over.
  abbrev pub SentAre : Transfer → Type 0
  SentAre (sent ms n) = TypesAre P ms
  SentAre (failed ms) = TypesAre P ms
  SentAre stuck = Unit

  send_blocks-SentAre :
      (fuel : ℕ) (delivered : ℕ → Bool) (rest file : List ℕ) (pos n : ℕ) (out : List SMessage)
      → TypesAre P out
      → SentAre (send_blocks fuel delivered rest file pos n out)
  unfolding send_blocks data_packet
  send_blocks-SentAre zero delivered rest file pos n out all = tt
  send_blocks-SentAre (suc fuel) delivered rest file pos n out all =
      elim (Bool-cases (ltb pos (length file))) [
        | inr over ↦ rw over all
        | inl more ↦ rw more (elim (Bool-cases (delivered n)) [
          | inr lost ↦ rw lost all
          | inl got ↦
              rw got (
                send_blocks-SentAre fuel delivered rest file _ _ _
                  (TypesAre-snoc P out _ all block))
        ])
      ]

  end_transfer-SentAre :
      (ok : Bool) (tag : SMessage) (t : Transfer) → SentAre t → SentAre (end_transfer ok tag t)
  unfolding end_transfer
  end_transfer-SentAre true tag (sent out n) all = TypesAre-snoc P out _ all end
  end_transfer-SentAre false tag (sent out n) all = all
  end_transfer-SentAre ok tag (failed out) all = all
  end_transfer-SentAre ok tag stuck all = tt

  pub broadcast_sample-SentAre :
      (start_ok end_ok : Bool) (delivered : ℕ → Bool) (memory rest : List ℕ)
      (opened : Option (List ℕ))
      → SentAre (broadcast_sample start_ok end_ok delivered memory rest opened)
  unfolding broadcast_sample transfer_file
  broadcast_sample-SentAre start_ok end_ok delivered memory rest none = tt
  broadcast_sample-SentAre true end_ok delivered memory rest (some file) =
      end_transfer-SentAre end_ok _ _
        (send_blocks-SentAre (suc (length file)) delivered rest file 0 0 _ (start, tt))
  broadcast_sample-SentAre false end_ok delivered memory rest (some file) = tt
