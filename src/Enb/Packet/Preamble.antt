-- ===== src/Enb/Packet/Preamble.antt =====
-- The preamble index as arithmetic.
use lte.Base.{ℕ, ◌*◌, ◌/◌, ◌<◌, ◌≡◌, refl, true, ◌==◌, ==_iff, for_all_under, for_all_under_lem}
use lte.Enb.Packet.{extract_preamble_index}

index_table : for_all_under (λ r. extract_preamble_index r == r / 0x4000 * 0x40) 0x1_0000 ≡ true
unfolding for_all_under extract_preamble_index
index_table = refl

-- The index is the top two bits of the 16-bit preamble, as the top two bits of a byte.
pub extract_preamble_index_lem :
    (r : ℕ) → r < 0x1_0000 → extract_preamble_index r ≡ r / 0x4000 * 0x40
extract_preamble_index_lem r h = (==_iff _ _).0 (for_all_under_lem _ 0x1_0000 r index_table h)
