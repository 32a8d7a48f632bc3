-- ===== src/Base/Word.antt =====
-- Bit patterns: the promotion of `int8_t` and `int16_t` to `int`, and checks over a whole range.
use Prim.Native.Nat.{ℕ, zero, suc, ◌+◌, ◌<◌}
use mathlib.Core.Path.{◌≡◌}
use mathlib.Core.Bool.{Bool, true, ◌&&◌}
use native.Mathlib.Omega.{arith}
use lte.Base.Tests.{ltb, if◌then◌else◌}

-- The 32-bit pattern of an `int` promoted from an 8-bit or a 16-bit pattern.
abbrev pub promote8 : ℕ → ℕ
promote8 x = if ltb x 0x80 then x else x + 0xffff_ff00

abbrev pub promote16 : ℕ → ℕ
promote16 x = if ltb x 0x8000 then x else x + 0xffff_0000

-- `test` holds of every number under `bound`.
unfoldable pub for_all_under : (ℕ → Bool) → ℕ → Bool
for_all_under test zero = true
for_all_under test (suc bound) = for_all_under test bound && test bound

pub for_all_under_lem :
    (test : ℕ → Bool) (bound n : ℕ) → for_all_under test bound ≡ true → n < bound → test n ≡ true
unfolding for_all_under
for_all_under_lem test zero n all small = absurd (omega arith)
for_all_under_lem test (suc bound) n all small = ground (arith, for_all_under_lem test bound n)
