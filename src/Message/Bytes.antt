-- ===== src/Message/Bytes.antt =====
-- Members of the union of message.h as little-endian numbers at byte offsets, and the laws of
-- reading and writing them.
use native.Mathlib.Nat.{pow-suc}
use lte.Base.{
  ℕ, zero, suc, ◌+◌, ◌*◌, ◌/◌, ◌%◌, ◌^◌, ◌≤◌, ◌<◌, ◌≡◌, refl, ◌∙◌, ◌⊎◌, List, arith, length, get_or,
  set, length-set, get_or-set_self, get_or-set_ne,
}

-- The number in `w` bytes at offset `off`.
abbrev pub load : ℕ → ℕ → List ℕ → ℕ
load zero off bs = 0
load (suc w) off bs = get_or bs off 0 + 256 * load w (suc off) bs

-- Write the low `w` bytes of `v` at offset `off`.
abbrev pub store : ℕ → ℕ → ℕ → List ℕ → List ℕ
store zero off v bs = bs
store (suc w) off v bs = set (store w (suc off) (v / 256) bs) off (v % 256)

pub length-store : (w off v : ℕ) (bs : List ℕ) → length (store w off v bs) ≡ length bs
length-store zero off v bs = refl
length-store (suc w) off v bs =
    length-set (store w (suc off) (v / 256) bs) off (v % 256)
    ∙ length-store w (suc off) (v / 256) bs

load-set :
    (w off i v : ℕ) (bs : List ℕ)
    → (i < off) ⊎ (off + w ≤ i)
    → load w off (set bs i v) ≡ load w off bs
load-set zero off i v bs h = refl
load-set (suc w) off i v bs h =
    omega
      (arith, get_or-set_ne bs i off v 0 (ground arith), load-set w (suc off) i v bs (ground arith))

-- A write outside the bytes that are read does not show.
pub load-store_ne :
    (w off w' off' v : ℕ) (bs : List ℕ)
    → (off' + w' ≤ off) ⊎ (off + w ≤ off')
    → load w off (store w' off' v bs) ≡ load w off bs
load-store_ne w off zero off' v bs h = refl
load-store_ne w off (suc w') off' v bs h =
    load-set w off off' (v % 256) (store w' (suc off') (v / 256) bs) (ground arith)
    ∙ load-store_ne w off w' (suc off') (v / 256) bs (ground arith)

-- What is written in range is read back.
pub load-store_self :
    (w off v : ℕ) (bs : List ℕ)
    → off + w ≤ length bs
    → v < 256 ^ w
    → load w off (store w off v bs) ≡ v
load-store_self zero off v bs h fits = omega arith
load-store_self (suc w) off v bs h fits =
    let rest = store w (suc off) (v / 256) bs in
    omega (
      arith,
      get_or-set_self rest off (v % 256) 0 (omega (arith, length-store w (suc off) (v / 256) bs)),
      load-set w (suc off) off (v % 256) rest (ground arith),
      load-store_self w (suc off) (v / 256) bs (omega arith) (omega (arith, pow-suc 256 w)),
    )
