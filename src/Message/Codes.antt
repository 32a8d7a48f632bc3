-- ===== src/Message/Codes.antt =====
-- The values of the enumerators, read backwards.
use lte.Base.{
  ℕ, zero, suc, ◌≤◌, ◌==◌, ==_iff, ltb, ◌≡◌, refl, Bool, true, Bool-cases, inl, inr, arith, Option,
  none, some, List, [], ◌∷◌, length, for_all_under, for_all_under_lem,
}
use lte.Message.{EMessageType, type_code, all_types, nth_type, decode_type}

nth_type_past : (ts : List EMessageType) (n : ℕ) → length ts ≤ n → nth_type ts n ≡ none
nth_type_past [] n h = refl
nth_type_past (t ∷ ts) zero h = absurd (omega arith)
nth_type_past (t ∷ ts) (suc n) h = nth_type_past ts n (omega arith)

-- No other number stands for a type.
abbrev stands_for : Option EMessageType → ℕ → Bool
stands_for none n = true
stands_for (some t) n = type_code t == n

code_table : for_all_under (λ n. stands_for (decode_type n) n) 16 ≡ true
unfolding for_all_under
code_table = refl

pub decode_type_sound : (n : ℕ) (t : EMessageType) → decode_type n ≡ some t → type_code t ≡ n
decode_type_sound n t e = elim (Bool-cases (ltb n 16)) [
  | inl small ↦
      let found : stands_for (decode_type n) n ≡ true =
        for_all_under_lem (λ k. stands_for (decode_type k) k) 16 n code_table (ground arith) in
      (==_iff _ _).0 (rw e at found)
  | inr large ↦ let past = nth_type_past all_types n (ground arith) in cc
]
