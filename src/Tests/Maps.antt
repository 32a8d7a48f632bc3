-- ===== src/Tests/Maps.antt =====
-- A concrete map of clients and a concrete format, which satisfy the laws that lib/hashmap.h and
-- the C library document: a log of insertions and deletions, the latest first.
use mathlib.Core.Logic.Or
use mathlib.Core.HLevel.{×_prop, ¬_prop}
use mathlib.Core.List.{
  Mem, Mem-prop, Nodup, Nodup-nil, Nodup-cons, mem-cons, mem-cons_of_mem, not-mem-nil,
}
use lte.Base.{
  ℕ, ◌≡◌, ◌≢◌, refl, arith, Bool, true, false, ◌&&◌, ◌==◌, if◌then◌else◌, Bool-cases, inl, inr,
  Option, none, some, List, [], ◌∷◌, map, sym, ap, ◌∙◌,
}
use lte.Enb.ClientObject.{ClientT, ClientMap, Format, Key, Entry, key_of_entry}

abbrev pub beq : Key → Key → Bool
beq [] [] = true
beq (x ∷ xs) (y ∷ ys) = (x == y) && beq xs ys
beq _ _ = false

beq_refl : (k : Key) → beq k k ≡ true
beq_refl [] = refl
beq_refl (x ∷ xs) = ground (arith, beq_refl xs)

beq_sound : (j k : Key) → beq j k ≡ true → j ≡ k
beq_sound [] [] e = refl
beq_sound [] (y ∷ ys) e = cc
beq_sound (x ∷ xs) [] e = cc
beq_sound (x ∷ xs) (y ∷ ys) e = ground (arith, beq_sound xs ys)

beq_ne : (j k : Key) → j ≢ k → beq j k ≡ false
beq_ne j k ne = elim (Bool-cases (beq j k)) [
  | inl same ↦ absurd (ne (beq_sound j k same))
  | inr apart ↦ apart
]

ne_of_beq : (j k : Key) → beq j k ≡ false → j ≢ k
ne_of_beq j k e same = let whole = beq_refl j in cc

-- A deletion is an entry with no client.
abbrev pub Log : Type 0
Log = List (Key × Option ClientT)

abbrev pub find : Log → Key → Option ClientT
find [] j = none
find ((k, o) ∷ m) j = if beq k j then o else find m j

abbrev pub remove : Key → List Entry → List Entry
remove k [] = []
remove k ((j, c) ∷ es) = let rest = remove k es in if beq k j then rest else (j, c) ∷ rest

abbrev pub add : Key → Option ClientT → List Entry → List Entry
add k none es = es
add k (some c) es = (k, c) ∷ es

abbrev pub present : Log → List Entry
present [] = []
present ((k, o) ∷ m) = add k o (remove k (present m))

mem-remove :
    (k j : Key) (c : ClientT) (es : List Entry) → Mem (j, c) (remove k es) → (k ≢ j) × Mem (j, c) es
mem-remove k j c [] m = absurd (not-mem-nil m)
mem-remove k j c ((i, d) ∷ es) m = elim (Bool-cases (beq k i)) [
  | inl same ↦ let (ne, inner) = mem-remove k j c es (rw same at m) in (ne, mem-cons_of_mem _ inner)
  | inr apart ↦
      Or.elim (×_prop ¬_prop Mem-prop) (mem-cons.0 (rw apart at m))
        (λ e. (rw (ap key_of_entry e) (ne_of_beq k i apart), mem-cons.1 (Or.inl e)))
        (λ inner. let (ne, deep) = mem-remove k j c es inner in (ne, mem-cons_of_mem _ deep))
]

remove-mem :
    (k j : Key) (c : ClientT) (es : List Entry) → k ≢ j → Mem (j, c) es → Mem (j, c) (remove k es)
remove-mem k j c [] ne m = absurd (not-mem-nil m)
remove-mem k j c ((i, d) ∷ es) ne m = elim (Bool-cases (beq k i)) [
  | inl same ↦ rw same (
      Or.elim Mem-prop (mem-cons.0 m)
        (λ e. absurd (ne (beq_sound k i same ∙ sym (ap key_of_entry e))))
        (λ inner. remove-mem k j c es ne inner))
  | inr apart ↦ rw apart (
      Or.elim Mem-prop (mem-cons.0 m) (λ e. mem-cons.1 (Or.inl e))
        (λ inner. mem-cons_of_mem _ (remove-mem k j c es ne inner)))
]

key-remove :
    (k j : Key) (es : List Entry)
    → Mem j (map key_of_entry (remove k es))
    → (k ≢ j) × Mem j (map key_of_entry es)
key-remove k j [] m = absurd (not-mem-nil m)
key-remove k j ((i, d) ∷ es) m = elim (Bool-cases (beq k i)) [
  | inl same ↦ let (ne, inner) = key-remove k j es (rw same at m) in (ne, mem-cons_of_mem _ inner)
  | inr apart ↦
      Or.elim (×_prop ¬_prop Mem-prop) (mem-cons.0 (rw apart at m))
        (λ e. (rw e (ne_of_beq k i apart), mem-cons.1 (Or.inl e)))
        (λ inner. let (ne, deep) = key-remove k j es inner in (ne, mem-cons_of_mem _ deep))
]

remove-Nodup :
    (k : Key) (es : List Entry)
    → Nodup (map key_of_entry es)
    → Nodup (map key_of_entry (remove k es))
remove-Nodup k [] n = n
remove-Nodup k ((i, d) ∷ es) n = elim (Bool-cases (beq k i)) [
  | inl same ↦ rw same (remove-Nodup k es (Nodup-cons.0 n).1)
  | inr apart ↦ rw apart (
      Nodup-cons.1
        (λ m. (Nodup-cons.0 n).0 (key-remove k i es m).1, remove-Nodup k es (Nodup-cons.0 n).1))
]

pub present-Nodup : (m : Log) → Nodup (map key_of_entry (present m))
present-Nodup [] = Nodup-nil
present-Nodup ((k, none) ∷ m) = remove-Nodup k (present m) (present-Nodup m)
present-Nodup ((k, some c) ∷ m) = Nodup-cons.1 (
  λ inner. (key-remove k k (present m) inner).0 refl,
  remove-Nodup k (present m) (present-Nodup m),
)

pub ClientT-Option-set : IsSet (Option ClientT)
ClientT-Option-set = hlevel

pub present_sound : (m : Log) (j : Key) (c : ClientT) → Mem (j, c) (present m) → find m j ≡ some c
present_sound [] j c e = absurd (not-mem-nil e)
present_sound ((k, none) ∷ m) j c e =
    let (ne, inner) = mem-remove k j c (present m) e in
    rw (beq_ne k j ne) (present_sound m j c inner)
present_sound ((k, some d) ∷ m) j c e =
    Or.elim (ClientT-Option-set _ _) (mem-cons.0 e)
      (λ same.
        rw (ap key_of_entry same) (rw (beq_refl k) (sym (ap (λ (x : Entry). some x.1) same))))
      (λ rest.
        let (ne, inner) = mem-remove k j c (present m) rest in
        rw (beq_ne k j ne) (present_sound m j c inner))

pub present_complete :
    (m : Log) (j : Key) (c : ClientT) → find m j ≡ some c → Mem (j, c) (present m)
present_complete [] j c e = cc
present_complete ((k, none) ∷ m) j c e = elim (Bool-cases (beq k j)) [
  | inl same ↦ let gone = rw same at e in cc
  | inr apart ↦
      remove-mem k j c (present m) (ne_of_beq k j apart) (present_complete m j c (rw apart at e))
]
present_complete ((k, some d) ∷ m) j c e = elim (Bool-cases (beq k j)) [
  | inl same ↦
      let here : some d ≡ some c = rw same at e in
      let entry : ◌≡◌ {A = Entry} (j, c) (k, d) = let keys = beq_sound k j same in cc in
      mem-cons.1 (Or.inl entry)
  | inr apart ↦
      mem-cons_of_mem _ (
        remove-mem k j c (present m) (ne_of_beq k j apart) (present_complete m j c (rw apart at e)))
]

pub find-hit : (m : Log) (k : Key) (o : Option ClientT) → find ((k, o) ∷ m) k ≡ o
find-hit m k o = rw (beq_refl k)

pub find-miss : (m : Log) (k j : Key) (o : Option ClientT) → k ≢ j → find ((k, o) ∷ m) j ≡ find m j
find-miss m k j o ne = rw (beq_ne k j ne)

abbrev pub log_map : ClientMap
log_map = record {
  Map = Log;
  init = [];
  get = find;
  put = λ m k c. (k, some c) ∷ m;
  delete = λ m k. (k, none) ∷ m;
  entries = present;
  get-init = λ k. refl;
  get-put_self = λ m k c. find-hit m k (some c);
  get-put_ne = λ m k j c ne. find-miss m k j (some c) ne;
  get-delete_self = λ m k. find-hit m k none;
  get-delete_ne = λ m k j ne. find-miss m k j none ne;
  mem-entries = λ m k c. (present_sound m k c, present_complete m k c);
  entries-Nodup = present-Nodup;
}

abbrev first_digit : Key → ℕ
first_digit [] = 0
first_digit (d ∷ ds) = d

-- One digit in a base above every descriptor.
abbrev pub one_digit : Format
one_digit = record { sprintf = λ n. n ∷ []; atoi = first_digit; atoi-sprintf = λ n. refl }
