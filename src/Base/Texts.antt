-- ===== src/Base/Texts.antt =====
-- Go strings as lists of code units, their comparison, and `%d` of an unsigned number.
use Prim.Native.Nat.{ℕ, zero, suc, ◌+◌, ◌-◌, ◌*◌, ◌/◌, ◌%◌, ◌≤◌, ◌<◌}
use Prim.Native.Char.{code}
use Prim.Native.String.{String}
use mathlib.Core.Path.{◌≡◌, refl, sym, ap, subst}
use mathlib.Core.Logic.{◌↔◌}
use mathlib.Core.Bool.{Bool, true, false, ◌&&◌}
use mathlib.Core.List.{List, [], ◌∷◌, ◌++◌}
use native.Mathlib.Omega.{arith}
use cronjob.Base.Tests.{ltb, ◌==◌, if◌then◌else◌, Bool-cases}
use cronjob.Base.Lists.{All, All-snoc}
use mathlib.Core.Logic.{inl, inr}

abbrev pub Text : Type 0
Text = List ℕ

-- The code points of a literal: its bytes, as long as it is ASCII.
abbrev pub codes : String → Text
codes String.[] = []
codes (String.◌∷◌ c s) = code c ∷ codes s

unfoldable pub text_eq : Text → Text → Bool
text_eq [] [] = true
text_eq [] (y ∷ ys) = false
text_eq (x ∷ xs) [] = false
text_eq (x ∷ xs) (y ∷ ys) = x == y && text_eq xs ys

pub text_eq_iff : (s t : Text) → (text_eq s t ≡ true) ↔ (s ≡ t)
unfolding text_eq
text_eq_iff [] [] = ground arith
text_eq_iff [] (y ∷ ys) = ground arith
text_eq_iff (x ∷ xs) [] = ground arith
text_eq_iff (x ∷ xs) (y ∷ ys) = ground (arith, text_eq_iff xs ys)

pub text_eq_refl : (s : Text) → text_eq s s ≡ true
text_eq_refl s = (text_eq_iff s s).1 refl

-- The decimal digits of `n`; `f` bounds the number of digits.
decimal_fuel : ℕ → ℕ → Text
decimal_fuel zero n = []
decimal_fuel (suc f) n =
    let rest = decimal_fuel f (n / 10) in
    if ltb n 10 then (48 + n) ∷ [] else rest ++ (48 + n % 10) ∷ []

-- `fmt.Sprintf("%d", n)` of an unsigned number.
unfoldable pub decimal : ℕ → Text
unfolding decimal_fuel
decimal n = decimal_fuel (suc n) n

-- The number that a row of digits stands for, after `acc`.
value_from : ℕ → Text → ℕ
value_from acc [] = acc
value_from acc (c ∷ cs) = value_from (acc * 10 + (c - 48)) cs

value_from-snoc :
    (acc : ℕ) (cs : Text) (c : ℕ)
    → value_from acc (cs ++ c ∷ []) ≡ value_from acc cs * 10 + (c - 48)
unfolding value_from
value_from-snoc acc [] c = refl
value_from-snoc acc (d ∷ cs) c = value_from-snoc (acc * 10 + (d - 48)) cs c

value_from-decimal_fuel : (f n : ℕ) → n < f → value_from 0 (decimal_fuel f n) ≡ n
unfolding decimal_fuel value_from
value_from-decimal_fuel zero n h = elim h [ ]
value_from-decimal_fuel (suc f) n h = ground (
  arith,
  value_from-decimal_fuel f (n / 10),
  value_from-snoc 0 (decimal_fuel f (n / 10)) (48 + n % 10),
)

pub decimal-injective : (m n : ℕ) → decimal m ≡ decimal n → m ≡ n
unfolding decimal
decimal-injective m n e = omega (
  arith,
  ap (value_from 0) e,
  value_from-decimal_fuel (suc m) m (omega arith),
  value_from-decimal_fuel (suc n) n (omega arith),
)

-- Every digit is a code unit from '0' on, so no digit is a dash.
abbrev pub Above : ℕ → Text → Type 0
Above k [] = Unit
Above k (c ∷ cs) = (k ≤ c) × Above k cs

Above-snoc : (k : ℕ) (cs : Text) (c : ℕ) → Above k cs → k ≤ c → Above k (cs ++ c ∷ [])
Above-snoc k [] c h le = (le, tt)
Above-snoc k (d ∷ cs) c h le = (h.0, Above-snoc k cs c h.1 le)

Above-decimal_fuel : (f n : ℕ) → Above 48 (decimal_fuel f n)
unfolding decimal_fuel
Above-decimal_fuel zero n = tt
Above-decimal_fuel (suc f) n = elim (Bool-cases (ltb n 10)) [
  | inl small ↦ rw small (omega arith, tt)
  | inr large ↦
      rw large
        (Above-snoc 48 (decimal_fuel f (n / 10)) _ (Above-decimal_fuel f (n / 10)) (omega arith))
]

pub Above-decimal : (n : ℕ) → Above 48 (decimal n)
unfolding decimal
Above-decimal n = Above-decimal_fuel (suc n) n

Above-middle : (k : ℕ) (cs : Text) (c : ℕ) (ds : Text) → Above k (cs ++ c ∷ ds) → k ≤ c
Above-middle k [] c ds h = h.0
Above-middle k (x ∷ xs) c ds h = Above-middle k xs c ds h.1

-- A text is cut in one way only at its last unit below `k`.
pub cut_unique :
    (k d : ℕ) (s s' t t' : Text)
    → d < k
    → Above k t
    → Above k t'
    → s ++ d ∷ t ≡ s' ++ d ∷ t'
    → (s ≡ s') × (t ≡ t')
cut_unique k d [] [] t t' lt a a' e = (refl, cc)
cut_unique k d [] (x ∷ xs) t t' lt a a' e =
    let e' : t ≡ xs ++ d ∷ t' = cc in
    absurd (omega (arith, Above-middle k xs d t' (subst (Above k) e' a)))
cut_unique k d (x ∷ xs) [] t t' lt a a' e =
    let e' : xs ++ d ∷ t ≡ t' = cc in
    absurd (omega (arith, Above-middle k xs d t (subst (Above k) (sym e') a')))
cut_unique k d (x ∷ xs) (y ∷ ys) t t' lt a a' e =
    let rest : (xs ≡ ys) × (t ≡ t') = cut_unique k d xs ys t t' lt a a' cc in
    let head : x ≡ y = cc in (cc (head, rest.0), rest.1)

-- A predicate of the ten digits holds of every unit of a number.
All-decimal_fuel :
    (P : ℕ → Type 0) → ((d : ℕ) → d < 10 → P (48 + d)) → (f n : ℕ) → All P (decimal_fuel f n)
unfolding decimal_fuel
All-decimal_fuel P h zero n = tt
All-decimal_fuel P h (suc f) n = elim (Bool-cases (ltb n 10)) [
  | inl small ↦ rw small (h n (ground arith), tt)
  | inr large ↦ rw large (
      All-snoc P (decimal_fuel f (n / 10)) (48 + n % 10) (All-decimal_fuel P h f (n / 10))
        (h (n % 10) (omega arith)))
]

pub All-decimal : (P : ℕ → Type 0) → ((d : ℕ) → d < 10 → P (48 + d)) → (n : ℕ) → All P (decimal n)
unfolding decimal
All-decimal P h n = All-decimal_fuel P h (suc n) n

snoc_cons : (s : Text) (c : ℕ) → (d : ℕ) × (t : Text) × (s ++ c ∷ [] ≡ d ∷ t)
snoc_cons [] c = (c, [], refl)
snoc_cons (d ∷ s) c = (d, s ++ c ∷ [], refl)

-- A number has a digit.
pub decimal_cons : (n : ℕ) → (d : ℕ) × (t : Text) × (decimal n ≡ d ∷ t)
unfolding decimal decimal_fuel
decimal_cons n = elim (Bool-cases (ltb n 10)) [
  | inl small ↦ (48 + n, [], rw small refl)
  | inr large ↦ rw large (snoc_cons (decimal_fuel n (n / 10)) (48 + n % 10))
]
