-- ===== src/KeyStore/Slashes.antt =====
-- Keys of the form `<directory><category>/<id>`: trimming and the replacement of double slashes, which
-- precede a delete (backend/common/repositories/killEtcd.go, `deleteFromEtcd`), leave them as they are.
use cronjob.Base.{
  ℕ, ◌≡◌, ◌≢◌, ◌≤◌, refl, ap, ◌∙◌, [], ◌∷◌, ◌++◌, Text, decimal, All, All-decimal, decimal_cons,
  arith, subst, sym,
}
use mathlib.Core.List.{append-nil}
use cronjob.MasterLock.{trim_space, trim_right}
use cronjob.KeyStore.{single_slashes}

-- The name of a directory between two slashes.
abbrev pub IsSegment : Text → Type 0
IsSegment [] = ⊥
IsSegment (c ∷ cs) = (c ≢ 47) × All (λ (d : ℕ). d ≢ 47) cs

single_slashes-cons : (c : ℕ) (t : Text) → c ≢ 47 → single_slashes (c ∷ t) ≡ c ∷ single_slashes t
unfolding single_slashes
single_slashes-cons c [] ne = refl
single_slashes-cons c (d ∷ t) ne = ground arith

pub single_slashes-append :
    (s t : Text) → All (λ (d : ℕ). d ≢ 47) s → single_slashes (s ++ t) ≡ s ++ single_slashes t
single_slashes-append [] t h = refl
single_slashes-append (c ∷ s) t h =
    single_slashes-cons c (s ++ t) h.0 ∙ ap (λ r. c ∷ r) (single_slashes-append s t h.1)

-- A slash before a unit that is none.
single_slashes-slash :
    (c : ℕ) (t : Text) → c ≢ 47 → single_slashes (47 ∷ c ∷ t) ≡ 47 ∷ c ∷ single_slashes t
unfolding single_slashes
single_slashes-slash c t ne = ground (arith, single_slashes-cons c t ne)

pub single_slashes-segment :
    (s t : Text) → IsSegment s → single_slashes (47 ∷ s ++ t) ≡ 47 ∷ s ++ single_slashes t
single_slashes-segment [] t h = absurd h
single_slashes-segment (c ∷ s) t h =
    single_slashes-slash c (s ++ t) h.0 ∙ ap (λ r. 47 ∷ c ∷ r) (single_slashes-append s t h.1)

pub IsSegment-decimal : (n : ℕ) → IsSegment (decimal n)
IsSegment-decimal n =
    let (d, t, e) = decimal_cons n in
    let digits : All (λ (c : ℕ). c ≢ 47) (decimal n) =
      All-decimal (λ c. c ≢ 47) (λ d lt. omega arith) n in
    subst IsSegment (sym e) (subst (All (λ (c : ℕ). c ≢ 47)) e digits)

trim_right-append :
    (s : Text) (c : ℕ) (t : Text)
    → trim_right (c ∷ t) ≡ c ∷ t
    → trim_right (s ++ c ∷ t) ≡ s ++ c ∷ t
trim_right-append [] c t e = e
trim_right-append (b ∷ []) c t e = rw e refl
trim_right-append (b ∷ a ∷ s) c t e = rw (trim_right-append (a ∷ s) c t e) refl

-- A digit is no white space.
IsDigit : ℕ → Type 0
IsDigit c = (48 ≤ c) × (c ≤ 57)

trim_right-digits : (s : Text) → All IsDigit s → trim_right s ≡ s
unfolding IsDigit
trim_right-digits [] h = refl
trim_right-digits (c ∷ []) h = ground arith
trim_right-digits (c ∷ d ∷ s) h = rw (trim_right-digits (d ∷ s) h.1) refl

trim_right-decimal : (s : Text) (n : ℕ) → trim_right (s ++ decimal n) ≡ s ++ decimal n
unfolding IsDigit
trim_right-decimal s n =
    let (d, t, e) = decimal_cons n in
    let fixed : trim_right (decimal n) ≡ decimal n =
      trim_right-digits (decimal n) (All-decimal IsDigit (λ k lt. (omega arith, omega arith)) n) in
    let fixed' : trim_right (d ∷ t) ≡ d ∷ t = subst (λ u. trim_right u ≡ u) e fixed in
    rw e (trim_right-append s d t fixed')

-- A key of four directories deep that ends in a number.
pub single_slashes-key :
    (a b c : Text) (n : ℕ)
    → IsSegment a
    → IsSegment b
    → IsSegment c
    → single_slashes (47 ∷ a ++ (47 ∷ b ++ (47 ∷ c ++ (47 ∷ decimal n))))
      ≡ 47 ∷ a ++ (47 ∷ b ++ (47 ∷ c ++ (47 ∷ decimal n)))
unfolding single_slashes
single_slashes-key a b c n ha hb hc =
    let last : single_slashes (47 ∷ decimal n ++ []) ≡ 47 ∷ decimal n ++ [] =
      single_slashes-segment (decimal n) [] (IsSegment-decimal n) in
    let last' : single_slashes (47 ∷ decimal n) ≡ 47 ∷ decimal n =
      subst (λ t. single_slashes (47 ∷ t) ≡ 47 ∷ t) (append-nil (decimal n)) last in
    simp (
      single_slashes-segment a (47 ∷ b ++ (47 ∷ c ++ (47 ∷ decimal n))) ha,
      single_slashes-segment b (47 ∷ c ++ (47 ∷ decimal n)) hb,
      single_slashes-segment c (47 ∷ decimal n) hc,
      last',
    )

pub trim_space-key : (s : Text) (n : ℕ) → trim_space (47 ∷ s ++ decimal n) ≡ 47 ∷ s ++ decimal n
unfolding trim_space
trim_space-key s n = trim_right-decimal (47 ∷ s) n
