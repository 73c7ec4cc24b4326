-- ===== src/LogHandler/Counted.antt =====
-- How often a log is among the logs that the log handler (backend/worker/logHandler.go) has.
use cronjob.Base.{
  ℕ, zero, suc, ◌+◌, ◌≤◌, ◌≡◌, refl, ◌∙◌, ap, Bool, true, ◌&&◌, ◌==◌, List, [], ◌∷◌, ◌++◌, arith,
  take, if◌then◌else◌,
}

-- How often a log is among some.
abbrev pub count : ℕ → List ℕ → ℕ
count l [] = 0
count l (x ∷ xs) = let n = count l xs in if x == l then suc n else n

pub count-append : (l : ℕ) (xs ys : List ℕ) → count l (xs ++ ys) ≡ count l xs + count l ys
count-append l [] ys = omega arith
count-append l (x ∷ xs) ys = ground (arith, count-append l xs ys)

pub take_none : (n : ℕ) (xs : List ℕ) → (n == 0) ≡ true → take n xs ≡ []
take_none zero xs e = refl
take_none (suc n) xs e = absurd (ground (arith, e))

-- No log of the old list has become rarer in the new one; they are the same if the flag is set.
abbrev pub Keeps : Bool → List ℕ → List ℕ → Type 0
Keeps whole new old = ((l : ℕ) → count l old ≤ count l new) × (whole ≡ true → new ≡ old)

pub Keeps-same : (whole : Bool) (new old : List ℕ) → new ≡ old → Keeps whole new old
Keeps-same whole new old e = (λ l. let c = ap (count l) e in omega (arith, c), λ w. e)

pub Keeps-trans : (v w : Bool) (x y z : List ℕ) → Keeps v y x → Keeps w z y → Keeps (v && w) z x
Keeps-trans v w x y z k k' = (
  λ l. omega (arith, k.0 l, k'.0 l),
  λ both. k'.1 (ground (arith, both)) ∙ k.1 (ground (arith, both)),
)

pub Keeps-append : (w : Bool) (x y ys : List ℕ) → Keeps w y x → Keeps w (y ++ ys) (x ++ ys)
Keeps-append w x y ys k = (
  λ l. omega (arith, k.0 l, count-append l x ys, count-append l y ys),
  λ whole. ap (λ r. r ++ ys) (k.1 whole),
)
