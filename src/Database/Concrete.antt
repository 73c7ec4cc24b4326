-- ===== src/Database/Concrete.antt =====
-- A table whose rows have the IDs from 1 to a count: a database that answers always.
use native.Mathlib.Decide.{ℕ_discrete}
use mathlib.Core.Option
use cronjob.Base.{
  ℕ, zero, suc, ◌+◌, ◌≤◌, ◌≡◌, ◌≢◌, ◌⊎◌, refl, sym, ap, ◌∙◌, Bool, true, false, Bool-cases, inl,
  inr, ◌==◌, ◌&&◌, Option, none, some, leb, if◌then◌else◌, if_true, if_false, Text, codes, arith,
  subst,
}
use cronjob.Base.Int.{ℤ, pos, negsuc}
use cronjob.Base.Time.{Time}
use cronjob.Executor.{Result, ok, err}
use cronjob.Database.{Fields, Schema, Table}

pub le_refl : (n : ℕ) → n ≤ n
le_refl n = omega arith

pub ok_err : {A : Type 0} (a : A) (e : Text) → ◌≡◌ {A = Result A} (ok a) (err e) → ⊥
ok_err a e h = cc h

module _ {Row : Type 0} (schema : Schema Row) (assign : Fields → Row → Row)
    (id_stamped : (n : ℕ) (t : Time) (r : Row) → schema.id_of (schema.stamped n t r) ≡ n)
    (assign_stamped : (f : Fields) (n : ℕ) (t : Time) (r : Row)
      → schema.stamped n t (assign f (schema.stamped n t r)) ≡ assign f (schema.stamped n t r))
    (assign_id : (f : Fields) (r : Row) → schema.id_of (assign f r) ≡ schema.id_of r) where
  open schema use {id_of, stamped}

  -- The count, and what stands at each ID.
  abbrev pub Rows : Type 0
  Rows = ℕ × (ℕ → Time × Row)

  abbrev pub row_at : ℕ → Rows → Option Row
  row_at n s = if leb 1 n && leb n s.0 then some (stamped n (s.1 n).0 (s.1 n).1) else none

  abbrev pub answer : Option Row → (Row → Row) → Result Row
  answer none sel = err (codes "record not found")
  answer (some r) sel = ok (sel r)

  abbrev pub first_at : (Row → Row) → ℤ → Rows → Result Row
  first_at sel (pos n) s = answer (row_at n s) sel
  first_at sel (negsuc n) s = err (codes "record not found")

  abbrev pub search_below : ℕ → (Row → Row) → (Row → Bool) → Rows → Result Row
  search_below zero sel test s = err (codes "record not found")
  search_below (suc n) sel test s =
      let rest = search_below n sel test s in
      let r = stamped (suc n) (s.1 (suc n)).0 (s.1 (suc n)).1 in if test r then ok (sel r) else rest

  abbrev pub add : Row → Rows → Rows
  add r s = (s.0 + 1, λ n. if n == s.0 + 1 then (0, r) else s.1 n)

  abbrev pub change : ℕ → (Row → Row) → Rows → Rows
  change i f s =
      (s.0, λ n. if n == i then ((s.1 n).0, f (stamped n (s.1 n).0 (s.1 n).1)) else s.1 n)

  abbrev pub change_where : ℤ → Fields → Rows → Rows
  change_where (pos n) f s = change n (assign f) s
  change_where (negsuc n) f s = s

  id-row_at : (n : ℕ) (s : Rows) (r : Row) → row_at n s ≡ some r → id_of r ≡ n
  id-row_at n s r e = ground (arith, id_stamped n (s.1 n).0 (s.1 n).1)

  pub first_found :
      (sel : Row → Row) (z : ℤ) (s : Rows) (r : Row)
      → first_at sel z s ≡ ok r
      → (full : Row) × (row_at (id_of full) s ≡ some full) × (z ≡ pos (id_of full)) × (r ≡ sel full)
  first_found sel (pos n) s r e = elim (Bool-cases (leb 1 n && leb n s.0)) [
    | inl there ↦
        let full = stamped n (s.1 n).0 (s.1 n).1 in
        let at : row_at n s ≡ some full = rw there refl in
        let id : id_of full ≡ n = id_stamped n (s.1 n).0 (s.1 n).1 in
        let got : ok (sel full) ≡ ok r = sym (ap (λ o. answer o sel) at) ∙ e in
        (full, ap (λ m. row_at m s) id ∙ at, ap pos (sym id), cc)
    | inr absent ↦
        let none_at : row_at n s ≡ none = rw absent refl in
        let got : err (codes "record not found") ≡ ok r =
          sym (ap (λ o. answer o sel) none_at) ∙ e in
        absurd (cc got)
  ]
  first_found sel (negsuc n) s r e = absurd (cc e)

  pub search_found :
      (k : ℕ) (sel : Row → Row) (test : Row → Bool) (s : Rows) (r : Row)
      → k ≤ s.0
      → search_below k sel test s ≡ ok r
      → (full : Row) × (row_at (id_of full) s ≡ some full)
        × (1 ≤ id_of full)
        × (test full ≡ true)
        × (r ≡ sel full)
  search_found zero sel test s r le e = absurd (cc e)
  search_found (suc n) sel test s r le e =
      let full = stamped (suc n) (s.1 (suc n)).0 (s.1 (suc n)).1 in
      let id : id_of full ≡ suc n = id_stamped (suc n) (s.1 (suc n)).0 (s.1 (suc n)).1 in
      let there : leb 1 (suc n) && leb (suc n) s.0 ≡ true = ground arith in
      elim (Bool-cases (test full)) [
        | inl hit ↦
            let got : ok (sel full) ≡ ok r = sym (if_true (test full) _ _ hit) ∙ e in
            (full, ap (λ m. row_at m s) id ∙ if_true _ _ _ there, omega arith, hit, cc got)
        | inr miss ↦
            search_found n sel test s r (omega arith) (sym (if_false (test full) _ _ miss) ∙ e)
      ]

  search_missed :
      (k : ℕ) (sel : Row → Row) (test : Row → Bool) (s : Rows)
      → search_below k sel test s ≡ err (codes "record not found")
      → (n : ℕ) → 1 ≤ n
      → n ≤ k
      → test (stamped n (s.1 n).0 (s.1 n).1) ≡ false
  search_missed zero sel test s e n lo hi = absurd (omega arith)
  search_missed (suc k) sel test s e n lo hi =
      let full = stamped (suc k) (s.1 (suc k)).0 (s.1 (suc k)).1 in
      elim (Bool-cases (test full)) [
        | inl hit ↦
            let got : ok (sel full) ≡ err (codes "record not found") =
              sym (if_true (test full) _ _ hit) ∙ e in
            absurd (cc got)
        | inr miss ↦ elim (ℕ_discrete n (suc k)) [
          | yes p ↦ subst (λ m. test (stamped m (s.1 m).0 (s.1 m).1) ≡ false) (sym p) miss
          | no p ↦
              search_missed k sel test s (sym (if_false (test full) _ _ miss) ∙ e) n lo
                (omega arith)
        ]
      ]

  pub where_missed :
      (sel : Row → Row) (test : Row → Bool) (s : Rows)
      → search_below s.0 sel test s ≡ err (codes "record not found")
      → (n : ℕ) (r : Row) → row_at n s ≡ some r
      → test r ≡ false
  where_missed sel test s e n r there = elim (Bool-cases (leb 1 n && leb n s.0)) [
    | inl inside ↦
        let full = stamped n (s.1 n).0 (s.1 n).1 in
        let same : full ≡ r = cc (sym (if_true _ (some full) none inside) ∙ there) in
        ap test (sym same) ∙ search_missed s.0 sel test s e n (ground arith) (ground arith)
    | inr outside ↦
        let gone : none ≡ some r = sym (if_false _ _ none outside) ∙ there in absurd (cc gone)
  ]

  pub added_row :
      (r r' : Row) (s : Rows)
      → ◌≡◌ {A = Result Row} (ok (stamped (s.0 + 1) 0 r)) (ok r')
      → (n : ℕ) × (t : Time) × (r' ≡ stamped n t r)
        × (1 ≤ n)
        × (row_at n s ≡ none)
        × (row_at n (add r s) ≡ some r')
        × ((m : ℕ) → m ≢ n → row_at m (add r s) ≡ row_at m s)
  added_row r r' s e =
      let same : r' ≡ stamped (s.0 + 1) 0 r = cc e in
      (s.0 + 1, 0, same, omega arith, ground arith, ground arith, λ m ne. ground arith)

  pub changed_others :
      (i n : ℕ) (f : Row → Row) (s : Rows) → n ≢ i → row_at n (change i f s) ≡ row_at n s
  changed_others i n f s ne = ground arith

  pub changed_own :
      (n : ℕ) (f : Fields) (s : Rows)
      → row_at n (change n (assign f) s) ≡ Option.map (assign f) (row_at n s)
  changed_own n f s = elim (Bool-cases (leb 1 n && leb n s.0)) [
    | inl inside ↦
        let self : (n == n) ≡ true = ground arith in
        rw (inside, self) (ap some (assign_stamped f n (s.1 n).0 (s.1 n).1))
    | inr outside ↦ rw outside refl
  ]

  pub changed_any :
      (i n : ℕ) (f : Fields) (s : Rows)
      → (row_at n (change i (assign f) s) ≡ row_at n s)
        ⊎ (row_at n (change i (assign f) s) ≡ Option.map (assign f) (row_at n s))
  changed_any i n f s = elim (ℕ_discrete n i) [
    | yes p ↦ inr (
        subst (λ j. row_at n (change j (assign f) s) ≡ Option.map (assign f) (row_at n s)) p
          (changed_own n f s))
    | no p ↦ inl (changed_others i n (assign f) s p)
  ]

  pub changed_full :
      (n : ℕ) (f : Fields) (s : Rows) (full : Row)
      → row_at n s ≡ some full
      → row_at n (change n (assign f) s) ≡ some (assign f full)
  changed_full n f s full e = changed_own n f s ∙ ap (Option.map (assign f)) e

  -- The database: an update without an ID changes no row.
  abbrev pub database : Table schema
  database = record {
    State = Rows;
    row = row_at;
    first = first_at;
    first_where = λ sel test s. search_below s.0 sel test s;
    create = λ r s. (ok (stamped (s.0 + 1) 0 r), add r s);
    assign = assign;
    update = λ r f s. (none, change (id_of r) (assign f) s);
    update_row = λ r s. (none, change (id_of r) (λ old. old) s);
    update_where = λ z f s. (none, change_where z f s);
    first_ok = first_found;
    where_ok = λ sel test s r e. search_found s.0 sel test s r (le_refl s.0) e;
    where_not_found = where_missed;
    create_err = λ r s e n h. absurd (ok_err (stamped (s.0 + 1) 0 r) e h);
    create_ok = λ r r' s e. added_row r r' s e;
    update_others = λ r f s n lacks pos other. changed_others (id_of r) n (assign f) s other;
    update_own = λ r f s full lacks pos there taken. changed_full (id_of r) f s full there;
    update_any = λ r f s n lacks. changed_any (id_of r) n f s;
    assign_id = λ f r lacks. assign_id f r;
  }
