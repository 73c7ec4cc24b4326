-- ===== src/JobList/Pages.antt =====
-- That the pages of `listJobsFromEtcd` (backend/common/repositories/jobEtcd.go) are the pages.
use cronjob.Base.{
  ℕ, zero, suc, ◌+◌, ◌-◌, ◌*◌, ◌≤◌, ◌<◌, ◌≡◌, refl, sym, ap, subst, ◌∙◌, Bool-cases, inl, inr,
  Option, List, [], ◌∷◌, ltb, leb, ◌==◌, length, length-take, take, drop, if_true, if_false, arith,
}
use cronjob.Base.Int.{ℤ, pos}
use cronjob.Executor.{ok}
use cronjob.JobList.{
  KeyValue, limited, from_revision, last_revision, Ranges, listed, clamp_page_size, rest_of_page,
  drop_prev_last, answered, read_page, after_first, page_from, list_jobs_from_etcd,
}

-- Create revisions that grow, all of them above `b`.
abbrev pub IsAscending : ℕ → List KeyValue → Type 0
IsAscending b [] = Unit
IsAscending b (kv ∷ kvs) = (b < kv.create_revision) × IsAscending kv.create_revision kvs

from_revision-all :
    (r b : ℕ) (kvs : List KeyValue) → r ≤ b + 1 → IsAscending b kvs → from_revision r kvs ≡ kvs
from_revision-all r b [] le h = refl
from_revision-all r b (kv ∷ kvs) le h =
    if_true (leb r kv.create_revision) _ _ (ground arith)
    ∙ ap (λ l. kv ∷ l) (from_revision-all r kv.create_revision kvs (omega arith) h.1)

-- The last of the first n + 1 pairs, and the pairs from its revision on.
from_last :
    (n b : ℕ) (kv : KeyValue) (kvs : List KeyValue)
    → IsAscending b (kv ∷ kvs)
    → length (take n kvs) ≡ n
    → (last : KeyValue) × (last_revision kv (take n kvs) ≡ last.create_revision)
      × (b < last.create_revision)
      × (from_revision last.create_revision (kv ∷ kvs) ≡ last ∷ drop n kvs)
from_last zero b kv kvs h full = (
  kv,
  refl,
  h.0,
  if_true (leb kv.create_revision kv.create_revision) _ _ (ground arith)
      ∙ ap (λ l. kv ∷ l)
          (from_revision-all kv.create_revision kv.create_revision kvs (omega arith) h.1),
)
from_last (suc n) b kv [] h full = absurd (omega (arith, full))
from_last (suc n) b kv (kv' ∷ kvs) h full =
    let (last, same, above, from) =
      from_last n kv.create_revision kv' kvs h.1 (omega (arith, full)) in
    (
      last,
      same,
      omega (arith, above, h.0),
      if_false (leb last.create_revision kv.create_revision) _ _ (ground arith) ∙ from,
    )

limited-pos : (n : ℕ) (kvs : List KeyValue) → 1 ≤ n → limited n kvs ≡ take n kvs
limited-pos zero kvs h = absurd (omega arith)
limited-pos (suc n) kvs h = refl

take-nil : {A : Type 0} (n : ℕ) → take {A = A} n [] ≡ []
take-nil zero = refl
take-nil (suc n) = refl

drop-short : {A : Type 0} (n : ℕ) (xs : List A) → length xs ≤ n → drop n xs ≡ []
drop-short zero [] h = refl
drop-short zero (x ∷ xs) h = absurd (omega arith)
drop-short (suc n) [] h = refl
drop-short (suc n) (x ∷ xs) h = drop-short n xs (omega arith)

module _ {J : Type 0} (job_of : KeyValue → Option J) (ranges : Ranges) where
  open ranges use {State, sorted, get_range, get_ok}

  -- etcd answers every read.
  abbrev pub Answers : State → Type 0
  Answers s = (rev limit : ℕ) → (kvs : List KeyValue) × (get_range rev limit s ≡ ok kvs)

  -- What a read answers.
  got :
      (s : State) (rev limit : ℕ)
      → Answers s
      → get_range rev limit s ≡ ok (limited limit (from_revision rev (sorted s)))
  got s rev limit answers = let (kvs, e) = answers rev limit in e ∙ ap ok (get_ok rev limit s kvs e)

  drop_prev_last-first :
      (page_size rev : ℕ) (kv : KeyValue) (kvs : List KeyValue)
      → 1 ≤ page_size
      → kv.create_revision ≡ rev
      → drop_prev_last job_of page_size rev 0 (kv ∷ kvs) ≡ rest_of_page job_of kvs
  unfolding drop_prev_last
  drop_prev_last-first page_size rev kv kvs one same =
      if_false (ltb page_size 1) _ _ (ground arith)
      ∙ if_true (kv.create_revision == rev) _ _ (ground arith)

  -- The second read, from the last key of the page before.
  read_from_last :
      (page_size rev : ℕ) (s : State) (last : KeyValue) (rest : List KeyValue)
      → Answers s
      → 1 ≤ page_size
      → 1 ≤ rev
      → last.create_revision ≡ rev
      → from_revision rev (sorted s) ≡ last ∷ rest
      → read_page job_of ranges page_size rev s ≡ listed (rest_of_page job_of (take page_size rest))
  read_from_last page_size zero s last rest answers one some_rev same from = absurd (omega arith)
  read_from_last page_size (suc r) s last rest answers one some_rev same from =
      let more : page_size + 1 ≡ suc page_size = omega arith in
      let limit : limited (page_size + 1) (last ∷ rest) ≡ last ∷ take page_size rest =
        limited-pos (page_size + 1) (last ∷ rest) (omega arith)
        ∙ ap (λ n. take n (last ∷ rest)) more in
      ap (answered job_of ranges (drop_prev_last job_of page_size (suc r) 0)) (
        got s (suc r) (page_size + 1) answers
        ∙ ap (λ l. ok (limited (page_size + 1) l)) from
        ∙ ap ok limit)
      ∙ ap listed (drop_prev_last-first page_size (suc r) last (take page_size rest) one same)

  -- The page after the first m + 1 keys.
  after_keys :
      (page_size m : ℕ) (s : State) (kvs : List KeyValue)
      → Answers s
      → 1 ≤ page_size
      → sorted s ≡ kvs
      → IsAscending 0 kvs
      → after_first job_of ranges page_size (suc m) (ok (take (suc m) kvs)) s
        ≡ listed (rest_of_page job_of (take page_size (drop (suc m) kvs)))
  after_keys page_size m s [] answers one same h =
      if_false (0 == suc m) _ _ (ground arith)
      ∙ ap (λ l. listed (rest_of_page job_of l)) (sym (take-nil page_size))
  after_keys page_size m s (kv ∷ kvs) answers one same h =
      elim (Bool-cases (length (kv ∷ take m kvs) == suc m)) [
        | inl full ↦
            let (last, at, above, from) = from_last m 0 kv kvs h (ground arith) in
            if_true (length (kv ∷ take m kvs) == suc m) _ _ full
            ∙ ap (λ r. read_page job_of ranges page_size r s) at
            ∙ read_from_last page_size last.create_revision s last (drop m kvs) answers one
                (omega arith) refl (ap (from_revision last.create_revision) same ∙ from)
        | inr short ↦
            let few : length kvs ≤ m = ground (arith, length-take m kvs) in
            if_false (length (kv ∷ take m kvs) == suc m) _ _ short
            ∙ ap (λ l. listed (rest_of_page job_of l))
                (sym (ap (take page_size) (drop-short m kvs few) ∙ take-nil page_size))
      ]

  module _ (page : ℕ) (page_size : ℤ) (s : State) (answers : Answers s)
      (sized : 1 ≤ clamp_page_size page_size) (ascending : IsAscending 0 (sorted s)) where
    page_from-page :
        (p : ℕ)
        → page_from job_of ranges p (clamp_page_size page_size) s s
          ≡ listed (
              rest_of_page job_of (
                take (clamp_page_size page_size) (drop (p * clamp_page_size page_size) (sorted s))))
    page_from-page zero =
        let size = clamp_page_size page_size in
        let none_before : 0 * size ≡ 0 = omega arith in
        ap (answered job_of ranges (rest_of_page job_of)) (
          got s 0 size answers
          ∙ ap (λ l. ok (limited size l)) (from_revision-all 0 0 (sorted s) (omega arith) ascending)
          ∙ ap ok (limited-pos size (sorted s) sized))
        ∙ ap (λ n. listed (rest_of_page job_of (take size (drop n (sorted s))))) (sym none_before)
    page_from-page (suc p) =
        let size = clamp_page_size page_size in
        let m = suc p * size - 1 in
        let before : suc p * size ≡ suc m = grind arith in
        subst
          (λ n.
            after_first job_of ranges size n (get_range 0 n s) s
            ≡ listed (rest_of_page job_of (take size (drop n (sorted s)))))
          (sym before)
          (ap (λ r. after_first job_of ranges size (suc m) r s)
              (got s 0 (suc m) answers
                ∙ ap (λ l. ok (take (suc m) l))
                    (from_revision-all 0 0 (sorted s) (omega arith) ascending))
            ∙ after_keys size m s (sorted s) answers sized refl ascending)

    -- If etcd answers every read, nothing changes between the two reads, the create revisions of the keys
    -- differ, and the page size is not 0: page `n` from 1 on are the readable ones among the jobs at the
    -- places from `(n - 1) * size` up to `n * size` in the order of creation, where the size is at most
    -- 100, and 10 instead of a negative one.
    pub list_jobs_from_etcd-page :
        1 ≤ page
        → list_jobs_from_etcd job_of ranges (pos page) page_size s s
          ≡ listed (
              rest_of_page job_of (
                take
                  (clamp_page_size page_size)
                  (drop ((page - 1) * clamp_page_size page_size) (sorted s))))
    unfolding list_jobs_from_etcd
    list_jobs_from_etcd-page first = page_from-page (page - 1)
