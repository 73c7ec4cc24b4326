-- ===== src/Scheduler/Jobs.antt =====
-- The jobs of the execution infos, which no operation of the scheduler changes, and the counting of
-- goroutines and results (backend/worker/scheduler.go).
use cronjob.Base.{
  ℕ, zero, suc, ◌+◌, ◌-◌, ◌≡◌, refl, ◌∙◌, Option, none, some, List, [], ◌∷◌, ◌++◌, ◌==◌,
  if◌then◌else◌, arith, Text, codes, length, get_elem?, set, Assoc,
}
use cronjob.Data.{JobEtcd, JobExecuteInfo, JobExecuteResult}
use cronjob.Scheduler.{Scheduler, cancel_at}
use cronjob.Scheduler.System.{count, remove, cancel_all, stop_at, stop_all}

abbrev pub job_of : Option JobExecuteInfo → Option JobEtcd
job_of none = none
job_of (some i) = some i.job

abbrev pub job_at : ℕ → List JobExecuteInfo → Option JobEtcd
job_at r infos = job_of (get_elem? infos r)

pub job_at-cancel_at :
    (r q : ℕ) (status : Text) (infos : List JobExecuteInfo)
    → job_at r (cancel_at status q infos) ≡ job_at r infos
unfolding cancel_at
job_at-cancel_at r zero status [] = refl
job_at-cancel_at r (suc q) status [] = refl
job_at-cancel_at zero zero status (i ∷ is) = refl
job_at-cancel_at (suc r) zero status (i ∷ is) = refl
job_at-cancel_at zero (suc q) status (i ∷ is) = refl
job_at-cancel_at (suc r) (suc q) status (i ∷ is) = job_at-cancel_at r q status is

pub job_at-cancel_all :
    (r : ℕ) (table : Assoc ℕ) (infos : List JobExecuteInfo)
    → job_at r (cancel_all table infos) ≡ job_at r infos
unfolding cancel_all
job_at-cancel_all r [] infos = refl
job_at-cancel_all r ((k, q) ∷ table) infos =
    job_at-cancel_all r table (cancel_at (codes "kill") q infos)
    ∙ job_at-cancel_at r q (codes "kill") infos

job_at-stop_at :
    (r q : ℕ) (infos : List JobExecuteInfo) → job_at r (stop_at q infos) ≡ job_at r infos
unfolding stop_at
job_at-stop_at r q [] = refl
job_at-stop_at zero zero (i ∷ is) = refl
job_at-stop_at (suc r) zero (i ∷ is) = refl
job_at-stop_at zero (suc q) (i ∷ is) = refl
job_at-stop_at (suc r) (suc q) (i ∷ is) = job_at-stop_at r q is

pub job_at-stop_all :
    (r : ℕ) (table : Assoc ℕ) (infos : List JobExecuteInfo)
    → job_at r (stop_all table infos) ≡ job_at r infos
unfolding stop_all
job_at-stop_all r [] infos = refl
job_at-stop_all r ((k, q) ∷ table) infos =
    job_at-stop_all r table (stop_at q infos) ∙ job_at-stop_at r q infos

pub job_at-set :
    (r q : ℕ) (i j : JobExecuteInfo) (infos : List JobExecuteInfo)
    → get_elem? infos q ≡ some i
    → j.job ≡ i.job
    → job_at r (set infos q j) ≡ job_at r infos
job_at-set r q i j [] h e = refl
job_at-set zero zero i j (x ∷ xs) h e = cc
job_at-set (suc r) zero i j (x ∷ xs) h e = refl
job_at-set zero (suc q) i j (x ∷ xs) h e = refl
job_at-set (suc r) (suc q) i j (x ∷ xs) h e = job_at-set r q i j xs h e

pub job_at-append_old :
    (r : ℕ) (infos : List JobExecuteInfo) (i : JobExecuteInfo) {job : JobEtcd}
    → job_at r infos ≡ some job
    → job_at r (infos ++ i ∷ []) ≡ some job
job_at-append_old r [] i h = cc
job_at-append_old zero (x ∷ xs) i h = h
job_at-append_old (suc r) (x ∷ xs) i h = job_at-append_old r xs i h

pub job_at-append_new :
    (infos : List JobExecuteInfo) (i : JobExecuteInfo)
    → job_at (length infos) (infos ++ i ∷ []) ≡ some i.job
job_at-append_new [] i = refl
job_at-append_new (x ∷ xs) i = job_at-append_new xs i

pub job_at-length : (infos : List JobExecuteInfo) → job_at (length infos) infos ≡ none
job_at-length [] = refl
job_at-length (x ∷ xs) = job_at-length xs

pub count-remove :
    (q r : ℕ) (xs : List ℕ)
    → count q (remove r xs) ≡ (if r == q then count q xs - 1 else count q xs)
count-remove q r [] = ground arith
count-remove q r (x ∷ xs) = ground (arith, count-remove q r xs)

-- The results in the channel, by their infos.
abbrev pub refs : List JobExecuteResult → List ℕ
refs [] = []
refs (r ∷ rs) = r.execute_info ∷ refs rs

pub count-refs_snoc :
    (q : ℕ) (rs : List JobExecuteResult) (r : JobExecuteResult)
    → count q (refs (rs ++ r ∷ [])) ≡ count q (refs rs) + (if r.execute_info == q then 1 else 0)
count-refs_snoc q [] r = ground arith
count-refs_snoc q (x ∷ rs) r = ground (arith, count-refs_snoc q rs r)

module _ {E : Type 0} where
  -- The execution of this info has not been taken back yet: its goroutine runs, or its result waits.
  abbrev pub live : ℕ → Scheduler E → ℕ
  live r s = count r s.goroutines + count r (refs s.job_result_chan)
