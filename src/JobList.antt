-- ===== src/JobList.antt =====
-- The pages of the jobs in etcd (backend/common/repositories/jobEtcd.go, `listJobsFromEtcd`).
pub mod Pages
use cronjob.Base.{
  ℕ, zero, suc, ◌+◌, ◌-◌, ◌*◌, ◌≡◌, ◌<◌, Bool, true, false, Option, none, some, List, [], ◌∷◌, ltb,
  leb, ◌==◌, length, take, if◌then◌else◌, Text,
}
use cronjob.Base.Int.{ℤ, pos, negsuc}
use cronjob.Executor.{Result, ok, err}
use cronjob.Packet.{Bytes}

-- `mvccpb.KeyValue`
pub record KeyValue : Type 0 where
  pub key : Text
  pub bytes : Bytes
  pub create_revision : ℕ

-- `WithLimit`: 0 is no limit.
abbrev pub limited : ℕ → List KeyValue → List KeyValue
limited zero kvs = kvs
limited (suc n) kvs = take (suc n) kvs

-- `WithMinCreateRev`
abbrev pub from_revision : ℕ → List KeyValue → List KeyValue
from_revision rev [] = []
from_revision rev (kv ∷ kvs) =
    let rest = from_revision rev kvs in if leb rev kv.create_revision then kv ∷ rest else rest

-- A read of the keys below the directory of the jobs, in the order of their create revisions. It
-- answers with an error or as the options say.
pub record Ranges : Type 1 where
  pub State : Type 0
  pub sorted : State → List KeyValue
  pub get_range : ℕ → ℕ → State → Result (List KeyValue)
  pub get_ok :
      (rev limit : ℕ) (s : State) (kvs : List KeyValue)
      → get_range rev limit s ≡ ok kvs
      → kvs ≡ limited limit (from_revision rev (sorted s))

-- What the function returns: the list of a failed read is nil, and an index out of range is a panic.
pub data Listed (J : Type 0) : Type 0 where
  listed : List J → Listed J
  list_failed : Text → Listed J
  panicked : Listed J

unfoldable pub clamp_page_size : ℤ → ℕ
clamp_page_size (pos n) = if ltb 100 n then 100 else n
clamp_page_size (negsuc n) = 10

-- The create revision of the last of some pairs.
abbrev pub last_revision : KeyValue → List KeyValue → ℕ
last_revision kv [] = kv.create_revision
last_revision kv (kv' ∷ kvs) = last_revision kv' kvs

-- A job that is read, with its key if it has none: `job_of` is the decoding.
module _ {J : Type 0} (job_of : KeyValue → Option J) where
  abbrev pub add_job : Option J → List J → List J
  add_job none jobs = jobs
  add_job (some j) jobs = j ∷ jobs

  -- The loop over the pairs once the last key of the page before is dropped, or if there is none.
  abbrev pub rest_of_page : List KeyValue → List J
  rest_of_page [] = []
  rest_of_page (kv ∷ kvs) = add_job (job_of kv) (rest_of_page kvs)

  -- The loop while that key has to be dropped; `count` pairs have been visited.
  unfoldable pub drop_prev_last : ℕ → ℕ → ℕ → List KeyValue → List J
  drop_prev_last page_size rev count [] = []
  drop_prev_last page_size rev count (kv ∷ kvs) =
      let count' = count + 1 in
      let next = drop_prev_last page_size rev count' kvs in
      if ltb page_size count'
      then []
      else if kv.create_revision == rev
      then rest_of_page kvs
      else if count' == 1
      then []
      else add_job (job_of kv) next

  module _ (ranges : Ranges) where
    open ranges use {State, get_range}

    abbrev pub answered : (List KeyValue → List J) → Result (List KeyValue) → Listed J
    answered loop (err e) = list_failed e
    answered loop (ok kvs) = listed (loop kvs)

    -- The second read, with the create revision of the last key of the page before; 0 is none.
    abbrev pub read_page : ℕ → ℕ → State → Listed J
    read_page page_size zero s = answered rest_of_page (get_range 0 page_size s)
    read_page page_size (suc r) s =
        answered (drop_prev_last page_size (suc r) 0) (get_range (suc r) (page_size + 1) s)

    -- After the first read: fewer keys than asked for are no page.
    abbrev pub after_first : ℕ → ℕ → Result (List KeyValue) → State → Listed J
    after_first page_size limit (err e) s = list_failed e
    after_first page_size limit (ok []) s = if 0 == limit then panicked else listed []
    after_first page_size limit (ok (kv ∷ kvs)) s =
        if length (kv ∷ kvs) == limit
        then read_page page_size (last_revision kv kvs) s
        else listed []

    -- The first read has the options `WithFromKey` and `WithPrefix`, in this order, of which the later
    -- sets the end of the range; a client of etcd that refuses the two together is left out.
    abbrev pub page_from : ℕ → ℕ → State → State → Listed J
    page_from zero page_size s s' = read_page page_size 0 s'
    page_from (suc p) page_size s s' =
        after_first page_size (suc p * page_size) (get_range 0 (suc p * page_size) s) s'

    -- `listJobsFromEtcd`, with the states of etcd at the two reads.
    unfoldable pub list_jobs_from_etcd : ℤ → ℤ → State → State → Listed J
    unfolding clamp_page_size drop_prev_last
    list_jobs_from_etcd (negsuc n) page_size s s' = page_from 0 (clamp_page_size page_size) s s'
    list_jobs_from_etcd (pos n) page_size s s' = page_from (n - 1) (clamp_page_size page_size) s s'
