-- ===== src/JobLock.antt =====
-- The lock of a job on a worker (backend/worker/lock.go). The lock is taken, renewed and released by
-- requests to the master, whose answers are arguments. `LeaseLoop` runs beside the command of the job:
-- its waits, its requests and the `Unlock` of the executor are separate steps.
pub mod Taking
pub mod Renewal
pub mod Channels
mod Tests
use cronjob.Base.{
  ℕ, suc, ◌+◌, ◌-◌, Bool, true, false, Option, none, some, List, [], ◌∷◌, ◌++◌, ◌==◌, ◌&&◌, ltb,
  if◌then◌else◌, Text, codes, text_eq,
}
use cronjob.Base.Int.{ℤ, pos, ltb_ℤ}
use cronjob.Executor.{Result, ok, err}

-- An answer of the package grequests: an error, or a status and a body.
pub data Answer : Type 0 where
  failed : Text → Answer
  answered : ℕ → Text → Answer

-- `datamodels.Lock`, the fields that are read.
pub record Lock : Type 0 where
  pub lease_id : ℤ
  pub password : Text
  pub is_active : Bool

-- `datamodels.BaseResponse`
pub record BaseResponse : Type 0 where
  pub status : Text
  pub message : Text

-- `JobLock`: `need_kill_chan` has the messages that wait, `close_chan` counts them, since all are
-- `true`. `release_requests` has the leases that were asked to be released, the
-- last one first; the source does not look at the answers.
pub record JobLock : Type 0 where
  pub name : Text
  pub lease_id : ℤ
  pub password : Text
  pub is_active : Bool
  pub need_kill_chan : List Bool
  pub close_chan : ℕ
  pub release_requests : List ℤ

-- `NewJobLock`
unfoldable pub new_job_lock : Text → JobLock
new_job_lock name = record {
  name = name;
  lease_id = pos 0;
  password = [];
  is_active = false;
  need_kill_chan = [];
  close_chan = 0;
  release_requests = [];
}

abbrev pub take_lock : Lock → JobLock → JobLock × Option Text
take_lock lock j =
    if lock.is_active && ltb_ℤ (pos 0) lock.lease_id
    then (record j { is_active = true; lease_id = lock.lease_id; password = lock.password }, none)
    else (j, some (codes "抢锁失败"))

-- `TryLock`: the lock and the error. A Chinese text counts by its code points.
unfoldable pub try_lock : (Text → Result Lock) → Answer → JobLock → JobLock × Option Text
try_lock decode (failed e) j = (j, some e)
try_lock decode (answered status bytes) j =
    if status == 200
    then elim (decode bytes) [ err e ↦ (j, some e) | ok lock ↦ take_lock lock j ]
    else (j, some bytes)

-- `Unlock`
unfoldable pub unlock : JobLock → JobLock
unlock j = record j {
  release_requests = j.lease_id ∷ j.release_requests;
  is_active = false;
  close_chan = suc j.close_chan;
}

-- Where `LeaseLoop` is: in its `select`, in a request, in the second before another try, or over.
pub data Phase : Type 0 where
  waiting posting sleeping over : Phase

pub record Renewing : Type 0 where
  pub lock : JobLock
  pub phase : Phase
  pub timer_expired : Bool  -- a message waits in `timer.C`

-- `END`
unfoldable pub end_loop : Renewing → Renewing
unfolding unlock
end_loop r = record r { lock = unlock r.lock; phase = Phase.over }

-- The beginning of `leaseRequest`.
unfoldable pub begin_request : Renewing → Renewing
unfolding end_loop
begin_request r = if r.lock.is_active then record r { phase = Phase.posting } else end_loop r

-- The case of a timer that has expired.
unfoldable pub timer_case : Renewing → Renewing
unfolding end_loop
timer_case r =
    let lock =
      if r.lock.is_active
      then record r.lock { need_kill_chan = r.lock.need_kill_chan ++ true ∷ [] }
      else r.lock in
    end_loop (record r { lock = unlock lock; timer_expired = false })

-- `leaseRequest` succeeds: the timer is reset. If it has expired, its message stays.
abbrev renewed : BaseResponse → Renewing → Renewing
renewed response r =
    if text_eq response.status (codes "success")
    then record r { phase = Phase.waiting }
    else end_loop r

-- The answer to a request for renewal; the status of the answer is not looked at.
unfoldable pub finish_request : (Text → Result BaseResponse) → Answer → Renewing → Renewing
unfolding end_loop text_eq
finish_request decode (failed e) r =
    if r.lock.is_active then record r { phase = Phase.sleeping } else end_loop r
finish_request decode (answered status bytes) r = elim (decode bytes) [
  | err e ↦ end_loop r
  | ok response ↦ renewed response r
]

pub data Event : Type 0 where
  ticked : Event  -- the ticker, in the `select`
  timer_fires : Event  -- the timer expires, whatever the loop does
  timer_received : Event  -- in the `select`
  close_received : Event  -- in the `select`
  replied : Answer → Event  -- to a request
  woken : Event  -- after the second
  unlocked : Event  -- the executor calls `Unlock`

module _ (decode : Text → Result BaseResponse) where
  -- A step; an event that the phase does not wait for changes nothing.
  unfoldable pub step_in : Phase → Event → Renewing → Renewing
  unfolding begin_request timer_case finish_request unlock
  step_in phase timer_fires r = record r { timer_expired = true }
  step_in phase unlocked r = record r { lock = unlock r.lock }
  step_in Phase.waiting ticked r = begin_request r
  step_in Phase.waiting timer_received r = if r.timer_expired then timer_case r else r
  step_in Phase.waiting close_received r =
      if ltb 0 r.lock.close_chan
      then end_loop (record r { lock = record r.lock { close_chan = r.lock.close_chan - 1 } })
      else r
  step_in Phase.posting (replied answer) r = finish_request decode answer r
  step_in Phase.sleeping woken r = begin_request r
  step_in phase event r = r

  unfoldable pub run : List Event → Renewing → Renewing
  unfolding step_in
  run [] r = r
  run (e ∷ es) r = run es (step_in r.phase e r)
