-- ===== src/JobLock/Taking.antt =====
-- Taking the lock of a job (backend/worker/lock.go, `TryLock`).
use cronjob.Base.{◌≤◌, ◌≡◌, inl, inr, true, false, Option, none, some, Text, arith}
use cronjob.Base.Int.{pos_part}
use cronjob.Executor.{Result}
use cronjob.Executor.Pointer.{Result-cases}
use cronjob.JobLock.{Lock, Answer, failed, answered, JobLock, new_job_lock, try_lock, take_lock}

-- No error means that the lock is active, with the ID of a lease above 0, and an error that it is not.
unfoldable pub IsTaken : JobLock → Option Text → Type 0
IsTaken j none = (j.is_active ≡ true) × (1 ≤ pos_part j.lease_id)
IsTaken j (some e) = j.is_active ≡ false

IsTaken-take_lock :
    (lock : Lock) (name : Text) → let (j, e) = take_lock lock (new_job_lock name) in IsTaken j e
unfolding new_job_lock IsTaken
IsTaken-take_lock lock name = ground (arith, lock.lease_id)

-- After `TryLock` on a new lock, whatever the master answers: with no error the lock is active and
-- its lease has an ID above 0, and with an error the lock is not active.
pub try_lock-IsTaken :
    (decode : Text → Result Lock) (answer : Answer) (name : Text)
    → let (j, e) = try_lock decode answer (new_job_lock name) in IsTaken j e
unfolding try_lock new_job_lock IsTaken
try_lock-IsTaken decode (failed e) name = ground arith
try_lock-IsTaken decode (answered status bytes) name = elim (Result-cases (decode bytes)) [
  | inl (lock, found) ↦ ground (arith, found, IsTaken-take_lock lock name)
  | inr (e, bad) ↦ ground (arith, bad)
]
