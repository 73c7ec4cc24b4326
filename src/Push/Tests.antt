-- ===== src/Push/Tests.antt =====
-- Pushing the events of jobs (backend/master/sockets, backend/worker/socket.go) with a concrete
-- encoding, in which a text is its length and its code units.
use cronjob.Base.{
  ℕ, text_eq, decimal, Text, Assoc, true, map, ◌++◌, refl, some, List, [], ◌∷◌, codes, arith,
  lookup,
}
use cronjob.Scheduler.{new_scheduler}
use cronjob.Push.{WatchEvent, watch_job, reade_loop, handler_watch_chan}
use cronjob.Packet.{Bytes}
use cronjob.Push.Follow.{etcd_key, stored_all, handle_all, IsFollowing, IsJob}
use cronjob.Push.Snapshot.{push_jobs_to_client, connected_worker_follows_etcd}
use cronjob.Push.Concrete.{coded, every, job, job_back, encode_job}

published : (id : ℕ) → IsJob every coded (etcd_key (codes "ops") id) (encode_job (job id))
published id = record {
  job = job id;
  decoded = job_back (job id);
  keyed = refl;
  expression = 1;
  parsed = refl;
}

-- etcd has two jobs when the worker asks for them; then the first is deleted.
abbrev two_jobs : Assoc Bytes
two_jobs =
    (etcd_key (codes "ops") 1, encode_job (job 1))
    ∷ (etcd_key (codes "ops") 2, encode_job (job 2))
    ∷ []

abbrev deletion : List WatchEvent
deletion = WatchEvent.delete (etcd_key (codes "ops") 1) (some (encode_job (job 1))) ∷ []

connected_worker_follows_etcd_example :
    IsFollowing every coded
      (handle_all every coded
        (λ n. n)
        (reade_loop coded
          (λ n. [])
          (map
            (λ (p : Text × Bytes). p.1)
            (push_jobs_to_client coded (λ n. true) (codes "worker") (some two_jobs)
              ++ handler_watch_chan coded (watch_job coded) deletion (codes "worker" ∷ []))))
        new_scheduler)
      (stored_all deletion two_jobs)
unfolding watch_job lookup text_eq decimal
connected_worker_follows_etcd_example =
    connected_worker_follows_etcd every coded (codes "worker") (λ n. true) (λ n. n) (λ n. [])
      two_jobs deletion (refl, (refl, tt)) (λ n. refl)
      (published 1, (published 2, (published 1, tt))) (ground arith)
