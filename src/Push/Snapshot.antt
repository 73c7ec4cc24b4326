-- ===== src/Push/Snapshot.antt =====
-- The jobs that a worker asks for when it has connected (backend/master/sockets/jobs.go,
-- `pushJobsToClient`), and that its plan table follows etcd from then on.
use cronjob.Base.{
  ℕ, suc, ◌≡◌, refl, sym, ap, subst, ◌∙◌, Bool, true, false, Option, none, some, List, [], ◌∷◌,
  ◌++◌, map, Text, codes, Assoc, lookup, All,
}
use cronjob.Base.Time.{Time}
use cronjob.Data.{Cron, JobEtcd, EventType}
use cronjob.Packet.{Bytes, packet_data}
use cronjob.Scheduler.{Scheduler, new_scheduler}
use cronjob.Push.{
  Json, message_event, WatchEvent, job_turn, watch_job, push_turn,
  push_message_event_to_all_clients, handler_watch_chan, reade_loop,
}
use cronjob.Push.Delivery.{Fits, pushed_events}
use cronjob.Push.Follow.{
  etcd_key, stored_all, handle_all, active_job, IsFollowing, IsJobEvent, plan_table_follows_etcd,
}
use cronjob.Push.Stored.{
  puts, IsDistinct, IsSame, stored_all-IsSame, stored_all-append, stored_all-puts,
}

module _ (json : Json) where
  open json use {decode_job, encode_message}

  -- A turn of the loop: what it and the later turns write, if the value is no job and they write
  -- `unread`, or the write succeeds and they write `rest`; a write that fails ends the loop.
  abbrev pub push_job :
      Option JobEtcd → Bool → Text → List (Text × Bytes) → List (Text × Bytes) → List (Text × Bytes)
  push_job none writable client unread rest = unread
  push_job (some job) false client unread rest = []
  push_job (some job) true client unread rest =
      (
        client,
        packet_data (
            encode_message (
              message_event json (codes "jobEvent") (record { event = EventType.put; job = job }))),
      )
      ∷ rest

  -- The loop: what is written to the client of the jobs that etcd answers; `writable` are the outcomes
  -- of the writes.
  unfoldable pub push_jobs : (ℕ → Bool) → Text → Assoc Bytes → List (Text × Bytes)
  push_jobs writable client [] = []
  push_jobs writable client ((key, value) ∷ kvs) =
      push_job (decode_job value) (writable 0) client (push_jobs writable client kvs)
        (push_jobs (λ n. writable (suc n)) client kvs)

  -- `pushJobsToClient`, by what etcd answers within ten seconds; its one caller drops the error.
  unfoldable pub push_jobs_to_client :
      (ℕ → Bool) → Text → Option (Assoc Bytes) → List (Text × Bytes)
  unfolding push_jobs
  push_jobs_to_client writable client none = []
  push_jobs_to_client writable client (some kvs) = push_jobs writable client kvs

  push_job-push_turn :
      (o : Option JobEtcd) (writable : Bool) (client : Text) (unread rest all : List (Text × Bytes))
      → writable ≡ true
      → unread ≡ all
      → rest ≡ all
      → push_job o writable client unread rest
        ≡ push_turn json (job_turn json EventType.put o) (client ∷ []) all
  unfolding push_message_event_to_all_clients
  push_job-push_turn none writable client unread rest all good unread_all rest_all = unread_all
  push_job-push_turn (some job) true client unread rest all good unread_all rest_all =
      rw rest_all refl
  push_job-push_turn (some job) false client unread rest all good unread_all rest_all =
      absurd (cc (good))

  -- With no failing write, the client gets what the watch handler would send it for puts of all jobs.
  push_jobs-puts :
      (writable : ℕ → Bool) (client : Text) (kvs : Assoc Bytes)
      → ((n : ℕ) → writable n ≡ true)
      → push_jobs writable client kvs
        ≡ handler_watch_chan json (watch_job json) (puts kvs) (client ∷ [])
  unfolding push_jobs handler_watch_chan watch_job
  push_jobs-puts writable client [] good = refl
  push_jobs-puts writable client ((key, value) ∷ kvs) good =
      push_job-push_turn (decode_job value) (writable 0) client (push_jobs writable client kvs)
        (push_jobs (λ n. writable (suc n)) client kvs)
        (handler_watch_chan json (watch_job json) (puts kvs) (client ∷ [])) (good 0)
        (push_jobs-puts writable client kvs good)
        (push_jobs-puts (λ n. writable (suc n)) client kvs (λ n. good (suc n)))

  push_turn-append :
      (o : Option JobEtcd) (client : Text) (rest more : List (Text × Bytes))
      → push_turn json (job_turn json EventType.put o) (client ∷ []) (rest ++ more)
        ≡ push_turn json (job_turn json EventType.put o) (client ∷ []) rest ++ more
  unfolding push_message_event_to_all_clients
  push_turn-append none client rest more = refl
  push_turn-append (some job) client rest more = refl

  handler_watch_chan-append :
      (kvs : Assoc Bytes) (es : List WatchEvent) (client : Text)
      → handler_watch_chan json (watch_job json) (puts kvs ++ es) (client ∷ [])
        ≡ handler_watch_chan json (watch_job json) (puts kvs) (client ∷ [])
          ++ handler_watch_chan json (watch_job json) es (client ∷ [])
  unfolding handler_watch_chan watch_job
  handler_watch_chan-append [] es client = refl
  handler_watch_chan-append ((key, value) ∷ kvs) es client =
      rw (handler_watch_chan-append kvs es client) (
        push_turn-append (decode_job value) client
          (handler_watch_chan json (watch_job json) (puts kvs) (client ∷ []))
          (handler_watch_chan json (watch_job json) es (client ∷ [])))

module _ (cron : Cron) (json : Json) where
  open cron use {Expression}

  IsFollowing-IsSame :
      (s : Scheduler Expression) (m m' : Assoc Bytes)
      → IsSame m m'
      → IsFollowing cron json s m
      → IsFollowing cron json s m'
  IsFollowing-IsSame s m m' same follows c i =
      follows c i ∙ ap (active_job cron json) (same (etcd_key c i))

  IsFollowing-new : IsFollowing cron json new_scheduler []
  unfolding new_scheduler lookup
  IsFollowing-new c i = refl

  -- A new worker gets the jobs that etcd has when it asks for them, every write to it succeeding, and
  -- then what the master sends of the later puts and deletions of jobs. Its plan table agrees with etcd
  -- after it has handled all of that, if no key stands twice in the answer of etcd, jobs stand under
  -- the keys of the master with times that can be parsed, the old values of deleted jobs are known,
  -- and the messages have 1 to 65535 bytes, each one message of the socket.
  pub connected_worker_follows_etcd :
      (client : Text) (writable : ℕ → Bool) (clock : ℕ → Time) (spares : ℕ → Bytes)
      (store : Assoc Bytes) (es : List WatchEvent)
      → IsDistinct store
      → ((n : ℕ) → writable n ≡ true)
      → All (IsJobEvent cron json) (puts store ++ es)
      → All (Fits json) (pushed_events json (watch_job json) (puts store ++ es))
      → IsFollowing cron json
          (handle_all cron json clock
            (reade_loop json spares (
              map
                (λ p. p.1)
                (push_jobs_to_client json writable client (some store)
                  ++ handler_watch_chan json (watch_job json) es (client ∷ []))))
            new_scheduler)
          (stored_all es store)
  unfolding push_jobs_to_client
  connected_worker_follows_etcd client writable clock spares store es distinct good jobs fit =
      let worker = λ (written : List (Text × Bytes)).
        handle_all cron json clock (reade_loop json spares (map (λ p. p.1) written))
          new_scheduler in
      let written : handler_watch_chan json (watch_job json) (puts store ++ es) (client ∷ [])
          ≡ push_jobs_to_client json writable client (some store)
            ++ handler_watch_chan json (watch_job json) es (client ∷ []) =
        handler_watch_chan-append json store es client
        ∙ ap (λ l. l ++ handler_watch_chan json (watch_job json) es (client ∷ []))
            (sym (push_jobs-puts json writable client store good)) in
      subst (λ l. IsFollowing cron json (worker l) (stored_all es store)) written
        (IsFollowing-IsSame
          (worker (handler_watch_chan json (watch_job json) (puts store ++ es) (client ∷ [])))
          (stored_all (puts store ++ es) []) (stored_all es store)
          (λ k.
            ap (lookup k) (stored_all-append (puts store) es [])
            ∙ stored_all-IsSame es (stored_all (puts store) []) store
                (stored_all-puts store distinct) k)
          (plan_table_follows_etcd cron json client clock spares (puts store ++ es) new_scheduler []
            jobs fit (IsFollowing-new)))
