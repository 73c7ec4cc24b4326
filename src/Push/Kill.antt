-- ===== src/Push/Kill.antt =====
-- A kill that is put into etcd (backend/master/sockets/watchKill.go, backend/worker/socket.go,
-- backend/worker/scheduler.go).
use cronjob.Base.{
  ℕ, ◌≡◌, sym, ap, subst, ◌∙◌, some, [], ◌∷◌, Text, codes, lookup, get_elem?, arith, All,
}
use cronjob.Base.Time.{Time}
use cronjob.Data.{Cron, JobExecuteInfo, job_key, cancel_with}
use cronjob.Scheduler.{Scheduler}
use cronjob.Scheduler.Kill.{handle_kill}
use cronjob.Packet.{Bytes}
use cronjob.Push.{Json, JobKill, WatchEvent, kill_event, kill_turn, watch_kill, reade_loop}
use cronjob.Push.Delivery.{Fits, to_client, event_of, pushed_events, worker_receives_events}
use cronjob.Push.Follow.{handle_all}

module _ (cron : Cron) (json : Json) where
  open cron use {Expression}
  open json use {decode_kill}

  pushed_kill :
      (key : Text) (value : Bytes) (k : JobKill)
      → decode_kill value ≡ some k
      → pushed_events json (watch_kill json) (WatchEvent.put key value ∷ []) ≡ kill_event k ∷ []
  unfolding watch_kill
  pushed_kill key value k e = ap (λ o. event_of json (kill_turn json o) []) e

  -- When a kill whose message has 1 to 65535 bytes is put into etcd, a connected worker on which the
  -- job of that category and ID executes cancels the context of that execution and marks it with
  -- `kill`.
  pub put_kill_cancels :
      (client key : Text) (value : Bytes) (k : JobKill) (clock : ℕ → Time) (spares : ℕ → Bytes)
      (s : Scheduler Expression) (r : ℕ) (info : JobExecuteInfo)
      → decode_kill value ≡ some k
      → Fits json (kill_event k)
      → lookup (job_key k.category k.job_id) s.job_executing_table ≡ some r
      → get_elem? s.infos r ≡ some info
      → get_elem?
          (handle_all cron json clock
            (reade_loop json spares
              (to_client json client (WatchEvent.put key value ∷ []) (watch_kill json)))
            s).infos
          r
        ≡ some (cancel_with (codes "kill") info)
  unfolding handle_all
  put_kill_cancels client key value k clock spares s r info e fit busy at =
      let es = WatchEvent.put key value ∷ [] in
      let pushed_one = pushed_kill key value k e in
      let received : reade_loop json spares (to_client json client es (watch_kill json))
          ≡ kill_event k ∷ [] =
        worker_receives_events json (watch_kill json) client spares es
          (subst (All (Fits json)) (sym pushed_one) (fit, tt))
        ∙ pushed_one in
      ap (λ es'. get_elem? (handle_all cron json clock es' s).infos r) received
      ∙ (handle_kill cron (clock 0) (kill_event k).job s).0 r
      ∙ rw (busy, at) (ground arith)
