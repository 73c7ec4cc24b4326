-- ===== src/Jobs/Deleted.antt =====
-- The deletion of a job, through etcd to the workers (backend/common/repositories/job.go, `Delete`,
-- backend/master/sockets/watchJobs.go, backend/worker/socket.go, scheduler.go).
use cronjob.Base.{
  ℕ, ◌≤◌, ◌≡◌, refl, sym, ap, subst, ◌∙◌, Bool, true, false, ◌==◌, Option, none, some, [], ◌∷◌,
  if_true, if_false, Text, lookup, delete, text_eq, text_eq_refl, arith, All,
}
use cronjob.Base.Time.{Time}
use cronjob.Data.{Cron, JobEtcd, JobEvent, EventType, job_key, to_job_execute_plan}
use cronjob.Executor.{Result, ok, err}
use cronjob.Packet.{Bytes}
use cronjob.Scheduler.{Scheduler}
use cronjob.Scheduler.Table.{lookup-handle_job_event}
use cronjob.Push.{Json, WatchEvent, job_turn, watch_job, reade_loop}
use cronjob.Push.Delivery.{Fits, to_client, event_of, pushed_events, worker_receives_events}
use cronjob.Push.Follow.{handle_all}
use cronjob.Database.{drop_id_keys, Table}
use cronjob.KeyStore.{Kv}
use cronjob.JobStore.{Category, to_etcd_struct, job_etcd_key}
use cronjob.Categories
use cronjob.Jobs.{
  JobRow, schema, job_of, inactive_fields, World, updated, update_job, delete_answered, delete_job,
  kept_row, save,
}
use cronjob.Jobs.Published.{IsProper, update_publishes}

-- gorm finds a field by its name.
pub record IsGorm (table : Table schema) : Type 0 where
  pub assign_inactive :
      (j : JobRow) → table.assign inactive_fields j ≡ record j { is_active = false }

drop-inactive_fields : drop_id_keys inactive_fields ≡ inactive_fields
unfolding drop_id_keys delete text_eq
drop-inactive_fields = refl

-- A put of an inactive job takes its plan away.
module _ (cron : Cron) (json : Json) where
  open cron use {Expression, parse}
  open json use {decode_job}

  put_inactive_unplans :
      (client key : Text) (value : Bytes) (job : JobEtcd) (expression : Expression)
      (clock : ℕ → Time) (spares : ℕ → Bytes) (s : Scheduler Expression)
      → decode_job value ≡ some job
      → job.is_active ≡ false
      → parse job.time ≡ some expression
      → Fits json (record { event = EventType.put; job = job })
      → lookup
          (job_key job.category job.id)
          (handle_all cron json clock
            (reade_loop json spares
              (to_client json client (WatchEvent.put key value ∷ []) (watch_job json)))
            s).job_plan_table
        ≡ none
  unfolding handle_all watch_job to_job_execute_plan
  put_inactive_unplans client key value job expression clock spares s decoded off parsed fit =
      let e : JobEvent = record { event = EventType.put; job = job } in
      let es = WatchEvent.put key value ∷ [] in
      let pushed_one : pushed_events json (watch_job json) es ≡ e ∷ [] =
        ap (λ o. event_of json (job_turn json EventType.put o) []) decoded in
      let received : reade_loop json spares (to_client json client es (watch_job json)) ≡ e ∷ [] =
        worker_receives_events json (watch_job json) client spares es
          (subst (All (Fits json)) (sym pushed_one) (fit, tt))
        ∙ pushed_one in
      let k = job_key job.category job.id in
      ap (λ l. lookup k (handle_all cron json clock l s).job_plan_table) received
      ∙ lookup-handle_job_event cron (clock 0) e s k
      ∙ ground (arith, text_eq_refl k)

module _ (table : Table schema) (category_table : Table Categories.schema) (kv : Kv)
    (decode : Bytes → Result JobEtcd) (encode : JobEtcd → Bytes)
    (decode_category : Bytes → Result Categories.Category)
    (encode_category : Categories.Category → Bytes) where
  open table use {assign, update}
  open kv use {value, put}

  abbrev W : Type 0
  W = World table.State category_table.State kv.State

  abbrev inactive : JobRow → JobRow
  inactive j = record j { is_active = false }

  delete_answered-taken :
      (again : JobRow → W → JobRow × W) (x : Option Text × table.State) (j : JobRow) (w : W)
      → x.0 ≡ none
      → (delete_answered table category_table kv decode encode decode_category encode_category (
          updated table category_table kv decode encode decode_category encode_category again x j
            w)).0
        ≡ true
  delete_answered-taken again (none, d) j w e = refl
  delete_answered-taken again (some t, d) j w e = absurd (cc e)

  state-delete_answered :
      (r : Result JobRow × W)
      → (delete_answered table category_table kv decode encode decode_category encode_category r).1
        ≡ r.1
  state-delete_answered (ok j, w) = refl
  state-delete_answered (err e, w) = refl

  module _ (gorm : IsGorm table) (fuel : ℕ) (c : Category) (j : JobRow) (w : W) (p : Option Bytes)
      (active : j.is_active ≡ true) (identified : 1 ≤ j.id) (proper : IsProper c (inactive j))
      (taken : (update (inactive j) inactive_fields w.db).0 ≡ none)
      (written : (put
          (job_etcd_key c.name j.id)
          (encode (to_etcd_struct (job_of (inactive j)) c))
          w.etcd).0
        ≡ ok p) where
    assigned : assign (drop_id_keys inactive_fields) (inactive j) ≡ inactive j
    assigned =
        ap (λ f. assign f (inactive j)) drop-inactive_fields ∙ gorm.assign_inactive (inactive j)

    taken' : (update (inactive j) (drop_id_keys inactive_fields) w.db).0 ≡ none
    taken' = ap (λ f. (update (inactive j) f w.db).0) drop-inactive_fields ∙ taken

    delete_job-steps :
        delete_job table category_table kv decode encode decode_category encode_category fuel j w
        ≡ delete_answered table category_table kv decode encode decode_category encode_category (
            update_job table category_table kv decode encode decode_category encode_category fuel
              (inactive j)
              inactive_fields
              w)
    unfolding delete_job
    delete_job-steps = if_true j.is_active _ _ active

    answered :
        (delete_job table category_table kv decode encode decode_category encode_category fuel j
          w).0
        ≡ true
    unfolding update_job
    answered =
        let kept = drop_id_keys inactive_fields in
        let again : JobRow → W → JobRow × W = λ q v.
          kept_row table category_table kv decode encode decode_category encode_category q
            (save table category_table kv decode encode decode_category encode_category fuel q v) in
        ap (λ (v : Bool × W). v.0) delete_job-steps
        ∙ ap
            (λ r.
              (delete_answered table category_table kv decode encode decode_category encode_category
                r).0)
            (if_false (j.id == 0) _ _ (ground arith))
        ∙ delete_answered-taken again (update (inactive j) kept w.db) (assign kept (inactive j)) w
            taken'

    published :
        value
          (job_etcd_key c.name j.id)
          (delete_job table category_table kv decode encode decode_category encode_category fuel j
            w).1.etcd
        ≡ some (encode (to_etcd_struct (job_of (inactive j)) c))
    published =
        let key = job_etcd_key c.name j.id in
        let r =
          update_job table category_table kv decode encode decode_category encode_category fuel
            (inactive j) inactive_fields w in
        let given : ((inactive j).id == 0) ≡ false = ground arith in
        ap (λ (v : Bool × W). value key v.1.etcd) delete_job-steps
        ∙ ap (λ (v : W). value key v.etcd) (state-delete_answered r)
        ∙ subst
            (λ q.
              IsProper c q
              → (put (job_etcd_key c.name q.id) (encode (to_etcd_struct (job_of q) c)) w.etcd).0
                ≡ ok p
              → value (job_etcd_key c.name q.id) r.1.etcd
                ≡ some (encode (to_etcd_struct (job_of q) c)))
            assigned
            (update_publishes table category_table kv decode encode decode_category encode_category
              fuel c (inactive j) inactive_fields w p given taken')
            proper written

    -- An active job that has an ID, a name, the ID of its category and that category loaded, and whose
    -- deletion the database and etcd take, is deleted with success: etcd then holds it as an inactive
    -- job, and when the event of that write has been pushed in a message of 1 to 65535 bytes, and
    -- the master and the worker can read the job and its time, a connected worker has no plan for it any
    -- more.
    pub delete_job_unplans :
        (cron : Cron) (json : Json) (client : Text) (clock : ℕ → Time) (spares : ℕ → Bytes)
        (s : Scheduler cron.Expression) (expression : cron.Expression)
        → json.decode_job (encode (to_etcd_struct (job_of (record j { is_active = false })) c))
          ≡ some (to_etcd_struct (job_of (record j { is_active = false })) c)
        → cron.parse j.time ≡ some expression
        → Fits json (record {
          event = EventType.put;
          job = to_etcd_struct (job_of (record j { is_active = false })) c;
        })
        → ((delete_job table category_table kv decode encode decode_category encode_category fuel j
              w).0
            ≡ true)
          × (value
                (job_etcd_key c.name j.id)
                (delete_job table category_table kv decode encode decode_category encode_category
                  fuel j w).1.etcd
              ≡ some (encode (to_etcd_struct (job_of (record j { is_active = false })) c)))
          × (lookup
                (job_key c.name j.id)
                (handle_all cron json clock
                  (reade_loop json spares (
                    to_client json client
                      (WatchEvent.put
                          (job_etcd_key c.name j.id)
                          (encode (to_etcd_struct (job_of (record j { is_active = false })) c))
                        ∷ [])
                      (watch_job json)))
                  s).job_plan_table
              ≡ none)
    unfolding to_etcd_struct
    delete_job_unplans cron json client clock spares s expression decoded parsed fit =
        let e = to_etcd_struct (job_of (inactive j)) c in
        (
          answered,
          published,
          put_inactive_unplans cron json client (job_etcd_key c.name j.id) (encode e) e expression
              clock spares s decoded refl parsed fit,
        )
