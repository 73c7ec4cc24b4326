-- ===== src/Executions/Recorded.antt =====
-- What the result of an execution leaves in the database and in MongoDB
-- (backend/common/repositories/jobExecute.go, `SaveExecuteLog`).
use cronjob.Base.{
  ℕ, ◌≤◌, ◌≡◌, ◌≢◌, refl, sym, ap, subst, ◌∙◌, Bool-cases, inl, inr, ◌==◌, Option, none, some, ltb,
  if_true, if_false, Text, codes, lookup, delete, text_eq, arith,
}
use cronjob.Base.Int.{pos, leb_ℤ}
use cronjob.Base.Time.{Time}
use cronjob.Data.{JobExecute, JobExecuteResult}
use cronjob.Executor.{Result, ok, err}
use cronjob.Packet.{Bytes}
use cronjob.Push.{JobKill}
use cronjob.Database.{Fields, Lacks, id_keys, drop_id_keys, Table}
use cronjob.KeyStore.{Kv}
use cronjob.Executions.{
  schema, final_status, log_of, log_fields, Mongo, World, with_id, get, updated, update_execute,
  update_got, update_by_id, record_log, save_execute_log,
}

-- gorm finds a field by its name or by the name of its column.
pub record IsGorm (table : Table schema) : Type 0 where
  pub assign_log :
      (log_id status : Text) (now : Time) (r : JobExecute)
      → table.assign (log_fields log_id status now) r
        ≡ record r { log_id = log_id; status = status; end_time = now }

log_fields-Lacks :
    (log_id status : Text) (now : Time) → Lacks id_keys (log_fields log_id status now)
unfolding lookup text_eq
log_fields-Lacks log_id status now = (refl, (refl, (refl, (refl, tt))))

drop-log_fields :
    (log_id status : Text) (now : Time)
    → drop_id_keys (log_fields log_id status now) ≡ log_fields log_id status now
unfolding drop_id_keys delete text_eq
drop-log_fields log_id status now = refl

-- An execution that is found has an ID.
pub with_id-ok :
    (x : Result JobExecute) (r : JobExecute) → with_id x ≡ ok r → (x ≡ ok r) × (1 ≤ r.id)
with_id-ok (ok q) r e = elim (Bool-cases (ltb 0 q.id)) [
  | inl given ↦
      let got : ok q ≡ ok r = sym (if_true (ltb 0 q.id) _ _ given) ∙ e in
      let same : q ≡ r = cc got in (got, subst (λ (p : JobExecute). 1 ≤ p.id) same (ground arith))
  | inr zero_id ↦
      let gone : err (codes "404 not fount") ≡ ok r = sym (if_false (ltb 0 q.id) _ _ zero_id) ∙ e in
      absurd (cc gone)
]
with_id-ok (err t) r e = absurd (cc e)

module _ (table : Table schema) (mongo : Mongo) (kv : Kv) (encode : JobKill → Bytes) where
  open table use {row, assign, update}

  abbrev pub W : Type 0
  W = World table.State mongo.State kv.State

  -- An execution that is read is the row with that ID.
  pub get-row :
      (n : ℕ) (w : W) (r : JobExecute)
      → get table mongo kv encode (pos n) w ≡ ok r
      → (row n w.db ≡ some r) × (r.id ≡ n) × (1 ≤ n)
  unfolding get
  get-row n w r got =
      let (read, given) = with_id-ok _ r got in
      let (full, stored, at, same) = table.first_ok (λ q. q) (pos n) w.db r read in
      let id : r.id ≡ full.id = ap (λ (q : JobExecute). q.id) same in
      let n_id : n ≡ full.id = cc at in
      (ap (λ m. row m w.db) n_id ∙ stored ∙ ap some (sym same), id ∙ sym n_id, omega arith)

  updated-none :
      (x : Option Text × table.State) (r : JobExecute) (w : W)
      → x.0 ≡ none
      → updated table mongo kv encode x r w ≡ (ok r, record w { db = x.1 })
  updated-none (none, d) r w e = refl
  updated-none (some t, d) r w e = cc

  update_got-ok :
      (x : Result JobExecute) (r : JobExecute) (fields : Fields) (w : W)
      → x ≡ ok r
      → update_got table mongo kv encode x fields w
        ≡ update_execute table mongo kv encode r fields w
  update_got-ok (ok q) r fields w e =
      ap (λ p. update_execute table mongo kv encode p fields w) (let s : q ≡ r = cc e in s)
  update_got-ok (err t) r fields w e = absurd (cc e)

  -- An update by ID, of fields without one, that the database takes.
  update_by_id-steps :
      (n : ℕ) (r : JobExecute) (fields : Fields) (w : W)
      → get table mongo kv encode (pos n) w ≡ ok r
      → drop_id_keys fields ≡ fields
      → (update r fields w.db).0 ≡ none
      → update_by_id table mongo kv encode (pos n) fields w
        ≡ (ok (assign fields r), record w { db = (update r fields w.db).1 })
  unfolding update_by_id update_execute
  update_by_id-steps n r fields w got kept taken =
      let (stored, id, given) = get-row n w r got in
      let taken' : (update r (drop_id_keys fields) w.db).0 ≡ none =
        ap (λ f. (update r f w.db).0) kept ∙ taken in
      if_false (leb_ℤ (pos n) (pos 0)) _ _ (ground arith)
      ∙ update_got-ok (get table mongo kv encode (pos n) w) r fields w got
      ∙ if_false (r.id == 0) _ _ (ground arith)
      ∙ updated-none _ _ w taken'
      ∙ ap
          (λ f.
            let v : Result JobExecute × W =
              (ok (assign f r), record w { db = (update r f w.db).1 }) in
            v)
          kept

  record_log-ok :
      (x : Result Text × mongo.State) (r : JobExecuteResult) (now : Time) (w : W) (log_id : Text)
      (v : Result JobExecute × W) (q : JobExecute)
      → x.0 ≡ ok log_id
      → update_by_id table mongo kv encode
          (pos r.execute_id)
          (log_fields log_id (final_status r) now)
          (record w { mongo = x.1 })
        ≡ v
      → v.0 ≡ ok q
      → record_log table mongo kv encode x r now w ≡ (ok (some q), v.1)
  record_log-ok (ok i, m) r now w log_id (ok p, u) q e h k =
      let same : i ≡ log_id = cc e in
      let done : p ≡ q = cc k in
      let h' : update_by_id table mongo kv encode (pos r.execute_id)
            (log_fields i (final_status r) now) (record w { mongo = m })
          ≡ (ok p, u) =
        ap
          (λ t.
            update_by_id table mongo kv encode (pos r.execute_id)
              (log_fields t (final_status r) now) (record w { mongo = m }))
          same
        ∙ h in
      rw (h', done) refl
  record_log-ok (ok i, m) r now w log_id (err t, u) q e h k = absurd (cc k)
  record_log-ok (err t, m) r now w log_id v q e h k = absurd (cc e)

  module _ (gorm : IsGorm table) (r : JobExecuteResult) (now : Time) (w : W) (log_id : Text)
      (full : JobExecute) where
    abbrev ended : JobExecute
    ended = record full { log_id = log_id; status = final_status r; end_time = now }

    abbrev fields : Fields
    fields = log_fields log_id (final_status r) now

    pub save_execute_log_records :
        get table mongo kv encode (pos r.execute_id) w ≡ ok full
        → (mongo.insert_one (log_of r) w.mongo).0 ≡ ok log_id
        → (update full (log_fields log_id (final_status r) now) w.db).0 ≡ none
        → ((save_execute_log table mongo kv encode r now w).0
            ≡ ok (some (record full { log_id = log_id; status = final_status r; end_time = now })))
          × (row r.execute_id (save_execute_log table mongo kv encode r now w).1.db
              ≡ some (record full { log_id = log_id; status = final_status r; end_time = now }))
          × ((n : ℕ)
              → n ≢ r.execute_id
              → row n (save_execute_log table mongo kv encode r now w).1.db ≡ row n w.db)
          × (mongo.log_at log_id (save_execute_log table mongo kv encode r now w).1.mongo
              ≡ some (log_of r))
    unfolding save_execute_log
    save_execute_log_records got inserted taken =
        let w' : W = record w { mongo = (mongo.insert_one (log_of r) w.mongo).1 } in
        let written : W = record w' { db = (update full fields w.db).1 } in
        let (stored, id, given) = get-row r.execute_id w full got in
        let lacks = log_fields-Lacks log_id (final_status r) now in
        let pos_id : full.id ≢ 0 = λ e. absurd (omega (arith, e, id, given)) in
        let stepped =
          update_by_id-steps r.execute_id full fields w' got (drop-log_fields _ _ now) taken in
        let assigned : assign fields full ≡ ended =
          gorm.assign_log log_id (final_status r) now full in
        let steps : save_execute_log table mongo kv encode r now w ≡ (ok (some ended), written) =
          record_log-ok (mongo.insert_one (log_of r) w.mongo) r now w log_id _ ended inserted
            stepped (ap ok assigned) in
        let own : row full.id written.db ≡ some (assign fields full) =
          table.update_own full fields w.db full lacks pos_id (ap (λ m. row m w.db) id ∙ stored)
            taken in
        (
          ap (λ (v : Result (Option JobExecute) × W). v.0) steps,
          ap (λ (v : Result (Option JobExecute) × W). row r.execute_id v.1.db) steps
              ∙ ap (λ m. row m written.db) (sym id)
              ∙ own
              ∙ ap some assigned,
          λ n ne.
              ap (λ (v : Result (Option JobExecute) × W). row n v.1.db) steps
              ∙ table.update_others full fields w.db n lacks pos_id (λ e. ne (e ∙ id)),
          ap (λ (v : Result (Option JobExecute) × W). mongo.log_at log_id v.1.mongo) steps
              ∙ mongo.insert_ok (log_of r) w.mongo log_id inserted,
        )
