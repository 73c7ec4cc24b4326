-- ===== src/Kills/Ended.antt =====
-- The end of a kill (backend/common/repositories/kill.go, `SetFinishedByID`): its row and its key in
-- etcd.
use cronjob.Base.{
  ℕ, ◌≡◌, refl, ap, subst, ◌∙◌, Bool, true, false, ◌++◌, Option, none, some, [], leb, length,
  if◌then◌else◌, if_false, Text, codes, decimal, arith, delete, text_eq, ◌≤◌,
}
use mathlib.Core.List.{append_assoc}
use cronjob.Base.Int.{pos}
use cronjob.Base.Time.{Time}
use cronjob.Executor.{Result, ok, err}
use cronjob.Packet.{Bytes}
use cronjob.MasterLock.{trim_space}
use cronjob.Database.{drop_id_keys, Table}
use cronjob.KeyStore.{Kv, has_prefix, single_slashes, delete_from_etcd, delete_answer}
use cronjob.KeyStore.Deleting.{delete_from_etcd-below, value-delete_answer}
use cronjob.KeyStore.Slashes.{IsSegment, single_slashes-key, trim_space-key}
use cronjob.Kills.{
  JobKill, KillEtcd, schema, World, kill_dir, kill_etcd_key, info_fields, end_fields,
  delete_job_kill_from_etcd, sync_if, get, finish_got, set_finished_by_id, update_kill,
}
use cronjob.Kills.Laws.{IsGorm, end_fields-Lacks}
use cronjob.Kills.Synced.{update_kill-sync}

pub kill_etcd_key-trimmed :
    (category : Text) (n : ℕ) → trim_space (kill_etcd_key category n) ≡ kill_etcd_key category n
unfolding kill_etcd_key
kill_etcd_key-trimmed category n =
    subst (λ t. trim_space (kill_dir ++ t) ≡ kill_dir ++ t)
      (append_assoc category (codes "/") (decimal n))
      (trim_space-key (codes "crontab/kill/" ++ (category ++ codes "/")) n)

kill_etcd_key-single :
    (category : Text) (n : ℕ)
    → IsSegment category
    → single_slashes (kill_etcd_key category n) ≡ kill_etcd_key category n
unfolding kill_etcd_key
kill_etcd_key-single category n h =
    single_slashes-key (codes "crontab") (codes "kill") category n (omega arith) (omega arith) h

kill_etcd_key-below :
    (category : Text) (n : ℕ) → has_prefix kill_dir (kill_etcd_key category n) ≡ true
unfolding kill_etcd_key has_prefix
kill_etcd_key-below category n = refl

pub kill_etcd_key-full :
    (category : Text) (n : ℕ) → leb (length (kill_etcd_key category n)) 0 ≡ false
unfolding kill_etcd_key
kill_etcd_key-full category n = ground arith

module _ (table : Table schema) (kv : Kv) (decode : Bytes → Result KillEtcd)
    (encode : KillEtcd → Bytes) where
  open table use {row, assign, update, update_own, first_ok}
  open kv use {value}

  abbrev W : Type 0
  W = World table.State kv.State

  -- The deletion of a kill whose key in etcd is not loaded.
  value-delete_job_kill :
      (k : JobKill) (w : W) (p : Option Bytes)
      → k.etcd_key ≡ []
      → IsSegment k.category
      → (kv.delete (kill_etcd_key k.category k.job_id) w.etcd).0 ≡ ok p
      → value
          (kill_etcd_key k.category k.job_id)
          (delete_job_kill_from_etcd table kv decode encode k w).1.etcd
        ≡ none
  unfolding delete_job_kill_from_etcd
  value-delete_job_kill k w p unkeyed segment answered =
      let key = kill_etcd_key k.category k.job_id in
      let full : leb (length key) 0 ≡ false = kill_etcd_key-full k.category k.job_id in
      let empty : leb (length k.etcd_key) 0 ≡ true = ap (λ t. leb (length t) 0) unkeyed in
      let chosen : (if leb (length k.etcd_key) 0 then key else k.etcd_key) ≡ key =
        ap (λ b. if b then key else k.etcd_key) empty in
      let e : delete_from_etcd kv kill_dir key w.etcd ≡ delete_answer kv (kv.delete key w.etcd) =
        delete_from_etcd-below kv kill_dir key w.etcd (kill_etcd_key-trimmed k.category k.job_id)
          (kill_etcd_key-single k.category k.job_id segment)
          (kill_etcd_key-below k.category k.job_id) full in
      ap (λ t. value key (delete_from_etcd kv kill_dir t w.etcd).1) chosen
      ∙ ap (λ (r : Result Bool × kv.State). value key r.1) e
      ∙ value-delete_answer kv key w.etcd p answered

  finish_got-going :
      (r : Result JobKill) (k : JobKill) (now : Time) (w : W)
      → r ≡ ok k
      → k.killed ≡ false
      → finish_got table kv decode encode r now w
        ≡ update_kill table kv decode encode k (end_fields now) w
  finish_got-going (ok k') k now w e going =
      let same : k' ≡ k = cc in
      let going' : k'.killed ≡ false = ap (λ (q : JobKill). q.killed) same ∙ going in
      if_false k'.killed _ _ going'
      ∙ ap (λ q. update_kill table kv decode encode q (end_fields now) w) same
  finish_got-going (err t) k now w e going = cc

  -- The fields of the end have no ID to drop.
  drop-end_fields : (now : Time) → drop_id_keys (end_fields now) ≡ end_fields now
  unfolding drop_id_keys delete text_eq
  drop-end_fields now = refl

  sync_if-killed :
      (b : Bool) (k : JobKill) (w : W)
      → b ≡ true
      → sync_if table kv decode encode b k w
        ≡ (ok k, (delete_job_kill_from_etcd table kv decode encode k w).1)
  sync_if-killed true k w e = refl
  sync_if-killed false k w e = cc

  db-delete_job_kill :
      (k : JobKill) (w : W) → (delete_job_kill_from_etcd table kv decode encode k w).1.db ≡ w.db
  unfolding delete_job_kill_from_etcd
  db-delete_job_kill k w = refl

  module _ (gorm : IsGorm table) (full : JobKill) (now : Time) (w : W) where
    abbrev ended : JobKill → JobKill
    ended k = record k { finished_at = some now; killed = true }

    -- The steps of the operation, one after the other.
    set_finished_by_id-steps :
        get table kv decode encode (pos full.id) w ≡ ok (info_fields full)
        → full.killed ≡ false
        → 1 ≤ full.id
        → (update (info_fields full) (end_fields now) w.db).0 ≡ none
        → set_finished_by_id table kv decode encode (pos full.id) now w ≡ (
          ok (ended (info_fields full)),
          (delete_job_kill_from_etcd table kv decode encode
              (ended (info_fields full))
              (record w { db = (update (info_fields full) (end_fields now) w.db).1 })).1,
        )
    unfolding set_finished_by_id
    set_finished_by_id-steps got going given taken =
        let k = info_fields full in
        let f = end_fields now in
        let assigned : assign (drop_id_keys f) k ≡ ended k =
          ap (λ g. assign g k) (drop-end_fields now) ∙ gorm.assign_end now k in
        let taken' : (update k (drop_id_keys f) w.db).0 ≡ none =
          ap (λ g. (update k g w.db).0) (drop-end_fields now) ∙ taken in
        let written : W = record w { db = (update k (drop_id_keys f) w.db).1 } in
        finish_got-going (get table kv decode encode (pos full.id) w) k now w got going
        ∙ update_kill-sync table kv decode encode k f w (ground arith) taken'
        ∙ ap (λ q. sync_if table kv decode encode q.killed q written) assigned
        ∙ ap
            (λ g.
              sync_if table kv decode encode true (ended k) (record w { db = (update k g w.db).1 }))
            (drop-end_fields now)

    -- When an unfinished kill of a category without slashes is read and set to finished, and the
    -- database takes the update and etcd the deletion: the kill is answered with its end, its row has
    -- that end and is killed, and etcd has nothing under its key any more.
    pub set_finished_ends :
        (p : Option Bytes)
        → row full.id w.db ≡ some full
        → get table kv decode encode (pos full.id) w ≡ ok (info_fields full)
        → full.killed ≡ false
        → 1 ≤ full.id
        → IsSegment full.category
        → (update (info_fields full) (end_fields now) w.db).0 ≡ none
        → (kv.delete (kill_etcd_key full.category full.job_id) w.etcd).0 ≡ ok p
        → ((set_finished_by_id table kv decode encode (pos full.id) now w).0
            ≡ ok (record (info_fields full) { finished_at = some now; killed = true }))
          × (row full.id (set_finished_by_id table kv decode encode (pos full.id) now w).1.db
              ≡ some (record full { finished_at = some now; killed = true }))
          × (value
                (kill_etcd_key full.category full.job_id)
                (set_finished_by_id table kv decode encode (pos full.id) now w).1.etcd
              ≡ none)
    set_finished_ends p stored got going given segment taken answered =
        let k = info_fields full in
        let written : W = record w { db = (update k (end_fields now) w.db).1 } in
        let steps = set_finished_by_id-steps got going given taken in
        let own : row full.id written.db ≡ some (assign (end_fields now) full) =
          update_own k (end_fields now) w.db full (end_fields-Lacks now) (omega arith) stored
            taken in
        (
          ap (λ (r : Result JobKill × W). r.0) steps,
          ap (λ (r : Result JobKill × W). row full.id r.1.db) steps
              ∙ ap (row full.id) (db-delete_job_kill (ended k) written)
              ∙ own
              ∙ ap some (gorm.assign_end now full),
          ap (λ (r : Result JobKill × W). value (kill_etcd_key full.category full.job_id) r.1.etcd)
                steps
              ∙ value-delete_job_kill (ended k) written p refl segment answered,
        )
