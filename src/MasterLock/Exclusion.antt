-- ===== src/MasterLock/Exclusion.antt =====
-- Locks of one name that are asked for after one was granted (backend/common/repositories/lock.go,
-- backend/master/web/controllers/lock.go).
use cronjob.Base.{
  ℕ, ◌≡◌, ◌≢◌, refl, sym, ◌∙◌, Bool, true, false, Option, none, some, List, [], ◌∷◌, Text, All,
  arith, decimal,
}
use cronjob.Base.Int.{ℤ, pos_part}
use cronjob.Executor.{Result, ok, err}
use cronjob.MasterLock.{
  Etcd, Lock, or_ten, or_zero, new_lock, create_trimmed, trim_space, lock_key, clamp_ttl, after_txn,
  after_grant, create, lease, release, post_create, post_lease, delete_release_by, Request,
  post_create_request, post_lease_request, delete_release_request, lease_expires, serve, serve_all,
}

module _ (etcd : Etcd) where
  open etcd use {
    State, holder, granted, grant, put_if_new, keep_alive_once, revoke, expire, held_granted,
    grant_new, grant_keeps, put_true, put_keeps, put_only, keep_alive_keeps, revoke_only,
    expire_only,
  }

  -- What a new lease's own transaction and revoking do to a key that hangs on another lease.
  held-after_txn :
      (lock : Lock) (k : Text) (m : ℕ) (r : Option Bool × State)
      → m ≢ lock.lease_id
      → holder k r.1 ≡ some m
      → holder k (after_txn etcd lock r).1 ≡ some m
  held-after_txn lock k m (none, s) ne h = ground (arith, revoke_only lock.lease_id s k, h, ne)
  held-after_txn lock k m (some false, s) ne h =
      ground (arith, revoke_only lock.lease_id s k, h, ne)
  held-after_txn lock k m (some true, s) ne h = h

  held-after_grant :
      (key : Text) (ttl : ℤ) (password : Text) (k : Text) (m : ℕ) (g : Option ℕ) (s : State)
      → ((l : ℕ) → g ≡ some l → m ≢ l)
      → holder k s ≡ some m
      → holder k (after_grant etcd key ttl password (g, s)).1 ≡ some m
  held-after_grant key ttl password k m none s ne h = h
  held-after_grant key ttl password k m (some l) s ne h =
      held-after_txn (new_lock key ttl password l) k m (put_if_new key password l s) (ne l refl)
        (put_keeps key password l s k m h)

  held-create_trimmed :
      (clock : ℕ) (key : Text) (t : ℤ) (name : Text) (s : State) (k : Text) (m : ℕ)
      → holder k s ≡ some m
      → holder k (create_trimmed etcd clock key t name s).1 ≡ some m
  held-create_trimmed clock key t [] s k m h = h
  held-create_trimmed clock key t (c ∷ cs) s k m h =
      held-after_grant key t (decimal clock) k m (grant t s).0 (grant t s).1
        (λ l g e. cc (held_granted k m s h, (grant_new t s l g).0, e)) (grant_keeps t s k ∙ h)

  -- A request that does not release the lease `m`, and not its end.
  abbrev pub IsOther : ℕ → Request → Type 0
  IsOther m (post_create_request clock name ttl) = Unit
  IsOther m (post_lease_request id password) = Unit
  IsOther m (delete_release_request id password) = pos_part id ≢ m
  IsOther m (lease_expires l) = l ≢ m

  held-lease :
      (id : ℤ) (s : State) (k : Text) (m : ℕ)
      → holder k s ≡ some m
      → holder k (lease etcd id s).1 ≡ some m
  unfolding lease
  held-lease id s k m h = ground (arith, keep_alive_keeps (pos_part id) s k, h)

  held-release :
      (id : ℤ) (s : State) (k : Text) (m : ℕ)
      → pos_part id ≢ m
      → holder k s ≡ some m
      → holder k (release etcd id s).1 ≡ some m
  unfolding release
  held-release id s k m o h = ground (arith, revoke_only (pos_part id) s k, o, h)

  held-serve :
      (r : Request) (s : State) (k : Text) (m : ℕ)
      → IsOther m r
      → holder k s ≡ some m
      → holder k (serve etcd r s) ≡ some m
  unfolding serve post_create create post_lease delete_release_by
  held-serve (post_create_request clock name ttl) s k m o h =
      held-create_trimmed clock (lock_key name) _ (trim_space name) s k m h
  held-serve (post_lease_request id password) s k m o h = held-lease (or_zero id) s k m h
  held-serve (delete_release_request id password) s k m o h = held-release id s k m o h
  held-serve (lease_expires l) s k m o h = ground (arith, expire_only l s k, o, h)

  held-serve_all :
      (rs : List Request) (s : State) (k : Text) (m : ℕ)
      → All (IsOther m) rs
      → holder k s ≡ some m
      → holder k (serve_all etcd rs s) ≡ some m
  unfolding serve_all
  held-serve_all [] s k m o h = h
  held-serve_all (r ∷ rs) s k m (o, os) h =
      held-serve_all rs (serve etcd r s) k m os (held-serve r s k m o h)

  -- A lock that is granted is the holder of its key, which nobody held before.
  IsGranted : Text → State → Result Lock × State → Type 0
  IsGranted key s (err e, s') = Unit
  IsGranted key s (ok lock, s') =
      (lock.is_active ≡ true) × (holder key s ≡ none) × (holder key s' ≡ some lock.lease_id)

  IsGranted-after_txn :
      (key : Text) (s : State) (lock : Lock) (r : Option Bool × State)
      → (r.0 ≡ some true → (holder key s ≡ none) × (holder key r.1 ≡ some lock.lease_id))
      → IsGranted key s (after_txn etcd lock r)
  unfolding IsGranted
  IsGranted-after_txn key s lock (none, s') law = tt
  IsGranted-after_txn key s lock (some false, s') law = tt
  IsGranted-after_txn key s lock (some true, s') law = let x = law refl in (refl, x.0, x.1)

  IsGranted-after_grant :
      (key : Text) (ttl : ℤ) (password : Text) (s : State) (g : Option ℕ) (s' : State)
      → holder key s' ≡ holder key s
      → IsGranted key s (after_grant etcd key ttl password (g, s'))
  unfolding IsGranted
  IsGranted-after_grant key ttl password s none s' same = tt
  IsGranted-after_grant key ttl password s (some l) s' same =
      IsGranted-after_txn key s (new_lock key ttl password l) (put_if_new key password l s')
        (λ e. let p = put_true key password l s' e in (sym same ∙ p.0, p.1))

  IsGranted-create_trimmed :
      (clock : ℕ) (key : Text) (t : ℤ) (name : Text) (s : State)
      → IsGranted key s (create_trimmed etcd clock key t name s)
  unfolding IsGranted
  IsGranted-create_trimmed clock key t [] s = tt
  IsGranted-create_trimmed clock key t (c ∷ cs) s =
      IsGranted-after_grant key t (decimal clock) s (grant t s).0 (grant t s).1
        (grant_keeps t s key)

  held-granted :
      (key : Text) (s : State) (r : Result Lock × State) (lock : Lock)
      → r.0 ≡ ok lock
      → IsGranted key s r
      → holder key r.1 ≡ some lock.lease_id
  unfolding IsGranted
  held-granted key s (err x, s') lock e g = cc e
  held-granted key s (ok l, s') lock e g = let same : l ≡ lock = cc e in cc (g.2, same)

  granted_exclusive :
      (key : Text) (m : ℕ) (s : State) (r : Result Lock × State)
      → holder key s ≡ some m
      → IsGranted key s r
      → (lock : Lock) → r.0 ≢ ok lock
  unfolding IsGranted
  granted_exclusive key m s (err x, s') h g lock e = cc e
  granted_exclusive key m s (ok l, s') h g lock e = cc (h, g.1)

  -- Once a request for a lock is granted, and as long as no request releases its lease and the lease
  -- does not end in etcd, no request for the same name is granted, whatever else is asked of the
  -- master in between and with whichever password.
  pub lock_excludes :
      (clock clock' : ℕ) (name : Text) (ttl ttl' : Option ℤ) (s : State) (lock lock' : Lock)
      (between : List Request)
      → (post_create etcd clock name ttl s).0 ≡ ok lock
      → All (IsOther lock.lease_id) between
      → (post_create etcd clock' name ttl'
          (serve_all etcd between (post_create etcd clock name ttl s).1)).0
        ≢ ok lock'
  unfolding post_create create
  lock_excludes clock clock' name ttl ttl' s lock lock' between e others =
      let key = lock_key name in
      let r = create_trimmed etcd clock key (clamp_ttl (or_ten ttl)) (trim_space name) s in
      let held =
        held-granted key s r lock e (IsGranted-create_trimmed clock key _ (trim_space name) s) in
      granted_exclusive key lock.lease_id _ _
        (held-serve_all between r.1 key lock.lease_id others held)
        (IsGranted-create_trimmed clock' key _ (trim_space name) _) lock'
