-- ===== src/MasterLock.antt =====
-- The locks that the master grants (backend/common/repositories/lock.go,
-- backend/master/web/services/lock.go, backend/master/web/controllers/lock.go), over an interface to
-- etcd. A lease is a number; the repository, the service and the controller are composed as in the
-- source, and every operation takes the state of etcd and returns it. The texts of the errors of etcd
-- are stood for by the name of the call.
pub mod Exclusion
pub mod Failing
mod Tests
use cronjob.Base.{
  ℕ, ◌≤◌, ◌≡◌, ◌⊎◌, ◌≢◌, Bool, true, false, ◌&&◌, ◌||◌, Option, none, some, List, [], ◌∷◌, ◌++◌,
  ltb, leb, ◌==◌, if◌then◌else◌, Text, codes, decimal,
}
use cronjob.Base.Int.{ℤ, pos, pos_part, ltb_ℤ, leb_ℤ}
use cronjob.Executor.{Result, ok, err}
use cronjob.JobLock.{BaseResponse}

-- The client of etcd. `holder` and `granted` observe the state: the lease that a key hangs on, and
-- whether a lease has been granted.
pub record Etcd : Type 1 where
  pub State : Type 0
  pub holder : Text → State → Option ℕ
  pub granted : ℕ → State → Bool
  -- `Lease.Grant`: none is an error
  pub grant : ℤ → State → Option ℕ × State
  -- the transaction of `Create`: whether it succeeded, none is an error of the commit
  pub put_if_new : Text → Text → ℕ → State → Option Bool × State
  -- `KeepAliveOnce` and `Revoke`: true is no error
  pub keep_alive_once : ℕ → State → Bool × State
  pub revoke : ℕ → State → Bool × State
  -- a lease runs out
  pub expire : ℕ → State → State
  -- a key hangs on a lease that has been granted, and a granted lease is new and above 0
  pub held_granted : (k : Text) (l : ℕ) (s : State) → holder k s ≡ some l → granted l s ≡ true
  pub grant_new :
      (ttl : ℤ) (s : State) (l : ℕ) → (grant ttl s).0 ≡ some l → (granted l s ≡ false) × (1 ≤ l)
  pub grant_keeps : (ttl : ℤ) (s : State) (k : Text) → holder k (grant ttl s).1 ≡ holder k s
  -- a transaction that is not known to fail writes a key that did not exist, under its lease, and
  -- nothing else is written
  pub put_true :
      (k v : Text) (l : ℕ) (s : State)
      → (put_if_new k v l s).0 ≡ some true
      → (holder k s ≡ none) × (holder k (put_if_new k v l s).1 ≡ some l)
  pub put_keeps :
      (k v : Text) (l : ℕ) (s : State) (j : Text) (m : ℕ)
      → holder j s ≡ some m
      → holder j (put_if_new k v l s).1 ≡ some m
  pub put_only :
      (k v : Text) (l : ℕ) (s : State) (j : Text)
      → (holder j (put_if_new k v l s).1 ≡ holder j s) ⊎ (holder j (put_if_new k v l s).1 ≡ some l)
  pub keep_alive_keeps :
      (l : ℕ) (s : State) (k : Text) → holder k (keep_alive_once l s).1 ≡ holder k s
  -- revoking deletes the keys of the lease and no others, and all of them if there is no error
  pub revoke_only :
      (l : ℕ) (s : State) (k : Text)
      → (holder k (revoke l s).1 ≡ holder k s)
        ⊎ ((holder k s ≡ some l) × (holder k (revoke l s).1 ≡ none))
  pub revoke_all :
      (l : ℕ) (s : State) (k : Text) → (revoke l s).0 ≡ true → holder k (revoke l s).1 ≢ some l
  pub expire_only :
      (l : ℕ) (s : State) (k : Text)
      → (holder k (expire l s) ≡ holder k s)
        ⊎ ((holder k s ≡ some l) × (holder k (expire l s) ≡ none))

-- `datamodels.Lock`
pub record Lock : Type 0 where
  pub name : Text
  pub ttl : ℤ
  pub password : Text
  pub lease_id : ℕ
  pub is_active : Bool

-- White space, as `unicode.IsSpace` has it.
abbrev pub is_space : ℕ → Bool
is_space c =
    leb 9 c && leb c 13
    || c == 32
    || c == 133
    || c == 160
    || c == 5760
    || leb 8192 c && leb c 8202
    || c == 8232
    || c == 8233
    || c == 8239
    || c == 8287
    || c == 12288

abbrev pub trim_left : Text → Text
trim_left [] = []
trim_left (c ∷ cs) = let rest = trim_left cs in if is_space c then rest else c ∷ cs

abbrev pub keep_before : ℕ → Text → Text
keep_before c [] = if is_space c then [] else c ∷ []
keep_before c (d ∷ ds) = c ∷ d ∷ ds

abbrev pub trim_right : Text → Text
trim_right [] = []
trim_right (c ∷ cs) = keep_before c (trim_right cs)

-- `strings.TrimSpace`
unfoldable pub trim_space : Text → Text
trim_space t = trim_right (trim_left t)

-- `ETCD_JOBS_LOCK_DIR`
unfoldable pub lock_key : Text → Text
unfolding trim_space
lock_key name = codes "/crontab/lock/" ++ trim_space name

-- The bounds on the time to live.
unfoldable pub clamp_ttl : ℤ → ℤ
clamp_ttl ttl =
    let t = if ltb_ℤ ttl (pos 1) then pos 10 else ttl in if ltb_ℤ (pos 300) t then pos 300 else t

-- `PostValueInt64Default` with 10 and with 0.
abbrev pub or_ten : Option ℤ → ℤ
or_ten none = pos 10
or_ten (some z) = z

abbrev pub or_zero : Option ℤ → ℤ
or_zero none = pos 0
or_zero (some z) = z

-- The lock before the transaction.
abbrev pub new_lock : Text → ℤ → Text → ℕ → Lock
new_lock key ttl password l = record {
  name = key;
  ttl = ttl;
  password = password;
  lease_id = l;
  is_active = false;
}

module _ (etcd : Etcd) where
  open etcd use {State, grant, put_if_new, keep_alive_once, revoke}

  -- From the transaction on. At `FAIL` the lease is revoked, whatever comes of it.
  abbrev pub after_txn : Lock → Option Bool × State → Result Lock × State
  after_txn lock (none, s) = (err (codes "commit"), (revoke lock.lease_id s).1)
  after_txn lock (some false, s) = (err (codes "锁已被占用:" ++ lock.name), (revoke lock.lease_id s).1)
  after_txn lock (some true, s) = (ok (record lock { is_active = true }), s)

  abbrev pub after_grant : Text → ℤ → Text → Option ℕ × State → Result Lock × State
  after_grant key ttl password (none, s) = (err (codes "grant"), s)
  after_grant key ttl password (some l, s) =
      after_txn (new_lock key ttl password l) (put_if_new key password l s)

  -- With the trimmed name, which is not to be empty.
  abbrev pub create_trimmed : ℕ → Text → ℤ → Text → State → Result Lock × State
  create_trimmed clock key ttl [] s = (err (codes "名字不可设置为空"), s)
  create_trimmed clock key ttl (c ∷ cs) s = after_grant key ttl (decimal clock) (grant ttl s)

  -- `lockRepository.Create`; `clock` is the time in nanoseconds, which is the password.
  unfoldable pub create : ℕ → Text → ℤ → State → Result Lock × State
  unfolding clamp_ttl trim_space lock_key
  create clock name ttl s = create_trimmed clock (lock_key name) (clamp_ttl ttl) (trim_space name) s

  -- `lockRepository.Lease` and `lockRepository.Release`: the error, if there is one.
  unfoldable pub lease : ℤ → State → Option Text × State
  lease id s =
      if leb_ℤ id (pos 0)
      then (some (codes "租约ID小于0"), s)
      else (let (fine, s') = keep_alive_once (pos_part id) s in
          (if fine then none else some (codes "keep alive"), s'))

  unfoldable pub release : ℤ → State → Option Text × State
  release id s =
      if leb_ℤ id (pos 0)
      then (some (codes "租约ID小于0"), s)
      else (let (fine, s') = revoke (pos_part id) s in
          (if fine then none else some (codes "revoke"), s'))

  abbrev to_response : Text → Option Text → BaseResponse
  to_response message none = record { status = codes "success"; message = message }
  to_response message (some e) = record { status = codes "error"; message = e }

  -- `LockController.PostCreate`, through `lockService.Create`; an absent or unreadable `ttl` is 10.
  unfoldable pub post_create : ℕ → Text → Option ℤ → State → Result Lock × State
  unfolding create
  post_create clock name ttl s = create clock name (or_ten ttl) s

  -- `LockController.PostLease`, through `lockService.Lease`, which does not look at the password.
  unfoldable pub post_lease : Option ℤ → Text → State → BaseResponse × State
  unfolding lease
  post_lease id password s =
      let (e, s') = lease (or_zero id) s in
      (to_response (codes "租约" ++ decimal (pos_part (or_zero id)) ++ codes "续租成功") e, s')

  -- `LockController.DeleteReleaseBy`, through `lockService.Release`, which does not look at it either.
  unfoldable pub delete_release_by : ℤ → Text → State → BaseResponse × State
  unfolding release
  delete_release_by id password s =
      let (e, s') = release id s in
      (to_response (codes "租约" ++ decimal (pos_part id) ++ codes "释放成功") e, s')

-- What may happen to the locks: requests to the master, and the end of a lease in etcd.
pub data Request : Type 0 where
  post_create_request : ℕ → Text → Option ℤ → Request
  post_lease_request : Option ℤ → Text → Request
  delete_release_request : ℤ → Text → Request
  lease_expires : ℕ → Request

module _ (etcd : Etcd) where
  open etcd use {State, expire}

  unfoldable pub serve : Request → State → State
  unfolding post_create post_lease delete_release_by
  serve (post_create_request clock name ttl) s = (post_create etcd clock name ttl s).1
  serve (post_lease_request id password) s = (post_lease etcd id password s).1
  serve (delete_release_request id password) s = (delete_release_by etcd id password s).1
  serve (lease_expires l) s = expire l s

  unfoldable pub serve_all : List Request → State → State
  unfolding serve
  serve_all [] s = s
  serve_all (r ∷ rs) s = serve_all rs (serve r s)
