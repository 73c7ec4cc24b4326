-- ===== src/MasterLock/Failing.antt =====
-- A request for a lock that fails (backend/common/repositories/lock.go, `Create`).
use cronjob.Base.{
  ℕ, ◌≡◌, ◌⊎◌, ◌≢◌, refl, ◌∙◌, inl, inr, Bool, true, false, Option, none, some, [], ◌∷◌, Text,
  Option-cases, arith, decimal,
}
use cronjob.Base.Int.{ℤ, pos, ◌≤ℤ◌}
use cronjob.Executor.{Result, ok, err}
use cronjob.MasterLock.{
  Etcd, Lock, new_lock, trim_space, lock_key, clamp_ttl, after_txn, after_grant, create_trimmed,
  create, or_ten, post_create,
}

module _ (etcd : Etcd) where
  open etcd use {
    State, holder, granted, grant, put_if_new, revoke, held_granted, grant_new, grant_keeps,
    put_keeps, put_only, revoke_only, revoke_all,
  }

  -- After a failed request every key hangs on what it did before.
  LeavesNothing : State → Result Lock × State → Type 0
  LeavesNothing s (ok lock, s') = Unit
  LeavesNothing s (err e, s') = (k : Text) → holder k s' ≡ holder k s

  failing :
      (s : State) (r : Result Lock × State) (e : Text)
      → r.0 ≡ err e
      → LeavesNothing s r
      → (k : Text) → holder k r.1 ≡ holder k s
  unfolding LeavesNothing
  failing s (ok lock, s') e failed x = cc failed
  failing s (err x, s') e failed same = same

  module _ (revokes : (l : ℕ) (s : State) → (revoke l s).0 ≡ true) where
    -- Revoking a new lease undoes whatever its transaction has done.
    undone :
        (l : ℕ) (s s' : State) (k : Text)
        → holder k s ≢ some l
        → ((m : ℕ) → holder k s ≡ some m → holder k s' ≡ some m)
        → (holder k s' ≡ holder k s) ⊎ (holder k s' ≡ some l)
        → holder k (revoke l s').1 ≡ holder k s
    undone l s s' k ne keeps only = elim (Option-cases (holder k s)) [
      | inl free ↦ ground (arith, free, only, revoke_only l s' k, revoke_all l s' k (revokes l s'))
      | inr (m, held) ↦ ground (arith, held, keeps m held, ne, revoke_only l s' k)
    ]

    LeavesNothing-after_txn :
        (s : State) (lock : Lock) (r : Option Bool × State)
        → ((k : Text) → holder k (revoke lock.lease_id r.1).1 ≡ holder k s)
        → LeavesNothing s (after_txn etcd lock r)
    unfolding LeavesNothing
    LeavesNothing-after_txn s lock (none, s') gone = gone
    LeavesNothing-after_txn s lock (some false, s') gone = gone
    LeavesNothing-after_txn s lock (some true, s') gone = tt

    LeavesNothing-after_grant :
        (key : Text) (ttl : ℤ) (password : Text) (s : State) (g : Option ℕ) (s' : State)
        → ((k : Text) → holder k s' ≡ holder k s)
        → ((k : Text) (l : ℕ) → g ≡ some l → holder k s ≢ some l)
        → LeavesNothing s (after_grant etcd key ttl password (g, s'))
    unfolding LeavesNothing
    LeavesNothing-after_grant key ttl password s none s' same new = same
    LeavesNothing-after_grant key ttl password s (some l) s' same new =
        let p = put_if_new key password l s' in
        LeavesNothing-after_txn s (new_lock key ttl password l) p (λ k.
          undone l s p.1 k (new k l refl)
            (λ m held. put_keeps key password l s' k m (same k ∙ held))
            (ground (arith, put_only key password l s' k, same k)))

    LeavesNothing-create_trimmed :
        (clock : ℕ) (key : Text) (t : ℤ) (name : Text) (s : State)
        → LeavesNothing s (create_trimmed etcd clock key t name s)
    unfolding LeavesNothing
    LeavesNothing-create_trimmed clock key t [] s = λ k. refl
    LeavesNothing-create_trimmed clock key t (c ∷ cs) s =
        LeavesNothing-after_grant key t (decimal clock) s (grant t s).0 (grant t s).1
          (grant_keeps t s) (λ k l g held. cc (held_granted k l s held, (grant_new t s l g).0))

    -- If etcd revokes without an error, then after a request for a lock that is not granted, at
    -- whatever point it failed, every key hangs on the lease that it hung on before.
    pub failed_request_leaves_nothing :
        (clock : ℕ) (name : Text) (ttl : Option ℤ) (s : State) (e : Text)
        → (post_create etcd clock name ttl s).0 ≡ err e
        → (k : Text) → holder k (post_create etcd clock name ttl s).1 ≡ holder k s
    unfolding post_create create
    failed_request_leaves_nothing clock name ttl s e failed =
        failing s
          (create_trimmed etcd clock (lock_key name) (clamp_ttl (or_ten ttl)) (trim_space name) s) e
          failed
          (LeavesNothing-create_trimmed clock (lock_key name) (clamp_ttl (or_ten ttl))
            (trim_space name) s)

-- Whatever time to live is asked for, from 1 to 300 seconds are asked of etcd.
pub clamp_ttl_bounds : (ttl : ℤ) → (pos 1 ≤ℤ clamp_ttl ttl) × (clamp_ttl ttl ≤ℤ pos 300)
unfolding clamp_ttl
clamp_ttl_bounds ttl = ground arith
