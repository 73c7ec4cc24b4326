-- ===== src/MasterLock/Tests.antt =====
-- The locks of the master (backend/common/repositories/lock.go) over a concrete etcd.
use cronjob.Base.{
  ℕ, suc, ◌≤◌, ◌≡◌, ◌≢◌, ◌⊎◌, refl, inl, inr, Bool, true, false, Bool-cases, Option, none, some,
  List, [], ◌∷◌, Text, codes, text_eq, text_eq_iff, text_eq_refl, leb, ◌==◌, arith, if◌then◌else◌,
  decimal,
}
use cronjob.Base.Int.{pos}
use cronjob.Executor.{ok}
use cronjob.MasterLock.{
  Etcd, Lock, trim_space, lock_key, clamp_ttl, post_create, Request, post_create_request,
  post_lease_request, delete_release_request, serve_all,
}
use cronjob.MasterLock.Exclusion.{lock_excludes}
use cronjob.MasterLock.Failing.{failed_request_leaves_nothing}

-- The leases from 1 to `last` were granted; a key hangs on one of them.
record Keys : Type 0 where
  last : ℕ
  lease_of : Text → Option ℕ
  old : (k : Text) (l : ℕ) → lease_of k ≡ some l → leb l last ≡ true

abbrev without : ℕ → Option ℕ → Option ℕ
without l none = none
without l (some m) = if m == l then none else some m

old-without :
    (l m n : ℕ) (o : Option ℕ)
    → ((i : ℕ) → o ≡ some i → leb i n ≡ true)
    → without l o ≡ some m
    → leb m n ≡ true
old-without l m n none old h = cc h
old-without l m n (some i) old h = ground (arith, old i refl, h)

abbrev drop_lease : ℕ → Keys → Keys
drop_lease l s = record {
  last = s.last;
  lease_of = λ k. without l (s.lease_of k);
  old = λ k m h. old-without l m s.last (s.lease_of k) (s.old k) h;
}

only-without : (l : ℕ) (o : Option ℕ) → (without l o ≡ o) ⊎ ((o ≡ some l) × (without l o ≡ none))
only-without l none = inl refl
only-without l (some m) = ground arith

gone-without : (l : ℕ) (o : Option ℕ) → without l o ≢ some l
gone-without l none e = cc e
gone-without l (some m) e = ground (arith, e)

old-written :
    (k : Text) (l : ℕ) (s : Keys) (j : Text) (m : ℕ)
    → (if text_eq k j then (if leb l s.last then some l else none) else s.lease_of j) ≡ some m
    → leb m s.last ≡ true
old-written k l s j m h = ground (arith, h, s.old j m)

-- A key is written if it hangs on nothing and the lease was granted.
abbrev written : Text → ℕ → Option ℕ → Bool → Keys → Option Bool × Keys
written k l (some m) known s = (some false, s)
written k l none false s = (none, s)
written k l none true s = (
  some true,
  record {
    last = s.last;
    lease_of = λ j. if text_eq k j then (if leb l s.last then some l else none) else s.lease_of j;
    old = old-written k l s;
  },
)

put_true-written :
    (k : Text) (l : ℕ) (o : Option ℕ) (s : Keys)
    → s.lease_of k ≡ o
    → (written k l o (leb l s.last) s).0 ≡ some true
    → (s.lease_of k ≡ none) × ((written k l o (leb l s.last) s).1.lease_of k ≡ some l)
put_true-written k l (some m) s e h = cc h
put_true-written k l none s e h = elim (Bool-cases (leb l s.last)) [
  | inl known ↦ ground (arith, known, e, text_eq_refl k)
  | inr unknown ↦ ground (arith, unknown, h)
]

put_keeps-written :
    (k : Text) (l : ℕ) (o : Option ℕ) (s : Keys) (j : Text) (m : ℕ)
    → s.lease_of k ≡ o
    → s.lease_of j ≡ some m
    → (written k l o (leb l s.last) s).1.lease_of j ≡ some m
put_keeps-written k l (some i) s j m e h = h
put_keeps-written k l none s j m e h = elim (Bool-cases (leb l s.last)) [
  | inl known ↦ ground (arith, known, h, e, text_eq_iff k j)
  | inr unknown ↦ ground (arith, unknown, h)
]

put_only-written :
    (k : Text) (l : ℕ) (o : Option ℕ) (s : Keys) (j : Text)
    → let s' = (written k l o (leb l s.last) s).1 in
      (s'.lease_of j ≡ s.lease_of j) ⊎ (s'.lease_of j ≡ some l)
put_only-written k l (some i) s j = inl refl
put_only-written k l none s j = elim (Bool-cases (leb l s.last)) [
  | inl known ↦ ground (arith, known)
  | inr unknown ↦ ground (arith, unknown)
]

grown : (s : Keys) (k : Text) (l : ℕ) → s.lease_of k ≡ some l → leb l (suc s.last) ≡ true
grown s k l h = ground (arith, s.old k l h)

new_lease : (s : Keys) (l : ℕ) → some (suc s.last) ≡ some l → (leb l s.last ≡ false) × (1 ≤ l)
new_lease s l e = ground (arith, e)

none_old : (k : Text) (l : ℕ) → none ≡ some l → leb l 0 ≡ true
none_old k l h = cc h

abbrev keys : Etcd
keys = record {
  State = Keys;
  holder = λ k s. s.lease_of k;
  granted = λ l s. leb l s.last;
  grant = λ ttl s.
      (some (suc s.last), record { last = suc s.last; lease_of = s.lease_of; old = grown s });
  put_if_new = λ k v l s. written k l (s.lease_of k) (leb l s.last) s;
  keep_alive_once = λ l s. (leb l s.last, s);
  revoke = λ l s. (true, drop_lease l s);
  expire = drop_lease;
  held_granted = λ k l s h. s.old k l h;
  grant_new = λ ttl s. new_lease s;
  grant_keeps = λ ttl s k. refl;
  put_true = λ k v l s. put_true-written k l (s.lease_of k) s refl;
  put_keeps = λ k v l s j m. put_keeps-written k l (s.lease_of k) s j m refl;
  put_only = λ k v l s j. put_only-written k l (s.lease_of k) s j;
  keep_alive_keeps = λ l s k. refl;
  revoke_only = λ l s k. only-without l (s.lease_of k);
  revoke_all = λ l s k fine. gone-without l (s.lease_of k);
  expire_only = λ l s k. only-without l (s.lease_of k);
}

abbrev no_keys : Keys
no_keys = record { last = 0; lease_of = λ k. none; old = none_old }

abbrev first_lock : Lock
first_lock = record {
  name = codes "/crontab/lock/jobs/ops/1";
  ttl = pos 10;
  password = codes "5";
  lease_id = 1;
  is_active = true;
}

-- Another worker asks for another job's lock, and the lease is renewed.
abbrev between : List Request
between =
    post_create_request 6 (codes "jobs/ops/2") (some (pos 10))
    ∷ post_lease_request (some (pos 1)) []
    ∷ delete_release_request (pos 2) []
    ∷ []

two≢one : ◌≢◌ {A = ℕ} 2 1
two≢one e = omega (arith, e)

lock_excludes_example :
    (post_create keys 9 (codes "jobs/ops/1") (some (pos 10)) (
      serve_all keys between (post_create keys 5 (codes "jobs/ops/1") (some (pos 10)) no_keys).1)).0
    ≢ ok first_lock
unfolding post_create decimal trim_space lock_key clamp_ttl
lock_excludes_example =
    lock_excludes keys 5 9 (codes "jobs/ops/1") (some (pos 10)) (some (pos 10)) no_keys first_lock
      first_lock between refl (tt, (tt, (two≢one, tt)))

-- The lock is held, and asked for again.
abbrev held : Keys
held = (post_create keys 5 (codes "jobs/ops/1") (some (pos 10)) no_keys).1

failed_request_leaves_nothing_example :
    (post_create keys 9 (codes "jobs/ops/1") none held).1.lease_of
      (codes "/crontab/lock/jobs/ops/1")
    ≡ held.lease_of (codes "/crontab/lock/jobs/ops/1")
unfolding post_create trim_space lock_key clamp_ttl decimal text_eq
failed_request_leaves_nothing_example =
    failed_request_leaves_nothing keys (λ l s. refl) 9 (codes "jobs/ops/1") none held
      (codes "锁已被占用:/crontab/lock/jobs/ops/1") refl (codes "/crontab/lock/jobs/ops/1")
