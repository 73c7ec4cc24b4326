-- ===== src/KeyStore.antt =====
-- Values that the master keeps in etcd under the keys of its objects: the reading and saving that
-- jobs, kills and categories share (backend/common/repositories/jobEtcd.go, killEtcd.go,
-- categoryEtcd.go), over an interface to the keys and values of etcd and to encoding/json.
pub mod Saving
pub mod Deleting
pub mod Slashes
pub mod Concrete
use cronjob.Base.{
  ◌≡◌, Bool, true, false, Option, none, some, List, [], ◌∷◌, ◌++◌, ◌==◌, ◌&&◌, leb, length,
  if◌then◌else◌, Text, codes, text_eq,
}
use cronjob.Executor.{Result, ok, err}
use cronjob.Packet.{Bytes}
use cronjob.MasterLock.{trim_space}

-- `clientv3.KV`. `value` observes the state. An error of `put` or `delete` leaves it open whether the
-- write was done; no other key is touched. `delete` answers with the value before, if there was one.
pub record Kv : Type 1 where
  pub State : Type 0
  pub value : Text → State → Option Bytes
  pub get : Text → State → Result (Option Bytes)
  pub put : Text → Bytes → State → Result (Option Bytes) × State
  pub delete : Text → State → Result (Option Bytes) × State
  pub get_ok : (k : Text) (s : State) (v : Option Bytes) → get k s ≡ ok v → v ≡ value k s
  pub put_ok :
      (k : Text) (v : Bytes) (s : State) (p : Option Bytes)
      → (put k v s).0 ≡ ok p
      → (p ≡ value k s) × (value k (put k v s).1 ≡ some v)
  pub put_others :
      (k : Text) (v : Bytes) (s : State) (j : Text)
      → text_eq k j ≡ false
      → value j (put k v s).1 ≡ value j s
  pub delete_ok :
      (k : Text) (s : State) (p : Option Bytes)
      → (delete k s).0 ≡ ok p
      → (p ≡ value k s) × (value k (delete k s).1 ≡ none)
  pub delete_others :
      (k : Text) (s : State) (j : Text) → text_eq k j ≡ false → value j (delete k s).1 ≡ value j s

-- What reading an object returns: the object, `NotFountError`, or another error.
pub data Found (A : Type 0) : Type 0 where
  found : A → Found A
  not_found : Found A
  get_failed : Text → Found A

-- What saving an object returns; `invalid` is an error of the checks before etcd is asked, and
-- `missing` is `NotFountError`.
pub data Saved (A : Type 0) : Type 0 where
  saved : A → Saved A
  invalid : Text → Saved A
  missing : Saved A
  already_there : A → Saved A
  failed : Text → Saved A

module _ {A : Type 0} (kv : Kv) (decode : Bytes → Result A) (encode : A → Bytes) where
  open kv use {State, get, put}

  abbrev decoded : Result A → Found A
  decoded (ok a) = found a
  decoded (err e) = get_failed e

  abbrev pub answer : Result (Option Bytes) → Found A
  answer (err e) = get_failed e
  answer (ok none) = not_found
  answer (ok (some bytes)) = decoded (decode bytes)

  -- The object before, as far as it can be read, and else the new one.
  abbrev previous : A → Result A → A
  previous a (ok prev) = prev
  previous a (err e) = a

  abbrev pub put_answer : A → Result (Option Bytes) × State → Saved A × State
  put_answer a (err e, s) = (failed e, s)
  put_answer a (ok none, s) = (saved a, s)
  put_answer a (ok (some bytes), s) = (saved (previous a (decode bytes)), s)

  abbrev pub put_value : Text → A → State → Saved A × State
  put_value key a s = put_answer a (put key (encode a) s)

  -- What is done about the object that is there: any other error is passed over.
  abbrev pub save_over : Bool → Found A → Text → A → State → Saved A × State
  save_over true (found prev) key a s = (already_there prev, s)
  save_over false (found prev) key a s = put_value key a s
  save_over true not_found key a s = put_value key a s
  save_over false not_found key a s = (missing, s)
  save_over is_create (get_failed e) key a s = put_value key a s

-- `strings.HasPrefix`
unfoldable pub has_prefix : Text → Text → Bool
has_prefix [] t = true
has_prefix (c ∷ p) [] = false
has_prefix (c ∷ p) (d ∷ t) = c == d && has_prefix p t

-- `strings.Replace(key, "//", "/", -1)`: from the left, without overlaps.
unfoldable pub single_slashes : Text → Text
single_slashes [] = []
single_slashes (c ∷ []) = c ∷ []
single_slashes (c ∷ d ∷ t) = elim (c == b'/' && d == b'/') [
  | true ↦ b'/' ∷ single_slashes t
  | false ↦ c ∷ single_slashes (d ∷ t)
]

module _ (kv : Kv) where
  open kv use {State, delete}

  abbrev pub delete_answer : Result (Option Bytes) × State → Result Bool × State
  delete_answer (err e, s) = (err e, s)
  delete_answer (ok none, s) = (err (codes "不存在"), s)
  delete_answer (ok (some bytes), s) = (ok true, s)

  -- `deleteFromEtcd`, of a key below the directory `dir`; `false` is never returned without an error.
  unfoldable pub delete_from_etcd : Text → Text → State → Result Bool × State
  unfolding trim_space has_prefix single_slashes
  delete_from_etcd dir key s =
      let trimmed = trim_space key in
      if has_prefix dir trimmed
      then (if leb (length trimmed) 0
          then (err (codes "etcdKey不可为空"), s)
          else delete_answer (delete (single_slashes trimmed) s))
      else (err (codes "传入的key前缀不正确"), s)
