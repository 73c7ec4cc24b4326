-- ===== src/KeyStore/Deleting.antt =====
-- Deleting a key below a directory (backend/common/repositories/killEtcd.go, `deleteFromEtcd`, and
-- jobEtcd.go, `deleteJobFromEtcd`).
use cronjob.Base.{
  ◌≡◌, ◌≢◌, refl, Bool, true, false, Bool-cases, inl, inr, Option, none, some, leb, length, Text,
  text_eq,
}
use cronjob.Executor.{Result, ok, err}
use cronjob.Packet.{Bytes}
use cronjob.MasterLock.{trim_space}
use cronjob.KeyStore.{Kv, has_prefix, single_slashes, delete_answer, delete_from_etcd}

module _ (kv : Kv) where
  open kv use {State, value, delete, delete_ok, delete_others}

  -- What the result of deleting `key` says: with success there was a value and there is none, and
  -- always no other key has changed.
  unfoldable pub IsRemoved : Text → State → Result Bool × State → Type 0
  IsRemoved key s (ok b, s') =
      (b ≡ true)
      × (value key s ≢ none)
      × (value key s' ≡ none)
      × ((j : Text) → text_eq key j ≡ false → value j s' ≡ value j s)
  IsRemoved key s (err e, s') = (j : Text) → text_eq key j ≡ false → value j s' ≡ value j s

  IsRemoved-delete_answer :
      (key : Text) (s : State) (r : Result (Option Bytes) × State)
      → ((p : Option Bytes) → r.0 ≡ ok p → (p ≡ value key s) × (value key r.1 ≡ none))
      → ((j : Text) → text_eq key j ≡ false → value j r.1 ≡ value j s)
      → IsRemoved key s (delete_answer kv r)
  unfolding IsRemoved
  IsRemoved-delete_answer key s (err e, s') gone others = others
  IsRemoved-delete_answer key s (ok none, s') gone others = others
  IsRemoved-delete_answer key s (ok (some bytes), s') gone others =
      let g = gone (some bytes) refl in (refl, (λ e. cc (g.0, e)), g.1, others)

  state-delete_answer : (r : Result (Option Bytes) × State) → (delete_answer kv r).1 ≡ r.1
  state-delete_answer (err e, s) = refl
  state-delete_answer (ok none, s) = refl
  state-delete_answer (ok (some bytes), s) = refl

  module _ (dir key : Text) (s : State) where
    -- Deleting from etcd concerns the key without white space at its ends and with its double slashes
    -- made single: success is true and says that there was a value and is none any more, and no other
    -- key ever changes.
    pub delete_from_etcd-IsRemoved :
        IsRemoved (single_slashes (trim_space key)) s (delete_from_etcd kv dir key s)
    unfolding delete_from_etcd IsRemoved
    delete_from_etcd-IsRemoved = elim (Bool-cases (has_prefix dir (trim_space key))) [
      | inl below ↦ elim (Bool-cases (leb (length (trim_space key)) 0)) [
        | inl empty ↦ rw (below, empty) (λ j ne. refl)
        | inr full ↦
            rw (below, full)
              (IsRemoved-delete_answer (single_slashes (trim_space key)) s
                (delete (single_slashes (trim_space key)) s)
                (delete_ok (single_slashes (trim_space key)) s)
                (delete_others (single_slashes (trim_space key)) s))
      ]
      | inr other ↦ rw other (λ j ne. refl)
    ]

    -- A key that is not below the directory is refused, and nothing is deleted.
    pub delete_from_etcd-outside :
        has_prefix dir (trim_space key) ≡ false → (delete_from_etcd kv dir key s).1 ≡ s
    unfolding delete_from_etcd
    delete_from_etcd-outside other = rw other refl

    -- A key below the directory that is in the form already.
    pub delete_from_etcd-below :
        trim_space key ≡ key
        → single_slashes key ≡ key
        → has_prefix dir key ≡ true
        → leb (length key) 0 ≡ false
        → delete_from_etcd kv dir key s ≡ delete_answer kv (delete key s)
    unfolding delete_from_etcd
    delete_from_etcd-below trimmed single below full = rw (trimmed, below, full, single) refl

  -- If etcd answers, the key has no value after that.
  pub value-delete_answer :
      (key : Text) (s : State) (p : Option Bytes)
      → (delete key s).0 ≡ ok p
      → value key (delete_answer kv (delete key s)).1 ≡ none
  value-delete_answer key s p answered =
      rw (state-delete_answer (delete key s)) (delete_ok key s p answered).1
