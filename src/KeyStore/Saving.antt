-- ===== src/KeyStore/Saving.antt =====
-- What saving an object under its key leaves in etcd (backend/common/repositories/jobEtcd.go,
-- killEtcd.go, categoryEtcd.go).
use cronjob.Base.{
  ◌≡◌, ◌≢◌, ◌⊎◌, inl, inr, refl, Bool, true, false, Option, none, some, Text, text_eq,
}
use cronjob.Executor.{Result, ok, err}
use cronjob.Packet.{Bytes}
use cronjob.KeyStore.{
  Kv, Found, found, not_found, get_failed, Saved, saved, invalid, missing, already_there, failed,
  put_answer, put_value, save_over,
}

module _ {A : Type 0} (kv : Kv) (decode : Bytes → Result A) (encode : A → Bytes) where
  open kv use {State, value, put, put_ok, put_others}

  pub state-put_answer :
      (a : A) (r : Result (Option Bytes) × State) → (put_answer kv decode encode a r).1 ≡ r.1
  state-put_answer a (err e, s) = refl
  state-put_answer a (ok none, s) = refl
  state-put_answer a (ok (some bytes), s) = refl

  -- What the result of saving says about the values: after success the key has the new object, after
  -- success or an error of the write no other key has changed, and else none has.
  unfoldable pub IsKept : Text → A → State → Saved A × State → Type 0
  IsKept key a s (saved prev, s') =
      (value key s' ≡ some (encode a))
      × ((j : Text) → text_eq key j ≡ false → value j s' ≡ value j s)
  IsKept key a s (failed e, s') = (j : Text) → text_eq key j ≡ false → value j s' ≡ value j s
  IsKept key a s (invalid e, s') = (j : Text) → value j s' ≡ value j s
  IsKept key a s (missing, s') = (j : Text) → value j s' ≡ value j s
  IsKept key a s (already_there prev, s') = (j : Text) → value j s' ≡ value j s

  IsKept-put_answer :
      (key : Text) (a : A) (s : State) (r : Result (Option Bytes) × State)
      → ((p : Option Bytes) → r.0 ≡ ok p → value key r.1 ≡ some (encode a))
      → ((j : Text) → text_eq key j ≡ false → value j r.1 ≡ value j s)
      → IsKept key a s (put_answer kv decode encode a r)
  unfolding IsKept
  IsKept-put_answer key a s (err e, s') written others = others
  IsKept-put_answer key a s (ok none, s') written others = (written none refl, others)
  IsKept-put_answer key a s (ok (some bytes), s') written others =
      (written (some bytes) refl, others)

  IsKept-put_value :
      (key : Text) (a : A) (s : State) → IsKept key a s (put_value kv decode encode key a s)
  IsKept-put_value key a s =
      IsKept-put_answer key a s (put key (encode a) s) (λ p e. (put_ok key (encode a) s p e).1)
        (put_others key (encode a) s)

  pub IsKept-save_over :
      (is_create : Bool) (f : Found A) (key : Text) (a : A) (s : State)
      → IsKept key a s (save_over kv decode encode is_create f key a s)
  unfolding IsKept
  IsKept-save_over true (found prev) key a s = λ j. refl
  IsKept-save_over false (found prev) key a s = IsKept-put_value key a s
  IsKept-save_over true not_found key a s = IsKept-put_value key a s
  IsKept-save_over false not_found key a s = λ j. refl
  IsKept-save_over true (get_failed e) key a s = IsKept-put_value key a s
  IsKept-save_over false (get_failed e) key a s = IsKept-put_value key a s

  -- Whatever saving under a key comes to, no other key changes.
  pub others-IsKept :
      (key : Text) (a : A) (s : State) (r : Saved A × State) (j : Text)
      → IsKept key a s r
      → text_eq key j ≡ false
      → value j r.1 ≡ value j s
  unfolding IsKept
  others-IsKept key a s (saved prev, s') j h ne = h.1 j ne
  others-IsKept key a s (failed e, s') j h ne = h j ne
  others-IsKept key a s (invalid e, s') j h ne = h j
  others-IsKept key a s (missing, s') j h ne = h j
  others-IsKept key a s (already_there prev, s') j h ne = h j

  -- A write that etcd takes.
  pub value-put_value :
      (key : Text) (a : A) (s : State) (p : Option Bytes)
      → (put key (encode a) s).0 ≡ ok p
      → value key (put_value kv decode encode key a s).1 ≡ some (encode a)
  value-put_value key a s p taken =
      rw (state-put_answer a (put key (encode a) s)) (put_ok key (encode a) s p taken).1

  not_missing-put_answer :
      (a : A) (r : Result (Option Bytes) × State) → (put_answer kv decode encode a r).0 ≢ missing
  not_missing-put_answer a (err e, s) = λ h. cc
  not_missing-put_answer a (ok none, s) = λ h. cc
  not_missing-put_answer a (ok (some bytes), s) = λ h. cc

  -- An update either finds that there is no object, and changes nothing, or writes.
  pub update-cases :
      (f : Found A) (key : Text) (a : A) (s : State)
      → ((f ≡ not_found) × (save_over kv decode encode false f key a s ≡ (missing, s)))
        ⊎ (((save_over kv decode encode false f key a s).0 ≢ missing)
            × (save_over kv decode encode false f key a s ≡ put_value kv decode encode key a s))
  update-cases (found prev) key a s = inr (not_missing-put_answer a (put key (encode a) s), refl)
  update-cases not_found key a s = inl (refl, refl)
  update-cases (get_failed e) key a s = inr (not_missing-put_answer a (put key (encode a) s), refl)
