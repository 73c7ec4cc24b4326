-- ===== src/KeyStore/Concrete.antt =====
-- Keys and values in an association list: a store that answers always.
use cronjob.Base.{
  ◌≡◌, refl, false, Option, none, some, Text, text_eq, text_eq_refl, Assoc, lookup, insert, delete,
  lookup-insert, lookup-delete, arith,
}
use cronjob.Executor.{Result, ok}
use cronjob.Packet.{Bytes}
use cronjob.KeyStore.{Kv}

pub value_got :
    (k : Text) (s : Assoc Bytes) (v : Option Bytes)
    → ◌≡◌ {A = Result (Option Bytes)} (ok (lookup k s)) (ok v)
    → v ≡ lookup k s
value_got k s v e = cc e

pub value_put :
    (k : Text) (v : Bytes) (s : Assoc Bytes) (p : Option Bytes)
    → ◌≡◌ {A = Result (Option Bytes)} (ok (lookup k s)) (ok p)
    → (p ≡ lookup k s) × (lookup k (insert k v s) ≡ some v)
value_put k v s p e = (cc e, rw (lookup-insert, text_eq_refl) refl)

pub others_put :
    (k : Text) (v : Bytes) (s : Assoc Bytes) (j : Text)
    → text_eq k j ≡ false
    → lookup j (insert k v s) ≡ lookup j s
others_put k v s j ne = ground (arith, lookup-insert k j v s, ne)

pub value_deleted :
    (k : Text) (s : Assoc Bytes) (p : Option Bytes)
    → ◌≡◌ {A = Result (Option Bytes)} (ok (lookup k s)) (ok p)
    → (p ≡ lookup k s) × (lookup k (delete k s) ≡ none)
value_deleted k s p e = (cc e, rw (lookup-delete, text_eq_refl) refl)

pub others_deleted :
    (k : Text) (s : Assoc Bytes) (j : Text)
    → text_eq k j ≡ false
    → lookup j (delete k s) ≡ lookup j s
others_deleted k s j ne = ground (arith, lookup-delete k j s, ne)

abbrev pub store : Kv
store = record {
  State = Assoc Bytes;
  value = lookup;
  get = λ k s. ok (lookup k s);
  put = λ k v s. (ok (lookup k s), insert k v s);
  delete = λ k s. (ok (lookup k s), delete k s);
  get_ok = value_got;
  put_ok = value_put;
  put_others = others_put;
  delete_ok = value_deleted;
  delete_others = others_deleted;
}
