-- ===== src/Push/Stored.antt =====
-- The keys and values that etcd holds after puts and deletions (what the watch handlers of
-- backend/master/sockets see), key by key.
use cronjob.Base.{
  ◌≡◌, refl, sym, ap, subst, ◌∙◌, Bool-cases, inl, inr, Option, none, some, List, [], ◌∷◌, ◌++◌,
  if◌then◌else◌, Text, text_eq, text_eq_iff, Assoc, lookup, insert, lookup-insert, lookup-delete,
}
use cronjob.Packet.{Bytes}
use cronjob.Push.{WatchEvent}
use cronjob.Push.Follow.{stored, stored_all}

-- The keys and values that etcd answers, as puts.
abbrev pub puts : Assoc Bytes → List WatchEvent
puts [] = []
puts ((key, value) ∷ kvs) = WatchEvent.put key value ∷ puts kvs

-- No key stands twice in what etcd answers.
abbrev pub IsDistinct : Assoc Bytes → Type 0
IsDistinct [] = Unit
IsDistinct ((key, value) ∷ kvs) = (lookup key kvs ≡ none) × IsDistinct kvs

-- Two stores that answer the same for every key.
abbrev pub IsSame : Assoc Bytes → Assoc Bytes → Type 0
IsSame m m' = (k : Text) → lookup k m ≡ lookup k m'

stored-IsSame :
    (e : WatchEvent) (m m' : Assoc Bytes) → IsSame m m' → IsSame (stored e m) (stored e m')
stored-IsSame (WatchEvent.put key value) m m' same k =
    lookup-insert key k value m
    ∙ ap (λ o. if text_eq key k then some value else o) (same k)
    ∙ sym (lookup-insert key k value m')
stored-IsSame (WatchEvent.delete key prev) m m' same k =
    lookup-delete key k m
    ∙ ap (λ o. if text_eq key k then none else o) (same k)
    ∙ sym (lookup-delete key k m')

pub stored_all-IsSame :
    (es : List WatchEvent) (m m' : Assoc Bytes)
    → IsSame m m'
    → IsSame (stored_all es m) (stored_all es m')
stored_all-IsSame [] m m' same = same
stored_all-IsSame (e ∷ es) m m' same =
    stored_all-IsSame es (stored e m) (stored e m') (stored-IsSame e m m' same)

abbrev or_else : Option Bytes → Option Bytes → Option Bytes
or_else none o = o
or_else (some v) o = some v

or_none : (o : Option Bytes) → or_else o none ≡ o
or_none none = refl
or_none (some v) = refl

lookup-stored_all :
    (k : Text) (kvs m : Assoc Bytes)
    → IsDistinct kvs
    → lookup k (stored_all (puts kvs) m) ≡ or_else (lookup k kvs) (lookup k m)
unfolding lookup
lookup-stored_all k [] m distinct = refl
lookup-stored_all k ((key, value) ∷ kvs) m (new, distinct) =
    let later = lookup-stored_all k kvs (insert key value m) distinct in
    elim (Bool-cases (text_eq key k)) [
      | inl same ↦
          let key_k = (text_eq_iff key k).0 same in
          let new_k = subst (λ j. lookup j kvs ≡ none) key_k new in
          later ∙ rw (new_k, same, lookup-insert key k value m, same) refl
      | inr other ↦ later ∙ rw (other, lookup-insert key k value m, other) refl
    ]

-- The puts of all keys build the store again.
pub stored_all-puts : (kvs : Assoc Bytes) → IsDistinct kvs → IsSame (stored_all (puts kvs) []) kvs
unfolding lookup
stored_all-puts kvs distinct k = lookup-stored_all k kvs [] distinct ∙ or_none (lookup k kvs)

pub stored_all-append :
    (es es' : List WatchEvent) (m : Assoc Bytes)
    → stored_all (es ++ es') m ≡ stored_all es' (stored_all es m)
stored_all-append [] es' m = refl
stored_all-append (e ∷ es) es' m = stored_all-append es es' (stored e m)
