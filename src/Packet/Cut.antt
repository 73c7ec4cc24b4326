-- ===== src/Packet/Cut.antt =====
-- A packet of which only a first part has arrived (backend/common/packet.go).
use cronjob.Base.{
  ℕ, zero, suc, ◌+◌, ◌-◌, ◌%◌, ◌^◌, ◌≤◌, ◌<◌, ◌≡◌, ◌≢◌, refl, sym, ap, subst, ◌∙◌, none, some, [],
  ◌∷◌, ◌++◌, ltb, length, take, drop, arith, length-append, length-take, if◌then◌else◌, Bool-cases,
  inl, inr, tests, not-ltb→le,
}
use cronjob.Packet.{
  Bytes, header, put_uint32, packet_data, binary_to_int, header_length, return, slice, read_message,
  found_length, found_header, round, Unpacked, unpacket_data,
}
use cronjob.Packet.Length.{binary_to_int-put_uint32, return_of_round}

-- Fewer bytes than a header are handed back.
short_buffer :
    (spare bs : Bytes)
    → length bs < header_length
    → unpacket_data spare bs ≡ record { sent = []; rest = some bs }
unfolding unpacket_data
short_buffer spare [] h = refl
short_buffer spare (b ∷ bs) h = ground arith

-- The first `j` bytes behind the header, of fewer than four.
round_cut_length : (next t : Bytes) → length t < 4 → round [] next (header ++ t) ≡ return none
unfolding round
round_cut_length next t h = ground (arith, length-append t [])

module _ (m t : Bytes) (pos : 1 ≤ length m) (small : length m ≤ 65535) (ne : length m ≢ 1024)
    (cut : length t < length m) where
  front : Bytes
  front = header ++ put_uint32 (length m % 2 ^ 32) ++ t

  read_message-cut : read_message [] front (length m) ≡ none
  unfolding read_message front put_uint32
  read_message-cut = ground (arith, length-append t [])

  found_length-cut :
      (next : Bytes) (n : ℕ) → n ≡ length m → found_length [] next front n ≡ return none
  unfolding found_length
  found_length-cut next zero e = absurd (omega arith)
  found_length-cut next (suc k) e =
      ground (arith, subst (λ j. read_message [] front j ≡ none) (sym e) read_message-cut)

  length_field-cut : slice (front ++ []) 18 22 ≡ some (put_uint32 (length m % 2 ^ 32))
  unfolding slice front put_uint32
  length_field-cut = ground arith

  value_of_length-cut : binary_to_int (put_uint32 (length m % 2 ^ 32)) ≡ length m
  value_of_length-cut = ground (arith, binary_to_int-put_uint32 (length m % 2 ^ 32))

  found_header-cut : (next : Bytes) → found_header [] next front ≡ return none
  unfolding found_header
  found_header-cut next = ground (
    arith,
    length_field-cut,
    found_length-cut next (binary_to_int (put_uint32 (length m % 2 ^ 32))) value_of_length-cut,
  )

  round_cut_message : (next : Bytes) → round [] next front ≡ return none
  unfolding round front
  round_cut_message next = ground (arith, found_header-cut next)

take-add : (a b : ℕ) (xs : Bytes) → take (a + b) xs ≡ take a xs ++ take b (drop a xs)
take-add zero b xs = let e : zero + b ≡ b = omega arith in rw e
take-add (suc a) zero [] = let e : suc a + zero ≡ suc a = omega arith in rw e
take-add (suc a) (suc b) [] = let e : suc a + suc b ≡ suc (a + suc b) = omega arith in rw e
take-add (suc a) b (x ∷ xs) =
    let e : suc a + b ≡ suc (a + b) = omega arith in rw e (ap (λ l. x ∷ l) (take-add a b xs))

abbrev pub panic : Unpacked
panic = record { sent = []; rest = none }

panic_of_round :
    (t : Bytes)
    → ((next : Bytes) → round [] next (header ++ t) ≡ return none)
    → unpacket_data [] (header ++ t) ≡ panic
unfolding unpacket_data
panic_of_round t h =
    return_of_round (length (drop 1 (header ++ t))) [] (header ++ t) 119 (drop 1 (header ++ t)) none
      (h (header ++ t))

cut_in_length :
    (m : Bytes) (n : ℕ) → 18 ≤ n → n < 22 → unpacket_data [] (take n (packet_data m)) ≡ panic
unfolding packet_data
cut_in_length m n le lt =
    let t = take (n - 18) (put_uint32 (length m % 2 ^ 32) ++ m) in
    let e : n ≡ 18 + (n - 18) = omega arith in
    let cut : take n (packet_data m) ≡ header ++ t =
      ap (λ j. take j (packet_data m)) e ∙ take-add 18 (n - 18) (packet_data m) in
    rw cut (
      panic_of_round t (λ next.
        round_cut_length next t
          (omega (arith, length-take (n - 18) (put_uint32 (length m % 2 ^ 32) ++ m)))))

cut_in_message :
    (m : Bytes) (n : ℕ)
    → 1 ≤ length m
    → length m ≤ 65535
    → length m ≢ 1024
    → 22 ≤ n
    → n < 22 + length m
    → unpacket_data [] (take n (packet_data m)) ≡ panic
unfolding packet_data front put_uint32
cut_in_message m n pos small ne le lt =
    let t = take (n - 22) m in
    let e : n ≡ 22 + (n - 22) = omega arith in
    let shorter : length t < length m = omega (arith, length-take (n - 22) m) in
    let cut : take n (packet_data m) ≡ header ++ put_uint32 (length m % 2 ^ 32) ++ t =
      ap (λ j. take j (packet_data m)) e ∙ take-add 22 (n - 22) (packet_data m) in
    rw cut (
      panic_of_round (put_uint32 (length m % 2 ^ 32) ++ t)
        (λ next. round_cut_message m t pos small ne shorter next))

-- With the packet of a message of 1 to 65535 bytes, but not 1024, cut inside its length field or its
-- message, the reader panics if the array ends with the data. Cut inside the header, the part is
-- handed back.
pub unpacket-cut :
    (m : Bytes) (n : ℕ)
    → 1 ≤ length m
    → length m ≤ 65535
    → length m ≢ 1024
    → n < 22 + length m
    → unpacket_data [] (take n (packet_data m)) ≡ (
        if ltb n header_length
        then record { sent = []; rest = some (take n (packet_data m)) }
        else panic)
unpacket-cut m n pos small ne cut = elim (Bool-cases (ltb n header_length)) [
  | inl short ↦
      rw short
        (short_buffer [] (take n (packet_data m)) (omega (tests, length-take n (packet_data m))))
  | inr long ↦ rw long (elim (Bool-cases (ltb n 22)) [
    | inl in_length ↦ cut_in_length m n (omega (tests, not-ltb→le n 18 long)) (omega tests)
    | inr in_message ↦ cut_in_message m n pos small ne (not-ltb→le n 22 in_message) cut
  ])
]
