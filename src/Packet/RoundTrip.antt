-- ===== src/Packet/RoundTrip.antt =====
-- Packing and unpacking one message (backend/common/packet.go).
use cronjob.Base.{
  ℕ, zero, suc, ◌+◌, ◌-◌, ◌%◌, ◌^◌, ◌≤◌, ◌≡◌, refl, sym, ap, subst, ◌∙◌, some, [], ◌∷◌, ◌++◌,
  length, take, drop, arith, length-append,
}
use mathlib.Core.List.{append_assoc, append-nil}
use cronjob.Packet.{
  Bytes, put_uint32, packet_data, binary_to_int, deliver, slice, message_end, read_message,
  found_length, found_header, round, send, unpacket_loop, unpacket_data,
}
use cronjob.Packet.Length.{binary_to_int-put_uint32}

pub take-length-append : (xs ys : Bytes) → take (length xs) (xs ++ ys) ≡ xs
take-length-append [] ys = refl
take-length-append (x ∷ xs) ys = ap (λ l. x ∷ l) (take-length-append xs ys)

pub drop-length-append : (xs ys : Bytes) → drop (length xs) (xs ++ ys) ≡ ys
drop-length-append [] ys = refl
drop-length-append (x ∷ xs) ys = drop-length-append xs ys

drop-nil : (n : ℕ) → drop {A = ℕ} n [] ≡ []
drop-nil zero = refl
drop-nil (suc n) = refl

pub drop-add : (a b : ℕ) (xs : Bytes) → drop (a + b) xs ≡ drop b (drop a xs)
drop-add zero b xs = let e : zero + b ≡ b = omega arith in rw e
drop-add (suc a) b [] = drop-nil (suc a + b) ∙ sym (drop-nil b)
drop-add (suc a) b (x ∷ xs) =
    let e : suc a + b ≡ suc (a + b) = omega arith in rw e (drop-add a b xs)

module _ (m s spare : Bytes) (k : ℕ) (size : length m ≡ suc k) (small : suc k ≤ 65535) where
  message_end-packet : message_end (packet_data m ++ s) (suc k) ≡ 22 + suc k
  unfolding message_end packet_data
  message_end-packet = ground (arith, length-append m s)

  taken : (n : ℕ) → n ≡ length m → take n ((m ++ s) ++ spare) ≡ m
  taken n e = rw (e, append_assoc) (take-length-append m (s ++ spare))

  slice-packet : slice ((packet_data m ++ s) ++ spare) 22 (22 + suc k) ≡ some m
  unfolding slice packet_data
  slice-packet = ground (
    arith,
    length-append (m ++ s) spare,
    length-append m s,
    taken (22 + suc k - 22) (omega arith),
  )

  read_message-packet : read_message spare (packet_data m ++ s) (suc k) ≡ some m
  unfolding read_message
  read_message-packet = rw message_end-packet slice-packet

  length_field : slice ((packet_data m ++ s) ++ spare) 18 22 ≡ some (put_uint32 (suc k % 2 ^ 32))
  unfolding slice packet_data put_uint32
  length_field = rw size (ground arith)

  value_of_length : binary_to_int (put_uint32 (suc k % 2 ^ 32)) ≡ suc k
  value_of_length = ground (arith, binary_to_int-put_uint32 (suc k % 2 ^ 32))

  drop-packet : drop (22 + suc k) (packet_data m ++ s) ≡ s
  unfolding packet_data
  drop-packet =
      drop-add 22 (suc k) (packet_data m ++ s)
      ∙ ap (λ j. drop j (m ++ s)) (sym size)
      ∙ drop-length-append m s

  found_length-packet :
      (next : Bytes) → found_length spare next (packet_data m ++ s) (suc k) ≡ deliver m s (drop 1 s)
  unfolding found_length
  found_length-packet next = ground (arith, read_message-packet, drop-packet)

  found_header-packet :
      (next : Bytes) → found_header spare next (packet_data m ++ s) ≡ deliver m s (drop 1 s)
  unfolding found_header
  found_header-packet next = ground (arith, length_field, value_of_length, found_length-packet next)

  pub round-packet : (next : Bytes) → round spare next (packet_data m ++ s) ≡ deliver m s (drop 1 s)
  unfolding round packet_data
  round-packet next = ground (arith, found_header-packet next)

-- What one packet at the front contributes, whatever follows it.
pub unpacket_loop-packet :
    (m s spare next : Bytes) (f : ℕ)
    → 1 ≤ length m
    → length m ≤ 65535
    → unpacket_loop (suc f) spare next (packet_data m ++ s)
      ≡ send m (unpacket_loop f spare s (drop 1 s))
unfolding unpacket_loop packet_data
unpacket_loop-packet m s spare next f pos small =
    let size : length m ≡ suc (length m - 1) = omega arith in
    ground (arith, round-packet m s spare (length m - 1) size (omega arith) next)

-- Unpacking the packet of a message of 1 to 65535 bytes gives back the message, with nothing left
-- over, for any spare bytes behind it.
pub unpacket-packet :
    (m spare : Bytes)
    → 1 ≤ length m
    → length m ≤ 65535
    → unpacket_data spare (packet_data m) ≡ record { sent = m ∷ []; rest = some [] }
unfolding unpacket_data packet_data
unpacket-packet m spare pos small =
    let p = packet_data m in
    subst (λ q. unpacket_loop (length p) spare p q ≡ record { sent = m ∷ []; rest = some [] })
      (append-nil p) (unpacket_loop-packet m [] spare p (length (drop 1 p)) pos small)
