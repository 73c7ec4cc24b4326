-- ===== src/Packet/Length.antt =====
-- The length field of a packet, and the rounds of the loop (backend/common/packet.go).
use cronjob.Base.{
  ℕ, zero, suc, ◌+◌, ◌^◌, ◌≤◌, ◌<◌, ◌≡◌, refl, sym, ap, ◌∙◌, Option, none, some, [], ◌∷◌, ◌++◌, ltb,
  leb, length, drop, arith, length-drop, if◌then◌else◌, Bool-cases, inl, inr, codes, text_eq,
}
use cronjob.Packet.{
  Bytes, put_uint32, get_uint32, binary_to_int, header_length, data_length, Round, return, advance,
  deliver, found_length, found_header, round, slice, Unpacked, send, unpacket_loop, at_header,
}

get_uint32-put_uint32 : (n : ℕ) → n < 2 ^ 32 → get_uint32 (put_uint32 n) ≡ n
unfolding get_uint32 put_uint32
get_uint32-put_uint32 n h = omega arith

-- A length below 2^32 is read back from its field if it is at most 65535. A longer message counts as
-- empty, unless its length field spells "0000", which counts as 1024.
pub binary_to_int-put_uint32 :
    (n : ℕ)
    → n < 2 ^ 32
    → binary_to_int (put_uint32 n)
      ≡ (if leb n 65535 then n else if text_eq (put_uint32 n) (codes "0000") then 1024 else 0)
unfolding binary_to_int
binary_to_int-put_uint32 n h = ground (arith, get_uint32-put_uint32 n)

-- How far a round gets.
abbrev Shorter : ℕ → Round → Type 0
Shorter n (return r) = Unit
Shorter n (advance next rest) = length rest ≤ n
Shorter n (deliver m next rest) = length rest ≤ n

found_length-Shorter :
    (spare next : Bytes) (b : ℕ) (bs : Bytes) (n : ℕ)
    → Shorter (length bs) (found_length spare next (b ∷ bs) n)
unfolding found_length
found_length-Shorter spare next b bs zero = omega arith
found_length-Shorter spare next b bs (suc k) = ground (
  arith,
  length-drop 1 (drop (header_length + data_length + suc k) (b ∷ bs)),
  length-drop (header_length + data_length + suc k) (b ∷ bs),
)

found_header-Shorter :
    (spare next : Bytes) (b : ℕ) (bs : Bytes)
    → Shorter (length bs) (found_header spare next (b ∷ bs))
unfolding found_header
found_header-Shorter spare next b bs =
    elim (slice ((b ∷ bs) ++ spare) header_length (header_length + data_length))
      as (λ s. Shorter (length bs) (elim s [
        | none ↦ return none
        | some bytes ↦ found_length spare next (b ∷ bs) (binary_to_int bytes)
      ])) [ none ↦ tt | some bytes ↦ found_length-Shorter spare next b bs (binary_to_int bytes) ]

round-Shorter :
    (spare next : Bytes) (b : ℕ) (bs : Bytes) → Shorter (length bs) (round spare next (b ∷ bs))
unfolding round
round-Shorter spare next b bs = elim (Bool-cases (ltb (length (b ∷ bs)) header_length)) [
  | inl short ↦ rw short tt
  | inr long ↦ elim (Bool-cases (at_header (b ∷ bs))) [
    | inl marked ↦ rw (long, marked) (found_header-Shorter spare next b bs)
    | inr plain ↦ rw (long, plain) (omega arith)
  ]
]

abbrev next_loop : ℕ → Bytes → Round → Unpacked
next_loop fuel spare (return r) = record { sent = []; rest = r }
next_loop fuel spare (advance next' rest') = unpacket_loop fuel spare next' rest'
next_loop fuel spare (deliver m next' rest') = send m (unpacket_loop fuel spare next' rest')

pub unpacket_loop-round :
    (fuel : ℕ) (spare next : Bytes) (b : ℕ) (bs : Bytes)
    → unpacket_loop (suc fuel) spare next (b ∷ bs)
      ≡ next_loop fuel spare (round spare next (b ∷ bs))
unfolding unpacket_loop
unpacket_loop-round fuel spare next b bs = ground arith

next_loop_fuel :
    (f g : ℕ) (spare : Bytes) (n : ℕ) (r : Round)
    → ((next rest : Bytes)
        → length rest ≤ n
        → unpacket_loop f spare next rest ≡ unpacket_loop g spare next rest)
    → Shorter n r
    → next_loop f spare r ≡ next_loop g spare r
next_loop_fuel f g spare n (return r) same short = refl
next_loop_fuel f g spare n (advance next rest) same short = same next rest short
next_loop_fuel f g spare n (deliver m next rest) same short = ap (send m) (same next rest short)

-- Fuel from the number of bytes on changes nothing: the loop of `unpacket_data` runs to its end.
pub fuel_enough :
    (f g : ℕ) (spare next rest : Bytes)
    → length rest ≤ f
    → length rest ≤ g
    → unpacket_loop f spare next rest ≡ unpacket_loop g spare next rest
unfolding unpacket_loop
fuel_enough zero zero spare next rest h k = refl
fuel_enough zero (suc g) spare next [] h k = refl
fuel_enough zero (suc g) spare next (b ∷ bs) h k = absurd (omega arith)
fuel_enough (suc f) zero spare next [] h k = refl
fuel_enough (suc f) zero spare next (b ∷ bs) h k = absurd (omega arith)
fuel_enough (suc f) (suc g) spare next [] h k = refl
fuel_enough (suc f) (suc g) spare next (b ∷ bs) h k =
    unpacket_loop-round f spare next b bs
    ∙ next_loop_fuel f g spare (length bs) (round spare next (b ∷ bs))
        (λ next' rest' le. fuel_enough f g spare next' rest' (omega arith) (omega arith))
        (round-Shorter spare next b bs)
    ∙ sym (unpacket_loop-round g spare next b bs)

pub return_of_round :
    (f : ℕ) (spare next : Bytes) (b : ℕ) (bs : Bytes) (r : Option Bytes)
    → round spare next (b ∷ bs) ≡ return r
    → unpacket_loop (suc f) spare next (b ∷ bs) ≡ record { sent = []; rest = r }
return_of_round f spare next b bs r e =
    unpacket_loop-round f spare next b bs ∙ ap (next_loop f spare) e
