-- ===== src/Packet.antt =====
-- The framing of socket messages (backend/common/packet.go). A byte is a number below 256.
-- A Go slice `data` is its bytes and the `spare` bytes of its array behind them, which a slice
-- expression may reach into: `data[lo:hi]` panics only if `hi` passes the capacity, or `lo` passes
-- `hi`. `UnPacketData` is a loop over an index `i`; here it walks the suffix `data[i:]`, of which
-- every test and slice of the loop is a function.
pub mod Length
pub mod RoundTrip
pub mod Stream
pub mod Cut
mod Tests
use cronjob.Base.{
  ℕ, zero, suc, ◌+◌, ◌-◌, ◌*◌, ◌/◌, ◌%◌, ◌^◌, Bool, true, false, ◌&&◌, Option, none, some, List, [],
  ◌∷◌, ◌++◌, ltb, leb, ◌==◌, length, take, drop, if◌then◌else◌, Text, codes, text_eq,
}

abbrev pub Bytes : Type 0
Bytes = Text

abbrev pub header : Bytes
header = codes "www.codelieche.com"

abbrev pub header_length : ℕ
header_length = 18

-- `SocketDataLength`
abbrev pub data_length : ℕ
data_length = 4

-- `binary.BigEndian.PutUint32` of `uint32(n)`.
unfoldable pub put_uint32 : ℕ → Bytes
put_uint32 n = (n / 2 ^ 24 % 256) ∷ (n / 2 ^ 16 % 256) ∷ (n / 2 ^ 8 % 256) ∷ (n % 256) ∷ []

-- `PacketData`
unfoldable pub packet_data : Bytes → Bytes
unfolding put_uint32
packet_data message = header ++ put_uint32 (length message % 2 ^ 32) ++ message

-- `binary.Read` of a big-endian `uint32`: 0 when there are fewer than four bytes.
unfoldable pub get_uint32 : Bytes → ℕ
get_uint32 (a ∷ b ∷ c ∷ d ∷ _) = a * 2 ^ 24 + b * 2 ^ 16 + c * 2 ^ 8 + d
get_uint32 _ = 0

-- `BinaryToInt`: a length above 65535 counts as no message, but for the text "0000".
unfoldable pub binary_to_int : Bytes → ℕ
unfolding get_uint32 text_eq
binary_to_int bytes =
    let n = get_uint32 bytes in
    if ltb 65535 n then (if text_eq bytes (codes "0000") then 1024 else 0) else n

-- `data[lo:hi]`, where `array` is the array of the slice from its first element to its capacity.
unfoldable pub slice : Bytes → ℕ → ℕ → Option Bytes
slice array lo hi =
    if leb lo hi && leb hi (length array) then some (take (hi - lo) (drop lo array)) else none

-- What `UnPacketData` has sent to its channel, and its result: `none` is a panic.
pub record Unpacked : Type 0 where
  pub sent : List Bytes
  pub rest : Option Bytes

abbrev pub send : Bytes → Unpacked → Unpacked
send m u = record { sent = m ∷ u.sent; rest = u.rest }

-- The message behind a header that stands at the front of `rest`, of the announced `n` bytes: it is
-- taken from the array, past the end of the data if need be. Only for 1024 is the end drawn back.
unfoldable pub message_end : Bytes → ℕ → ℕ
message_end rest n =
    let stop = header_length + data_length + n in
    if ltb (length rest) stop then (if n == 1024 then length rest else stop) else stop

unfoldable pub read_message : Bytes → Bytes → ℕ → Option Bytes
unfolding message_end slice
read_message spare rest n = slice (rest ++ spare) (header_length + data_length) (message_end rest n)

abbrev pub at_header : Bytes → Bool
at_header rest = text_eq (take header_length rest) header

-- What one round of the loop does, on the suffixes `rest = data[i:]` and
-- `next = data[nextStartIndex:]`: it returns, or it goes on from two new suffixes, after a message.
pub data Round : Type 0 where
  return : Option Bytes → Round
  advance : Bytes → Bytes → Round
  deliver : Bytes → Bytes → Bytes → Round

-- A header was found, with a message of `n` bytes announced. `i` goes to the end of the message,
-- and the `i++` of the loop then passes over one byte more.
unfoldable pub found_length : Bytes → Bytes → Bytes → ℕ → Round
unfolding read_message
found_length spare next rest zero = advance next (drop 1 rest)
found_length spare next rest (suc k) =
    let next' = drop (header_length + data_length + suc k) rest in
    elim (read_message spare rest (suc k)) [
      | none ↦ return none
      | some message ↦ deliver message next' (drop 1 next')
    ]

unfoldable pub found_header : Bytes → Bytes → Bytes → Round
unfolding found_length binary_to_int slice
found_header spare next rest =
    elim (slice (rest ++ spare) header_length (header_length + data_length)) [
      | none ↦ return none
      | some bytes ↦ found_length spare next rest (binary_to_int bytes)
    ]

unfoldable pub round : Bytes → Bytes → Bytes → Round
unfolding found_header text_eq
round spare next rest =
    if ltb (length rest) header_length
    then return (some rest)
    else if at_header rest
    then found_header spare next rest
    else advance next (drop 1 rest)

-- The loop. The fuel counts its rounds; `length rest` is enough, as each round moves `i` on.
unfoldable pub unpacket_loop : ℕ → Bytes → Bytes → Bytes → Unpacked
unfolding round
unpacket_loop zero spare next rest = record { sent = []; rest = some next }
unpacket_loop (suc fuel) spare next [] = record { sent = []; rest = some next }
unpacket_loop (suc fuel) spare next (b ∷ bs) = elim (round spare next (b ∷ bs)) [
  | return r ↦ record { sent = []; rest = r }
  | advance next' rest' ↦ unpacket_loop fuel spare next' rest'
  | deliver m next' rest' ↦ send m (unpacket_loop fuel spare next' rest')
]

-- `UnPacketData`
unfoldable pub unpacket_data : Bytes → Bytes → Unpacked
unfolding unpacket_loop
unpacket_data spare bytes = unpacket_loop (length bytes) spare bytes bytes
