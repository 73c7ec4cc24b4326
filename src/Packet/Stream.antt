-- ===== src/Packet/Stream.antt =====
-- Several packets in one buffer (backend/common/packet.go): the `i++` of the loop after a message
-- passes over the first byte of the next header.
use cronjob.Base.{
  ℕ, zero, suc, ◌+◌, ◌-◌, ◌≤◌, ◌≡◌, refl, sym, ap, subst, ◌∙◌, false, List, [], ◌∷◌, ◌++◌, length,
  drop, arith, length-drop, length-append, All,
}
use cronjob.Packet.{
  Bytes, packet_data, header_length, round, unpacket_loop, unpacket_data, at_header,
}
use cronjob.Packet.RoundTrip.{unpacket_loop-packet, drop-add, drop-length-append}

-- No header stands at one of the first `k` places.
abbrev pub Unmarked : ℕ → Bytes → Type 0
Unmarked zero bs = Unit
Unmarked (suc k) bs = (at_header bs ≡ false) × Unmarked k (drop 1 bs)

pass_one :
    (f : ℕ) (spare next : Bytes) (b : ℕ) (bs : Bytes)
    → at_header (b ∷ bs) ≡ false
    → header_length ≤ length (b ∷ bs)
    → unpacket_loop (suc f) spare next (b ∷ bs) ≡ unpacket_loop f spare next bs
unfolding unpacket_loop round
pass_one f spare next b bs u le = ground arith

-- The loop passes over `k` unmarked places in `k` rounds.
skip-Unmarked :
    (k f : ℕ) (spare next bs : Bytes)
    → Unmarked k bs
    → k + header_length ≤ length bs
    → unpacket_loop (k + f) spare next bs ≡ unpacket_loop f spare next (drop k bs)
skip-Unmarked zero f spare next bs u le = let e : zero + f ≡ f = omega arith in rw e
skip-Unmarked (suc k) f spare next [] u le = absurd (omega arith)
skip-Unmarked (suc k) f spare next (b ∷ bs) u le =
    let e : suc k + f ≡ suc (k + f) = omega arith in
    rw e (
      pass_one (k + f) spare next b bs u.0 (omega arith)
      ∙ skip-Unmarked k f spare next bs u.1 (omega arith))

-- Near the end of the buffer the loop stops with no message sent.
skip_to_end :
    (f : ℕ) (spare next bs : Bytes)
    → Unmarked (length bs) bs
    → (unpacket_loop f spare next bs).sent ≡ []
unfolding unpacket_loop round
skip_to_end zero spare next bs u = refl
skip_to_end (suc f) spare next [] u = refl
skip_to_end (suc f) spare next (b ∷ bs) u = ground (arith, skip_to_end f spare next bs u.1, u.0)

abbrev pub stream : List Bytes → Bytes
stream [] = []
stream (m ∷ ms) = packet_data m ++ stream ms

abbrev pub every_other : List Bytes → List Bytes
every_other [] = []
every_other (m ∷ []) = m ∷ []
every_other (m ∷ n ∷ ms) = m ∷ every_other ms

-- In the packets at the even places, no header is found behind their first byte.
abbrev pub SkippedUnmarked : List Bytes → Type 0
SkippedUnmarked [] = Unit
SkippedUnmarked (m ∷ []) = Unit
SkippedUnmarked (m ∷ n ∷ ms) =
    Unmarked (length n + 21) (drop 1 (packet_data n ++ stream ms)) × SkippedUnmarked ms

abbrev pub IsSendable : Bytes → Type 0
IsSendable m = (1 ≤ length m) × (length m ≤ 65535)

length-packet : (m : Bytes) → length (packet_data m) ≡ 22 + length m
unfolding packet_data
length-packet m = omega arith

sent-empty : (f : ℕ) (spare next : Bytes) → (unpacket_loop f spare next []).sent ≡ []
unfolding unpacket_loop
sent-empty zero spare next = refl
sent-empty (suc f) spare next = refl

abbrev SendsEveryOther : List Bytes → Type 0
SendsEveryOther ms =
    (f : ℕ) (spare next : Bytes)
    → length (stream ms) ≤ f
    → (unpacket_loop f spare next (stream ms)).sent ≡ every_other ms

-- Past its first byte, a packet is passed over whole.
packet_lost :
    (f : ℕ) (spare next n : Bytes) (ms : List Bytes)
    → Unmarked (length n + 21) (drop 1 (packet_data n ++ stream ms))
    → SendsEveryOther ms
    → length (packet_data n ++ stream ms) ≤ suc f
    → (unpacket_loop f spare next (drop 1 (packet_data n ++ stream ms))).sent ≡ every_other ms
packet_lost f spare next n [] u rec le =
    let s = drop 1 (packet_data n ++ []) in
    let e : length n + 21 ≡ length s = omega (
      arith,
      length-packet n,
      length-drop 1 (packet_data n ++ []),
      length-append (packet_data n) [],
    ) in
    skip_to_end f spare next s (subst (λ k. Unmarked k s) e u)
packet_lost f spare next n (m ∷ ms) u rec le =
    let p = packet_data n in
    let t = stream (m ∷ ms) in
    let k = length n + 21 in
    let lp : length p ≡ 1 + k = omega (arith, length-packet n) in
    let lt : header_length ≤ length t =
      omega (arith, length-append (packet_data m) (stream ms), length-packet m) in
    let fuel : f ≡ k + (f - k) = omega (arith, length-append p t, lp, le) in
    let behind : drop k (drop 1 (p ++ t)) ≡ t =
      sym (drop-add 1 k (p ++ t)) ∙ ap (λ j. drop j (p ++ t)) (sym lp) ∙ drop-length-append p t in
    let passed =
      skip-Unmarked k (f - k) spare next (drop 1 (p ++ t)) u
        (omega (arith, length-drop 1 (p ++ t), length-append p t, lp, lt)) in
    ap (λ j. (unpacket_loop j spare next (drop 1 (p ++ t))).sent) fuel
    ∙ ap (λ r. r.sent) passed
    ∙ ap (λ r. (unpacket_loop (f - k) spare next r).sent) behind
    ∙ rec (f - k) spare next (omega (arith, length-append p t, lp, le))

sends_every_other : (ms : List Bytes) → All IsSendable ms → SkippedUnmarked ms → SendsEveryOther ms
sends_every_other [] ok u f spare next le = sent-empty f spare next
sends_every_other (m ∷ ms) ok u zero spare next le =
    absurd (omega (arith, length-append (packet_data m) (stream ms), length-packet m))
sends_every_other (m ∷ []) ok u (suc f) spare next le =
    ap (λ r. r.sent) (unpacket_loop-packet m [] spare next f ok.0.0 ok.0.1)
    ∙ ap (λ l. m ∷ l) (sent-empty f spare [])
sends_every_other (m ∷ n ∷ ms) ok u (suc f) spare next le =
    let s = packet_data n ++ stream ms in
    ap (λ r. r.sent) (unpacket_loop-packet m s spare next f ok.0.0 ok.0.1)
    ∙ ap (λ l. m ∷ l)
        (packet_lost f spare s n ms u.0 (sends_every_other ms ok.1.1 u.1)
          (omega (arith, length-append (packet_data m) s, length-packet m, le)))

-- From a buffer of packets of 1 to 65535 bytes back to back, only the messages at the odd places are sent: every second
-- packet is lost, provided that the lost ones show no header behind their first byte.
pub stream-every_other :
    (ms : List Bytes) (spare : Bytes)
    → All IsSendable ms
    → SkippedUnmarked ms
    → (unpacket_data spare (stream ms)).sent ≡ every_other ms
unfolding unpacket_data
stream-every_other ms spare ok u =
    sends_every_other ms ok u (length (stream ms)) spare (stream ms) (omega arith)
