-- ===== src/Packet/Tests.antt =====
-- The framing of socket messages (backend/common/packet.go) on concrete messages.
use cronjob.Base.{◌≡◌, some, [], ◌∷◌, codes, arith, text_eq}
use cronjob.Packet.{Bytes, packet_data, put_uint32, unpacket_data}
use cronjob.Packet.RoundTrip.{unpacket-packet}
use cronjob.Packet.Stream.{stream, stream-every_other}

abbrev hello : Bytes
hello = codes "hello"

unpacket-packet_example :
    unpacket_data (codes "spare") (packet_data hello) ≡ record { sent = hello ∷ []; rest = some [] }
unpacket-packet_example = unpacket-packet hello (codes "spare") (omega arith) (omega arith)

stream-every_other_example :
    (unpacket_data [] (stream (hello ∷ codes "lost" ∷ codes "again" ∷ []))).sent
    ≡ hello ∷ codes "again" ∷ []
unfolding packet_data text_eq put_uint32
stream-every_other_example =
    stream-every_other (hello ∷ codes "lost" ∷ codes "again" ∷ []) [] (ground arith) (ground arith)
