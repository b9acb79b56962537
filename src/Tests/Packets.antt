-- ===== src/Tests/Packets.antt =====
-- Tests of the framing.
use cmd.Prelude.{
  ℕ, ◌<◌, ◌≤◌, ◌+◌, ◌-◌, ◌^◌, ◌≤◌, ◌≡◌, refl, arith, none, some, [], ◌∷◌, ◌++◌, codes, ok,
}
use cmd.Prelude.Io.{eof, Sink, write}
use cmd.Prelude.Int.{pos}
use cmd.Prelude.Digits.{put_uint32}
use cmd.Mote.Packet.{
  encode_json, decode_json, header, write_section, write_packet_sections, write_packet,
  write_packet_stream, read_packet, read_handshake_packet,
}
use cmd.Mote.Packet.Writing.{frame, outcome, after, write_packet_lem, write_packet_stream_lem}
use cmd.Mote.Packet.Reading.{read_packet_round_trip, handshake_outcome, read_handshake_packet_lem}
use cmd.Tests.Toy.{number}

abbrev narrow : Sink
narrow = record { out = []; room = 10 }

abbrev wide : Sink
wide = record { out = []; room = 2 ^ 33 }

write_packet_lem_example :
    write_packet number (some 5) (codes "abc") narrow
    ≡ outcome (frame (5 ∷ []) (codes "abc")) narrow
unfolding encode_json
write_packet_lem_example = write_packet_lem number (some 5) (codes "abc") narrow

encoded : encode_json number (some 5) ≡ some (5 ∷ [])
unfolding encode_json
encoded = refl

-- There is room for the packet and not for a byte more.
abbrev just : Sink
just = record { out = []; room = 11 }

room_for_two : (n : ℕ) → pos 2 ≡ pos n → n < 2 ^ 32 → 8 + 1 + n ≤ just.room
room_for_two n same small = let two : 2 ≡ n = cc in omega arith

write_packet_stream_lem_example :
    write_packet_stream number (some 5) (pos 2) (record { bytes = codes "ab"; fin = eof }) just
    ≡ (none, after (header 1 2 ++ (5 ∷ [] ++ codes "ab")) just)
write_packet_stream_lem_example =
    write_packet_stream_lem number (some 5) (pos 2) (record { bytes = codes "ab"; fin = eof }) just
      (5 ∷ []) encoded room_for_two

sent :
    write_packet number (some 5) (codes "abc") wide
    ≡ (none, record { out = frame (5 ∷ []) (codes "abc"); room = 2 ^ 33 - 12 })
unfolding write_packet encode_json write_packet_sections write_section write header put_uint32
sent = refl

decoded : decode_json number (some 0) (5 ∷ []) ≡ ok (some 5)
unfolding decode_json
decoded = refl

read_packet_round_trip_example :
    read_packet number
      (some 0)
      (record { bytes = frame (5 ∷ []) (codes "abc") ++ codes "next"; fin = eof })
    ≡ ok (some 5, codes "abc", record { bytes = codes "next"; fin = eof })
read_packet_round_trip_example =
    read_packet_round_trip number (some 5) (some 0) (some 5) (5 ∷ []) (codes "abc") (codes "next")
      eof (2 ^ 33) (record { out = frame (5 ∷ []) (codes "abc"); room = 2 ^ 33 - 12 }) encoded
      decoded (omega arith) (omega arith) sent

read_handshake_packet_lem_example :
    read_handshake_packet (record { bytes = header 0 5 ++ codes "hello"; fin = eof })
    ≡ handshake_outcome 0 5 (record { bytes = codes "hello"; fin = eof })
read_handshake_packet_lem_example =
    read_handshake_packet_lem 0 5 (codes "hello") eof (omega arith) (omega arith)
