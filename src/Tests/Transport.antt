-- ===== src/Tests/Transport.antt =====
-- Tests of the hex transport.
use cmd.Prelude.{
  Bool, ℕ, ◌≡◌, refl, ap, ◌∙◌, true, false, some, [], ◌∷◌, ◌++◌, append-nil, arith, Bytes, codes,
  length, take, drop, take-append-drop, IsBytes,
}
use cmd.Prelude.Io.{eof, Stream, flatten}
use cmd.Mote.Hex.{
  io, HexReader, HexRead, new_reader, done, digest, write_lines, hex_write, hex_write_to, hex_read,
}
use cmd.Mote.Hex.Reading.{IsHexRead, hex_read_total}
use cmd.Mote.Hex.RoundTrip.{reported, hex_write_decodes}
use cmd.Mote.Hex.Session.{read_all, hex_round_trip}
use cmd.Mote.Hex.Lines.{IsLined, write_lines-IsLined}

abbrev hi : Bytes
hi = b'h' ∷ 255 ∷ []

hi-IsBytes : IsBytes hi
hi-IsBytes = (omega arith, (omega arith, tt))

abbrev enough : ℕ
enough = length (write_lines 2 hi [])

abbrev sent : Bytes
sent = (hex_write hi (record { out = []; room = enough })).1.out

-- The digits of a byte in two chunks, and then a message that is not encoded.
abbrev stream : Stream
stream = record { chunks = codes "4" ∷ codes "1\nlogin failed\n" ∷ []; fin = eof }

hex_read_total_example :
    (r : HexRead) × (hex_read true 8 new_reader stream ≡ some r)
    × IsHexRead 8 eof (digest (flatten stream.chunks) new_reader []) r
hex_read_total_example = hex_read_total true 8 new_reader stream (omega arith) refl

hex_write_decodes_example :
    (wire : Bytes) × (h : HexReader) × ((W : Type 0) (put : Bytes → W → Bool × W) (v : W)
      → hex_write_to put hi v ≡ reported hi (put wire v))
    × ((hex_write hi (record { out = []; room = enough })).0 ≡ (2, true))
    × (sent ≡ wire)
    × (digest wire new_reader [] ≡ done h hi)
    × (h.odd ≡ false)
hex_write_decodes_example =
    hex_write_decodes hi (record { out = []; room = enough }) hi-IsBytes (omega arith)

two_chunks : flatten (take 3 sent ∷ drop 3 sent ∷ []) ≡ sent
two_chunks = ap (λ x. take 3 sent ++ x) (append-nil (drop 3 sent)) ∙ take-append-drop 3 sent

hex_round_trip_example :
    read_all 3 true 4 new_reader (record { chunks = take 3 sent ∷ drop 3 sent ∷ []; fin = eof })
    ≡ some (hi, io eof)
hex_round_trip_example =
    hex_round_trip hi (take 3 sent ∷ drop 3 sent ∷ []) eof true 4 3 enough hi-IsBytes (omega arith)
      two_chunks (omega arith) (omega arith)

write_lines-IsLined_example : IsLined 128 (write_lines 2 hi [])
write_lines-IsLined_example = write_lines-IsLined hi hi-IsBytes
