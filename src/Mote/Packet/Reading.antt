-- ===== src/Mote/Packet/Reading.antt =====
-- What the readers of packets take off the connection, and that they undo the writers.
use cmd.Prelude.{
  ℕ, suc, ◌^◌, ◌≤◌, ◌<◌, ◌≡◌, refl, sym, ap, false, Option, none, some, [], ◌∷◌, ◌++◌, append_assoc,
  arith, Bytes, length, take, drop, ltb, leb, ◌==◌, if◌then◌else◌, Result, ok, err, ◌>>=◌,
}
use cmd.Prelude.Io.{IoError, Source, read_full, read_full-append, Sink}
use cmd.Prelude.Digits.{put_uint32, uint32}
use cmd.Mote.Packet.{
  PacketError, Json, encode_json, decode_json, lift_io, header, write_packet, read_packet_stream,
  read_packet, read_handshake_packet, max_json, max_handshake, handshake_has_json,
  handshake_too_large,
}
use cmd.Mote.Packet.Writing.{length-header, written_frame}

abbrev source : Bytes → IoError → Source
source bytes fin = record { bytes = bytes; fin = fin }

not-lt : (a b : ℕ) → b ≤ a → ltb a b ≡ false
not-lt a b h = ground arith

header_jsize : (m n : ℕ) → m < 2 ^ 32 → uint32 (take 4 (header m n)) ≡ m
unfolding header put_uint32 uint32
header_jsize m n h = omega arith

header_dsize : (m n : ℕ) → n < 2 ^ 32 → uint32 (drop 4 (header m n)) ≡ n
unfolding header put_uint32 uint32
header_dsize m n h = omega arith

read_header :
    (m n : ℕ) (rest : Bytes) (fin : IoError)
    → read_full 8 (source (header m n ++ rest) fin) ≡ ok (header m n, source rest fin)
read_header m n rest fin = read_full-append 8 (header m n) rest fin (sym (length-header m n))

read_body :
    (xs rest : Bytes) (fin : IoError)
    → read_full (length xs) (source (xs ++ rest) fin) ≡ ok (xs, source rest fin)
read_body xs rest fin = read_full-append (length xs) xs rest fin refl

suc_ne_zero : (n : ℕ) → (suc n == 0) ≡ false
suc_ne_zero n = ground arith

abbrev then_data :
    {A : Type 0}
    → Bytes
    → Bytes
    → IoError
    → Result PacketError A
    → Result PacketError (A × ℕ × Source)
then_data payload rest fin r = r >>= λ js. ok (js, length payload, source rest fin)

module _ {A : Type 0} (J : Json A) where
  stream_lem :
      (js : Option A) (enc payload rest : Bytes) (fin : IoError) (js' : Option A)
      → length enc ≤ max_json
      → length payload < 2 ^ 32
      → (if length enc == 0 then ok js else decode_json J js enc) ≡ ok js'
      → read_packet_stream J js (source (header (length enc) (length payload) ++ (enc ++ rest)) fin)
        ≡ ok (js', length payload, source rest fin)
  unfolding read_packet_stream
  stream_lem js [] payload rest fin js' small fits decoded =
      rw (read_header 0 (length payload) rest fin, read_packet_stream)
        (rw (header_jsize 0 (length payload) (omega arith), header_dsize 0 (length payload) fits)
          (ap (then_data payload rest fin) decoded))
  stream_lem js (b ∷ enc) payload rest fin js' small fits decoded =
      rw
        (
          read_header (length (b ∷ enc)) (length payload) ((b ∷ enc) ++ rest) fin,
          read_packet_stream,
        )
        (rw
          (
            header_jsize (length (b ∷ enc)) (length payload) (omega arith),
            header_dsize (length (b ∷ enc)) (length payload) fits,
            not-lt max_json (length (b ∷ enc)) small,
            read_body (b ∷ enc) rest fin,
            suc_ne_zero (length enc),
            rw (suc_ne_zero (length enc)) at decoded,
          )
          refl)

  -- A packet that was written, with at most 2^20 bytes of JSON and less than 2^32 of data, is read back
  -- whole: the data, what the JSON decodes to (nothing is decoded where it is empty), and not a byte of
  -- what follows.
  pub read_packet_round_trip :
      (js target js' : Option A) (enc payload rest : Bytes) (fin : IoError) (room : ℕ) (w : Sink)
      → encode_json J js ≡ some enc
      → (if length enc == 0 then ok target else decode_json J target enc) ≡ ok js'
      → length enc ≤ max_json
      → length payload < 2 ^ 32
      → write_packet J js payload (record { out = []; room = room }) ≡ (none, w)
      → read_packet J target (record { bytes = w.out ++ rest; fin = fin })
        ≡ ok (js', payload, record { bytes = rest; fin = fin })
  unfolding read_packet
  read_packet_round_trip js target js' enc payload rest fin room w encoded decoded small fits
        written =
      let sent = written_frame J js enc payload room w encoded written in
      rw
        (
          sent,
          append_assoc (header (length enc) (length payload)) (enc ++ payload) rest,
          append_assoc enc payload rest,
          stream_lem target enc payload (payload ++ rest) fin js' small fits decoded,
          read_body payload rest fin,
        )
        refl

-- How reading a handshake packet ends, by the two sizes in the eight bytes in front of it.
abbrev pub handshake_outcome : ℕ → ℕ → Source → Result PacketError (Bytes × Source)
handshake_outcome jsize dsize s =
    if jsize == 0
    then if leb dsize max_handshake
      then lift_io (read_full dsize s)
      else err (handshake_too_large dsize)
    else err handshake_has_json

-- readHandshakePacket, whatever the header says: a JSON section or more than 1024 bytes of data are
-- refused by the header alone, whatever follows it, and any other packet is read.
pub read_handshake_packet_lem :
    (jsize dsize : ℕ) (rest : Bytes) (fin : IoError)
    → jsize < 2 ^ 32
    → dsize < 2 ^ 32
    → read_handshake_packet (record { bytes = header jsize dsize ++ rest; fin = fin })
      ≡ handshake_outcome jsize dsize (record { bytes = rest; fin = fin })
unfolding read_handshake_packet
read_handshake_packet_lem jsize dsize rest fin hj hd =
    rw (read_header jsize dsize rest fin, read_handshake_packet)
      (rw (header_jsize jsize dsize hj, header_dsize jsize dsize hd) (ground arith))
