-- ===== src/Mote/Packet.antt =====
-- mote/packet.go: the framing of the protocol. A connection is a `Source` of incoming bytes and a
-- `Sink` of outgoing ones.
pub mod Writing
pub mod Reading
use cmd.Prelude.{
  ℕ, zero, suc, ◌+◌, ◌-◌, ◌*◌, ◌%◌, ◌^◌, ◌≡◌, Bool, true, false, not, Option, none, some, [], ◌∷◌,
  ◌++◌, Bytes, length, take, drop, ltb, leb, ◌==◌, if◌then◌else◌, Result, ok, err, ◌>>=◌, ◌>>◌,
  refuse,
}
use cmd.Prelude.Io.{IoError, eof, Source, read_full, Sink, write}
use cmd.Prelude.Digits.{put_uint32, uint32}
use cmd.Prelude.Int.{ℤ, pos, negsuc}

-- maxJSON and maxHandshake
abbrev pub max_json : ℕ
max_json = 2 ^ 20

abbrev pub max_handshake : ℕ
max_handshake = 1024

pub data PacketError : Type 0 where
  io : IoError → PacketError
  -- json.Marshal and json.Unmarshal
  bad_json : PacketError
  write_failed : PacketError
  json_too_large : ℕ → PacketError
  data_too_large : PacketError
  short_data_stream : ℕ → PacketError
  data_stream_longer : PacketError
  handshake_has_json : PacketError
  handshake_too_large : ℕ → PacketError

-- encoding/json at the type `A`: `unmarshal` decodes into a value that is there already.
pub record Json (A : Type 0) : Type 0 where
  pub marshal : A → Option Bytes
  pub unmarshal : A → Bytes → Option A

unfoldable pub lift_io {ℓ} : {A : Type ℓ} → Result IoError A → Result PacketError A
lift_io (ok a) = ok a
lift_io (err e) = err (io e)

module _ {A : Type 0} (J : Json A) where
  -- The JSON section: none where the encoding fails, empty for a nil `js`.
  unfoldable pub encode_json : Option A → Option Bytes
  encode_json none = some []
  encode_json (some js) = J.marshal js

  -- The JSON section that was read; a nil `js` ignores it.
  unfoldable pub decode_json : Option A → Bytes → Result PacketError (Option A)
  decode_json none enc = ok none
  decode_json (some js) enc = elim (J.unmarshal js enc) [
    | none ↦ err bad_json
    | some js' ↦ ok (some js')
  ]

-- The eight bytes in front of a packet: `uint32(len(enc))` and `uint32(len(data))`.
unfoldable pub header : ℕ → ℕ → Bytes
header jsize dsize = put_uint32 (jsize % 2 ^ 32) ++ put_uint32 (dsize % 2 ^ 32)

-- `if len(p) > 0 { c.rw.Write(p) }`
unfoldable pub write_section : Bytes → Sink → Bool × Sink
write_section [] w = (true, w)
write_section (b ∷ p) w = write (b ∷ p) w

-- The sections in order, up to the first write that fails.
unfoldable pub write_packet_sections : Bytes → Bytes → Bytes → Sink → Option PacketError × Sink
unfolding write_section
write_packet_sections hdr enc payload w =
    let (hdr_ok, w1) = write hdr w in
    let (enc_ok, w2) = write_section enc w1 in
    let (payload_ok, w3) = write_section payload w2 in
    if hdr_ok
    then if enc_ok
      then if payload_ok then (none, w3) else (some write_failed, w3)
      else (some write_failed, w2)
    else (some write_failed, w1)

-- io.CopyN(c.rw, r, size), and the read of one more byte behind it.
pub copy_exactly : ℕ → Source → Sink → Option PacketError × Sink
copy_exactly size r w =
    let (done, w') = write (take size r.bytes) w in
    if done
    then if leb size (length r.bytes)
      then if ltb size (length r.bytes) then (some data_stream_longer, w') else (none, w')
      else (some (elim r.fin [ eof ↦ short_data_stream (length r.bytes) | e ↦ io e ]), w')
    else (some write_failed, w')

-- `int64(uint32(size)) == size`
unfoldable pub fits_uint32 : ℤ → Option ℕ
fits_uint32 (pos n) = if n % 2 ^ 32 == n then some n else none
fits_uint32 (negsuc n) = none

module _ {A : Type 0} (J : Json A) where
  unfoldable pub write_packet : Option A → Bytes → Sink → Option PacketError × Sink
  unfolding encode_json
  write_packet js payload w = elim (encode_json J js) [
    | none ↦ (some bad_json, w)
    | some enc ↦ write_packet_sections (header (length enc) (length payload)) enc payload w
  ]

  pub write_packet_stream : Option A → ℤ → Source → Sink → Option PacketError × Sink
  unfolding encode_json fits_uint32
  write_packet_stream js size r w = elim (encode_json J js) [
    | none ↦ (some bad_json, w)
    | some enc ↦ elim (fits_uint32 size) [
      | none ↦ (some data_too_large, w)
      | some n ↦
          let (failure, w') = write_packet_sections (header (length enc) n) enc [] w in
          elim failure [ some e ↦ (some e, w') | none ↦ copy_exactly n r w' ]
    ]
  ]

  -- The JSON and the size of the data, with the data still to be read.
  pub read_packet_stream : Option A → Source → Result PacketError (Option A × ℕ × Source)
  unfolding decode_json lift_io
  read_packet_stream js s = do
    (hdr, s1) ← lift_io (read_full 8 s)
    let jsize = uint32 (take 4 hdr)
    let dsize = uint32 (drop 4 hdr)
    refuse (ltb max_json jsize) (json_too_large jsize)
    if jsize == 0 then ok (js, dsize, s1) else do
      (enc, s2) ← lift_io (read_full jsize s1)
      js' ← decode_json J js enc
      ok (js', dsize, s2)

  pub read_packet : Option A → Source → Result PacketError (Option A × Bytes × Source)
  unfolding lift_io
  read_packet js s = do
    (js', size, body) ← read_packet_stream js s
    (payload, s') ← lift_io (read_full size body)
    ok (js', payload, s')

unfoldable pub read_handshake_packet : Source → Result PacketError (Bytes × Source)
unfolding lift_io
read_handshake_packet s = do
  (hdr, s1) ← lift_io (read_full 8 s)
  let jsize = uint32 (take 4 hdr)
  let dsize = uint32 (drop 4 hdr)
  refuse (not (jsize == 0)) handshake_has_json
  refuse (ltb max_handshake dsize) (handshake_too_large dsize)
  lift_io (read_full dsize s1)
