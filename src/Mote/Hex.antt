-- ===== src/Mote/Hex.antt =====
-- mote/hex.go: the hex encoding of the protocol for connections that are not binary safe.
pub mod Reading
pub mod RoundTrip
pub mod Session
pub mod Lines
use Prim.Native.Nat.{bit_or}
use cmd.Prelude.{
  ℕ, zero, suc, ◌+◌, ◌-◌, ◌*◌, ◌/◌, ◌%◌, ◌≡◌, refl, Bool, true, false, ◌&&◌, ◌||◌, Option, none,
  some, List, [], ◌∷◌, ◌++◌, Bytes, codes, length, take, drop, ltb, leb, ◌==◌, if◌then◌else◌,
}
use cmd.Prelude.Io.{IoError, Sink, write, Stream, read, size}
use cmd.Prelude.Text.{is_newline, trim_space, contains_any, before}

-- hexLineBytes
abbrev pub hex_line_bytes : ℕ
hex_line_bytes = 64

-- The lower-case digit that encoding/hex writes.
hex_digit : ℕ → ℕ
hex_digit v = if ltb v 10 then b'0' + v else b'a' + v - 10

-- hex.AppendEncode(nil, line)
pub append_encode : Bytes → Bytes
unfolding hex_digit
append_encode [] = []
append_encode (b ∷ line) = hex_digit (b / 16) ∷ hex_digit (b % 16) ∷ append_encode line

line_of : Bytes → Bytes
line_of rest = if ltb hex_line_bytes (length rest) then take hex_line_bytes rest else rest

-- The loop of `hexWriter.Write`: each round takes at least one byte off `rest`.
pub write_lines : ℕ → Bytes → Bytes → Bytes
write_lines zero rest buf = buf
write_lines (suc fuel) [] buf = buf
write_lines (suc fuel) (b ∷ bs) buf =
    let rest = b ∷ bs in
    let line = line_of rest in
    write_lines fuel (drop (length line) rest) (buf ++ append_encode line ++ b'\n' ∷ [])

-- `hexWriter.Write`: the number that it returns, whether it succeeded, and the connection after it.
-- The connection is written to by `put`, which may be of any kind.
unfoldable pub hex_write_to : {W : Type 0} → (Bytes → W → Bool × W) → Bytes → W → (ℕ × Bool) × W
hex_write_to put p w =
    let (done, w') = put (write_lines (length p) p []) w in
    if done then ((length p, true), w') else ((0, false), w')

unfoldable pub hex_write : Bytes → Sink → (ℕ × Bool) × Sink
unfolding hex_write_to
hex_write = hex_write_to write

pub data HexError : Type 0 where
  io : IoError → HexError
  -- unencoded data on hex connection, with the text of the message
  unencoded : Bytes → HexError

pub record HexReader : Type 0 where
  pub hi : ℕ
  pub odd : Bool
  pub err : Option HexError

abbrev pub new_reader : HexReader
new_reader = record { hi = 0; odd = false; err = none }

-- The value of a hex digit, and none for another byte.
pub unhex : ℕ → Option ℕ
unhex c =
    if leb b'0' c && leb c b'9'
    then some (c - b'0')
    else if leb b'a' c && leb c b'f'
    then some (c - b'a' + 10)
    else if leb b'A' c && leb c b'F'
    then some (c - b'A' + 10)
    else none

-- How the loop over the raw bytes ends: at their end, or at a byte that is no digit and no newline,
-- with the bytes from it on. Either way with the bytes decoded before.
pub data Digest : Type 0 where
  done : HexReader → Bytes → Digest
  bad : HexReader → Bytes → Bytes → Digest

-- A digit is kept, or completes a byte with the digit before it.
accept : ℕ → HexReader → Bytes → HexReader × Bytes
accept v h out = elim h.odd [
  | false ↦ (record h { hi = v; odd = true }, out)
  | true ↦ (record h { odd = false }, out ++ bit_or (h.hi * 16 % 256) v ∷ [])
]

-- The loop over `h.buf[:nr]`; `out` is `p[:n]`.
pub digest : Bytes → HexReader → Bytes → Digest
digest [] h out = done h out
digest (c ∷ raw) h out = elim (unhex c) [
  | none ↦ elim (is_newline c) [ true ↦ digest raw h out | false ↦ bad h out (c ∷ raw) ]
  | some v ↦ digest raw (accept v h out).0 (accept v h out).1
]

-- The loop of `hexReader.text`: read on until the line ends, the buffer is full or a read fails.
text_more : ℕ → Bytes → Stream → Bytes × Stream
text_more zero msg s = (msg, s)
text_more (suc fuel) msg s =
    let (more, e, s') = read 512 s in
    elim (contains_any is_newline msg || leb 512 (length msg)) [
      | true ↦ (msg, s)
      | false ↦ elim e [ none ↦ text_more fuel (msg ++ more) s' | some _ ↦ (msg ++ more, s') ]
    ]

-- The first line of the message, cut at 256 bytes.
text_line : Bytes → Bytes
text_line msg =
    let s = before is_newline (trim_space msg) in
    if ltb 256 (length s) then take 256 s ++ codes "..." else s

-- `hexReader.text`, less the quoting by `%q`. `timed` says that the connection has read deadlines.
pub text : Bool → Bytes → Stream → Bytes × Stream
unfolding text_more text_line
text timed b s =
    let (msg, s') = if timed then text_more (suc (size s.chunks)) b s else (b, s) in
    (text_line msg, s')

-- What `Read` returns, and what it leaves.
pub record HexRead : Type 0 where
  pub out : Bytes
  pub error : Option HexError
  pub reader : HexReader
  pub stream : Stream

lift_error : Option IoError → Option HexError
lift_error none = none
lift_error (some e) = some (HexError.io e)

failed : Option IoError → Bool
failed none = false
failed (some e) = true

-- The loop of `hexReader.Read` for a buffer of `n` bytes; none where the fuel runs out.
read_loop : Bool → ℕ → ℕ → HexReader → Stream → Option HexRead
unfolding lift_error failed
read_loop timed zero n h s = none
read_loop timed (suc fuel) n h s =
    let (raw, e, s') = read (2 * n) s in
    elim (digest raw h []) [
      | bad h' out rest ↦
          let (msg, s'') = text timed rest s' in
          let problem : HexError = unencoded msg in
          some (record {
            out = out;
            error = some problem;
            reader = record h' { err = some problem };
            stream = s'';
          })
      | done h' out ↦ elim (leb 1 (length out) || failed e) [
        | true ↦ some (record { out = out; error = lift_error e; reader = h'; stream = s' })
        | false ↦ read_loop timed fuel n h' s'
      ]
    ]

-- `hexReader.Read(p)` with `n = len(p)`.
pub hex_read : Bool → ℕ → HexReader → Stream → Option HexRead
unfolding read_loop
hex_read timed n h s = elim h.err [
  | some e ↦ some (record { out = []; error = some e; reader = h; stream = s })
  | none ↦ elim (n == 0) [
    | true ↦ some (record { out = []; error = none; reader = h; stream = s })
    | false ↦ read_loop timed (suc (size s.chunks)) n h s
  ]
]
