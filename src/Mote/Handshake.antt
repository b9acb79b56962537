-- ===== src/Mote/Handshake.antt =====
-- mote/handshake.go: the exchange of hellos, which finds the start of the protocol behind a login
-- banner; and mote/hex.go's scanHexHandshake, which does the same for hex connections.
pub mod Scanning
pub mod Hellos
pub mod Newlines
use cmd.Prelude.{
  ℕ, ◌+◌, ◌*◌, Bool, true, false, [], ◌∷◌, ◌++◌, Bytes, codes, length, take, drop, ltb, ◌==◌,
  if◌then◌else◌, bytes_eq, Result, ok, err, ◌>>=◌,
}
use cmd.Prelude.Io.{IoError, eof, unexpected_eof, deadline, other, Source, Sink, write}
use cmd.Prelude.Text.{is_newline, trim_space, trim_right, has_prefix, has_suffix}

abbrev pub hello_prefix : Bytes
hello_prefix = codes "mote server hello "

abbrev pub server_hello : Bytes
server_hello = hello_prefix ++ 0 ∷ 1 ∷ 254 ∷ 255 ∷ b'\n' ∷ []

abbrev pub client_prefix : Bytes
client_prefix = codes "mote client hello "

abbrev pub client_hello : Bytes
client_hello = client_prefix ++ 255 ∷ 254 ∷ 1 ∷ 0 ∷ b'\n' ∷ []

abbrev pub max_preamble : ℕ
max_preamble = 64 * 1024

-- What `scanHello` complains about.
pub data Problem : Type 0 where
  timeout closed too_much : Problem
  reading : IoError → Problem

pub data HelloError : Type 0 where
  -- with what the server said
  no_hello : Problem → Bytes → HelloError
  not_binary_safe malformed write_failed : HelloError
  reading_hello : IoError → HelloError

abbrev pub Match : Type 0
Match = Bytes → Result HelloError Bool

pub problem_of : IoError → Problem
problem_of eof = closed
problem_of unexpected_eof = closed
problem_of deadline = timeout
problem_of (other e) = reading (other e)

-- The text of `fail`.
pub said : Bytes → Bytes → Bytes
said preamble line =
    let msg = trim_space (preamble ++ line) in
    if ltb 2048 (length msg) then take 2048 msg ++ codes "..." else msg

-- The loop of `scanHello` on the bytes still to come: io.ReadFull of one byte takes the first of
-- them, or fails with `fin`.
unfoldable pub scan : Match → Bytes → Bytes → Bytes → IoError → Result HelloError Source
unfolding problem_of said
scan matches preamble line [] fin = err (no_hello (problem_of fin) (said preamble line))
scan matches preamble line (b ∷ bs) fin =
    let line' = line ++ b ∷ [] in
    elim (b == b'\n') [
      | false ↦ elim (ltb max_preamble (length preamble + length line')) [
        | true ↦ err (no_hello too_much (said preamble line'))
        | false ↦ scan matches preamble line' bs fin
      ]
      | true ↦ elim (matches line') [
        | err e ↦ err e
        | ok true ↦ ok (record { bytes = bs; fin = fin })
        | ok false ↦ scan matches (preamble ++ line') [] bs fin
      ]
    ]

unfoldable pub scan_hello : Source → Match → Result HelloError Source
scan_hello src matches = scan matches [] [] src.bytes src.fin

unfoldable pub match_server_hello : Match
match_server_hello line =
    if bytes_eq line server_hello
    then ok true
    else if has_prefix line hello_prefix
    then err not_binary_safe
    else ok false

unfoldable pub scan_server_hello : Source → Result HelloError Source
scan_server_hello src = scan_hello src match_server_hello

-- What the client leaves unread, and its end of the connection.
pub client_handshake : Source → Sink → Result HelloError Source × Sink
client_handshake src w = elim (scan_server_hello src) [
  | err e ↦ (err e, w)
  | ok src' ↦
      let (done, w') = write client_hello w in
      if done then (ok src', w') else (err write_failed, w')
]

-- A complete line from the client.
check_client_hello : Bytes → Source → Result HelloError Source
check_client_hello line src =
    if bytes_eq line client_hello
    then ok src
    else if has_prefix line client_prefix
    then err not_binary_safe
    else err malformed

-- The loop of `serverHandshake`.
pub scan_client_hello : Bytes → Bytes → IoError → Result HelloError Source
unfolding check_client_hello
scan_client_hello line [] fin = err (reading_hello fin)
scan_client_hello line (b ∷ bs) fin =
    let line' = line ++ b ∷ [] in
    elim (b == b'\n') [
      | true ↦ check_client_hello line' (record { bytes = bs; fin = fin })
      | false ↦ elim (ltb (length client_hello) (length line')) [
        | true ↦ err malformed
        | false ↦ scan_client_hello line' bs fin
      ]
    ]

pub server_handshake : Source → Sink → Result HelloError Source × Sink
server_handshake src w =
    let (done, w') = write server_hello w in
    if done then (scan_client_hello [] src.bytes src.fin, w') else (err write_failed, w')

-- hexHandshake, less its newline
abbrev pub hex_handshake : Bytes
hex_handshake = codes "mote hex handshake"

unfoldable pub match_hex_handshake : Match
match_hex_handshake line = ok (has_suffix (trim_right is_newline line) hex_handshake)

pub scan_hex_handshake : Source → Result HelloError Source
scan_hex_handshake src = scan_hello src match_hex_handshake
