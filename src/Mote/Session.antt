-- ===== src/Mote/Session.antt =====
-- mote/client.go, Conn.Run, and mote/server.go, serve behind the handshake: a session as the packets
-- that each side reads and writes.
pub mod Placing
pub mod Serve
pub mod Asking
pub mod Filling
pub mod Writing
pub mod Hosting
pub mod Talking
pub mod Whole
use cmd.Prelude.{
  ◌%◌, ℕ, zero, suc, ◌+◌, ◌-◌, ◌^◌, ◌≡◌, Bool, true, false, Option, none, some, List, [], ◌∷◌, ◌++◌,
  map, Bytes, codes, bytes_eq, length, take, ltb, ◌==◌, if◌then◌else◌, Result, ok, err,
}
use cmd.Prelude.Int.{ℤ, pos}
use cmd.Prelude.Io.{Source, eof}
use cmd.Mote.Cache.{Cache, File, Disk, SaveError, sizes_of, needed, receive}

-- A file that the client lists, by its path, its hash and its size, which is not negative (the server's
-- check of that is in Mote.Cache).
pub record Listed : Type 0 where
  pub path : Bytes
  pub hash : Bytes
  pub size : ℕ

pub record Request : Type 0 where
  pub type : Bytes
  pub error : Bytes
  pub files : List Listed
  pub args : List Bytes
  pub dir : Bytes
  pub env : List Bytes
  pub addr : Bytes

pub record Response : Type 0 where
  pub type : Bytes
  pub error : Bytes
  pub need : List Bytes
  pub stderr : Bool
  pub exit_code : ℤ
  pub status : Bytes
  pub goos : Bytes
  pub goarch : Bytes

-- A packet of a request: the size of the data that its header says, and the data that came.
pub record Packet : Type 0 where
  pub request : Request
  pub size : ℕ
  pub data_bytes : Bytes

abbrev pub Reply : Type 0
Reply = Response × Bytes

-- The packets that a side has written, and how many more it can write before a write fails.
pub record Out (A : Type 0) : Type 0 where
  pub sent : List A
  pub room : ℕ

unfoldable pub send : {A : Type 0} → A → Out A → Bool × Out A
send m w = elim w.room [
  | zero ↦ (false, w)
  | suc room ↦ (true, record { sent = w.sent ++ (m ∷ []); room = room })
]

abbrev pub request : Bytes → Request
request type = record {
  type = type;
  error = [];
  files = [];
  args = [];
  dir = [];
  env = [];
  addr = [];
}

abbrev pub bare : Request → Packet
bare req = record { request = req; size = 0; data_bytes = [] }

pub data RunError : Type 0 where
  reading send_failed upload_failed : RunError
  server unexpected unknown_hash : Bytes → RunError

-- Exec, with the file that each path names on the client, if it can be read.
pub record Exec : Type 0 where
  pub args : List Bytes
  pub dir : Bytes
  pub files : List Listed
  pub env : List Bytes
  pub contents : Bytes → Option Bytes

-- Wait
pub record Wait : Type 0 where
  pub code : ℤ
  pub status : Bytes

-- byHash: of several files with one hash, the last.
unfoldable pub by_hash : Bytes → List Listed → Option Listed
unfolding bytes_eq
by_hash hash [] = none
by_hash hash (f ∷ files) =
    let rest = by_hash hash files in
    elim rest [ some g ↦ some g | none ↦ if bytes_eq f.hash hash then some f else none ]

-- The files to upload, or a hash that none has.
unfoldable pub asked : List Listed → List Bytes → Result RunError (List Listed)
unfolding by_hash
asked files [] = ok []
asked files (hash ∷ need) = elim (by_hash hash files) [
  | none ↦ err (unknown_hash hash)
  | some f ↦ elim (asked files need) [ err e ↦ err e | ok rest ↦ ok (f ∷ rest) ]
]

-- The sum of the sizes.
unfoldable pub total_size : List Listed → ℕ
total_size [] = 0
total_size (f ∷ files) = f.size + total_size files

-- The sum as an int64, with a negative one as 2^64 less; writePacketStream refuses those alike.
unfoldable pub upload_size : List Listed → ℕ
unfolding total_size
upload_size files = total_size files % 2 ^ 64

-- What the readers of the files give, up to one that cannot be read; an empty file is not opened.
unfoldable pub upload_body : (Bytes → Option Bytes) → List Listed → Bytes
upload_body contents [] = []
upload_body contents (f ∷ files) =
    let rest = upload_body contents files in
    if f.size == 0
    then rest
    else elim (contents f.path) [ none ↦ [] | some text ↦ take f.size text ++ rest ]

unfoldable pub upload_packet : Exec → List Listed → Packet
unfolding upload_size upload_body
upload_packet e files = record {
  request = request (codes "Upload");
  size = upload_size files;
  data_bytes = take (upload_size files) (upload_body e.contents files);
}

-- writePacketStream of an upload: what was written is written also where the files are too short or too
-- long.
unfoldable pub upload : Exec → List Listed → Out Packet → Bool × Out Packet
unfolding upload_packet send
upload e files w =
    if ltb (upload_size files) (2 ^ 32)
    then (let (sent, w') = send (upload_packet e files) w in
        (if length (upload_body e.contents files) == upload_size files then sent else false, w'))
    else (false, w)

-- readResponse of a packet that was read.
unfoldable pub refused : Response → Bool
refused resp = if length resp.error == 0 then false else true

-- The loop Setup of Run, on what the server will send: what is left behind Ready.
unfoldable pub setup_loop :
    Exec → List Reply → Out Packet → Result RunError (List Reply) × Out Packet
unfolding refused asked upload bytes_eq
setup_loop e [] w = (err reading, w)
setup_loop e ((resp, payload) ∷ replies) w =
    if refused resp
    then (err (server resp.error), w)
    else if bytes_eq resp.type (codes "Need")
    then (elim (asked e.files resp.need) [
      | err problem ↦ (err problem, w)
      | ok files ↦ elim (upload e files w).0 [
        | false ↦ (err upload_failed, (upload e files w).1)
        | true ↦ setup_loop e replies (upload e files w).1
      ]
    ])
    else if bytes_eq resp.type (codes "Ready")
    then (ok replies, w)
    else (err (unexpected resp.type), w)

-- What Run has written to Stdout and Stderr.
pub record Screen : Type 0 where
  pub stdout : Bytes
  pub stderr : Bytes

unfoldable pub show : Response → Bytes → Screen → Screen
show resp payload s =
    if resp.stderr
    then record s { stderr = s.stderr ++ payload }
    else record s { stdout = s.stdout ++ payload }

-- The loop of Run behind Start.
unfoldable pub output_loop : List Reply → Screen → Result RunError Wait × Screen
unfolding refused show bytes_eq
output_loop [] s = (err reading, s)
output_loop ((resp, payload) ∷ replies) s =
    let rest = output_loop replies (show resp payload s) in
    if refused resp
    then (err (server resp.error), s)
    else if bytes_eq resp.type (codes "Output")
    then rest
    else if bytes_eq resp.type (codes "Exit")
    then (ok (record { code = resp.exit_code; status = resp.status }), s)
    else (err (unexpected resp.type), s)

abbrev pub setup_request : Exec → Request
setup_request e = record (request (codes "Setup")) {
  files = e.files;
  args = e.args;
  dir = e.dir;
  env = e.env;
}

-- Conn.Run, but for the interrupts that it forwards.
abbrev pub RunResult : Type 0
RunResult = Result RunError Wait × Screen × Out Packet

unfoldable pub run_started : List Reply → Screen → Bool × Out Packet → RunResult
unfolding output_loop
run_started replies s (false, w) = (err send_failed, s, w)
run_started replies s (true, w) = let (result, s') = output_loop replies s in (result, s', w)

unfoldable pub run_ready : Screen → Result RunError (List Reply) × Out Packet → RunResult
unfolding run_started send
run_ready s (err problem, w) = (err problem, s, w)
run_ready s (ok replies, w) = run_started replies s (send (bare (request (codes "Start"))) w)

unfoldable pub run : Exec → List Reply → Screen → Out Packet → RunResult
unfolding run_ready setup_loop send
run e replies s w = elim (send (bare (setup_request e)) w).0 [
  | false ↦ (err send_failed, s, (send (bare (setup_request e)) w).1)
  | true ↦ run_ready s (setup_loop e replies (send (bare (setup_request e)) w).1)
]
