-- ===== src/Mote/Session/Serve.antt =====
-- mote/server.go, serve from the Info response on: the packets that it reads and writes, and the cache.
use cmd.Prelude.{
  ℕ, Bool, false, not, Option, none, some, List, [], ◌∷◌, map, Bytes, codes, bytes_eq, length, ◌==◌,
  if◌then◌else◌,
}
use cmd.Prelude.Int.{ℤ, pos}
use cmd.Prelude.Io.{IoError, Source}
use cmd.Mote.Cache.{Cache, File, Disk, SaveError, sizes_of, needed, receive}
use cmd.Mote.Session.Placing.{System, Placed, place_all}
use cmd.Mote.Session.{Listed, Request, Response, Packet, Reply, Out, send}

pub data ServeError : Type 0 where
  reading write_failed malformed_setup malformed_file not_placed killed not_started : ServeError
  unexpected : Bytes → ServeError
  not_saved : SaveError → ServeError

-- What the session depends on: the system, the hash of a file, the disk, the text of an error, whether
-- the command starts, and what the command then
-- writes, to standard error where the Boolean says so, in the order in which it is sent, and how it
-- ends. `fin` is how a connection that is cut inside an upload fails.
pub record Host : Type 0 where
  pub system : System
  pub goarch : Bytes
  pub sum : Bytes → Bytes
  pub disks : Bytes → Disk
  pub describe : ServeError → Bytes
  pub starts : Request → Placed → Bool
  pub chunks : List (Bool × Bytes)
  pub exit_code : ℤ
  pub status : Bytes
  pub fin : IoError

abbrev pub reply : Bytes → Response
reply type = record {
  type = type;
  error = [];
  need = [];
  stderr = false;
  exit_code = pos 0;
  status = [];
  goos = [];
  goarch = [];
}

abbrev pub info : Host → Reply
info host = (record (reply (codes "Info")) { goos = host.system.goos; goarch = host.goarch }, [])

abbrev pub Served : Type 0
Served = Option ServeError × Cache × Out Reply

-- fail
unfoldable pub fail : Host → ServeError → Cache → Out Reply → Served
unfolding send
fail host e cache w =
    (some e, cache, (send (record (reply (codes "Exit")) { error = host.describe e }, []) w).1)

-- The file of a request as the cache sees it.
abbrev pub cached : Listed → File
cached f = record { hash = f.hash; size = pos f.size }

abbrev pub output : Bool × Bytes → Reply
output c = (record (reply (codes "Output")) { stderr = c.0 }, c.1)

abbrev pub exit : Host → Reply
exit host = (record (reply (codes "Exit")) { exit_code = host.exit_code; status = host.status }, [])

-- copyOutput of both pipes.
unfoldable pub outputs : List (Bool × Bytes) → Out Reply → Out Reply
unfolding send
outputs [] w = w
outputs (c ∷ chunks) w = outputs chunks (send (output c) w).1

-- serve behind the Start request.
unfoldable pub serve_command : Host → Cache → Out Reply → Served
unfolding outputs send
serve_command host cache w =
    let (sent, w') = send (exit host) (outputs host.chunks w) in
    (if sent then none else some write_failed, cache, w')

-- serve behind Ready.
unfoldable pub serve_start : Host → Request → Placed → Cache → List Packet → Out Reply → Served
unfolding fail serve_command bytes_eq
serve_start host req placed cache [] w = (some reading, cache, w)
serve_start host req placed cache (p ∷ packets) w =
    if bytes_eq p.request.type (codes "Kill")
    then fail host killed cache w
    else if not (bytes_eq p.request.type (codes "Start"))
    then fail host (unexpected p.request.type) cache w
    else if host.starts req placed
    then serve_command host cache w
    else fail host not_started cache w

-- serve behind the upload.
unfoldable pub serve_ready : Host → Request → Cache → List Packet → Out Reply → Served
unfolding fail serve_start send place_all
serve_ready host req cache packets w = elim (place_all host.system req cache) [
  | none ↦ fail host not_placed cache w
  | some placed ↦
      let (sent, w') = send (reply (codes "Ready"), []) w in
      if sent then serve_start host req placed cache packets w' else (some write_failed, cache, w')
]

unfoldable pub serve_saved :
    Host → Request → List Packet → Out Reply → Option SaveError × Source × Cache → Served
unfolding fail serve_ready
serve_saved host req packets w (some e, r, cache) = fail host (not_saved e) cache w
serve_saved host req packets w (none, r, cache) = serve_ready host req cache packets w

-- serve behind Need.
unfoldable pub serve_upload :
    Host → Request → (Bytes → ℕ) → List Bytes → Cache → List Packet → Out Reply → Served
unfolding fail serve_saved bytes_eq
serve_upload host req sizes need cache [] w = (some reading, cache, w)
serve_upload host req sizes need cache (p ∷ packets) w =
    if bytes_eq p.request.type (codes "Upload")
    then serve_saved host req packets w (
        receive host.sum host.disks sizes need p.size
          (record { bytes = p.data_bytes; fin = host.fin }) cache)
    else fail host (unexpected p.request.type) cache w

unfoldable pub serve_needs :
    Host → Request → (Bytes → ℕ) → List Bytes → Cache → List Packet → Out Reply → Served
unfolding serve_ready serve_upload send
serve_needs host req sizes [] cache packets w = serve_ready host req cache packets w
serve_needs host req sizes (hash ∷ need) cache packets w =
    let (sent, w') = send (record (reply (codes "Need")) { need = hash ∷ need }, []) w in
    if sent
    then serve_upload host req sizes (hash ∷ need) cache packets w'
    else (some write_failed, cache, w')

-- serve behind the Setup request.
unfoldable pub serve_setup : Host → Request → Cache → List Packet → Out Reply → Served
unfolding fail serve_needs bytes_eq
serve_setup host req cache packets w =
    if not (bytes_eq req.type (codes "Setup"))
    then fail host (unexpected req.type) cache w
    else if length req.args == 0
    then fail host malformed_setup cache w
    else elim (sizes_of (map cached req.files) (λ hash. 0)) [
      | none ↦ fail host malformed_file cache w
      | some sizes ↦
          serve_needs host req sizes (needed cache [] (map cached req.files)) cache packets w
    ]

unfoldable pub serve_session : Host → Cache → List Packet → Out Reply → Served
unfolding serve_setup
serve_session host cache [] w = (some reading, cache, w)
serve_session host cache (p ∷ packets) w = serve_setup host p.request cache packets w

-- serve, from the session's first packet on.
unfoldable pub serve : Host → Cache → List Packet → Out Reply → Served
unfolding serve_session send
serve host cache packets w =
    let (sent, w') = send (info host) w in
    if sent then serve_session host cache packets w' else (some write_failed, cache, w')
