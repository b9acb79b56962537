-- ===== src/Tests/Sessions.antt =====
-- Tests of a session: one file, which the server does not have, and a command that writes to both pipes.
use cmd.Prelude.{
  ℕ, ◌^◌, ◌≡◌, refl, sym, ap, ◌∙◌, true, false, none, some, [], ◌∷◌, Bytes, codes, bytes_eq, arith,
  ok, err,
}
use cmd.Prelude.Int.{pos}
use cmd.Prelude.Io.{eof}
use cmd.Mote.Cache.{Cache, Disk, valid_hash, size_of, sizes_of, is_seen, in_cache, needed}
use cmd.Prelude.Text.{contains_any, has_prefix}
use cmd.Mote.Cache.Paths.{
  split, push, is_among, unwind, pop, is_nothing, clean, strip_volume, remote_path,
}
use cmd.Mote.Cache.Places.{
  back, clean_relative, slashed, clean_path, join, client_path, ext, last_ext, exe_name,
  copy_from_cache,
}
use cmd.Mote.Session.Placing.{IsPath, destination, place_files, place_all, copied}
use cmd.Mote.Session.{
  Listed, Exec, Packet, Reply, by_hash, asked, total_size, refused, setup_loop, run_ready, run,
  send, setup_request, request, bare, server,
}
use cmd.Mote.Session.Serve.{
  Host, fail, serve_start, serve_ready, serve_needs, serve_setup, serve_session, serve, info, reply,
}
use cmd.Mote.Session.Talking.{IsPossible, none_yet}
use cmd.Mote.Session.Whole.{IsSession, session_lem}

abbrev hash : Bytes
hash = codes "00000000000000000000000000000000000000000000000000000000000000ff"

abbrev file : Listed
file = record { path = codes "/w/x.go"; hash = hash; size = 3 }

abbrev exec : Exec
exec = record {
  args = codes "go" ∷ [];
  dir = codes "/w";
  files = file ∷ [];
  env = [];
  contents = λ path. some (codes "abc");
}

abbrev disk : Disk
disk = record { makes = true; room = 2 ^ 32; closes = true; renames = true }

abbrev host : Host
host = record {
  system = record {
    goos = codes "windows";
    makes = true;
    takes = λ dst. true;
    takes_dir = λ dir. true;
    is_program = λ text. true;
  };
  goarch = codes "arm";
  sum = λ text. hash;
  disks = λ name. disk;
  describe = λ e. codes "failed";
  starts = λ req placed. true;
  chunks = (false, codes "out") ∷ (true, codes "no") ∷ [];
  exit_code = pos 2;
  status = codes "exit status 2";
  fin = eof;
}

abbrev nothing : Cache
nothing name = none

-- What the request says is well formed, and all of it is asked for.
hash-valid : valid_hash hash ≡ true
unfolding valid_hash
hash-valid = refl

sizes_known :
    (sizes : Bytes → ℕ) × (sizes_of (record { hash = hash; size = pos 3 } ∷ []) (λ name. 0)
      ≡ some sizes)
unfolding sizes_of valid_hash size_of
sizes_known = (_, refl)

all_asked :
    asked (file ∷ []) (needed nothing [] (record { hash = hash; size = pos 3 } ∷ []))
    ≡ ok (file ∷ [])
unfolding asked needed is_seen in_cache size_of by_hash bytes_eq
all_asked = refl

dir-IsPath : IsPath (codes "/w")
unfolding remote_path split push is_among unwind pop is_nothing clean strip_volume bytes_eq
    contains_any
dir-IsPath = (codes "w" ∷ [], refl)

file-IsPath : IsPath (codes "/w/x.go")
unfolding remote_path split push is_among unwind pop is_nothing clean strip_volume bytes_eq
    contains_any
file-IsPath = (codes "w" ∷ codes "x.go" ∷ [], refl)

exec-IsPossible : IsPossible exec host nothing
unfolding total_size
exec-IsPossible = record {
  called = omega arith;
  well_formed = sizes_known;
  honest = ((codes "abc", refl, refl, refl), tt);
  works = λ name. record { makes = refl; closes = refl; renames = refl; roomy = omega arith };
  small = λ chosen h.
      let same : (file ∷ []) ≡ chosen = (let e = sym all_asked ∙ h in cc) in
      let size = ap total_size same in omega (arith, size);
  sound = λ name text h. cc;
  writable = record { makes = refl; takes = λ dst. refl; takes_dir = λ dir. refl };
  dir = dir-IsPath;
  paths = (file-IsPath, tt);
  starts = λ placed. refl;
}

session_lem_example : IsSession exec host nothing 6 3
session_lem_example = session_lem exec host nothing 6 3 exec-IsPossible (omega arith) (omega arith)

-- Runs: the server kills a command before it starts, and the client passes on an error of the server.
killed_early :
    (serve host nothing
      (bare (setup_request (record exec { files = [] })) ∷ bare (request (codes "Kill")) ∷ [])
      (none_yet Reply 9)).2.sent
    ≡ info host
      ∷ (reply (codes "Ready"), [])
      ∷ (record (reply (codes "Exit")) { error = codes "failed" }, [])
      ∷ []
unfolding serve serve_session serve_setup serve_needs serve_ready serve_start fail send sizes_of
    needed bytes_eq place_all place_files remote_path split push is_among unwind pop is_nothing
    clean strip_volume contains_any
killed_early = refl

passed_on :
    (run exec
      ((record (reply (codes "Exit")) { error = codes "full" }, []) ∷ [])
      (record { stdout = []; stderr = [] })
      (none_yet Packet 9)).0
    ≡ err (server (codes "full"))
unfolding run run_ready setup_loop refused send
passed_on = refl

-- A relative command is one of the files, and its copy gets the name that Windows will run.
relative : client_path (codes "/w/a") (codes ".\\..\\x.go") ≡ codes "/w/x.go"
unfolding client_path join clean_path split push clean is_nothing pop unwind slashed has_prefix
    contains_any bytes_eq
relative = refl

above : clean_path (codes "a/../../b//.") ≡ codes "../b"
unfolding clean_path split push clean_relative back is_nothing unwind slashed has_prefix bytes_eq
above = refl

run_copied :
    place_all host.system
      (record (setup_request exec) { args = codes "./x.go" ∷ [] })
      (λ name. some (codes "abc"))
    ≡ some (record {
      command = copied (record { names = codes "w" ∷ codes "x.go" ∷ []; exe = true });
      dir = codes "w" ∷ [];
      tree = (record { names = codes "w" ∷ codes "x.go" ∷ []; exe = true }, codes "abc") ∷ [];
    })
unfolding place_all place_files destination copy_from_cache exe_name last_ext ext client_path join
    clean_path slashed has_prefix contains_any split push clean is_nothing pop unwind is_among
    strip_volume remote_path bytes_eq
run_copied = refl
