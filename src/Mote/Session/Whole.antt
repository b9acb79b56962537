-- ===== src/Mote/Session/Whole.antt =====
-- mote/client.go and mote/server.go: a whole session, in which each side gets what the other writes.
use cmd.Prelude.{
  refl, All, ◌<◌, ◌^◌, ℕ, ◌+◌, ◌≤◌, ◌≡◌, ap, ◌∙◌, Bool, true, false, Option, none, some, List, [],
  ◌∷◌, map, arith, Bytes, bytes_eq, length, ◌==◌, if◌then◌else◌, if_false, ok, err,
}
use cmd.Mote.Cache.{File, receive, Cache, needed}
use cmd.Mote.Session.{
  Listed, by_hash, Packet, Reply, Out, bare, Exec, send_failed, setup_loop, setup_request,
  RunResult, run_ready, run,
}
use cmd.Mote.Session.Serve.{
  info, Host, write_failed, malformed_file, fail, cached, serve_needs, serve_setup, serve_session,
  serve, Served,
}
use cmd.Mote.Session.Asking.{found_size, Found, All-Found, needed-All, sizes_of_lem, asked_lem}
use cmd.Mote.Session.Writing.{written, send_fits, wrote, written-wrote}
use cmd.Mote.Session.Hosting.{piped, screen, wait}
use mathlib.Core.Path.{subst}
use cmd.Prelude.Io.{Source}
use cmd.Mote.Cache.Uploads.{IsUploaded, upload_lem}
use cmd.Mote.Session.Placing.{IsKept}
use cmd.Mote.Session.Talking.{none_yet, IsPossible, ended, talk}

-- A session in which each side is given what the other writes. The server can write `room` packets and
-- the client `client_room`.
pub record IsSession (e : Exec) (host : Host) (cache : Cache) (room client_room : ℕ) : Type 0 where
  pub packets : List Packet
  pub replies : List Reply
  pub filled : Cache
  pub served :
      serve host cache packets (none_yet Reply room)
      ≡ (none, filled, wrote (info host ∷ replies) room)
  pub ran : run e replies (screen [] []) (none_yet Packet client_room) ≡ (
    ok (wait host),
    screen (piped false host.chunks) (piped true host.chunks),
    wrote packets client_room,
  )

All-IsKept :
    (sum : Bytes → Bytes) (cache : Cache) (files : List Listed)
    → All
        (λ (f : File). (text : Bytes) × (cache f.hash ≡ some text) × (sum text ≡ f.hash))
        (map cached files)
    → All (IsKept cache) files
All-IsKept sum cache [] all = tt
All-IsKept sum cache (f ∷ files) ((text, here, _), all) =
    ((text, here), All-IsKept sum cache files all)

module _ (e : Exec) (host : Host) (cache : Cache) where
  abbrev greeted : List Packet → Bool × Out Reply → Served
  greeted packets o =
      if o.0 then serve_session host cache packets o.1 else (some write_failed, cache, o.1)

  abbrev begun : List Reply → Bool × Out Packet → RunResult
  begun replies o = elim o.0 [
    | false ↦ (err send_failed, screen [] [], o.1)
    | true ↦ run_ready (screen [] []) (setup_loop e replies o.1)
  ]

  abbrev with_sizes : List Packet → Out Reply → Option (Bytes → ℕ) → Served
  with_sizes packets w o = elim o [
    | none ↦ fail host malformed_file cache w
    | some sizes ↦
        serve_needs host (setup_request e) sizes (needed cache [] (map cached e.files)) cache
          packets w
  ]

  -- The client's Run and the server's serve, each given the packets that the other writes (Run those behind
  -- the Info response, which its caller has read), both succeed:
  -- the client returns the exit code and the status of the command, and has written what the command
  -- wrote to each of its pipes. This holds whatever is in the cache, so with and without an upload, if
  -- the request names a command, its files can be read and have the hash and the size that it says, its
  -- paths are ones that the server accepts, what is to be uploaded has less than 2^32 bytes, the cached
  -- files have the hashes that they are under, the server's disk works, the command starts, and neither
  -- connection fails. In particular every file is then in the cache when it is to be copied.
  pub session_lem :
      (room client_room : ℕ)
      → IsPossible e host cache
      → 4 + length host.chunks ≤ room
      → 3 ≤ client_room
      → IsSession e host cache room client_room
  unfolding serve serve_session serve_setup run bytes_eq
  session_lem room client_room possible fits client_fits =
      let (sizes, all_sizes) = possible.well_formed in
      let sized : (hash : Bytes) (f : Listed)
          → by_hash hash e.files ≡ some f
          → sizes hash ≡ f.size =
        λ hash f h. sizes_of_lem e.files (λ name. 0) sizes hash all_sizes ∙ ap (found_size 0) h in
      let need = needed cache [] (map cached e.files) in
      let all = needed-All (Found e.files) cache [] e.files (All-Found e.files) in
      let (chosen, found, m) = asked_lem e.files need all in
      let kept : (size : ℕ) (r r' : Source) (filled : Cache)
          → length r.bytes ≤ size
          → size < 2 ^ 32
          → receive host.sum host.disks sizes need size r cache ≡ (none, r', filled)
          → All (IsKept filled) e.files =
        λ size r r' filled limited small received.
          let uploaded =
            subst (IsUploaded host.sum sizes (map cached e.files) size r cache) received (
              upload_lem host.sum host.disks sizes (map cached e.files) size r cache possible.sound
                limited small) in
          All-IsKept host.sum filled e.files (uploaded.1 refl).0 in
      let t =
        talk e host cache possible sizes sized need chosen found m (possible.small chosen found)
          kept in
      let setup = bare (setup_request e) in
      let called : (length e.args == 0) ≡ false = ground (arith, possible.called) in
      let w = written (info host ∷ []) (none_yet Reply room) in
      let v = written (setup ∷ []) (none_yet Packet client_room) in
      record {
        packets = setup ∷ t.packets;
        replies = t.replies;
        filled = t.filled;
        served =
            ap (greeted (setup ∷ t.packets)) (send_fits (info host) [] room (omega arith))
            ∙ if_false _ _ called
            ∙ ap (with_sizes t.packets w) all_sizes
            ∙ t.served w (omega arith)
            ∙ ap (λ o. (none, t.filled, o)) (written-wrote (info host ∷ t.replies) room);
        ran =
            ap (begun t.replies) (send_fits setup [] client_room (omega arith))
            ∙ t.ran v (omega arith)
            ∙ ap (ended e host) (written-wrote (setup ∷ t.packets) client_room);
      }
