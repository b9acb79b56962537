-- ===== src/Mote/Session/Talking.antt =====
-- mote/client.go and mote/server.go: the client and the server of a session from the Need response on.
use cmd.Prelude.{
  sym, take, take_all, Option, refl, ℕ, ◌+◌, ◌^◌, ◌≤◌, ◌<◌, ◌≡◌, ap, ◌∙◌, Bool, true, false, none,
  some, List, [], ◌∷◌, map, arith, Bytes, codes, bytes_eq, All, length, lt→ltb, ◌==◌, ==_iff,
  if◌then◌else◌, if_true, Result, ok, err,
}
use cmd.Mote.Cache.{SaveError, receive, Cache, sizes_of, needed}
use cmd.Mote.Session.Placing.{Placed, IsWritable, IsPath, IsKept}
use cmd.Mote.Cache.Saving.{IsSound}
use cmd.Mote.Session.{
  Listed, by_hash, Request, Packet, Reply, Out, request, bare, RunError, Exec, asked, upload_failed,
  total_size, upload_size, upload_body, upload_packet, upload, refused, setup_loop, Screen,
  setup_request, RunResult, run_started, run_ready,
}
use cmd.Mote.Session.Serve.{
  Host, write_failed, reply, cached, serve_saved, serve_upload, serve_needs, Served,
}
use cmd.Mote.Session.Filling.{IsHonest, IsWorking, length-body, receive_ok}
use cmd.Mote.Session.Asking.{Matches}
use cmd.Mote.Session.Writing.{written, send_fits}
use cmd.Prelude.Io.{Source}
use cmd.Mote.Session.Hosting.{piped, screen, wait, output_loop_lem, tail, ready, serve_ready_lem}

abbrev pub none_yet : (A : Type 0) → ℕ → Out A
none_yet A room = record { sent = []; room = room }

abbrev pub start : Packet
start = bare (request (codes "Start"))

abbrev pub needs : List Bytes → Reply
needs need = (record (reply (codes "Need")) { need = need }, [])

-- What both sides have to do for a session: files that can be read, that the server can put in place,
-- and that fit one upload.
pub record IsPossible (e : Exec) (host : Host) (cache : Cache) : Type 0 where
  pub called : 0 < length e.args
  pub well_formed : (sizes : Bytes → ℕ) × (sizes_of (map cached e.files) (λ hash. 0) ≡ some sizes)
  pub honest : All (IsHonest e.contents host.sum) e.files
  pub works : (hash : Bytes) → IsWorking (host.disks hash)
  pub small :
      (chosen : List Listed)
      → asked e.files (needed cache [] (map cached e.files)) ≡ ok chosen
      → total_size chosen < 2 ^ 32
  pub sound : IsSound host.sum cache
  pub writable : IsWritable host.system
  pub dir : IsPath e.dir
  pub paths : All (λ (f : Listed). IsPath f.path) e.files
  pub starts : (placed : Placed) → host.starts (setup_request e) placed ≡ true

module _ (e : Exec) (host : Host) where
  -- The client behind Ready.
  abbrev pub ended : Out Packet → RunResult
  ended w = (ok (wait host), screen (piped false host.chunks) (piped true host.chunks), w)

  abbrev none_shown : Screen
  none_shown = screen [] []

  run_ready_lem :
      (w : Out Packet)
      → 1 ≤ w.room
      → run_ready none_shown (ok (tail host), w) ≡ ended (written (start ∷ []) w)
  unfolding run_ready run_started
  run_ready_lem w h =
      ap (run_started (tail host) none_shown) (send_fits start w.sent w.room (omega arith))
      ∙ ap (λ r. (r.0, r.1, written (start ∷ []) w)) (output_loop_lem host host.chunks [] [])

  upload_size_lem :
      (chosen : List Listed) → total_size chosen < 2 ^ 32 → upload_size chosen ≡ total_size chosen
  unfolding upload_size
  upload_size_lem chosen small = omega (arith, small)

  abbrev upload_sent : List Listed → Bool × Out Packet → Bool × Out Packet
  upload_sent files o =
      (if length (upload_body e.contents files) == upload_size files then o.0 else false, o.1)

  upload_lem :
      (chosen : List Listed) (w : Out Packet)
      → length (upload_body e.contents chosen) ≡ total_size chosen
      → total_size chosen < 2 ^ 32
      → 1 ≤ w.room
      → upload e chosen w ≡ (true, written (upload_packet e chosen ∷ []) w)
  unfolding upload
  upload_lem chosen w whole small h =
      let w' = written (upload_packet e chosen ∷ []) w in
      let size = upload_size_lem chosen small in
      let fits : upload_size chosen < 2 ^ 32 = omega (arith, size, small) in
      if_true _ _ (lt→ltb _ _ fits)
      ∙ ap (upload_sent chosen) (send_fits (upload_packet e chosen) w.sent w.room (omega arith))
      ∙ ap (λ b. (b, w')) (if_true true false ((==_iff _ _).1 (whole ∙ sym size)))

  abbrev uploaded : List Reply → Bool × Out Packet → Result RunError (List Reply) × Out Packet
  uploaded replies o = elim o.0 [
    | false ↦ (err upload_failed, o.1)
    | true ↦ setup_loop e replies o.1
  ]

  abbrev answered :
      List Reply
      → Out Packet
      → Result RunError (List Listed)
      → Result RunError (List Reply) × Out Packet
  answered replies w o = elim o [
    | err problem ↦ (err problem, w)
    | ok files ↦ uploaded replies (upload e files w)
  ]

  setup_loop_lem :
      (need : List Bytes) (chosen : List Listed) (w : Out Packet)
      → asked e.files need ≡ ok chosen
      → length (upload_body e.contents chosen) ≡ total_size chosen
      → total_size chosen < 2 ^ 32
      → 1 ≤ w.room
      → setup_loop e (needs need ∷ ready host ∷ tail host) w
        ≡ (ok (tail host), written (upload_packet e chosen ∷ []) w)
  unfolding setup_loop refused bytes_eq
  setup_loop_lem need chosen w found whole small h =
      ap (answered (ready host ∷ tail host) w) found
      ∙ ap (uploaded (ready host ∷ tail host)) (upload_lem chosen w whole small h)

  abbrev req : Request
  req = setup_request e

  abbrev asked_for : (Bytes → ℕ) → List Bytes → Cache → List Packet → Bool × Out Reply → Served
  asked_for sizes need cache packets o =
      if o.0
      then serve_upload host req sizes need cache packets o.1
      else (some write_failed, cache, o.1)

  -- What both sides write from the Need response on.
  pub record Talk (sizes : Bytes → ℕ) (need : List Bytes) (cache : Cache) : Type 0 where
    pub packets : List Packet
    pub replies : List Reply
    pub filled : Cache
    pub served :
        (w : Out Reply)
        → 3 + length host.chunks ≤ w.room
        → serve_needs host req sizes need cache packets w ≡ (none, filled, written replies w)
    pub ran :
        (w : Out Packet)
        → 2 ≤ w.room
        → run_ready none_shown (setup_loop e replies w) ≡ ended (written packets w)

  module _ (cache : Cache) (possible : IsPossible e host cache) (sizes : Bytes → ℕ)
      (sized : (hash : Bytes) (f : Listed)
        → by_hash hash e.files ≡ some f
        → sizes hash ≡ f.size) where
    pub talk :
        (need : List Bytes) (chosen : List Listed)
        → asked e.files need ≡ ok chosen
        → Matches e.files need chosen
        → total_size chosen < 2 ^ 32
        → ((size : ℕ) (r r' : Source) (filled : Cache)
            → length r.bytes ≤ size
            → size < 2 ^ 32
            → receive host.sum host.disks sizes need size r cache ≡ (none, r', filled)
            → All (IsKept filled) e.files)
        → Talk sizes need cache
    unfolding receive serve_needs setup_loop serve_upload serve_saved bytes_eq refused
    talk [] chosen found m small kept = record {
      packets = start ∷ [];
      replies = ready host ∷ tail host;
      filled = cache;
      served = λ w h.
          serve_ready_lem host req cache [] w possible.writable possible.dir possible.paths
            (kept 0 (record { bytes = []; fin = host.fin }) _ cache (omega arith) (omega arith)
              refl)
            possible.starts (omega arith);
      ran = λ w h. run_ready_lem w (omega arith);
    }
    talk (hash ∷ need) chosen found m small kept =
        let (whole, t) =
          length-body e.contents host.sum host.disks sizes e.files possible.honest possible.works
            sized (hash ∷ need) chosen m in
        let (filled, received) =
          receive_ok e.contents host.sum host.disks sizes e.files possible.honest possible.works
            sized hash need chosen host.fin cache m small in
        let body : Source = record { bytes = upload_body e.contents chosen; fin = host.fin } in
        let all_kept =
          kept (total_size chosen) body _ filled (omega (arith, whole)) small received in
        let size = upload_size_lem chosen small in
        let body_bytes = upload_body e.contents chosen in
        let all_sent : take (upload_size chosen) body_bytes ≡ body_bytes =
          take_all (upload_size chosen) body_bytes (omega (arith, whole, size)) in
        let taken : ℕ → Bytes → Option SaveError × Source × Cache = λ n b.
          receive host.sum host.disks sizes (hash ∷ need) n (record { bytes = b; fin = host.fin })
            cache in
        let received' =
          ap (taken (upload_size chosen)) all_sent ∙ ap (λ n. taken n body_bytes) size ∙ received in
        let packets = upload_packet e chosen ∷ start ∷ [] in
        let replies = needs (hash ∷ need) ∷ ready host ∷ tail host in
        record {
          packets = packets;
          replies = replies;
          filled = filled;
          served = λ w h.
              let w' = written (needs (hash ∷ need) ∷ []) w in
              ap (asked_for sizes (hash ∷ need) cache packets)
                (send_fits (needs (hash ∷ need)) w.sent w.room (omega arith))
              ∙ ap (serve_saved host req (start ∷ []) w') received'
              ∙ serve_ready_lem host req filled [] w' possible.writable possible.dir possible.paths
                  all_kept possible.starts (omega arith);
          ran = λ w h.
              ap (run_ready none_shown)
                (setup_loop_lem (hash ∷ need) chosen w found whole small (omega arith))
              ∙ run_ready_lem (written (upload_packet e chosen ∷ []) w) (omega arith);
        }
