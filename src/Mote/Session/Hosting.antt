-- ===== src/Mote/Session/Hosting.antt =====
-- mote/server.go, serve from Ready on, and mote/client.go, the loop that reads what it writes.
use cmd.Prelude.{
  All, Option, some, ◌+◌, ◌-◌, ◌≤◌, ◌<◌, ◌≡◌, refl, sym, ap, ◌∙◌, Bool, true, false, none, some,
  List, [], ◌∷◌, ◌++◌, map, append_assoc, append-nil, arith, Bytes, codes, bytes_eq, length,
  if◌then◌else◌, if_true, ok,
}
use cmd.Mote.Cache.{Cache}
use cmd.Mote.Session.Placing.{Placed, IsWritable, IsPath, IsKept, place_all_lem}
use cmd.Mote.Session.{
  Listed, Request, Packet, Reply, Out, send, request, bare, Wait, refused, Screen, show,
  output_loop,
}
use cmd.Mote.Session.Serve.{
  fail, not_placed, Host, write_failed, reply, output, exit, outputs, serve_command, serve_start,
  serve_ready, Served,
}
use cmd.Mote.Session.Writing.{written, send_fits, written-append, room-written}

-- What a command has written to one of its pipes.
abbrev pub piped : Bool → List (Bool × Bytes) → Bytes
piped stderr [] = []
piped true ((true, b) ∷ chunks) = b ++ piped true chunks
piped true ((false, b) ∷ chunks) = piped true chunks
piped false ((true, b) ∷ chunks) = piped false chunks
piped false ((false, b) ∷ chunks) = b ++ piped false chunks

abbrev pub screen : Bytes → Bytes → Screen
screen a b = record { stdout = a; stderr = b }

module _ (host : Host) where
  outputs_lem :
      (chunks : List (Bool × Bytes)) (w : Out Reply)
      → length chunks ≤ w.room
      → outputs chunks w ≡ written (map output chunks) w
  unfolding outputs
  outputs_lem [] w h = refl
  outputs_lem (c ∷ chunks) w h =
      let one = send_fits (output c) w.sent w.room (omega arith) in
      ap (λ r. outputs chunks r.1) one
      ∙ outputs_lem chunks (record { sent = w.sent ++ (output c ∷ []); room = w.room - 1 })
          (omega arith)

  abbrev pub wait : Wait
  wait = record { code = host.exit_code; status = host.status }

  pub output_loop_lem :
      (chunks : List (Bool × Bytes)) (a b : Bytes)
      → output_loop (map output chunks ++ (exit host ∷ [])) (screen a b)
        ≡ (ok wait, screen (a ++ piped false chunks) (b ++ piped true chunks))
  unfolding output_loop refused show bytes_eq
  output_loop_lem [] a b = λ i. (ok wait, screen (sym (append-nil a) i) (sym (append-nil b) i))
  output_loop_lem ((true, d) ∷ chunks) a b =
      output_loop_lem chunks a (b ++ d)
      ∙ ap (λ t. (ok wait, screen (a ++ piped false chunks) t))
          (append_assoc b d (piped true chunks))
  output_loop_lem ((false, d) ∷ chunks) a b =
      output_loop_lem chunks (a ++ d) b
      ∙ ap (λ t. (ok wait, screen t (b ++ piped true chunks)))
          (append_assoc a d (piped false chunks))

  -- The packets of the server from Ready on.
  abbrev pub tail : List Reply
  tail = map output host.chunks ++ (exit host ∷ [])

  length-tail : (chunks : List (Bool × Bytes)) → length (map output chunks) ≡ length chunks
  length-tail [] = refl
  length-tail (c ∷ chunks) = omega (arith, length-tail chunks)

  abbrev finished : Cache → Bool × Out Reply → Served
  finished cache o = (if o.0 then none else some write_failed, cache, o.1)

  serve_command_lem :
      (cache : Cache) (w : Out Reply)
      → 1 + length host.chunks ≤ w.room
      → serve_command host cache w ≡ (none, cache, written tail w)
  unfolding serve_command
  serve_command_lem cache w h =
      let o = written (map output host.chunks) w in
      let first = outputs_lem host.chunks w (omega arith) in
      let room : 0 < o.room =
        omega (arith, room-written (map output host.chunks) w, length-tail host.chunks) in
      let last = send_fits (exit host) o.sent o.room room in
      ap (λ o. finished cache (send (exit host) o)) first
      ∙ ap (finished cache) last
      ∙ ap (λ t. (none, cache, t))
          (sym (written-append (map output host.chunks) (exit host ∷ []) w))

  serve_start_lem :
      (req : Request) (placed : Placed) (cache : Cache) (rest : List Packet) (w : Out Reply)
      → host.starts req placed ≡ true
      → 1 + length host.chunks ≤ w.room
      → serve_start host req placed cache (bare (request (codes "Start")) ∷ rest) w
        ≡ (none, cache, written tail w)
  unfolding serve_start bytes_eq
  serve_start_lem req placed cache rest w starts h =
      if_true _ _ starts ∙ serve_command_lem cache w h

  abbrev pub ready : Reply
  ready = (reply (codes "Ready"), [])

  abbrev greeting : Request → Placed → Cache → List Packet → Bool × Out Reply → Served
  greeting req placed cache packets o =
      if o.0 then serve_start host req placed cache packets o.1 else (some write_failed, cache, o.1)

  abbrev behind_places : Request → Cache → List Packet → Out Reply → Option Placed → Served
  behind_places req cache packets w o = elim o [
    | none ↦ fail host not_placed cache w
    | some placed ↦ greeting req placed cache packets (send ready w)
  ]

  -- All files are in the cache and can be put in place, and the command starts.
  pub serve_ready_lem :
      (req : Request) (cache : Cache) (rest : List Packet) (w : Out Reply)
      → IsWritable host.system
      → IsPath req.dir
      → All (λ (f : Listed). IsPath f.path) req.files
      → All (IsKept cache) req.files
      → ((placed : Placed) → host.starts req placed ≡ true)
      → 2 + length host.chunks ≤ w.room
      → serve_ready host req cache (bare (request (codes "Start")) ∷ rest) w
        ≡ (none, cache, written (ready ∷ tail) w)
  unfolding serve_ready
  serve_ready_lem req cache rest w writable dir paths kept starts h =
      let (placed, done) = place_all_lem host.system req cache writable dir paths kept in
      let packets = bare (request (codes "Start")) ∷ rest in
      ap (behind_places req cache packets w) done
      ∙ ap (greeting req placed cache packets) (send_fits ready w.sent w.room (omega arith))
      ∙ serve_start_lem req placed cache rest
          (record { sent = w.sent ++ (ready ∷ []); room = w.room - 1 }) (starts placed)
          (omega arith)
