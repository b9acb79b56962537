-- ===== src/Mote/Session/Writing.antt =====
-- mote/packet.go, Conn.writePacket: several packets in a row on one connection.
use cmd.Prelude.{
  ℕ, zero, suc, ◌-◌, ◌<◌, ◌≡◌, refl, sym, ap, ◌∙◌, true, List, [], ◌∷◌, ◌++◌, append_assoc,
  append-nil, arith, length,
}
use cmd.Mote.Session.{Out, send}

module _ {A : Type 0} where
  -- What a side has written behind some more packets.
  abbrev pub written : List A → Out A → Out A
  written [] w = w
  written (m ∷ ms) w = written ms (record { sent = w.sent ++ (m ∷ []); room = w.room - 1 })

  pub send_fits :
      (m : A) (sent : List A) (room : ℕ)
      → 0 < room
      → send m (record { sent = sent; room = room })
        ≡ (true, record { sent = sent ++ (m ∷ []); room = room - 1 })
  unfolding send
  send_fits m sent zero h = absurd (omega arith)
  send_fits m sent (suc room) h =
      let e : room ≡ suc room - 1 = omega arith in
      ap (λ r. (true, record { sent = sent ++ (m ∷ []); room = r })) e

  pub written-append :
      (ms ns : List A) (w : Out A) → written (ms ++ ns) w ≡ written ns (written ms w)
  written-append [] ns w = refl
  written-append (m ∷ ms) ns w =
      written-append ms ns (record { sent = w.sent ++ (m ∷ []); room = w.room - 1 })

  pub room-written : (ms : List A) (w : Out A) → (written ms w).room ≡ w.room - length ms
  room-written [] w = omega arith
  room-written (m ∷ ms) w =
      omega (arith, room-written ms (record { sent = w.sent ++ (m ∷ []); room = w.room - 1 }))

  -- From nothing on, all that a side has written.
  written_lem :
      (ms : List A) (w : Out A)
      → written ms w ≡ record { sent = w.sent ++ ms; room = w.room - length ms }
  written_lem [] w =
      let all = sym (append-nil w.sent) in
      let left : w.room ≡ w.room - 0 = omega arith in λ i. record { sent = all i; room = left i }
  written_lem (m ∷ ms) w =
      let rest = written_lem ms (record { sent = w.sent ++ (m ∷ []); room = w.room - 1 }) in
      let all = append_assoc w.sent (m ∷ []) ms in
      let left : w.room - 1 - length ms ≡ w.room - length (m ∷ ms) = omega arith in
      rest ∙ (λ i. record { sent = all i; room = left i })

  -- A side that has written just these packets, of the `room` that it can write.
  abbrev pub wrote : List A → ℕ → Out A
  wrote ms room = record { sent = ms; room = room - length ms }

  pub written-wrote :
      (ms : List A) (room : ℕ) → written ms (record { sent = []; room = room }) ≡ wrote ms room
  written-wrote ms room = written_lem ms (record { sent = []; room = room })
