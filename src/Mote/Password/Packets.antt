-- ===== src/Mote/Password/Packets.antt =====
-- A message of the handshake as a packet.
use cmd.Prelude.{
  ◌+◌, ◌-◌, ◌≤◌, ◌≡◌, refl, ap, ◌∙◌, Bool, true, false, Option, none, some, Result, ◌++◌,
  append_assoc, arith, Bytes, length, length-append, take_all, le→leb, ok, err,
}
use cmd.Prelude.Io.{IoError, Source, read_full-append, Sink}
use cmd.Mote.Packet.{
  PacketError, lift_io, header, encode_json, read_handshake_packet, max_handshake,
}
use cmd.Mote.Packet.Writing.{length-header, outcome_fits, write_packet_lem}
use cmd.Mote.Packet.Reading.{read_handshake_packet_lem}
use cmd.Mote.Password.{
  SecureError, packet, send, Outcome, then_send, then_read, given, agreed, checked,
}
use cmd.Mote.Noise.{NoiseError}

abbrev pub source : Bytes → IoError → Source
source bytes fin = record { bytes = bytes; fin = fin }

abbrev pub packed : Bytes → Bytes
packed msg = header 0 (length msg) ++ msg

-- The connection after `p`, which it has room for.
abbrev pub sent : Bytes → Sink → Sink
sent p w = record { out = w.out ++ p; room = w.room - length p }

pub length-packed : (msg : Bytes) → length (packed msg) ≡ 8 + length msg
length-packed msg =
    omega (arith, length-append (header 0 (length msg)) msg, length-header 0 (length msg))

pub send_fits :
    (msg : Bytes) (w : Sink) → 8 + length msg ≤ w.room → send msg w ≡ (none, sent (packed msg) w)
unfolding send encode_json
send_fits msg w room =
    write_packet_lem _ none msg w
    ∙ outcome_fits (packed msg) w (omega (arith, length-packed msg))
    ∙ ap (λ p. (none, record { out = w.out ++ p; room = w.room - length (packed msg) }))
        (take_all w.room (packed msg) (omega (arith, length-packed msg)))

pub then_send-fits :
    (msg : Bytes) (w : Sink) (next : Sink → Outcome)
    → 8 + length msg ≤ w.room
    → then_send msg w next ≡ next (sent (packed msg) w)
then_send-fits msg w next room =
    rw (send_fits msg w room, then_send) (rw (send_fits msg w room, then_send) refl)

pub read_packed :
    (msg rest : Bytes) (fin : IoError)
    → length msg ≤ max_handshake
    → read_handshake_packet (source (packed msg ++ rest) fin) ≡ ok (msg, source rest fin)
unfolding lift_io
read_packed msg rest fin short =
    ap (λ t. read_handshake_packet (source t fin)) (append_assoc (header 0 (length msg)) msg rest)
    ∙ read_handshake_packet_lem 0 (length msg) (msg ++ rest) fin (omega arith) (omega arith)
    ∙ rw (le→leb (length msg) max_handshake short, read_full-append (length msg) msg rest fin refl)
        refl

pub then_read-packed :
    (msg rest : Bytes) (fin : IoError) (problem : PacketError → SecureError) (w : Sink)
    (next : Bytes → Source → Outcome)
    → length msg ≤ max_handshake
    → then_read (source (packed msg ++ rest) fin) problem w next ≡ next msg (source rest fin)
then_read-packed msg rest fin problem w next short =
    rw (read_packed msg rest fin short, then_read) refl

module _ {A : Type 0} where
  pub given-some :
      (o : Option A) (x : A) (e : SecureError) (w : Sink) (next : A → Outcome)
      → o ≡ some x
      → given o e w next ≡ next x
  given-some o x e w next h = ap (λ t. given t e w next) h

  pub agreed-ok :
      (o : Result NoiseError A) (x : A) (w : Sink) (next : A → Outcome)
      → o ≡ ok x
      → agreed o w next ≡ next x
  agreed-ok o x w next h = ap (λ t. agreed t w next) h

pub checked-true :
    (b : Bool) (e : SecureError) (w : Sink) (next : Outcome) → b ≡ true → checked b e w next ≡ next
checked-true b e w next h = ap (λ t. checked t e w next) h

pub given-none :
    {A : Type 0} (o : Option A) (e : SecureError) (w : Sink) (next : A → Outcome)
    → o ≡ none
    → given o e w next ≡ (err e, w)
given-none o e w next h = ap (λ t. given t e w next) h

pub checked-false :
    (b : Bool) (e : SecureError) (w : Sink) (next : Outcome)
    → b ≡ false
    → checked b e w next ≡ (err e, w)
checked-false b e w next h = ap (λ t. checked t e w next) h

module _ (msg : Bytes) (w : Sink) (next : Sink → Outcome) where
  abbrev sent_as : Option PacketError → Outcome
  sent_as f = elim f [ some e ↦ (err (packet e), (send msg w).1) | none ↦ next (send msg w).1 ]

  pub then_send-some :
      (e : PacketError)
      → (send msg w).0 ≡ some e
      → then_send msg w next ≡ (err (packet e), (send msg w).1)
  then_send-some e h = ap sent_as h

  pub then_send-none : (send msg w).0 ≡ none → then_send msg w next ≡ next (send msg w).1
  then_send-none h = ap sent_as h

module _ (src : Source) (problem : PacketError → SecureError) (w : Sink)
    (next : Bytes → Source → Outcome) where
  abbrev read_as : Result PacketError (Bytes × Source) → Outcome
  read_as r = elim r [ err e ↦ (err (problem e), w) | ok (msg, src') ↦ next msg src' ]

  pub then_read-ok :
      (msg : Bytes) (src' : Source)
      → read_handshake_packet src ≡ ok (msg, src')
      → then_read src problem w next ≡ next msg src'
  then_read-ok msg src' h = ap read_as h

  pub then_read-err :
      (e : PacketError)
      → read_handshake_packet src ≡ err e
      → then_read src problem w next ≡ (err (problem e), w)
  then_read-err e h = ap read_as h
