-- ===== src/Mote/Password/Sides.antt =====
-- Each side of the encryption handshake, step by step, on the packets of the other.
use cmd.Prelude.{
  ℕ, ◌+◌, ◌-◌, ◌*◌, ◌≤◌, ◌≡◌, ap, ◌∙◌, true, false, Option, none, some, [], ◌++◌, append_assoc,
  arith, Bytes, codes, length, length-append, Result, ok,
}
use cmd.Prelude.Io.{IoError, Source, Sink}
use cmd.Mote.Packet.{max_handshake}
use cmd.Mote.Noise.{
  Crypto, NoiseError, CipherState, HandshakeState, new_handshake_state, write_message, read_message,
}
use cmd.Mote.Noise.Agreement.{Agrees}
use cmd.Mote.Password.{
  Cpace, packet, no_reply, cpace_failed, wrong_client, wrong_server, no_psk, channel_id, Outcome,
  then_send, then_read, given, agreed, checked, derive_psk, server_stream, client_stream,
  server_noise, server_confirm, secure_server, client_noise, client_confirm, secure_client,
}
use cmd.Mote.Password.Packets.{
  source, packed, sent, length-packed, then_send-fits, then_read-packed, given-some, agreed-ok,
  checked-true,
}

-- CPace on the same password gives both sides the same key and tags that the other verifies; the
-- messages are short, and the key gives a pre-shared key of 32 bytes.
pub record IsPaired (P : Cpace) (password scalar scalar' : Bytes) : Type 0 where
  pub st : P.State
  pub st' : P.State
  pub end : P.State
  pub end' : P.State
  pub msg1 : Bytes
  pub msg2 : Bytes
  pub key : Bytes
  pub psk : Bytes
  pub starts : P.start true password channel_id scalar ≡ some (st, msg1)
  pub starts' : P.start false password channel_id scalar' ≡ some (st', msg2)
  pub finishes : P.finish st msg2 ≡ some (key, end)
  pub finishes' : P.finish st' msg1 ≡ some (key, end')
  pub verifies : P.verify end (P.tag end') ≡ true
  pub verifies' : P.verify end' (P.tag end) ≡ true
  pub derives : P.hkdf_key key (codes "mote noise psk") 32 ≡ some psk
  pub psk_size : length psk ≡ 32
  pub short1 : length msg1 ≤ max_handshake
  pub short2 : length msg2 ≤ max_handshake
  pub short_tag : length (P.tag end) ≤ max_handshake
  pub short_tag' : length (P.tag end') ≤ max_handshake

-- Three packets in a row.
abbrev pub three : Bytes → Bytes → Bytes → Bytes
three p q r = packed p ++ (packed q ++ packed r)

three-append :
    (p q r rest : Bytes) → three p q r ++ rest ≡ packed p ++ (packed q ++ (packed r ++ rest))
three-append p q r rest =
    append_assoc (packed p) (packed q ++ packed r) rest
    ∙ ap (λ t. packed p ++ t) (append_assoc (packed q) (packed r) rest)

abbrev pub empty : ℕ → Sink
empty room = record { out = []; room = room }

sent-three :
    (p q r : Bytes) (room : ℕ)
    → sent (packed r) (sent (packed q) (sent (packed p) (empty room)))
      ≡ sent (three p q r) (empty room)
sent-three p q r room =
    let left : room - length (packed p) - length (packed q) - length (packed r)
        ≡ room - length (three p q r) =
      omega (
        arith,
        length-append (packed p) (packed q ++ packed r),
        length-append (packed q) (packed r),
      ) in
    λ i. record { out = append_assoc (packed p) (packed q) (packed r) i; room = left i }

module _ (P : Cpace) (C : Crypto) (fin : IoError) where
  abbrev Got : Type 0
  Got = Result NoiseError (Bytes × Option (CipherState × CipherState)) × HandshakeState

  abbrev server_reply : Got → Source → Sink → Outcome
  server_reply t src w = agreed t.0 w (λ m2. then_send m2.0 w (λ w'. server_stream P C m2.1 src w'))

  abbrev server_read : Option Bytes → Got → Source → Sink → Outcome
  server_read fresh t src w = agreed t.0 w (λ _. server_reply (write_message C fresh t.1 []) src w)

  abbrev client_read : Got → Source → Sink → Outcome
  client_read t src w = agreed t.0 w (λ pt. client_stream P C pt.1 src w)

  abbrev client_write : Got → Source → Sink → Outcome
  client_write t src w = agreed t.0 w (λ m1.
      then_send m1.0 w
        (λ w'. then_read src packet w' (λ m2 src'. client_read (read_message C t.1 m2) src' w')))

  module _ (psk a b dh : Bytes) (i r : HandshakeState) (g : Agrees C i r a b [] []) where
    server_noise_lem :
        (rest : Bytes) (w : Sink)
        → new_handshake_state C false psk [] none ≡ ok r
        → length g.m1 ≤ max_handshake
        → 8 + length g.m2 ≤ w.room
        → server_noise P C (some b) psk (source (packed g.m1 ++ rest) fin) w ≡ (
          ok (record { enc = g.c2; dec = g.c1; rbuf = [] }, source rest fin),
          sent (packed g.m2) w,
        )
    unfolding server_noise
    server_noise_lem rest w new short room =
        agreed-ok _ r w
          (λ hs.
            then_read (source (packed g.m1 ++ rest) fin) packet w
              (λ m1 src'. server_read (some b) (read_message C hs m1) src' w))
          new
        ∙ then_read-packed g.m1 rest fin packet w
            (λ m1 src'. server_read (some b) (read_message C r m1) src' w) short
        ∙ ap (λ t. server_read (some b) t (source rest fin) w) g.read1
        ∙ ap (λ t. server_reply t (source rest fin) w) g.sent2
        ∙ then_send-fits g.m2 w (λ w'. server_stream P C (some (g.c1, g.c2)) (source rest fin) w')
            room

    client_noise_lem :
        (rest : Bytes) (w : Sink)
        → new_handshake_state C true psk [] none ≡ ok i
        → length g.m2 ≤ max_handshake
        → 8 + length g.m1 ≤ w.room
        → client_noise P C (some a) psk (source (packed g.m2 ++ rest) fin) w ≡ (
          ok (record { enc = g.c1; dec = g.c2; rbuf = [] }, source rest fin),
          sent (packed g.m1) w,
        )
    unfolding client_noise
    client_noise_lem rest w new short room =
        let src = source (packed g.m2 ++ rest) fin in
        agreed-ok _ i w (λ hs. client_write (write_message C (some a) hs []) src w) new
        ∙ ap (λ t. client_write t src w) g.sent1
        ∙ then_send-fits g.m1 w
            (λ w'.
              then_read src packet w' (λ m2 src'. client_read (read_message C g.i1 m2) src' w'))
            room
        ∙ then_read-packed g.m2 rest fin packet (sent (packed g.m1) w)
            (λ m2 src'. client_read (read_message C g.i1 m2) src' (sent (packed g.m1) w)) short
        ∙ ap (λ t. client_read t (source rest fin) (sent (packed g.m1) w)) g.read2

  module _ (password scalar scalar' a b dh : Bytes) (p : IsPaired P password scalar scalar')
      (i r : HandshakeState) (g : Agrees C i r a b [] [])
      (start_i : new_handshake_state C true p.psk [] none ≡ ok i)
      (start_r : new_handshake_state C false p.psk [] none ≡ ok r)
      (short_m1 : length g.m1 ≤ max_handshake) (short_m2 : length g.m2 ≤ max_handshake)
      (rest : Bytes) (room : ℕ) (enough : 3 * (8 + max_handshake) ≤ room) where
    abbrev server_end : Sink
    server_end =
        sent (packed g.m2) (sent (packed (P.tag p.end)) (sent (packed p.msg1) (empty room)))

    abbrev client_end : Sink
    client_end =
        sent (packed g.m1) (sent (packed (P.tag p.end')) (sent (packed p.msg2) (empty room)))

    server_confirm_lem :
        server_confirm P C
          (some b)
          p.key
          p.end
          (source (packed (P.tag p.end') ++ (packed g.m1 ++ rest)) fin)
          (sent (packed p.msg1) (empty room))
        ≡ (ok (record { enc = g.c2; dec = g.c1; rbuf = [] }, source rest fin), server_end)
    unfolding server_confirm derive_psk
    server_confirm_lem =
        let w = sent (packed p.msg1) (empty room) in
        let w' = sent (packed (P.tag p.end)) w in
        let src' = source (packed g.m1 ++ rest) fin in
        let on = λ (u : Sink).
          given (derive_psk P C p.key) no_psk u (λ psk. server_noise P C (some b) psk src' u) in
        let s1 = length-packed p.msg1 in
        let s2 = length-packed (P.tag p.end) in
        then_read-packed (P.tag p.end') (packed g.m1 ++ rest) fin packet w
          (λ tag src. checked (P.verify p.end tag) wrong_client w (
            then_send (P.tag p.end) w (λ u.
              given (derive_psk P C p.key) no_psk u (λ psk. server_noise P C (some b) psk src u))))
          p.short_tag'
        ∙ checked-true _ wrong_client w (then_send (P.tag p.end) w on) p.verifies
        ∙ then_send-fits (P.tag p.end) w on (omega (arith, p.short1, p.short_tag))
        ∙ given-some _ p.psk no_psk w' (λ psk. server_noise P C (some b) psk src' w') p.derives
        ∙ server_noise_lem p.psk a b dh i r g rest w' start_r short_m1
            (omega (arith, p.short1, p.short_tag))

    pub secure_server_lem :
        secure_server P C password scalar
          (some b)
          (source (three p.msg2 (P.tag p.end') g.m1 ++ rest) fin)
          (empty room)
        ≡ (
          ok (record { enc = g.c2; dec = g.c1; rbuf = [] }, source rest fin),
          sent (three p.msg1 (P.tag p.end) g.m2) (empty room),
        )
    unfolding secure_server
    secure_server_lem =
        let in3 = packed (P.tag p.end') ++ (packed g.m1 ++ rest) in
        let src = source (packed p.msg2 ++ in3) fin in
        let w = sent (packed p.msg1) (empty room) in
        let on = λ (st : P.State) (u : Sink). then_read src packet u (λ msg2 src'.
          given (P.finish st msg2) cpace_failed u
            (λ key. server_confirm P C (some b) key.0 key.1 src' u)) in
        ap (λ t. secure_server P C password scalar (some b) (source t fin) (empty room))
          (three-append p.msg2 (P.tag p.end') g.m1 rest)
        ∙ given-some _ (p.st, p.msg1) cpace_failed (empty room)
            (λ st. then_send st.1 (empty room) (on st.0)) p.starts
        ∙ then_send-fits p.msg1 (empty room) (on p.st) (omega (arith, p.short1))
        ∙ then_read-packed p.msg2 in3 fin packet w
            (λ msg2 src'.
              given (P.finish p.st msg2) cpace_failed w
                (λ key. server_confirm P C (some b) key.0 key.1 src' w))
            p.short2
        ∙ given-some _ (p.key, p.end) cpace_failed w
            (λ key. server_confirm P C (some b) key.0 key.1 (source in3 fin) w) p.finishes
        ∙ server_confirm_lem
        ∙ ap (λ u. (ok (record { enc = g.c2; dec = g.c1; rbuf = [] }, source rest fin), u))
            (sent-three p.msg1 (P.tag p.end) g.m2 room)

    client_confirm_lem :
        client_confirm P C
          (some a)
          p.key
          p.end'
          (source (packed (P.tag p.end) ++ (packed g.m2 ++ rest)) fin)
          (sent (packed (P.tag p.end')) (sent (packed p.msg2) (empty room)))
        ≡ (ok (record { enc = g.c1; dec = g.c2; rbuf = [] }, source rest fin), client_end)
    unfolding client_confirm derive_psk
    client_confirm_lem =
        let w = sent (packed (P.tag p.end')) (sent (packed p.msg2) (empty room)) in
        let src' = source (packed g.m2 ++ rest) fin in
        let s1 = length-packed p.msg2 in
        let s2 = length-packed (P.tag p.end') in
        then_read-packed (P.tag p.end) (packed g.m2 ++ rest) fin no_reply w
          (λ tag src.
            checked (P.verify p.end' tag) wrong_server w
              (given (derive_psk P C p.key) no_psk w (λ psk. client_noise P C (some a) psk src w)))
          p.short_tag
        ∙ checked-true _ wrong_server w
            (given (derive_psk P C p.key) no_psk w (λ psk. client_noise P C (some a) psk src' w))
            p.verifies'
        ∙ given-some _ p.psk no_psk w (λ psk. client_noise P C (some a) psk src' w) p.derives
        ∙ client_noise_lem p.psk a b dh i r g rest w start_i short_m2
            (omega (arith, p.short2, p.short_tag'))

    pub secure_client_lem :
        secure_client P C password scalar'
          (some a)
          (source (three p.msg1 (P.tag p.end) g.m2 ++ rest) fin)
          (empty room)
        ≡ (
          ok (record { enc = g.c1; dec = g.c2; rbuf = [] }, source rest fin),
          sent (three p.msg2 (P.tag p.end') g.m1) (empty room),
        )
    unfolding secure_client
    secure_client_lem =
        let in3 = packed (P.tag p.end) ++ (packed g.m2 ++ rest) in
        let src' = source in3 fin in
        let w = empty room in
        let w' = sent (packed p.msg2) w in
        let confirm =
          λ (key : Bytes × P.State) (u : Sink). client_confirm P C (some a) key.0 key.1 src' u in
        let tagged =
          λ (key : Bytes × P.State) (u : Sink). then_send (P.tag key.1) u (confirm key) in
        let finish = λ (st : P.State × Bytes).
          given (P.finish st.0 p.msg1) cpace_failed w (λ key. then_send st.1 w (tagged key)) in
        ap (λ t. secure_client P C password scalar' (some a) (source t fin) w)
          (three-append p.msg1 (P.tag p.end) g.m2 rest)
        ∙ then_read-packed p.msg1 in3 fin packet w
            (λ msg1 src. given (P.start false password channel_id scalar') cpace_failed w (λ st.
              given (P.finish st.0 msg1) cpace_failed w (λ key. then_send st.1 w (λ u.
                then_send (P.tag key.1) u (λ v. client_confirm P C (some a) key.0 key.1 src v)))))
            p.short1
        ∙ given-some _ (p.st', p.msg2) cpace_failed w finish p.starts'
        ∙ given-some _ (p.key, p.end') cpace_failed w (λ key. then_send p.msg2 w (tagged key))
            p.finishes'
        ∙ then_send-fits p.msg2 w (tagged (p.key, p.end')) (omega (arith, p.short2))
        ∙ then_send-fits (P.tag p.end') w' (confirm (p.key, p.end'))
            (omega (arith, p.short2, p.short_tag', length-packed p.msg2))
        ∙ client_confirm_lem
        ∙ ap (λ u. (ok (record { enc = g.c1; dec = g.c2; rbuf = [] }, source rest fin), u))
            (sent-three p.msg2 (P.tag p.end') g.m1 room)
