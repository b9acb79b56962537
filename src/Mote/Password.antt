-- ===== src/Mote/Password.antt =====
-- mote/secure.go, secureServer and secureClient: the two sides check that they know the same password
-- and agree on the ciphers of an encrypted stream. CPace is an interface.
pub mod Packets
pub mod Silence
pub mod Sides
pub mod Exchange
use cmd.Prelude.{ℕ, Bool, true, false, Option, none, some, [], Bytes, codes, Result, ok, err}
use cmd.Prelude.Io.{Source, Sink}
use cmd.Mote.Packet.{PacketError, Json, write_packet, read_handshake_packet}
use cmd.Mote.Noise.{
  Crypto, NoiseError, CipherState, HandshakeState, new_handshake_state, write_message, read_message,
}
use cmd.Mote.Secure.{SecureStream}

-- cpace.Start as initiator or responder with a password, a channel and a random scalar, State.Finish
-- with the new state, State.Tag and State.Verify; and crypto/hkdf.Key over SHA-256 by secret, info and
-- length.
pub record Cpace : Type 1 where
  pub State : Type 0
  pub start : Bool → Bytes → Bytes → Bytes → Option (State × Bytes)
  pub finish : State → Bytes → Option (Bytes × State)
  pub tag : State → Bytes
  pub verify : State → Bytes → Bool
  pub hkdf_key : Bytes → Bytes → ℕ → Option Bytes

pub data SecureError : Type 0 where
  packet : PacketError → SecureError
  noise : NoiseError → SecureError
  cpace_failed wrong_client wrong_server no_psk : SecureError
  no_reply : PacketError → SecureError
  -- a stream without ciphers, which the first use would show
  nil_ciphers : SecureError

abbrev pub channel_id : Bytes
channel_id = codes "rsc.io/cmd/mote tcp"

-- The packets have no JSON.
abbrev no_json : Json (Unit {0})
no_json = record { marshal = λ _. none; unmarshal = λ _ _. none }

-- writePacket(nil, msg)
unfoldable pub send : Bytes → Sink → Option PacketError × Sink
send msg w = write_packet no_json none msg w

abbrev pub Outcome : Type 0
Outcome = Result SecureError (SecureStream × Source) × Sink

-- `if err != nil { return nil, err }` behind a call: one that writes a packet, one that reads a
-- packet, and one that gives a value. A connection that failed is returned as it was left.
abbrev pub then_send : Bytes → Sink → (Sink → Outcome) → Outcome
then_send msg w next =
    let (failure, w') = send msg w in
    elim failure [ some e ↦ (err (packet e), w') | none ↦ next w' ]

abbrev pub then_read :
    Source → (PacketError → SecureError) → Sink → (Bytes → Source → Outcome) → Outcome
then_read src problem w next = elim (read_handshake_packet src) [
  | err e ↦ (err (problem e), w)
  | ok (msg, src') ↦ next msg src'
]

abbrev pub given : {A : Type 0} → Option A → SecureError → Sink → (A → Outcome) → Outcome
given none e w next = (err e, w)
given (some x) e w next = next x

abbrev pub agreed : {A : Type 0} → Result NoiseError A → Sink → (A → Outcome) → Outcome
agreed (err e) w next = (err (noise e), w)
agreed (ok x) w next = next x

abbrev pub checked : Bool → SecureError → Sink → Outcome → Outcome
checked false e w next = (err e, w)
checked true e w next = next

module _ (P : Cpace) (C : Crypto) where
  -- derivePSK
  pub derive_psk : Bytes → Option Bytes
  derive_psk key = P.hkdf_key key (codes "mote noise psk") 32

  -- The stream of a side that encrypts with the first cipher, and of one that does with the second.
  abbrev pub client_stream : Option (CipherState × CipherState) → Source → Sink → Outcome
  client_stream none src w = (err nil_ciphers, w)
  client_stream (some (c1, c2)) src w = (ok (record { enc = c1; dec = c2; rbuf = [] }, src), w)

  abbrev pub server_stream : Option (CipherState × CipherState) → Source → Sink → Outcome
  server_stream none src w = (err nil_ciphers, w)
  server_stream (some (c1, c2)) src w = (ok (record { enc = c2; dec = c1; rbuf = [] }, src), w)

  -- `secureServer` behind `derivePSK`; `fresh` is the key that the handshake generates.
  pub server_noise : Option Bytes → Bytes → Source → Sink → Outcome
  server_noise fresh psk src w = agreed (new_handshake_state C false psk [] none) w (λ hs.
      then_read src packet w (λ m1 src'.
        let (got, hs') = read_message C hs m1 in
        agreed got w (λ _.
          let (made, _) = write_message C fresh hs' [] in
          agreed made w (λ m2. then_send m2.0 w (λ w'. server_stream m2.1 src' w')))))

  -- `secureServer` from the client's key confirmation on.
  pub server_confirm : Option Bytes → Bytes → P.State → Source → Sink → Outcome
  unfolding derive_psk
  server_confirm fresh key st src w = then_read src packet w (λ tag src'.
      checked (P.verify st tag) wrong_client w (
        then_send (P.tag st) w
          (λ w'. given (derive_psk key) no_psk w' (λ psk. server_noise fresh psk src' w'))))

  pub secure_server : Bytes → Bytes → Option Bytes → Source → Sink → Outcome
  secure_server password scalar fresh src w =
      given (P.start true password channel_id scalar) cpace_failed w (λ st. then_send st.1 w (λ w'.
        then_read src packet w' (λ msg2 src'.
          given (P.finish st.0 msg2) cpace_failed w'
            (λ key. server_confirm fresh key.0 key.1 src' w'))))

  -- `secureClient` behind `derivePSK`.
  pub client_noise : Option Bytes → Bytes → Source → Sink → Outcome
  client_noise fresh psk src w = agreed (new_handshake_state C true psk [] none) w (λ hs.
      let (made, hs') = write_message C fresh hs [] in
      agreed made w (λ m1. then_send m1.0 w (λ w'. then_read src packet w' (λ m2 src'.
        let (got, _) = read_message C hs' m2 in agreed got w' (λ pt. client_stream pt.1 src' w')))))

  -- `secureClient` from the server's key confirmation on.
  pub client_confirm : Option Bytes → Bytes → P.State → Source → Sink → Outcome
  unfolding derive_psk
  client_confirm fresh key st src w = then_read src no_reply w (λ tag src'.
      checked (P.verify st tag) wrong_server w
        (given (derive_psk key) no_psk w (λ psk. client_noise fresh psk src' w)))

  pub secure_client : Bytes → Bytes → Option Bytes → Source → Sink → Outcome
  secure_client password scalar fresh src w = then_read src packet w (λ msg1 src'.
      given (P.start false password channel_id scalar) cpace_failed w (λ st.
        given (P.finish st.0 msg1) cpace_failed w (λ key.
          then_send st.1 w
            (λ w'. then_send (P.tag key.1) w' (λ w''. client_confirm fresh key.0 key.1 src' w'')))))
