-- ===== src/Mote/Password/Exchange.antt =====
-- The two sides of the encryption handshake, each fed with what the other writes.
use cmd.Prelude.{ℕ, ◌+◌, ◌-◌, ◌*◌, ◌≤◌, ◌≡◌, true, false, some, [], ◌++◌, arith, Bytes, length, ok}
use cmd.Prelude.Io.{IoError}
use cmd.Mote.Packet.{max_handshake}
use cmd.Mote.Noise.{Crypto, CipherState}
use cmd.Mote.Noise.Agreement.{Unseals, Overhead, IsKeyFor, noise_agreement, new_handshake_state-ok}
use cmd.Mote.Password.{Cpace, secure_server, secure_client}
use cmd.Mote.Password.Sides.{IsPaired, three, secure_server_lem, secure_client_lem}

-- What the server and the client write, and the streams that they end with when each is fed with what
-- the other writes.
pub record IsSecured (P : Cpace) (C : Crypto) (password scalar scalar' a b : Bytes) (room : ℕ)
    : Type 0 where
  pub from_server : Bytes
  pub from_client : Bytes
  pub c1 : CipherState
  pub c2 : CipherState
  pub server :
      (rest : Bytes) (fin : IoError)
      → secure_server P C password scalar
          (some b)
          (record { bytes = from_client ++ rest; fin = fin })
          (record { out = []; room = room })
        ≡ (
          ok (record { enc = c2; dec = c1; rbuf = [] }, record { bytes = rest; fin = fin }),
          record { out = from_server; room = room - length from_server },
        )
  pub client :
      (rest : Bytes) (fin : IoError)
      → secure_client P C password scalar'
          (some a)
          (record { bytes = from_server ++ rest; fin = fin })
          (record { out = []; room = room })
        ≡ (
          ok (record { enc = c1; dec = c2; rbuf = [] }, record { bytes = rest; fin = fin }),
          record { out = from_client; room = room - length from_client },
        )

-- A server and a client with the same password, on connections with room, each fed with what the other
-- writes, both end with an encrypted stream: each encrypts with the cipher with which the other
-- decrypts, nothing is buffered, and exactly the handshake has been taken off the connection.
pub secure_agreement :
    (P : Cpace) (C : Crypto) (password scalar scalar' a b dh : Bytes) (room : ℕ)
    → IsPaired P password scalar scalar'
    → Unseals C
    → Overhead C
    → IsKeyFor C a b dh
    → IsKeyFor C b a dh
    → 3 * (8 + max_handshake) ≤ room
    → IsSecured P C password scalar scalar' a b room
secure_agreement P C password scalar scalar' a b dh room p unseals adds ka kb enough =
    let (i, start_i) = new_handshake_state-ok C true p.psk [] p.psk_size in
    let (r, start_r) = new_handshake_state-ok C false p.psk [] p.psk_size in
    let g = noise_agreement C p.psk [] a b dh [] [] i r unseals ka kb start_i start_r in
    let (size1, size2) = g.sizes adds in
    record {
      from_server = three p.msg1 (P.tag p.end) g.m2;
      from_client = three p.msg2 (P.tag p.end') g.m1;
      c1 = g.c1;
      c2 = g.c2;
      server = λ rest fin.
          secure_server_lem P C fin password scalar scalar' a b dh p i r g start_i start_r
            (omega arith) (omega arith) rest room enough;
      client = λ rest fin.
          secure_client_lem P C fin password scalar scalar' a b dh p i r g start_i start_r
            (omega arith) (omega arith) rest room enough;
    }
