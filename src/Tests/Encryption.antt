-- ===== src/Tests/Encryption.antt =====
-- Tests of the encrypted connection.
use cmd.Prelude.{
  ℕ, ◌<◌, ◌≡◌, ◌≢◌, refl, arith, Bool, true, false, none, some, List, [], ◌∷◌, codes, ok,
}
use cmd.Prelude.Io.{eof}
use cmd.Mote.Noise.{
  CipherState, HandshakeState, max_uint64, nonce, encrypt, new_handshake_state, new_symmetric_state,
}
use cmd.Mote.Noise.Agreement.{Agrees, noise_agreement}
use cmd.Mote.Noise.Turns.{Call, write, read, Succeeds, run, noise_run}
use cmd.Mote.Noise.Nonce.{one, more, nonce_unique}
use cmd.Mote.Secure.{SecureStream, io, secure_write}
use cmd.Mote.Secure.Session.{read_all, secure_round_trip}
use cmd.Tests.Toy.{
  toy, psk, private_a, private_b, toy-Unseals, toy-Overhead, a-IsKeyFor, b-IsKeyFor,
}

abbrev side : Bool → HandshakeState
side initiator = record {
  ss = new_symmetric_state toy (codes "mote");
  initiator = initiator;
  psk = psk;
  e = none;
  re = none;
  fixed_e = none;
  msg = 0;
  failed = false;
}

new_side :
    (initiator : Bool)
    → new_handshake_state toy initiator psk (codes "mote") none ≡ ok (side initiator)
unfolding new_handshake_state
new_side initiator = refl

noise_agreement_example :
    Agrees toy (side true) (side false) private_a private_b (codes "hi") (codes "hello")
noise_agreement_example =
    noise_agreement toy psk (codes "mote") private_a private_b (5 ∷ []) (codes "hi") (codes "hello")
      (side true) (side false) toy-Unseals a-IsKeyFor b-IsKeyFor (new_side true) (new_side false)

abbrev calls : List Call
calls = write (some private_a) (codes "hi") ∷ read (codes "too short") ∷ write none [] ∷ []

noise_run_example : Succeeds toy 2 (run toy (side true) calls)
noise_run_example = noise_run toy (side true) calls (omega arith)

abbrev cipher : ℕ → CipherState
cipher n = record { key = psk; n = n }

nonce_unique_example :
    (toy.seal psk (nonce 9) (codes "b") [] ≡ toy.seal psk (nonce 9) (codes "b") [])
    × (nonce 7 ≢ nonce 9)
    × (9 < max_uint64)
unfolding encrypt
nonce_unique_example =
    nonce_unique toy (cipher 7) (cipher 9) (cipher 10) [] (codes "b")
      (toy.seal psk (nonce 9) (codes "b") []) (omega arith)
      (more [] (codes "a") _ (one [] (codes "a") _ refl) refl) refl

abbrev writer : SecureStream
writer = record { enc = cipher 7; dec = cipher 0; rbuf = [] }

abbrev reader : SecureStream
reader = record { enc = cipher 0; dec = cipher 7; rbuf = [] }

secure_round_trip_example :
    ((secure_write toy writer (codes "hi") (record { out = []; room = 100 })).0 ≡ (2, none))
    × (read_all toy 3 1 reader (record {
      bytes = (secure_write toy writer (codes "hi") (record { out = []; room = 100 })).2.out;
      fin = eof;
    })
        ≡ some (codes "hi", io eof))
secure_round_trip_example =
    secure_round_trip toy writer reader (codes "hi") 100 1 3 eof toy-Unseals toy-Overhead refl refl
      (omega arith) (omega arith) (omega arith) (omega arith)
