-- ===== src/Tests/Logins.antt =====
-- Tests of the encryption handshake, on a toy CPace whose key is empty and whose tag is fixed.
use cmd.Prelude.{◌⊎◌, refl, arith, some, [], ◌∷◌, Bytes, codes, bytes_eq}
use cmd.Prelude.Io.{eof, Source, Sink}
use cmd.Mote.Password.{Cpace, secure_server}
use cmd.Mote.Password.Sides.{IsPaired}
use cmd.Mote.Password.Exchange.{IsSecured, secure_agreement}
use cmd.Mote.Password.Silence.{IsSilent, IsConfirmed, secure_server-IsSilent}
use cmd.Tests.Toy.{
  toy, psk, private_a, private_b, toy-Unseals, toy-Overhead, a-IsKeyFor, b-IsKeyFor,
}

abbrev password : Bytes
password = codes "secret"

-- The state is the password; the other side's message is not looked at.
abbrev toy_cpace : Cpace
toy_cpace = record {
  State = Bytes;
  start = λ initiator word channel scalar. some (word, scalar);
  finish = λ word msg. some (word, word);
  tag = λ word. word;
  verify = λ word tag. bytes_eq word tag;
  hkdf_key = λ key info size. some psk;
}

toy_cpace-IsPaired : IsPaired toy_cpace password (1 ∷ []) (2 ∷ [])
unfolding bytes_eq
toy_cpace-IsPaired = record {
  st = password;
  st' = password;
  end = password;
  end' = password;
  msg1 = 1 ∷ [];
  msg2 = 2 ∷ [];
  key = password;
  psk = psk;
  starts = refl;
  starts' = refl;
  finishes = refl;
  finishes' = refl;
  verifies = refl;
  verifies' = refl;
  derives = refl;
  psk_size = refl;
  short1 = omega arith;
  short2 = omega arith;
  short_tag = omega arith;
  short_tag' = omega arith;
}

secure_agreement_example :
    IsSecured toy_cpace toy password (1 ∷ []) (2 ∷ []) private_a private_b 5000
secure_agreement_example =
    secure_agreement toy_cpace toy password (1 ∷ []) (2 ∷ []) private_a private_b (5 ∷ []) 5000
      toy_cpace-IsPaired toy-Unseals toy-Overhead a-IsKeyFor b-IsKeyFor (omega arith)

-- A client that hangs up.
abbrev silence : Source
silence = record { bytes = []; fin = eof }

abbrev wire : Sink
wire = record { out = []; room = 5000 }

secure_server-IsSilent_example :
    IsSilent toy_cpace toy password
      (1 ∷ [])
      wire
      (secure_server toy_cpace toy password (1 ∷ []) (some private_b) silence wire)
    ⊎ IsConfirmed toy_cpace toy password (1 ∷ []) silence
secure_server-IsSilent_example =
    secure_server-IsSilent toy_cpace toy password (1 ∷ []) (some private_b) silence wire
