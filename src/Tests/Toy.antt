-- ===== src/Tests/Toy.antt =====
-- Instances of the interfaces to code that is not in the repository: toy cryptography, whose seal
-- is the text and a tag of zeros, and numbers below 256 as JSON.
use cmd.Prelude.{
  ℕ, zero, suc, ◌-◌, ◌%◌, refl, ap, arith, Option, none, some, [], ◌∷◌, ◌++◌, Bytes, length,
  length-append, take, take-append,
}
use cmd.Mote.Noise.{Crypto}
use cmd.Mote.Noise.Agreement.{Unseals, Overhead, IsKeyFor}
use cmd.Mote.Packet.{Json}

abbrev zeros : ℕ → Bytes
zeros zero = []
zeros (suc n) = 0 ∷ zeros n

abbrev pub private_a : Bytes
private_a = 1 ∷ zeros 31

abbrev pub private_b : Bytes
private_b = 2 ∷ zeros 31

abbrev pub psk : Bytes
psk = 3 ∷ zeros 31

abbrev pub toy : Crypto
toy = record {
  sha256 = λ text. (length text % 256) ∷ [];
  hmac = λ key text. (length text % 256) ∷ key;
  seal = λ key n text ad. text ++ zeros 16;
  unseal = λ key n text ad. some (take (length text - 16) text);
  public_key = λ private. private;
  new_public_key = λ public. some public;
  ecdh = λ private public. some (5 ∷ []);
}

pub toy-Unseals : Unseals toy
toy-Unseals key n text ad =
    let size = length-append text (zeros 16) in
    ap (λ t. some t) (take-append (length (text ++ zeros 16) - 16) text (zeros 16) (omega arith))

pub toy-Overhead : Overhead toy
toy-Overhead key n text ad = length-append text (zeros 16)

pub a-IsKeyFor : IsKeyFor toy private_a private_b (5 ∷ [])
a-IsKeyFor = record { size = refl; accepted = refl; shared = refl }

pub b-IsKeyFor : IsKeyFor toy private_b private_a (5 ∷ [])
b-IsKeyFor = record { size = refl; accepted = refl; shared = refl }

-- A number as one byte.
abbrev decode : Bytes → Option ℕ
decode (n ∷ []) = some n
decode _ = none

abbrev pub number : Json ℕ
number = record { marshal = λ n. some (n ∷ []); unmarshal = λ old enc. decode enc }
