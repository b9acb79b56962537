-- ===== src/Mote/Noise.antt =====
-- mote/internal/noise/noise.go: the Noise_NNpsk0_25519_ChaChaPoly_SHA256 handshake. The primitives
-- are parameters; what each function appends to `out` is its result.
pub mod Agreement
pub mod Turns
pub mod Nonce
use cmd.Prelude.{
  ℕ, zero, suc, ◌+◌, ◌-◌, ◌*◌, ◌/◌, ◌%◌, ◌^◌, ◌≡◌, Bool, true, false, not, ◌||◌, Option, none, some,
  List, [], ◌∷◌, ◌++◌, Bytes, codes, length, take, drop, ltb, ◌==◌, if◌then◌else◌, Result, ok, err,
}

-- crypto/sha256, crypto/hmac, crypto/ecdh over X25519, and ChaCha20-Poly1305. A private key is the
-- bytes it was made of.
pub record Crypto : Type 0 where
  pub sha256 : Bytes → Bytes
  pub hmac : Bytes → Bytes → Bytes
  -- aead.Seal and aead.Open, by key, nonce, text and associated data
  pub seal : Bytes → Bytes → Bytes → Bytes → Bytes
  pub unseal : Bytes → Bytes → Bytes → Bytes → Option Bytes
  pub public_key : Bytes → Bytes
  -- ecdh.X25519().NewPublicKey
  pub new_public_key : Bytes → Option Bytes
  -- priv.ECDH(pub)
  pub ecdh : Bytes → Bytes → Option Bytes

pub data NoiseError : Type 0 where
  nonce_exhausted decryption_failed already_failed out_of_turn : NoiseError
  no_random bad_peer_key message_too_short bad_psk : NoiseError
  -- a nil key is used, which panics
  nil_key : NoiseError

pub record CipherState : Type 0 where
  pub key : Bytes
  pub n : ℕ

pub record SymmetricState : Type 0 where
  pub ck : Bytes
  pub h : Bytes
  pub cs : Option CipherState

pub record HandshakeState : Type 0 where
  pub ss : SymmetricState
  pub initiator : Bool
  pub psk : Bytes
  pub e : Option Bytes
  pub re : Option Bytes
  pub fixed_e : Option Bytes
  pub msg : ℕ
  pub failed : Bool

abbrev pub max_uint64 : ℕ
max_uint64 = 2 ^ 64 - 1

-- binary.LittleEndian: `k` bytes of `n`
little_endian : ℕ → ℕ → Bytes
little_endian zero n = []
little_endian (suc k) n = (n % 256) ∷ little_endian k (n / 256)

unfoldable pub nonce : ℕ → Bytes
unfolding little_endian
nonce n = 0 ∷ 0 ∷ 0 ∷ 0 ∷ little_endian 8 n

abbrev pub protocol_name : Bytes
protocol_name = codes "Noise_NNpsk0_25519_ChaChaPoly_SHA256"

pub new_cipher_state : Bytes → CipherState
new_cipher_state key = record { key = key; n = 0 }

pub equal : Bool → Bool → Bool
equal true b = b
equal false b = not b

module _ (C : Crypto) where
  unfoldable pub encrypt : CipherState → Bytes → Bytes → Result NoiseError (Bytes × CipherState)
  encrypt c ad plaintext =
      if c.n == max_uint64
      then err nonce_exhausted
      else ok (C.seal c.key (nonce c.n) plaintext ad, record c { n = c.n + 1 })

  unfoldable pub decrypt : CipherState → Bytes → Bytes → Result NoiseError (Bytes × CipherState)
  decrypt c ad ciphertext =
      if c.n == max_uint64
      then err nonce_exhausted
      else elim (C.unseal c.key (nonce c.n) ciphertext ad) [
        | none ↦ err decryption_failed
        | some out ↦ ok (out, record c { n = c.n + 1 })
      ]

  -- The loop of `hkdf`: the outputs i, i + 1, …
  hkdf_loop : ℕ → ℕ → Bytes → Bytes → List Bytes
  hkdf_loop zero i temp last = []
  hkdf_loop (suc num) i temp last =
      let next = C.hmac temp (last ++ i % 256 ∷ []) in next ∷ hkdf_loop num (i + 1) temp next

  hkdf : Bytes → Bytes → ℕ → List Bytes
  hkdf ck input num = hkdf_loop num 1 (C.hmac ck input) []

  mix_hash : SymmetricState → Bytes → SymmetricState
  mix_hash ss text = record ss { h = C.sha256 (ss.h ++ text) }

  pub new_symmetric_state : Bytes → SymmetricState
  new_symmetric_state prologue =
      let h = C.sha256 protocol_name in mix_hash (record { ck = h; h = h; cs = none }) prologue

  -- `out[i]`; the lists have the length that was asked for.
  output : ℕ → List Bytes → Bytes
  output i [] = []
  output zero (o ∷ os) = o
  output (suc i) (o ∷ os) = output i os

  mix_key : SymmetricState → Bytes → SymmetricState
  mix_key ss input =
      let out = hkdf ss.ck input 2 in
      record ss { ck = output 0 out; cs = some (new_cipher_state (output 1 out)) }

  mix_key_and_hash : SymmetricState → Bytes → SymmetricState
  mix_key_and_hash ss input =
      let out = hkdf ss.ck input 3 in
      let mixed = mix_hash (record ss { ck = output 0 out }) (output 1 out) in
      record mixed { cs = some (new_cipher_state (output 2 out)) }

  encrypt_and_hash : SymmetricState → Bytes → Result NoiseError (Bytes × SymmetricState)
  encrypt_and_hash ss plaintext = elim ss.cs [
    | none ↦ ok (plaintext, mix_hash ss plaintext)
    | some c ↦ elim (encrypt c ss.h plaintext) [
      | err e ↦ err e
      | ok (ct, c') ↦ ok (ct, mix_hash (record ss { cs = some c' }) ct)
    ]
  ]

  decrypt_and_hash : SymmetricState → Bytes → Result NoiseError (Bytes × SymmetricState)
  decrypt_and_hash ss ciphertext = elim ss.cs [
    | none ↦ ok (ciphertext, mix_hash ss ciphertext)
    | some c ↦ elim (decrypt c ss.h ciphertext) [
      | err e ↦ err e
      | ok (pt, c') ↦ ok (pt, mix_hash (record ss { cs = some c' }) ciphertext)
    ]
  ]

  pub split : SymmetricState → CipherState × CipherState
  split ss =
      let out = hkdf ss.ck [] 2 in
      (new_cipher_state (output 0 out), new_cipher_state (output 1 out))

  unfoldable pub new_handshake_state :
      Bool → Bytes → Bytes → Option Bytes → Result NoiseError HandshakeState
  new_handshake_state initiator psk prologue fixed_e =
      if length psk == 32
      then ok (record {
        ss = new_symmetric_state prologue;
        initiator = initiator;
        psk = psk;
        e = none;
        re = none;
        fixed_e = fixed_e;
        msg = 0;
        failed = false;
      })
      else err bad_psk

  -- A message or a payload, and the transport ciphers after the last message.
  abbrev pub Outcome : Type 0
  Outcome = Result NoiseError (Bytes × Option (CipherState × CipherState)) × HandshakeState

  abbrev fail : HandshakeState → NoiseError → Outcome
  fail hs e = (err e, record hs { failed = true })

  -- `if hs.msg == 1 { … hs.ss.mixKey(dh) }`
  mix_dh : HandshakeState → Result NoiseError SymmetricState
  mix_dh hs = elim (hs.msg == 1) [
    | false ↦ ok hs.ss
    | true ↦ elim hs.e [
      | none ↦ err nil_key
      | some e ↦ elim hs.re [
        | none ↦ err nil_key
        | some re ↦ elim (C.ecdh e re) [ none ↦ err bad_peer_key | some dh ↦ ok (mix_key hs.ss dh) ]
      ]
    ]
  ]

  -- `hs.msg++`, and the ciphers if that was the last message.
  finish : Bytes → SymmetricState → HandshakeState → Outcome
  finish out ss hs =
      let hs' = record hs { ss = ss; msg = hs.msg + 1 } in
      if hs.msg + 1 == 2 then (ok (out, some (split ss)), hs') else (ok (out, none), hs')

  -- `if hs.msg == 0 { hs.ss.mixKeyAndHash(hs.psk) }`
  begin : HandshakeState → HandshakeState
  begin hs = if hs.msg == 0 then record hs { ss = mix_key_and_hash hs.ss hs.psk } else hs

  -- `hs.ss.mixHash(pub)` and `hs.ss.mixKey(pub)`
  mix_pub : SymmetricState → Bytes → SymmetricState
  mix_pub ss pubkey = mix_key (mix_hash ss pubkey) pubkey

  -- The part of `WriteMessage` behind the key that is used.
  write_with : Bytes → Bytes → HandshakeState → Outcome
  write_with e payload hs =
      let pubkey = C.public_key e in
      let hs1 = record hs { e = some e; ss = mix_pub hs.ss pubkey } in
      elim (mix_dh hs1) [
        | err x ↦ fail hs1 x
        | ok ss ↦ elim (encrypt_and_hash ss payload) [
          | err x ↦ fail (record hs1 { ss = ss }) x
          | ok (ct, ss') ↦ finish (pubkey ++ ct) ss' hs1
        ]
      ]

  or_fresh : Option Bytes → Option Bytes → Option Bytes
  or_fresh none fresh = fresh
  or_fresh (some e) fresh = some e

  -- `WriteMessage`; `fresh` is what GenerateKey gives, none if it fails.
  pub write_message : Option Bytes → HandshakeState → Bytes → Outcome
  write_message fresh hs payload =
      if hs.failed
      then (err already_failed, hs)
      else if not (equal hs.initiator (hs.msg == 0)) || ltb 1 hs.msg
      then fail hs out_of_turn
      else elim (or_fresh hs.fixed_e fresh) [
        | none ↦ fail (begin hs) no_random
        | some e ↦ write_with e payload (begin hs)
      ]

  -- The part of `ReadMessage` behind the peer's key.
  read_with : Bytes → Bytes → HandshakeState → Outcome
  read_with pubkey rest hs = elim (C.new_public_key pubkey) [
    | none ↦ fail hs bad_peer_key
    | some re ↦
        let hs1 = record hs { re = some re; ss = mix_pub hs.ss pubkey } in
        elim (mix_dh hs1) [
          | err x ↦ fail hs1 x
          | ok ss ↦ elim (decrypt_and_hash ss rest) [
            | err x ↦ fail (record hs1 { ss = ss }) x
            | ok (pt, ss') ↦ finish pt ss' hs1
          ]
        ]
  ]

  pub read_message : HandshakeState → Bytes → Outcome
  read_message hs message =
      if hs.failed
      then (err already_failed, hs)
      else if equal hs.initiator (hs.msg == 0) || ltb 1 hs.msg
      then fail hs out_of_turn
      else if ltb (length message) 32
      then fail (begin hs) message_too_short
      else read_with (take 32 message) (drop 32 message) (begin hs)
