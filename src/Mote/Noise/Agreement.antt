-- ===== src/Mote/Noise/Agreement.antt =====
-- The two sides of a handshake agree.
use cmd.Prelude.{
  ◌+◌, if_true, true, ◌==◌, ◌≤◌, ◌≡◌, refl, sym, ◌∙◌, Bool, true, false, none, some, ◌++◌, arith,
  Bytes, length, length-append, take-append, drop-append, ltb, ◌==◌, ok,
}
use cmd.Mote.Noise.{
  Crypto, CipherState, SymmetricState, HandshakeState, new_cipher_state, encrypt, decrypt,
  new_symmetric_state, split, new_handshake_state, write_message, read_message, mix_key, mix_hash,
  mix_key_and_hash, mix_pub, mix_dh, encrypt_and_hash, decrypt_and_hash, begin, finish, write_with,
  read_with, or_fresh, equal,
}

-- The key pair of `a` works: its public key has 32 bytes and is accepted, and with the peer's public
-- key it gives the shared secret `dh`.
pub record IsKeyFor (C : Crypto) (a peer dh : Bytes) : Type 0 where
  pub size : length (C.public_key a) ≡ 32
  pub accepted : C.new_public_key (C.public_key a) ≡ some (C.public_key a)
  pub shared : C.ecdh a (C.public_key peer) ≡ some dh

not_short : (xs : Bytes) → 32 ≤ length xs → ltb (length xs) 32 ≡ false
not_short xs h = ground arith

module _ (C : Crypto) where
  -- aead.Open undoes aead.Seal.
  abbrev pub Unseals : Type 0
  Unseals = (key n text ad : Bytes) → C.unseal key n (C.seal key n text ad) ad ≡ some text

  -- The authentication tag adds 16 bytes.
  abbrev pub Overhead : Type 0
  Overhead = (key n text ad : Bytes) → length (C.seal key n text ad) ≡ length text + 16

  abbrev start : Bool → Bytes → Bytes → HandshakeState
  start initiator psk prologue = record {
    ss = new_symmetric_state C prologue;
    initiator = initiator;
    psk = psk;
    e = none;
    re = none;
    fixed_e = none;
    msg = 0;
    failed = false;
  }

  -- A text sealed under a key that was just mixed in is opened by the peer that mixed in the same, and
  -- both then have the same state.
  crypt_pair :
      Unseals
      → (ss : SymmetricState) (input text : Bytes)
      → (ct : Bytes) × (ss' : SymmetricState) × (encrypt_and_hash C (mix_key C ss input) text
          ≡ ok (ct, ss'))
        × (decrypt_and_hash C (mix_key C ss input) ct ≡ ok (text, ss'))
        × (Overhead → length ct ≡ length text + 16)
  unfolding encrypt_and_hash decrypt_and_hash mix_key encrypt decrypt new_cipher_state
  crypt_pair unseals ss input text = (_, _, refl, rw unseals, λ adds. adds _ _ text _)

  -- The state of a writer with the key `e` before the shared secret is mixed in, and that of a reader.
  abbrev wrote : Bytes → HandshakeState → HandshakeState
  wrote e hs = record hs { e = some e; ss = mix_pub C hs.ss (C.public_key e) }

  abbrev got : Bytes → HandshakeState → HandshakeState
  got pubkey hs = record hs { re = some pubkey; ss = mix_pub C hs.ss pubkey }

  write_with_lem :
      (e text ct : Bytes) (hs : HandshakeState) (ss ss' : SymmetricState)
      → mix_dh C (wrote e hs) ≡ ok ss
      → encrypt_and_hash C ss text ≡ ok (ct, ss')
      → write_with C e text hs ≡ finish C (C.public_key e ++ ct) ss' (wrote e hs)
  unfolding write_with
  write_with_lem e text ct hs ss ss' mixed sealed = rw (mixed, write_with) (rw (sealed) refl)

  read_with_lem :
      (pubkey text ct : Bytes) (hs : HandshakeState) (ss ss' : SymmetricState)
      → C.new_public_key pubkey ≡ some pubkey
      → mix_dh C (got pubkey hs) ≡ ok ss
      → decrypt_and_hash C ss ct ≡ ok (text, ss')
      → read_with C pubkey ct hs ≡ finish C text ss' (got pubkey hs)
  unfolding read_with
  read_with_lem pubkey text ct hs ss ss' accepted mixed unsealed =
      rw (accepted, read_with) (rw mixed (rw unsealed refl))

  read_message_lem :
      (hs : HandshakeState) (pubkey ct : Bytes)
      → length pubkey ≡ 32
      → hs.failed ≡ false
      → equal hs.initiator (hs.msg == 0) ≡ false
      → ltb 1 hs.msg ≡ false
      → read_message C hs (pubkey ++ ct) ≡ read_with C pubkey ct (begin C hs)
  unfolding read_message
  read_message_lem hs pubkey ct len alive turn early =
      rw
        (
          alive,
          turn,
          early,
          not_short (pubkey ++ ct) (omega (arith, length-append pubkey ct)),
          take-append 32 pubkey ct (sym len),
          drop-append 32 pubkey ct (sym len),
        )
        refl

  -- The two messages of a handshake, between states `i` and `r`, and what both sides end up with.
  pub record Agrees (i r : HandshakeState) (a b text1 text2 : Bytes) : Type 0 where
    pub m1 : Bytes
    pub m2 : Bytes
    pub i1 : HandshakeState
    pub i2 : HandshakeState
    pub r1 : HandshakeState
    pub r2 : HandshakeState
    pub c1 : CipherState
    pub c2 : CipherState
    pub sent1 : write_message C (some a) i text1 ≡ (ok (m1, none), i1)
    pub read1 : read_message C r m1 ≡ (ok (text1, none), r1)
    pub sent2 : write_message C (some b) r1 text2 ≡ (ok (m2, some (c1, c2)), r2)
    pub read2 : read_message C i1 m2 ≡ (ok (text2, some (c1, c2)), i2)
    pub sizes : Overhead → (length m1 ≡ length text1 + 48) × (length m2 ≡ length text2 + 48)

  module _ (unseals : Unseals) (psk prologue a b dh text1 text2 : Bytes) (ka : IsKeyFor C a b dh)
      (kb : IsKeyFor C b a dh) where
    Agrees-start : Agrees (start true psk prologue) (start false psk prologue) a b text1 text2
    unfolding begin mix_pub mix_dh finish write_message or_fresh equal
    Agrees-start =
        let keyed = mix_key_and_hash C (new_symmetric_state C prologue) psk in
        let (ct1, ss1, enc1, dec1, size1) =
          crypt_pair unseals (mix_hash C keyed (C.public_key a)) (C.public_key a) text1 in
        let (ct2, ss2, enc2, dec2, size2) =
          crypt_pair unseals (mix_pub C ss1 (C.public_key b)) dh text2 in
        let i1 = record (wrote a (begin C (start true psk prologue))) { ss = ss1; msg = 1 } in
        let r1 = record (got (C.public_key a) (begin C (start false psk prologue))) {
          ss = ss1;
          msg = 1;
        } in
        record {
          m1 = C.public_key a ++ ct1;
          m2 = C.public_key b ++ ct2;
          i1 = i1;
          r1 = r1;
          i2 = record (got (C.public_key b) i1) { ss = ss2; msg = 2 };
          r2 = record (wrote b r1) { ss = ss2; msg = 2 };
          c1 = (split C ss2).0;
          c2 = (split C ss2).1;
          sent1 = write_with_lem a text1 ct1 (begin C (start true psk prologue)) _ ss1 refl enc1;
          read1 =
              read_message_lem (start false psk prologue) (C.public_key a) ct1 ka.size refl refl
                refl
              ∙ read_with_lem (C.public_key a) text1 ct1 (begin C (start false psk prologue)) _ ss1
                  ka.accepted refl dec1;
          sent2 = write_with_lem b text2 ct2 r1 _ ss2 (rw kb.shared) enc2;
          read2 =
              read_message_lem i1 (C.public_key b) ct2 kb.size refl refl refl
              ∙ read_with_lem (C.public_key b) text2 ct2 i1 _ ss2 kb.accepted (rw ka.shared) dec2;
          sizes = λ adds. (
            omega (arith, length-append (C.public_key a) ct1, ka.size, size1 adds),
            omega (arith, length-append (C.public_key b) ct2, kb.size, size2 adds),
          );
        }

pub new_handshake_state-ok :
    (C : Crypto) (initiator : Bool) (psk prologue : Bytes)
    → length psk ≡ 32
    → (hs : HandshakeState) × (new_handshake_state C initiator psk prologue none ≡ ok hs)
unfolding new_handshake_state
new_handshake_state-ok C initiator psk prologue size =
    let fits : (length psk == 32) ≡ true = ground arith in (_, if_true _ _ fits)

-- The handshake of two sides that start with the same 32-byte key and the same prologue, with working
-- key pairs: the responder reads what the initiator wrote, the initiator reads what the responder
-- wrote back, each gets the payload of the other, and both end with the same two transport ciphers,
-- in the same order. Where sealing adds 16 bytes, each message is 48 bytes longer than its payload.
pub noise_agreement :
    (C : Crypto) (psk prologue a b dh text1 text2 : Bytes) (i r : HandshakeState)
    → Unseals C
    → IsKeyFor C a b dh
    → IsKeyFor C b a dh
    → new_handshake_state C true psk prologue none ≡ ok i
    → new_handshake_state C false psk prologue none ≡ ok r
    → Agrees C i r a b text1 text2
unfolding new_handshake_state
noise_agreement C psk prologue a b dh text1 text2 i r unseals ka kb hi hr =
    let start_i : start C true psk prologue ≡ i = ground arith in
    let start_r : start C false psk prologue ≡ r = ground arith in
    rw (← start_i, ← start_r) (Agrees-start C unseals psk prologue a b dh text1 text2 ka kb)
