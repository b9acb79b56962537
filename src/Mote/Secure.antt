-- ===== src/Mote/Secure.antt =====
-- mote/secure.go, the encrypted stream: each Noise transport message is framed by its length, which is
-- authenticated with it.
pub mod Frames
pub mod Session
use cmd.Prelude.{
  ℕ, zero, suc, ◌+◌, ◌-◌, ◌%◌, ◌^◌, min, ◌≡◌, Bool, true, false, Option, none, some, [], ◌∷◌, ◌++◌,
  Bytes, length, take, drop, ltb, ◌==◌, if◌then◌else◌, Result, ok, err, ◌>>=◌,
}
use cmd.Prelude.Io.{IoError, Source, read_full, Sink, write}
use cmd.Prelude.Digits.{put_uint16, uint16}
use cmd.Mote.Noise.{Crypto, NoiseError, CipherState, encrypt, decrypt}

abbrev pub noise_overhead : ℕ
noise_overhead = 16

abbrev pub max_noise_plaintext : ℕ
max_noise_plaintext = 65535 - noise_overhead

pub data SecureError : Type 0 where
  io : IoError → SecureError
  write_failed : SecureError
  noise : NoiseError → SecureError

-- secureStream, less the connection.
pub record SecureStream : Type 0 where
  pub enc : CipherState
  pub dec : CipherState
  pub rbuf : Bytes

pub lift_io {ℓ} : {A : Type ℓ} → Result IoError A → Result SecureError A
lift_io (ok a) = ok a
lift_io (err e) = err (io e)

lift_noise {ℓ} : {A : Type ℓ} → Result NoiseError A → Result SecureError A
lift_noise (ok a) = ok a
lift_noise (err e) = err (noise e)

-- The length prefix of a message of `n` bytes.
pub length_prefix : ℕ → Bytes
length_prefix n = put_uint16 ((n + noise_overhead) % 2 ^ 16)

module _ (C : Crypto) where
  -- The loop of `Write`: the bytes written, the error, the cipher and the connection. Each round takes
  -- at least one byte off `p`.
  pub write_loop :
      ℕ → Bytes → ℕ → CipherState → Sink → (ℕ × Option SecureError) × CipherState × Sink
  write_loop zero p total enc w = ((total, none), enc, w)
  write_loop (suc fuel) [] total enc w = ((total, none), enc, w)
  write_loop (suc fuel) (b ∷ bs) total enc w =
      let p = b ∷ bs in
      let n = min (length p) max_noise_plaintext in
      let hdr = length_prefix n in
      elim (encrypt C enc hdr (take n p)) [
        | err e ↦ ((total, some (noise e)), enc, w)
        | ok (ct, enc') ↦
            let (done, w') = write (hdr ++ ct) w in
            elim done [
              | false ↦ ((total, some write_failed), enc', w')
              | true ↦ write_loop fuel (drop n p) (total + n) enc' w'
            ]
      ]

  pub secure_write : SecureStream → Bytes → Sink → (ℕ × Option SecureError) × SecureStream × Sink
  secure_write s p w =
      let (result, enc', w') = write_loop (length p) p 0 s.enc w in
      (result, record s { enc = enc' }, w')

  -- One round of the loop of `Read`: a whole message.
  read_message : CipherState → Source → Result SecureError (Bytes × CipherState × Source)
  read_message dec src = do
    (hdr, src1) ← lift_io (read_full 2 src)
    (ct, src2) ← lift_io (read_full (uint16 hdr) src1)
    (pt, dec') ← lift_noise (decrypt C dec hdr ct)
    ok (pt, dec', src2)

  -- `for len(s.rbuf) == 0`; each round takes at least two bytes off the connection.
  fill : ℕ → SecureStream → Source → Option (Result SecureError (SecureStream × Source))
  fill zero s src = none
  fill (suc fuel) s src = elim s.rbuf [
    | ◌∷◌ b bs ↦ some (ok (s, src))
    | [] ↦ elim (read_message s.dec src) [
      | err e ↦ some (err e)
      | ok (pt, dec', src') ↦ fill fuel (record s { dec = dec'; rbuf = pt }) src'
    ]
  ]

  -- `Read` into a buffer of `n` bytes; none where the fuel runs out.
  pub secure_read :
      SecureStream → ℕ → Source → Option (Result SecureError (Bytes × SecureStream × Source))
  secure_read s n src = elim (fill (suc (suc (length src.bytes))) s src) [
    | none ↦ none
    | some (err e) ↦ some (err e)
    | some (ok (s', src')) ↦ some (ok (take n s'.rbuf, record s' { rbuf = drop n s'.rbuf }, src'))
  ]
