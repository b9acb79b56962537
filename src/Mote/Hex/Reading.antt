-- ===== src/Mote/Hex/Reading.antt =====
-- `hexReader.Read` on a connection that delivers its bytes in any chunks: what each call returns, and
-- that the decoding does not depend on where the chunks end.
use cmd.Prelude.{
  ℕ, zero, suc, ◌+◌, ◌*◌, ◌≤◌, ◌<◌, ◌≡◌, refl, sym, ap, ◌∙◌, ◌⊎◌, inl, inr, Bool, true, false,
  Option, none, some, [], ◌∷◌, ◌++◌, arith, Bytes, length, length-append, leb, leb→le, Bool-cases,
  Option-cases,
}
use cmd.Prelude.Io.{IoError, Stream, read, read-IsRead, IsRead, flatten, size}
use cmd.Prelude.Text.{is_newline}
use Prim.Native.Nat.{bit_or, ◌%◌}
use cmd.Mote.Hex.{
  accept, lift_error, io, unencoded, HexReader, Digest, done, bad, digest, unhex, HexRead,
  read_loop, hex_read,
}

-- Decoding goes on with `raw` where it ended before.
abbrev pub resume : Digest → Bytes → Digest
resume (done h out) raw = digest raw h out
resume (bad h out rest) raw = bad h out (rest ++ raw)

pub digest-append :
    (xs ys : Bytes) (h : HexReader) (out : Bytes)
    → digest (xs ++ ys) h out ≡ resume (digest xs h out) ys
unfolding digest
digest-append [] ys h out = refl
digest-append (c ∷ xs) ys h out = elim (Option-cases (unhex c)) [
  | inl e ↦
      rw (e, digest)
        (elim (Bool-cases (is_newline c)) [
          | inl n ↦ rw (n) (digest-append xs ys h out)
          | inr n ↦ rw n
        ])
  | inr (v, e) ↦ rw (e, digest) (digest-append xs ys (accept v h out).0 (accept v h out).1)
]

abbrev pub out_of : Digest → Bytes
out_of (done h out) = out
out_of (bad h out rest) = out

abbrev carry : Bool → ℕ
carry true = 1
carry false = 0

abbrev reader_of : Digest → HexReader
reader_of (done h out) = h
reader_of (bad h out rest) = h

err-accept : (v : ℕ) (h : HexReader) (out : Bytes) → (accept v h out).0.err ≡ h.err
unfolding accept
err-accept v h out = ground arith

-- Decoding does not touch the error.
err-digest :
    (raw : Bytes) (h : HexReader) (out : Bytes) → (reader_of (digest raw h out)).err ≡ h.err
unfolding digest
err-digest [] h out = refl
err-digest (c ∷ raw) h out = elim (Option-cases (unhex c)) [
  | inl e ↦
      rw (e, digest)
        (elim (Bool-cases (is_newline c)) [ inl n ↦ rw n (err-digest raw h out) | inr n ↦ rw n ])
  | inr (v, e) ↦
      rw (e, digest) (err-digest raw (accept v h out).0 (accept v h out).1 ∙ err-accept v h out)
]

length-accept :
    (v : ℕ) (h : HexReader) (out : Bytes)
    → 2 * length (accept v h out).1 + carry (accept v h out).0.odd
      ≡ 2 * length out + carry h.odd + 1
unfolding accept
length-accept v h out = elim (Bool-cases h.odd) [
  | inl e ↦ rw e (omega (arith, length-append out (bit_or (h.hi * 16 % 256) v ∷ [])))
  | inr e ↦ rw e (omega arith)
]

-- Two digits make a byte, and one may be left over from the call before.
digest-length :
    (raw : Bytes) (h : HexReader) (out : Bytes)
    → 2 * length (out_of (digest raw h out)) ≤ 2 * length out + length raw + carry h.odd
unfolding digest
digest-length [] h out = omega arith
digest-length (c ∷ raw) h out = elim (Option-cases (unhex c)) [
  | inl e ↦
      rw (e, digest)
        (elim (Bool-cases (is_newline c)) [
          | inl n ↦ rw (n) (omega (arith, digest-length raw h out))
          | inr n ↦ rw n (omega arith)
        ])
  | inr (v, e) ↦
      rw (e, digest)
        (omega
          (arith, digest-length raw (accept v h out).0 (accept v h out).1, length-accept v h out))
]

-- What a call of `Read` with a buffer of `n` bytes returns, where `d` is how the decoding of all that
-- the connection still delivers ends: some bytes of `d`, with the rest still to come; or all that is
-- left of it with the connection's error; or all that precedes unencoded data, with an error that
-- the reader keeps.
pub record IsHexRead (n : ℕ) (fin : IoError) (d : Digest) (r : HexRead) : Type 0 where
  pub bound : length r.out ≤ n
  pub outcome :
      ((r.error ≡ none)
        × (1 ≤ length r.out)
        × (digest (flatten r.stream.chunks) r.reader r.out ≡ d)
        × (r.stream.fin ≡ fin)
        × (r.reader.err ≡ none))
      ⊎ ((r.error ≡ some (io fin)) × (done r.reader r.out ≡ d))
      ⊎ ((m : Bytes) × (h : HexReader) × (rest : Bytes) × (r.error ≡ some (unencoded m))
          × (r.reader ≡ record h { err = some (unencoded m) })
          × (bad h r.out rest ≡ d))

Digest-cases :
    (d : Digest)
    → ((h : HexReader) × (out : Bytes) × (d ≡ done h out))
      ⊎ ((h : HexReader) × (out : Bytes) × (rest : Bytes) × (d ≡ bad h out rest))
Digest-cases (done h out) = inl (h, out, refl)
Digest-cases (bad h out rest) = inr (h, out, rest, refl)

-- The decoding of what was read, and then of what is still to come.
resume_read :
    (n : ℕ) (h : HexReader) (s : Stream) (r : Bytes × Option IoError × Stream)
    → IsRead n s r
    → digest (flatten s.chunks) h [] ≡ resume (digest r.0 h []) (flatten r.2.chunks)
resume_read n h s r rd = rw (← rd.all) (digest-append r.0 (flatten r.2.chunks) h [])

length-nil : (xs : Bytes) → leb 1 (length xs) ≡ false → xs ≡ []
length-nil [] h = refl
length-nil (x ∷ xs) h = ground arith

carry_le : (b : Bool) → carry b ≤ 1
carry_le true = omega arith
carry_le false = omega arith

-- Reading two digits for each byte of the buffer never decodes more than the buffer holds.
out_bound :
    (n : ℕ) (raw : Bytes) (h : HexReader) {d : Digest}
    → length raw ≤ 2 * n
    → digest raw h [] ≡ d
    → length (out_of d) ≤ n
out_bound n raw h b e = rw (← e) (omega (arith, digest-length raw h [], carry_le h.odd))

module _ (timed : Bool) (n : ℕ) (pos : 0 < n) (fin : IoError) where
  loop_lem :
      (fuel : ℕ) (h : HexReader) (s : Stream) (d : Digest)
      → size s.chunks < fuel
      → s.fin ≡ fin
      → h.err ≡ none
      → digest (flatten s.chunks) h [] ≡ d
      → (r : HexRead) × (read_loop timed fuel n h s ≡ some r) × IsHexRead n fin d r
  unfolding read_loop
  loop_lem zero h s d f sf ok e = absurd (omega arith)
  loop_lem (suc fuel) h s d f sf ok e =
      let rd = read-IsRead (2 * n) s (omega arith) in
      let both = sym (resume_read (2 * n) h s (read (2 * n) s) rd) ∙ e in
      elim (Digest-cases (digest (read (2 * n) s).0 h [])) [
        | inr (h', out, rest, bad_eq) ↦
            rw (bad_eq, read_loop)
              (
                _,
                refl,
                record {
                  bound = out_bound n _ h rd.bound bad_eq;
                  outcome = inr (inr (_, h', _, refl, refl, rw bad_eq at both));
                },
              )
        | inl (h', out, done_eq) ↦
            let later : digest (flatten (read (2 * n) s).2.chunks) h' out ≡ d =
              rw done_eq at both in
            let still_ok : h'.err ≡ none =
              (rw done_eq at (err-digest (read (2 * n) s).0 h [])) ∙ ok in
            elim rd.outcome [
              | inr (ended, nothing, over) ↦ elim (Bool-cases (leb 1 (length out))) [
                | inl some_out ↦
                    rw (done_eq, some_out, ended, read_loop)
                      (
                        _,
                        refl,
                        record {
                          bound = out_bound n _ h rd.bound done_eq;
                          outcome =
                              inr
                                (inl (ap (λ x. some (io x)) sf, unfold digest in rw over at later));
                        },
                      )
                | inr no_out ↦
                    rw (done_eq, no_out, ended, read_loop)
                      (
                        _,
                        refl,
                        record {
                          bound = out_bound n _ h rd.bound done_eq;
                          outcome = inr (
                              inl (
                                ap lift_error ended ∙ ap (λ x. some (io x)) sf,
                                unfold digest in rw over at later,
                              ));
                        },
                      )
              ]
              | inl (go_on, fewer) ↦ elim (Bool-cases (leb 1 (length out))) [
                | inl some_out ↦
                    rw (done_eq, some_out, go_on, read_loop)
                      (
                        _,
                        refl,
                        record {
                          bound = out_bound n _ h rd.bound done_eq;
                          outcome = inl (refl, leb→le _ _ some_out, later, rd.fin ∙ sf, still_ok);
                        },
                      )
                | inr no_out ↦
                    rw (done_eq, no_out, go_on, read_loop)
                      (loop_lem fuel h' (read (2 * n) s).2 d (omega arith) (rd.fin ∙ sf) still_ok
                        (rw (length-nil out no_out) at later))
              ]
            ]
      ]

hex_read_loop :
    (timed : Bool) (n : ℕ) (h : HexReader) (s : Stream)
    → h.err ≡ none
    → hex_read timed (suc n) h s ≡ read_loop timed (suc (size s.chunks)) (suc n) h s
unfolding hex_read
hex_read_loop timed n h s e = ground arith

-- A call of `Read` on a reader that has not failed, with a buffer of n > 0 bytes, returns, and
-- returns a part of what all the connection's bytes decode to, however they are cut into chunks:
-- between 1 and n decoded bytes and no error; or the last bytes with the connection's own error; or,
-- where unencoded data follows, the bytes before it with an error that the reader keeps.
pub hex_read_total :
    (timed : Bool) (n : ℕ) (h : HexReader) (s : Stream)
    → 0 < n
    → h.err ≡ none
    → (r : HexRead) × (hex_read timed n h s ≡ some r)
      × IsHexRead n s.fin (digest (flatten s.chunks) h []) r
hex_read_total timed zero h s pos e = elim pos [ ]
hex_read_total timed (suc n) h s pos e =
    rw (hex_read_loop timed n h s e)
      (loop_lem timed (suc n) pos s.fin (suc (size s.chunks)) h s _ (omega arith) refl e refl)
