-- ===== src/Mote/Secure/Session.antt =====
-- `Read` undoes `Write`: what one side of an encrypted stream writes, the other side reads.
use cmd.Prelude.{
  ℕ, zero, suc, ◌+◌, ◌*◌, ◌%◌, ◌^◌, ◌≤◌, ◌<◌, ◌≡◌, refl, sym, ap, ◌∙◌, false, Option, none, some,
  List, [], ◌∷◌, ◌++◌, append_assoc, arith, Bytes, All, length, length-append, take, drop,
  take-append-drop, length-drop, ◌==◌, if_false, ok, err,
}
use cmd.Prelude.Io.{
  IoError, eof, unexpected_eof, deadline, other, Source, read_full, read_full-append, Sink, flatten,
}
use cmd.Prelude.Digits.{put_uint16, uint16, uint16-put_uint16}
use cmd.Mote.Noise.{Crypto, CipherState, max_uint64, nonce, decrypt}
use cmd.Mote.Noise.Agreement.{Unseals, Overhead}
use cmd.Mote.Secure.{
  SecureError, io, SecureStream, lift_io, lift_noise, max_noise_plaintext, length_prefix,
  secure_write, read_message, fill, secure_read,
}
use cmd.Mote.Secure.Frames.{next, sealed, frame, frames, IsMessage, cut, cut_lem, write_loop_lem}

abbrev source : Bytes → IoError → Source
source bytes fin = record { bytes = bytes; fin = fin }

length-prefix : (n : ℕ) → length (length_prefix n) ≡ 2
unfolding length_prefix put_uint16
length-prefix n = refl

uint16-length_prefix : (n : ℕ) → n ≤ max_noise_plaintext → uint16 (length_prefix n) ≡ n + 16
unfolding length_prefix
uint16-length_prefix n h = uint16-put_uint16 ((n + 16) % 2 ^ 16) (omega arith) ∙ omega arith

read_nothing : (fin : IoError) → read_full 2 (source [] fin) ≡ err fin
unfolding read_full
read_nothing eof = refl
read_nothing unexpected_eof = refl
read_nothing deadline = refl
read_nothing (other n) = refl

module _ (C : Crypto) where
  -- Reads with buffers of `n` bytes until an error, and what they returned together.
  pub read_all : ℕ → ℕ → SecureStream → Source → Option (Bytes × SecureError)
  read_all zero n s src = none
  read_all (suc fuel) n s src = elim (secure_read C s n src) [
    | none ↦ none
    | some (err e) ↦ some ([], e)
    | some (ok (out, s', src')) ↦ elim (read_all fuel n s' src') [
      | none ↦ none
      | some (more, e) ↦ some (out ++ more, e)
    ]
  ]

module _ (C : Crypto) (unseals : Unseals C) (overhead : Overhead C) where
  decrypt_lem :
      (c : CipherState) (text : Bytes)
      → c.n < max_uint64
      → decrypt C c (length_prefix (length text)) (sealed C c text) ≡ ok (text, next c 1)
  unfolding decrypt
  decrypt_lem c text h =
      let open_counter : (c.n == max_uint64) ≡ false = ground arith in
      if_false _ _ open_counter ∙ rw unseals refl

  read_message_lem :
      (c : CipherState) (text rest : Bytes) (fin : IoError)
      → IsMessage C text
      → c.n < max_uint64
      → read_message C c (source (frame C c text ++ rest) fin)
        ≡ ok (text, next c 1, source rest fin)
  unfolding read_message lift_io lift_noise
  read_message_lem c text rest fin (some_text, short) fresh =
      let hdr = length_prefix (length text) in
      let ct = sealed C c text in
      let size : uint16 hdr ≡ length ct =
        uint16-length_prefix (length text) short ∙ sym (overhead c.key (nonce c.n) text hdr) in
      rw
        (
          append_assoc hdr ct rest,
          read_full-append 2 hdr (ct ++ rest) fin (sym (length-prefix (length text))),
          read_full-append (uint16 hdr) ct rest fin size,
          decrypt_lem c text fresh,
        )
        refl

  fill_now :
      (fuel b : ℕ) (bs : Bytes) (enc c : CipherState) (src : Source)
      → fill C (suc fuel) (record { enc = enc; dec = c; rbuf = b ∷ bs }) src
        ≡ some (ok (record { enc = enc; dec = c; rbuf = b ∷ bs }, src))
  unfolding fill
  fill_now fuel b bs enc c src = refl

  fill-frame :
      (fuel : ℕ) (enc c : CipherState) (text rest : Bytes) (fin : IoError)
      → IsMessage C text
      → c.n < max_uint64
      → fill C
          (suc (suc fuel))
          (record { enc = enc; dec = c; rbuf = [] })
          (source (frame C c text ++ rest) fin)
        ≡ some (ok (record { enc = enc; dec = next c 1; rbuf = text }, source rest fin))
  unfolding fill
  fill-frame fuel enc c [] rest fin (some_text, _) fresh = absurd (omega arith)
  fill-frame fuel enc c (b ∷ bs) rest fin is fresh =
      rw (read_message_lem c (b ∷ bs) rest fin is fresh, fill) refl

  fill_end :
      (fuel : ℕ) (enc c : CipherState) (fin : IoError)
      → fill C (suc fuel) (record { enc = enc; dec = c; rbuf = [] }) (source [] fin)
        ≡ some (err (io fin))
  unfolding fill read_message lift_io
  fill_end fuel enc c fin = rw (read_nothing fin, fill) refl

  frames_cons :
      (c : CipherState) (text : Bytes) (texts : List Bytes)
      → frames C c (text ∷ texts) ≡ frame C c text ++ frames C (next c 1) texts
  unfolding frames
  frames_cons c text texts = refl

  length-frames :
      (c : CipherState) (texts : List Bytes)
      → length (frames C c texts) ≡ length (flatten texts) + 18 * length texts
  unfolding frames
  length-frames c [] = omega arith
  length-frames c (text ∷ texts) =
      let hdr = length_prefix (length text) in
      omega (
        arith,
        length-frames (next c 1) texts,
        length-append (frame C c text) (frames C (next c 1) texts),
        length-append hdr (sealed C c text),
        length-prefix (length text),
        overhead c.key (nonce c.n) text hdr,
        length-append text (flatten texts),
      )

  module _ (n : ℕ) (pos : 0 < n) (enc : CipherState) (fin : IoError) where
    -- A read that finds `rbuf` in the buffer takes the first n bytes of it.
    take_step :
        (fuel : ℕ) (c c' : CipherState) (rbuf rbuf' : Bytes) (bytes bytes' more : Bytes)
        → fill C
            (suc (suc (length bytes)))
            (record { enc = enc; dec = c; rbuf = rbuf })
            (source bytes fin)
          ≡ some (ok (record { enc = enc; dec = c'; rbuf = rbuf' }, source bytes' fin))
        → read_all C fuel n
            (record { enc = enc; dec = c'; rbuf = drop n rbuf' })
            (source bytes' fin)
          ≡ some (drop n rbuf' ++ more, io fin)
        → read_all C (suc fuel) n (record { enc = enc; dec = c; rbuf = rbuf }) (source bytes fin)
          ≡ some (rbuf' ++ more, io fin)
    unfolding read_all secure_read
    take_step fuel c c' rbuf rbuf' bytes bytes' more filled later =
        rw (filled, read_all)
          (rw (later, read_all)
            (ap (λ x. some (x, io fin))
              (sym (append_assoc (take n rbuf') (drop n rbuf') more)
                ∙ ap (λ x. x ++ more) (take-append-drop n rbuf'))))

    read_all_lem :
        (fuel : ℕ) (c : CipherState) (rbuf : Bytes) (texts : List Bytes)
        → All (IsMessage C) texts
        → c.n + length texts ≤ max_uint64
        → length rbuf + length (flatten texts) < fuel
        → read_all C fuel n
            (record { enc = enc; dec = c; rbuf = rbuf })
            (source (frames C c texts) fin)
          ≡ some (rbuf ++ flatten texts, io fin)
    read_all_lem zero c rbuf texts m fits h = absurd (omega arith)
    read_all_lem (suc fuel) c [] [] m fits h =
        unfold read_all secure_read frames in rw (fill_end (suc 0) enc c fin, read_all) refl
    read_all_lem (suc fuel) c [] (text ∷ texts) (is, m) fits h =
        let rest = frames C (next c 1) texts in
        let all = length-append text (flatten texts) in
        rw (frames_cons c text texts) (
          take_step fuel c (next c 1) [] text (frame C c text ++ rest) rest (flatten texts)
            (fill-frame (length (frame C c text ++ rest)) enc c text rest fin is (omega arith))
            (read_all_lem fuel (next c 1) (drop n text) texts m (omega arith)
              (omega (arith, length-drop n text, is.0))))
    read_all_lem (suc fuel) c (b ∷ bs) texts m fits h =
        take_step fuel c c (b ∷ bs) (b ∷ bs) (frames C c texts) (frames C c texts) (flatten texts)
          (fill_now _ b bs enc c _)
          (read_all_lem fuel c (drop n (b ∷ bs)) texts m fits
            (omega (arith, length-drop n (b ∷ bs))))

-- `Write` of p on one side of an encrypted stream, on a connection with room, reports len(p) and no
-- error; reads on the other side, with buffers of any size n > 0, give exactly p and then the
-- connection's own error. Both sides use the same key and counter, which does not run out.
pub secure_round_trip :
    (C : Crypto) (s r : SecureStream) (p : Bytes) (room n fuel : ℕ) (fin : IoError)
    → Unseals C
    → Overhead C
    → s.enc ≡ r.dec
    → r.rbuf ≡ []
    → s.enc.n + length p ≤ max_uint64
    → 19 * length p ≤ room
    → 0 < n
    → length p < fuel
    → ((secure_write C s p (record { out = []; room = room })).0 ≡ (length p, none))
      × (read_all C fuel n r (record {
        bytes = (secure_write C s p (record { out = []; room = room })).2.out;
        fin = fin;
      })
          ≡ some (p, io fin))
unfolding secure_write
secure_round_trip C s r p room n fuel fin unseals overhead same empty counter enough pos long =
    let texts = cut C (length p) p in
    let (whole, messages, count) = cut_lem C (length p) p (omega arith) in
    let size = ap (λ (l : Bytes). length l) whole in
    let wire = length-frames C unseals overhead s.enc texts in
    let sent =
      write_loop_lem C (length p) p 0 s.enc (record { out = []; room = room }) (omega arith)
        (omega arith) (omega arith) in
    let received =
      read_all_lem C unseals overhead n pos r.enc fin fuel s.enc [] texts messages (omega arith)
        (omega arith) in
    let at : r ≡ record { enc = r.enc; dec = s.enc; rbuf = [] } =
      λ i. record { enc = r.enc; dec = sym same i; rbuf = empty i } in
    let total : 0 + length p ≡ length p = omega arith in
    let out = ap (λ (t : (ℕ × Option SecureError) × CipherState × Sink). t.2.out) sent in
    (
      ap (λ (t : (ℕ × Option SecureError) × CipherState × Sink). t.0) sent ∙ (λ i. (total i, none)),
      (λ i. read_all C fuel n (at i) (source (out i) fin))
          ∙ received
          ∙ ap (λ (x : Bytes). some (x, io fin)) whole,
    )
