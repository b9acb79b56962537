-- ===== src/Mote/Secure/Frames.antt =====
-- What `Write` puts on the connection: one frame for each message.
use cmd.Prelude.{
  ℕ, zero, suc, ◌+◌, ◌-◌, ◌≤◌, ◌<◌, min, ◌≡◌, refl, sym, ap, ◌∙◌, false, Option, none, List, [],
  ◌∷◌, ◌++◌, append_assoc, append-nil, arith, Bytes, All, length, length-append, take, drop,
  take-append-drop, length-take, length-drop, ◌==◌, if_false, ok,
}
use cmd.Prelude.Io.{Sink, write, write_fits, flatten}
use cmd.Mote.Noise.{Crypto, CipherState, max_uint64, nonce, encrypt}
use cmd.Mote.Secure.{SecureError, max_noise_plaintext, length_prefix, write_loop}

abbrev pub next : CipherState → ℕ → CipherState
next c k = record c { n = c.n + k }

module _ (C : Crypto) where
  abbrev pub sealed : CipherState → Bytes → Bytes
  sealed c text = C.seal c.key (nonce c.n) text (length_prefix (length text))

  abbrev pub frame : CipherState → Bytes → Bytes
  frame c text = length_prefix (length text) ++ sealed c text

  -- The messages in order, each under the next nonce.
  unfoldable pub frames : CipherState → List Bytes → Bytes
  frames c [] = []
  frames c (text ∷ texts) = frame c text ++ frames (next c 1) texts

  -- A message is not empty and its ciphertext has at most 65535 bytes.
  abbrev pub IsMessage : Bytes → Type 0
  IsMessage text = (1 ≤ length text) × (length text ≤ max_noise_plaintext)

  pub encrypt_lem :
      (c : CipherState) (ad text : Bytes)
      → c.n < max_uint64
      → encrypt C c ad text ≡ ok (C.seal c.key (nonce c.n) text ad, next c 1)
  unfolding encrypt
  encrypt_lem c ad text h =
      let open_counter : (c.n == max_uint64) ≡ false = ground arith in if_false _ _ open_counter

  -- The messages that the loop cuts `p` into.
  pub cut : ℕ → Bytes → List Bytes
  cut zero p = []
  cut (suc fuel) [] = []
  cut (suc fuel) (b ∷ bs) =
      take (min (length (b ∷ bs)) max_noise_plaintext) (b ∷ bs)
      ∷ cut fuel (drop (min (length (b ∷ bs)) max_noise_plaintext) (b ∷ bs))

  pub cut_lem :
      (fuel : ℕ) (p : Bytes)
      → length p ≤ fuel
      → (flatten (cut fuel p) ≡ p) × All IsMessage (cut fuel p) × (length (cut fuel p) ≤ length p)
  unfolding cut
  cut_lem zero [] h = (refl, tt, omega arith)
  cut_lem zero (b ∷ bs) h = absurd (omega arith)
  cut_lem (suc fuel) [] h = (refl, tt, omega arith)
  cut_lem (suc fuel) (b ∷ bs) h =
      let n = min (length (b ∷ bs)) max_noise_plaintext in
      let left = length-drop n (b ∷ bs) in
      let (whole, messages, count) = cut_lem fuel (drop n (b ∷ bs)) (omega arith) in
      let size = length-take n (b ∷ bs) in
      (
        ap (λ r. take n (b ∷ bs) ++ r) whole ∙ take-append-drop n (b ∷ bs),
        ((omega arith, omega arith), messages),
        omega arith,
      )

  abbrev pub ends : ℕ → CipherState → Bytes → ℕ → (ℕ × Option SecureError) × CipherState × Sink
  ends total c out room = ((total, none), c, record { out = out; room = room })

  end_eq :
      {t t' n n' r r' : ℕ} {o o' : Bytes} (c : CipherState)
      → t ≡ t'
      → n ≡ n'
      → o ≡ o'
      → r ≡ r'
      → ends t (record c { n = n }) o r ≡ ends t' (record c { n = n' }) o' r'
  end_eq c p q u v = λ i. ends (p i) (record c { n = q i }) (u i) (v i)

  framed :
      (c : CipherState) (text : Bytes) (n : ℕ)
      → length text ≡ n
      → length_prefix n ++ C.seal c.key (nonce c.n) text (length_prefix n) ≡ frame c text
  framed c text n e =
      ap (λ m. length_prefix m ++ C.seal c.key (nonce c.n) text (length_prefix m)) (sym e)

  abbrev size_of : Bytes → ℕ
  size_of p = min (length p) max_noise_plaintext

  write_loop_step :
      (fuel b : ℕ) (bs : Bytes) (total : ℕ) (c : CipherState) (w : Sink)
      → c.n < max_uint64
      → length (frame c (take (size_of (b ∷ bs)) (b ∷ bs))) ≤ w.room
      → write_loop C (suc fuel) (b ∷ bs) total c w
        ≡ write_loop C fuel
            (drop (size_of (b ∷ bs)) (b ∷ bs))
            (total + size_of (b ∷ bs))
            (next c 1)
            (record {
              out = w.out ++ frame c (take (size_of (b ∷ bs)) (b ∷ bs));
              room = w.room - length (frame c (take (size_of (b ∷ bs)) (b ∷ bs)));
            })
  unfolding write_loop
  write_loop_step fuel b bs total c w fresh room =
      let n = size_of (b ∷ bs) in
      let text = take n (b ∷ bs) in
      let size : length text ≡ n = omega (arith, length-take n (b ∷ bs)) in
      let sent = ap (λ p. write p w) (framed c text n size) ∙ write_fits (frame c text) w room in
      rw (encrypt_lem c (length_prefix n) text fresh, write_loop) (rw sent (rw sent refl))

  pub write_loop_lem :
      (fuel : ℕ) (p : Bytes) (total : ℕ) (c : CipherState) (w : Sink)
      → length p ≤ fuel
      → c.n + length (cut fuel p) ≤ max_uint64
      → length (frames c (cut fuel p)) ≤ w.room
      → write_loop C fuel p total c w
        ≡ ends
            (total + length p)
            (next c (length (cut fuel p)))
            (w.out ++ frames c (cut fuel p))
            (w.room - length (frames c (cut fuel p)))
  unfolding write_loop cut frames
  write_loop_lem zero [] total c w h fits room =
      end_eq c (omega arith) (omega arith) (sym (append-nil w.out)) (omega arith)
  write_loop_lem zero (b ∷ bs) total c w h fits room = absurd (omega arith)
  write_loop_lem (suc fuel) [] total c w h fits room =
      end_eq c (omega arith) (omega arith) (sym (append-nil w.out)) (omega arith)
  write_loop_lem (suc fuel) (b ∷ bs) total c w h fits room =
      let n = min (length (b ∷ bs)) max_noise_plaintext in
      let text = take n (b ∷ bs) in
      let rest = drop n (b ∷ bs) in
      let left = length-drop n (b ∷ bs) in
      let more = frames (next c 1) (cut fuel rest) in
      let both = length-append (frame c text) more in
      write_loop_step fuel b bs total c w (omega arith) (omega arith)
      ∙ write_loop_lem fuel rest (total + n) (next c 1) _ (omega arith) (omega arith) (omega arith)
      ∙ end_eq c (omega arith) (omega arith) (append_assoc w.out (frame c text) more) (omega arith)
