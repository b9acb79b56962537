-- ===== src/Mote/Hex/RoundTrip.antt =====
-- What `hexWriter` writes: lines of hex digits that the reader decodes to the bytes written.
use Prim.Native.Nat.{bit_or}
use cmd.Prelude.{
  if◌then◌else◌, ℕ, zero, suc, ◌*◌, ◌/◌, ◌%◌, ◌≤◌, ◌<◌, ◌≡◌, refl, sym, ap, ◌∙◌, inl, inr, Bool,
  true, false, some, [], ◌∷◌, ◌++◌, append_assoc, append-nil, arith, Bytes, IsBytes, All-take,
  All-drop, length, take, drop, take-append-drop, take_all, drop-length-take, length-drop, ltb,
  le→leb, ◌==◌, ==_iff, Bool-cases,
}
use cmd.Prelude.Io.{Sink, write}
use cmd.Mote.Hex.{
  HexReader, new_reader, done, digest, accept, unhex, hex_digit, append_encode, line_of,
  write_lines, hex_write, hex_write_to, hex_line_bytes,
}
use cmd.Mote.Hex.Reading.{digest-append}

-- The two digits of a byte are read back as its halves, and are no newlines.
passes : (ℕ → Bool) → ℕ → Bool
passes test zero = true
passes test (suc k) = if test k then passes test k else false

passes-at : (test : ℕ → Bool) (k b : ℕ) → b < k → passes test k ≡ true → test b ≡ true
unfolding passes
passes-at test zero b less all = absurd (omega arith)
passes-at test (suc k) b less all = ground (arith, passes-at test k b)

join_table : passes (λ b. bit_or (b / 16 * 16 % 256) (b % 16) == b) 256 ≡ true
unfolding passes
join_table = refl

unhex-hex_digit : (v : ℕ) → v < 16 → unhex (hex_digit v) ≡ some v
unfolding unhex hex_digit
unhex-hex_digit v h = ground arith

digest_digit :
    (v : ℕ) (raw : Bytes) (h : HexReader) (out : Bytes)
    → v < 16
    → digest (hex_digit v ∷ raw) h out ≡ digest raw (accept v h out).0 (accept v h out).1
unfolding digest
digest_digit v raw h out lt = rw (unhex-hex_digit v lt, digest)

abbrev clear : HexReader → ℕ → HexReader
clear h v = record h { hi = v; odd = false }

accept_pair :
    (v w : ℕ) (h : HexReader) (out : Bytes)
    → h.odd ≡ false
    → accept w (accept v h out).0 (accept v h out).1
      ≡ (clear h v, out ++ bit_or (v * 16 % 256) w ∷ [])
unfolding accept
accept_pair v w h out even = ground arith

-- Decoding the digits of one byte appends it.
digest_byte :
    (b : ℕ) (raw : Bytes) (h : HexReader) (out : Bytes)
    → b < 256
    → h.odd ≡ false
    → digest (hex_digit (b / 16) ∷ hex_digit (b % 16) ∷ raw) h out
      ≡ digest raw (clear h (b / 16)) (out ++ b ∷ [])
digest_byte b raw h out lt even = rw (
  digest_digit (b / 16) (hex_digit (b % 16) ∷ raw) h out (omega arith),
  digest_digit (b % 16) raw _ _ (omega arith),
  accept_pair (b / 16) (b % 16) h out even,
  (==_iff _ b).0 (passes-at _ 256 b lt join_table),
)

-- All of `raw` decodes to `p`, with no digit left over.
abbrev Decodes : Bytes → Bytes → Type 0
Decodes raw p =
    (h : HexReader) (out : Bytes)
    → h.odd ≡ false
    → (h' : HexReader) × (digest raw h out ≡ done h' (out ++ p))
      × (h'.odd ≡ false)
      × (h'.err ≡ h.err)

Decodes-append :
    (raw raw' p p' : Bytes) → Decodes raw p → Decodes raw' p' → Decodes (raw ++ raw') (p ++ p')
Decodes-append raw raw' p p' f g h out even =
    let (h1, e1, even1, err1) = f h out even in
    let (h2, e2, even2, err2) = g h1 (out ++ p) even1 in
    (
      h2,
      digest-append raw raw' h out ∙ rw e1 (e2 ∙ ap (done h2) (append_assoc out p p')),
      even2,
      err2 ∙ err1,
    )

Decodes-newline : Decodes (b'\n' ∷ []) []
unfolding digest unhex
Decodes-newline h out even = (h, ap (done h) (sym (append-nil out)), even, refl)

Decodes-append_encode : (line : Bytes) → IsBytes line → Decodes (append_encode line) line
unfolding append_encode
Decodes-append_encode [] _ h out even =
    (h, unfold digest in ap (done h) (sym (append-nil out)), even, refl)
Decodes-append_encode (b ∷ line) (lt, rest) h out even =
    let (h', e, even', err') =
      Decodes-append_encode line rest (clear h (b / 16)) (out ++ b ∷ []) refl in
    (
      h',
      digest_byte b (append_encode line) h out lt even
          ∙ e
          ∙ ap (done h') (append_assoc out (b ∷ []) line),
      even',
      err',
    )

line_of-eq-take : (rest : Bytes) → line_of rest ≡ take hex_line_bytes rest
unfolding line_of
line_of-eq-take rest = elim (Bool-cases (ltb hex_line_bytes (length rest))) [
  | inl long ↦ rw long
  | inr short ↦ rw short (sym (take_all hex_line_bytes rest (ground arith)))
]

abbrev pub encode_line : Bytes → Bytes
encode_line rest = append_encode (take hex_line_bytes rest) ++ b'\n' ∷ []

pub write_lines_step :
    (fuel b : ℕ) (bs buf : Bytes)
    → write_lines (suc fuel) (b ∷ bs) buf
      ≡ write_lines fuel (drop hex_line_bytes (b ∷ bs)) (buf ++ encode_line (b ∷ bs))
unfolding write_lines
write_lines_step fuel b bs buf =
    rw (line_of-eq-take (b ∷ bs), drop-length-take hex_line_bytes (b ∷ bs))
      (ap (write_lines fuel (drop hex_line_bytes (b ∷ bs)))
        (append_assoc buf (append_encode (take hex_line_bytes (b ∷ bs))) (b'\n' ∷ [])))

Decodes-write_lines :
    (fuel : ℕ) (rest buf p : Bytes)
    → length rest ≤ fuel
    → IsBytes rest
    → Decodes buf p
    → Decodes (write_lines fuel rest buf) (p ++ rest)
Decodes-write_lines zero [] buf p f _ d = unfold write_lines in rw append-nil d
Decodes-write_lines zero (b ∷ bs) buf p f _ d = absurd (omega arith)
Decodes-write_lines (suc fuel) [] buf p f _ d = unfold write_lines in rw append-nil d
Decodes-write_lines (suc fuel) (b ∷ bs) buf p f bytes d =
    let line = take hex_line_bytes (b ∷ bs) in
    let next = drop hex_line_bytes (b ∷ bs) in
    let whole : (p ++ (line ++ [])) ++ next ≡ p ++ b ∷ bs =
      rw (append-nil line, append_assoc p line next, take-append-drop hex_line_bytes (b ∷ bs))
        refl in
    rw (write_lines_step fuel b bs buf) (
      rw whole at (
        Decodes-write_lines fuel next (buf ++ encode_line (b ∷ bs)) (p ++ (line ++ []))
          (omega (arith, length-drop hex_line_bytes (b ∷ bs)))
          (All-drop _ hex_line_bytes (b ∷ bs) bytes)
          (Decodes-append buf _ p _ d (
            Decodes-append (append_encode line) (b'\n' ∷ []) line []
              (Decodes-append_encode line (All-take _ hex_line_bytes (b ∷ bs) bytes))
              Decodes-newline))))

-- The result of one write on a connection of any kind, as `Write` of p passes it on.
abbrev pub reported : {W : Type 0} → Bytes → Bool × W → (ℕ × Bool) × W
reported p o = if o.0 then ((length p, true), o.1) else ((0, false), o.1)

-- A call of `Write` of the bytes p makes one write, whatever the connection does with it: of text that a
-- fresh reader decodes to p with no digit left over. On a connection that has room it returns
-- len(p) and no error.
pub hex_write_decodes :
    (p : Bytes) (w : Sink)
    → IsBytes p
    → length (write_lines (length p) p []) ≤ w.room
    → (wire : Bytes) × (h : HexReader) × ((W : Type 0) (put : Bytes → W → Bool × W) (v : W)
        → hex_write_to put p v ≡ reported p (put wire v))
      × ((hex_write p w).0 ≡ (length p, true))
      × ((hex_write p w).1.out ≡ w.out ++ wire)
      × (digest wire new_reader [] ≡ done h p)
      × (h.odd ≡ false)
unfolding hex_write hex_write_to write
hex_write_decodes p w bytes fits =
    let (h, e, even, _) =
      Decodes-write_lines (length p) p [] [] (omega arith) bytes
        (λ h out even. (h, unfold digest in ap (done h) (sym (append-nil out)), even, refl))
        new_reader [] refl in
    (
      write_lines (length p) p [],
      h,
      (λ W put v. refl),
      rw (le→leb _ _ fits),
      rw (le→leb _ _ fits),
      e,
      even,
    )
