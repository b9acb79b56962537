-- ===== src/Mote/Hex/Lines.antt =====
-- What `hexWriter` puts on the wire: nothing but hex digits and newlines, in short lines.
use cmd.Prelude.{
  ℕ, zero, suc, ◌-◌, ◌*◌, ◌/◌, ◌%◌, ◌≤◌, ◌<◌, ◌≡◌, refl, ◌⊎◌, inl, inr, [], ◌∷◌, ◌++◌, append_assoc,
  append-nil, arith, Bytes, IsBytes, All-take, All-drop, length, length-take, take, drop,
}
use cmd.Mote.Hex.{hex_digit, append_encode, write_lines, hex_line_bytes}
use cmd.Mote.Hex.RoundTrip.{encode_line, write_lines_step}

-- A lower-case hex digit.
abbrev pub IsHexDigit : ℕ → Type 0
IsHexDigit c = ((b'0' ≤ c) × (c ≤ b'9')) ⊎ ((b'a' ≤ c) × (c ≤ b'f'))

-- Hex digits and newlines, with at most `left` digits before the first newline and at most 128
-- between two.
abbrev pub IsLined : ℕ → Bytes → Type 0
IsLined left [] = Unit
IsLined left (c ∷ raw) =
    ((c ≡ b'\n') × IsLined 128 raw) ⊎ (IsHexDigit c × (0 < left) × IsLined (left - 1) raw)

hex_digit-IsHexDigit : (v : ℕ) → v < 16 → IsHexDigit (hex_digit v)
unfolding hex_digit
hex_digit-IsHexDigit v h = ground arith

IsLined-append_encode :
    (line raw : Bytes) (left : ℕ)
    → IsBytes line
    → 2 * length line ≤ left
    → IsLined (left - 2 * length line) raw
    → IsLined left (append_encode line ++ raw)
unfolding append_encode
IsLined-append_encode [] raw left _ _ h = let e : left - 2 * 0 ≡ left = omega arith in rw e at h
IsLined-append_encode (b ∷ line) raw left (lt, bytes) fits h =
    let e : left - 2 * suc (length line) ≡ left - 1 - 1 - 2 * length line = omega arith in
    inr (
      hex_digit-IsHexDigit (b / 16) (omega arith),
      omega arith,
      inr (
        hex_digit-IsHexDigit (b % 16) (omega arith),
        omega arith,
        IsLined-append_encode line raw (left - 1 - 1) bytes (omega arith) (rw e at h),
      ),
    )

IsLined-append :
    (xs ys : Bytes) (left : ℕ)
    → IsLined left (xs ++ b'\n' ∷ [])
    → IsLined 128 ys
    → IsLined left (xs ++ b'\n' ∷ ys)
IsLined-append [] ys left h k = inl (refl, k)
IsLined-append (x ∷ xs) ys left (inl (e, h)) k = inl (e, IsLined-append xs ys 128 h k)
IsLined-append (x ∷ xs) ys left (inr (d, pos, h)) k =
    inr (d, pos, IsLined-append xs ys (left - 1) h k)

-- The buffer ends where a line ends, so more lines may follow.
abbrev Complete : Bytes → Type 0
Complete buf = (more : Bytes) → IsLined 128 more → IsLined 128 (buf ++ more)

Complete-encode_line : (rest : Bytes) → IsBytes rest → Complete (encode_line rest)
Complete-encode_line rest bytes more h =
    rw (append_assoc (append_encode (take hex_line_bytes rest)) (b'\n' ∷ []) more) (
      IsLined-append_encode (take hex_line_bytes rest) (b'\n' ∷ more) 128
        (All-take _ hex_line_bytes rest bytes) (omega (arith, length-take hex_line_bytes rest))
        (inl (refl, h)))

Complete-write_lines :
    (fuel : ℕ) (rest buf : Bytes)
    → IsBytes rest
    → Complete buf
    → Complete (write_lines fuel rest buf)
Complete-write_lines zero rest buf _ d = unfold write_lines in d
Complete-write_lines (suc fuel) [] buf _ d = unfold write_lines in d
Complete-write_lines (suc fuel) (b ∷ bs) buf bytes d = rw (write_lines_step fuel b bs buf) (
    Complete-write_lines fuel (drop hex_line_bytes (b ∷ bs)) (buf ++ encode_line (b ∷ bs))
      (All-drop _ hex_line_bytes (b ∷ bs) bytes)
      λ more h.
        rw (append_assoc buf (encode_line (b ∷ bs)) more)
          (d _ (Complete-encode_line (b ∷ bs) bytes more h)))

-- What `Write` sends for the bytes p holds only lower-case hex digits and newlines, with at most 128
-- digits in a row.
pub write_lines-IsLined : (p : Bytes) → IsBytes p → IsLined 128 (write_lines (length p) p [])
write_lines-IsLined p bytes =
    rw (append-nil (write_lines (length p) p [])) at
      (Complete-write_lines (length p) p [] bytes (λ more h. h) [] tt)
