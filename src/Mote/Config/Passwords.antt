-- ===== src/Mote/Config/Passwords.antt =====
-- mote/config.go: how the lines of password.txt are read, and read again.
use mathlib.Core.Path.{subst}
use cmd.Prelude.{
  ℕ, ◌≡◌, refl, sym, ap, ◌∙◌, inl, inr, false, Bool-cases, [], ◌∷◌, ◌++◌, arith, Bytes, All,
  All-append, ◌==◌, if_true, if_false, length, length-append, drop, drop-append, append_assoc,
}
use cmd.Prelude.Text.{trim_front, space_width, is_newline, trim_left, trim_right, before}
use cmd.Mote.Config.{
  skip, malformed, entry, is_blank, with_password, split_password, is_comment, password_line,
  format,
}
use cmd.Mote.Config.Trims.{
  IsTrimmed, trim_right-append, trim_right-IsTrimmed, append-IsTrimmed, IsTrimmed-append,
  trim_right-All, drop-before, trim_left-suffix, trim_left-head, before-drop, before-All,
  before-append,
}
use cmd.Mote.Config.Spaces.{Bytes-cases, skips, is_comment-skips, skips-trim_left, skips-append}
use cmd.Mote.Config.Lines.{NoNewline, IsLine, body, format-body, IsStorable, IsNormal}

unblanked : (c : ℕ) (s : Bytes) → is_blank c ≡ false → trim_left is_blank (b' ' ∷ c ∷ s) ≡ c ∷ s
unfolding trim_left
unblanked c s h = if_false (trim_left is_blank s) (c ∷ s) h

-- A value that is read as it is written.
pub record IsValue (value : Bytes) : Type 0 where
  pub first : ℕ
  pub rest : Bytes
  pub shape : value ≡ first ∷ rest
  pub solid : is_blank first ≡ false
  pub trimmed : IsTrimmed is_newline value
  pub one_line : NoNewline value

-- A key whose entry is read as it is written: it has no blanks.
abbrev pub IsKey : Bytes → Type 0
IsKey key = All (λ c. is_blank c ≡ false) key × NoNewline key

split_lem :
    (line key rest : Bytes) (c : ℕ) (w : Bytes)
    → before is_blank line ≡ key
    → (length key == length line) ≡ false
    → drop (length key) line ≡ rest
    → trim_left is_blank rest ≡ c ∷ w
    → split_password line ≡ entry key (c ∷ w)
unfolding split_password
split_lem line key rest c w e1 e2 e3 e4 = rw (e1, e2, e3, e4) refl

split_body :
    (key value : Bytes)
    → IsKey key
    → IsValue value
    → split_password (body key value) ≡ entry key value
split_body key value (solid, _) v =
    let size : (length key == length (body key value)) ≡ false =
      ground (arith, length-append key (b' ' ∷ value)) in
    let shorter : trim_left is_blank (b' ' ∷ value) ≡ v.first ∷ v.rest =
      ap (λ t. trim_left is_blank (b' ' ∷ t)) v.shape ∙ unblanked v.first v.rest v.solid in
    split_lem (body key value) key (b' ' ∷ value) v.first v.rest
      (before-append is_blank key b' ' value solid refl) size
      (drop-append (length key) key (b' ' ∷ value) refl) shorter
    ∙ ap (entry key) (sym v.shape)

line_lem :
    (l line : Bytes)
    → trim_right is_newline l ≡ line
    → is_comment line ≡ false
    → password_line l ≡ split_password line
unfolding password_line
line_lem l line e h = rw (e, h) refl

body-IsTrimmed : (key value : Bytes) → IsValue value → IsTrimmed is_newline (body key value)
body-IsTrimmed key value v =
    let end : IsTrimmed is_newline (v.first ∷ v.rest) =
      subst (IsTrimmed is_newline) v.shape v.trimmed in
    subst (λ t. IsTrimmed is_newline (key ++ (b' ' ∷ t))) (sym v.shape)
      (append-IsTrimmed is_newline key b' ' (v.first ∷ v.rest)
        (append-IsTrimmed is_newline (b' ' ∷ []) v.first v.rest end))

-- The entry is storable unless its line is a comment.
pub storable_lem :
    (key value : Bytes)
    → IsKey key
    → IsValue value
    → skips (body key value) ≡ false
    → IsStorable password_line (key, value)
storable_lem key value k v not =
    let line : trim_right is_newline (format key value) ≡ body key value =
      ap (trim_right is_newline) (format-body key value)
      ∙ trim_right-append is_newline (body key value) b'\n' refl
      ∙ body-IsTrimmed key value v in
    (
      line_lem (format key value) (body key value) line (is_comment-skips (body key value) ∙ not)
          ∙ split_body key value k v,
      All-append (λ c. (c == b'\n') ≡ false) key (b' ' ∷ value) k.1 (refl, v.one_line),
    )

All-left : (P : ℕ → Type 0) (s t : Bytes) → All P (s ++ t) → All P s
All-left P [] t all = tt
All-left P (c ∷ s) t (h, all) = (h, All-left P s t all)

pub All-right : (P : ℕ → Type 0) (s t : Bytes) → All P (s ++ t) → All P t
All-right P [] t all = all
All-right P (c ∷ s) t (h, all) = All-right P s t all

IsLine-trim_right : (l : Bytes) → IsLine l → NoNewline (trim_right is_newline l)
IsLine-trim_right l (b, none, inl e) =
    subst (λ t. NoNewline (trim_right is_newline t)) (sym e) (trim_right-All is_newline _ b none)
IsLine-trim_right l (b, none, inr e) =
    subst (λ t. NoNewline t)
      (sym (ap (trim_right is_newline) e ∙ trim_right-append is_newline b b'\n' refl))
      (trim_right-All is_newline _ b none)

with_password_cases :
    (k r key value : Bytes)
    → with_password k r ≡ entry key value
    → (key ≡ k) × ((c : ℕ) × (w : Bytes) × (value ≡ c ∷ w) × (r ≡ c ∷ w))
with_password_cases k [] key value h = cc
with_password_cases k (c ∷ w) key value h = (cc, (c, w, cc, refl))

-- What split_password finds.
split_cases :
    (line key value : Bytes)
    → split_password line ≡ entry key value
    → (key ≡ before is_blank line)
      × ((c : ℕ) × (w : Bytes) × (value ≡ c ∷ w)
          × (trim_left is_blank (drop (length (before is_blank line)) line) ≡ c ∷ w))
unfolding split_password
split_cases line key value h =
    let k = before is_blank line in
    let r = trim_left is_blank (drop (length k) line) in
    elim (Bool-cases (length k == length line)) [
      | inl whole ↦ absurd (
          let bad : malformed ≡ entry key value =
            sym (if_true malformed (with_password k r) whole) ∙ h in
          cc)
      | inr part ↦
          with_password_cases k r key value (sym (if_false malformed (with_password k r) part) ∙ h)
    ]

-- An entry that is found in a line without its newline
module _ (line key value : Bytes) (none : NoNewline line) (trimmed : IsTrimmed is_newline line)
    (found : split_password line ≡ entry key value) where
  abbrev rest : Bytes
  rest = drop (length (before is_blank line)) line

  parted : line ≡ before is_blank line ++ rest
  parted = before-drop is_blank line

  parts : NoNewline (before is_blank line ++ rest)
  parts = subst NoNewline parted none

  found-IsKey : IsKey key
  found-IsKey =
      let (same, _) = split_cases line key value found in
      subst IsKey (sym same)
        (before-All is_blank line, All-left _ (before is_blank line) rest parts)

  found-IsValue : IsValue value
  found-IsValue =
      let (_, (c, w, shape, cut)) = split_cases line key value found in
      let (front, e) = trim_left-suffix is_blank rest in
      let e' : rest ≡ front ++ (c ∷ w) = e ∙ ap (λ t. front ++ t) cut in
      let whole : line ≡ (before is_blank line ++ front) ++ (c ∷ w) =
        parted
        ∙ ap (λ t. before is_blank line ++ t) e'
        ∙ sym (append_assoc (before is_blank line) front (c ∷ w)) in
      record {
        first = c;
        rest = w;
        shape = shape;
        solid = trim_left-head is_blank rest c w cut;
        trimmed = subst (IsTrimmed is_newline) (sym shape) (
            IsTrimmed-append is_newline (before is_blank line ++ front) c w
              (subst (IsTrimmed is_newline) whole trimmed));
        one_line =
            subst NoNewline (sym shape)
              (All-right _ (before is_blank line ++ front) (c ∷ w) (subst NoNewline whole none));
      }

  found-skips : skips (body key value) ≡ skips line
  unfolding trim_left trim_front space_width
  found-skips =
      let (same, (c, w, shape, cut)) = split_cases line key value found in
      elim (Bytes-cases rest) [
        | inl e ↦ absurd (let bad : [] ≡ c ∷ w = sym (ap (trim_left is_blank) e) ∙ cut in cc)
        | inr (d, t, e) ↦
            let blank = drop-before is_blank line d t e in
            let tail : skips (b' ' ∷ value) ≡ skips (d ∷ t) =
              ap skips (shape ∙ sym cut) ∙ skips-trim_left rest ∙ ap skips e in
            skips-append 0 key b' ' d value t (omega arith) refl blank tail
            ∙ ap (λ r. skips (key ++ r)) (sym e)
            ∙ ap (λ k. skips (k ++ rest)) same
            ∙ sym (ap skips parted)
      ]

-- Whatever is read from a line is storable.
pub password_line-IsNormal : IsNormal password_line
unfolding password_line
password_line-IsNormal l key value is h =
    let line = trim_right is_newline l in
    let none = IsLine-trim_right l is in
    let trimmed = trim_right-IsTrimmed is_newline l in
    elim (Bool-cases (is_comment line)) [
      | inl comment ↦ absurd (
          let bad : skip ≡ entry key value = sym (if_true skip (split_password line) comment) ∙ h in
          cc)
      | inr plain ↦
          let found = sym (if_false skip (split_password line) plain) ∙ h in
          storable_lem key value (found-IsKey line key value none trimmed found)
            (found-IsValue line key value none trimmed found)
            (found-skips line key value none trimmed found ∙ sym (is_comment-skips line) ∙ plain)
    ]
