-- ===== src/Mote/Config/Lines.antt =====
-- mote/config.go: the lines of a file, and a file written and read again.
use mathlib.Core.Path.{subst}
use cmd.Prelude.{
  ℕ, suc, ◌≡◌, refl, sym, ap, ◌∙◌, ◌⊎◌, inl, inr, true, false, Bool-cases, List, [], ◌∷◌, ◌++◌,
  append_assoc, append-nil, Bytes, ◌==◌, ==_iff, All, All-append, Result, ok, err,
}
use cmd.Prelude.Text.{bytes_ltb}
use cmd.Mote.Config.{
  Table, put, Stored, missing, unreadable, text, Line, skip, malformed, entry, lines, first_line,
  format, print, read_lines, read, ConfigError, malformed_line,
}
use cmd.Mote.Config.Tables.{IsSorted, IsAbove, IsBelow, put-All, put_last, put-IsSorted}

abbrev pub NoNewline : Bytes → Type 0
NoNewline = All (λ c. (c == b'\n') ≡ false)

-- A line, with or without the newline that ends it.
abbrev pub IsLine : Bytes → Type 0
IsLine l = (body : Bytes) × NoNewline body × ((l ≡ body) ⊎ (l ≡ body ++ (b'\n' ∷ [])))

abbrev longer : (c : ℕ) → (c == b'\n') ≡ false → (l : Bytes) → IsLine l → IsLine (c ∷ l)
longer c h l (body, none, inl e) = (c ∷ body, (h, none), inl (ap (λ r. c ∷ r) e))
longer c h l (body, none, inr e) = (c ∷ body, (h, none), inr (ap (λ r. c ∷ r) e))

first_line-IsLine :
    (c : ℕ) (ls : List Bytes) → (c == b'\n') ≡ false → All IsLine ls → All IsLine (first_line c ls)
first_line-IsLine c [] h all = ((c ∷ [], (h, tt), inl refl), tt)
first_line-IsLine c (l ∷ ls) h (is, all) = (longer c h l is, all)

lines-IsLine : (s : Bytes) → All IsLine (lines s)
unfolding lines
lines-IsLine [] = tt
lines-IsLine (c ∷ s) = elim (Bool-cases (c == b'\n')) [
  | inl new ↦
      let is : c ≡ b'\n' = (==_iff c b'\n').0 new in
      rw new (([], tt, inr (ap (λ d. d ∷ []) is)), lines-IsLine s)
  | inr not ↦ rw not (first_line-IsLine c (lines s) not (lines-IsLine s))
]

lines_cut :
    (l rest : Bytes) → NoNewline l → lines (l ++ (b'\n' ∷ rest)) ≡ (l ++ (b'\n' ∷ [])) ∷ lines rest
unfolding lines
lines_cut [] rest none = refl
lines_cut (c ∷ l) rest (not, none) = rw (not, lines_cut l rest none) refl

abbrev pub body : Bytes → Bytes → Bytes
body key value = key ++ (b' ' ∷ value)

pub format-body : (key value : Bytes) → format key value ≡ body key value ++ (b'\n' ∷ [])
unfolding format
format-body key value = sym (append_assoc key (b' ' ∷ value) (b'\n' ∷ []))

Line-cases :
    (l : Line) → (l ≡ skip) ⊎ (l ≡ malformed) ⊎ ((key value : Bytes) × (l ≡ entry key value))
Line-cases skip = inl refl
Line-cases malformed = inr (inl refl)
Line-cases (entry key value) = inr (inr (key, value, refl))

module _ (parse : Bytes → Line) where
  -- An entry that is read back from the line that it is written as.
  abbrev pub IsStorable : Bytes × Bytes → Type 0
  IsStorable e = (parse (format e.0 e.1) ≡ entry e.0 e.1) × NoNewline (body e.0 e.1)

  -- Every entry that is read from a line is storable.
  abbrev pub IsNormal : Type 0
  IsNormal = (l key value : Bytes) → IsLine l → parse l ≡ entry key value → IsStorable (key, value)

  abbrev pub IsGood : Table → Type 0
  IsGood t = All IsStorable t × IsSorted t

  -- The loop of a reader behind a line that says r.
  abbrev after_line : ℕ → List Bytes → Table → Line → Result ConfigError Table
  after_line n ls t line = elim line [
    | skip ↦ read_lines parse (suc n) ls t
    | malformed ↦ err (malformed_line n)
    | entry key value ↦ read_lines parse (suc n) ls (put key value t)
  ]

  read_lines-cons :
      (n : ℕ) (l : Bytes) (ls : List Bytes) (t : Table)
      → read_lines parse n (l ∷ ls) t ≡ after_line n ls t (parse l)
  unfolding read_lines
  read_lines-cons n l ls t = refl

  pub put-IsGood :
      (key value : Bytes) (t : Table)
      → IsStorable (key, value)
      → IsGood t
      → IsGood (put key value t)
  put-IsGood key value t s (all, sorted) =
      (put-All IsStorable key value t s all, put-IsSorted key value t sorted)

  read_lines-IsGood :
      (n : ℕ) (ls : List Bytes) (t t' : Table)
      → IsNormal
      → All IsLine ls
      → IsGood t
      → read_lines parse n ls t ≡ ok t'
      → IsGood t'
  unfolding read_lines
  read_lines-IsGood n [] t t' normal _ good h = let same : t ≡ t' = cc in subst IsGood same good
  read_lines-IsGood n (l ∷ ls) t t' normal (is, all) good h =
      let whole = sym (read_lines-cons n l ls t) ∙ h in
      elim (Line-cases (parse l)) [
        | inl e ↦
            read_lines-IsGood (suc n) ls t t' normal all good
              (ap (after_line n ls t) (sym e) ∙ whole)
        | inr (inl e) ↦ absurd (
            let bad : err (malformed_line n) ≡ ok t' = ap (after_line n ls t) (sym e) ∙ whole in cc)
        | inr (inr (key, value, e)) ↦
            read_lines-IsGood (suc n) ls (put key value t) t' normal all
              (put-IsGood key value t (normal l key value is e) good)
              (ap (after_line n ls t) (sym e) ∙ whole)
      ]

  pub read-IsGood : (file : Stored) (t : Table) → IsNormal → read parse file ≡ ok t → IsGood t
  unfolding read
  read-IsGood missing t normal h = let same : [] ≡ t = cc in subst IsGood same (tt, tt)
  read-IsGood (unreadable e) t normal h = cc
  read-IsGood (text s) t normal h =
      read_lines-IsGood 1 (lines s) [] t normal (lines-IsLine s) (tt, tt) h

  lines-print :
      (key value : Bytes) (t : Table)
      → IsStorable (key, value)
      → lines (print ((key, value) ∷ t)) ≡ format key value ∷ lines (print t)
  unfolding print
  lines-print key value t (_, none) =
      ap (λ f. lines (f ++ print t)) (format-body key value)
      ∙ ap lines (append_assoc (body key value) (b'\n' ∷ []) (print t))
      ∙ lines_cut (body key value) (print t) none
      ∙ ap (λ f. f ∷ lines (print t)) (sym (format-body key value))

  -- Every key of t is above every key of done.
  abbrev Apart : Table → Table → Type 0
  Apart done [] = Unit
  Apart done ((key, value) ∷ t) = IsBelow done key × Apart done t

  Apart-nil : (t : Table) → Apart [] t
  Apart-nil [] = tt
  Apart-nil (e ∷ t) = (tt, Apart-nil t)

  Apart-append :
      (done t : Table) (key value : Bytes)
      → Apart done t
      → IsAbove key t
      → Apart (done ++ ((key, value) ∷ [])) t
  Apart-append done [] key value apart above = tt
  Apart-append done ((k, v) ∷ t) key value (below, apart) (less, above) = (
    All-append (λ e. bytes_ltb e.0 k ≡ true) done ((key, value) ∷ []) below (less, tt),
    Apart-append done t key value apart above,
  )

  read_lines-print :
      (n : ℕ) (done t : Table)
      → All IsStorable t
      → IsSorted t
      → Apart done t
      → read_lines parse n (lines (print t)) done ≡ ok (done ++ t)
  unfolding read_lines print lines
  read_lines-print n done [] all sorted apart = ap (λ t. ok t) (sym (append-nil done))
  read_lines-print n done ((key, value) ∷ t) (s, all) (above, sorted) (below, apart) =
      ap (λ ls. read_lines parse n ls done) (lines-print key value t s)
      ∙ read_lines-cons n (format key value) (lines (print t)) done
      ∙ ap (after_line n (lines (print t)) done) s.0
      ∙ ap (read_lines parse (suc n) (lines (print t))) (put_last key value done below)
      ∙ read_lines-print (suc n) (done ++ ((key, value) ∷ [])) t all sorted
          (Apart-append done t key value apart above)
      ∙ ap (λ r. ok r) (append_assoc done ((key, value) ∷ []) t)

  -- A good map is read back as it was written.
  pub read-print : (t : Table) → IsGood t → read parse (text (print t)) ≡ ok t
  unfolding read
  read-print t (all, sorted) = read_lines-print 1 [] t all sorted (Apart-nil t)
