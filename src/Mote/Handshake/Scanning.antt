-- ===== src/Mote/Handshake/Scanning.antt =====
-- `scanHello`: which line it stops at, what it leaves, and how much text it passes over.
use cmd.Prelude.{
  ℕ, ◌+◌, ◌≤◌, ◌≡◌, refl, sym, ap, ◌∙◌, ◌⊎◌, inl, inr, true, false, List, [], ◌∷◌, ◌++◌,
  append_assoc, append-nil, arith, Bytes, All, length, length-append, ltb, ◌==◌, Bool-cases, Result,
  ok, err, Result-cases,
}
use cmd.Prelude.Io.{IoError, Source}
use cmd.Mote.Handshake.{max_preamble, HelloError, too_much, no_hello, said, Match, scan, scan_hello}

-- Text without a newline in it.
abbrev pub IsText : Bytes → Type 0
IsText = All (λ b. (b == b'\n') ≡ false)

abbrev pub ended : Bytes → Bytes
ended l = l ++ b'\n' ∷ []

-- What is left, where the line that is read ends as `match` decides.
abbrev at_line : Match → Bytes → Bytes → Bytes → IoError → Result HelloError Source
at_line matches preamble line bs fin = elim (matches line) [
  | err e ↦ err e
  | ok true ↦ ok (record { bytes = bs; fin = fin })
  | ok false ↦ scan matches (preamble ++ line) [] bs fin
]

not-ltb→le : (a b : ℕ) → ltb a b ≡ false → b ≤ a
not-ltb→le a b h = ground arith

module _ (matches : Match) where
  scan_text :
      (preamble line text rest : Bytes) (fin : IoError)
      → IsText text
      → length preamble + length line + length text ≤ max_preamble
      → scan matches preamble line (text ++ b'\n' ∷ rest) fin
        ≡ at_line matches preamble (line ++ ended text) rest fin
  unfolding scan
  scan_text preamble line [] rest fin is h = refl
  scan_text preamble line (b ∷ bs) rest fin (plain, is) h =
      let one = length-append line (b ∷ []) in
      let short : ltb max_preamble (length preamble + length (line ++ b ∷ [])) ≡ false =
        ground arith in
      rw (plain, scan)
        (rw (short, scan)
          (scan_text preamble (line ++ b ∷ []) bs rest fin is (omega arith)
            ∙ ap (λ l. at_line matches preamble l rest fin)
                (append_assoc line (b ∷ []) (ended bs))))

  -- A banner: lines that are passed over.
  abbrev pub IsBanner : List Bytes → Type 0
  IsBanner = All (λ l. IsText l × (matches (ended l) ≡ ok false))

  abbrev pub banner : List Bytes → Bytes
  banner [] = []
  banner (l ∷ ls) = ended l ++ banner ls

  scan-banner :
      (preamble : Bytes) (ls : List Bytes) (rest : Bytes) (fin : IoError)
      → IsBanner ls
      → length preamble + length (banner ls) ≤ max_preamble
      → scan matches preamble [] (banner ls ++ rest) fin
        ≡ scan matches (preamble ++ banner ls) [] rest fin
  scan-banner preamble [] rest fin is h =
      ap (λ p. scan matches p [] rest fin) (sym (append-nil preamble))
  scan-banner preamble (l ∷ ls) rest fin ((is, passed), more) h =
      let all = length-append (ended l) (banner ls) in
      let one = length-append l (b'\n' ∷ []) in
      ap (λ s. scan matches preamble [] s fin)
        (append_assoc (ended l) (banner ls) rest ∙ append_assoc l (b'\n' ∷ []) (banner ls ++ rest))
      ∙ scan_text preamble [] l (banner ls ++ rest) fin is (omega arith)
      ∙ rw (passed, at_line)
          (scan-banner (preamble ++ ended l) ls rest fin more
            (omega (arith, length-append preamble (ended l))))
      ∙ ap (λ p. scan matches p [] rest fin) (append_assoc preamble (ended l) (banner ls))

  -- `scanHello` passes over a banner of lines that `match` does not accept, finds the line that it
  -- does accept, and leaves exactly what follows that line, where the two have at most 64 KB.
  pub scan_hello_lem :
      (ls : List Bytes) (hello rest : Bytes) (fin : IoError)
      → IsBanner ls
      → IsText hello
      → matches (ended hello) ≡ ok true
      → length (banner ls) + length hello ≤ max_preamble
      → scan_hello (record { bytes = banner ls ++ ended hello ++ rest; fin = fin }) matches
        ≡ ok (record { bytes = rest; fin = fin })
  unfolding scan_hello scan
  scan_hello_lem ls hello rest fin is text accepted h =
      ap (λ t. scan matches [] [] t fin) (append_assoc (banner ls) (ended hello) rest)
      ∙ scan-banner [] ls (ended hello ++ rest) fin is (omega arith)
      ∙ ap (λ s. scan matches (banner ls) [] s fin) (append_assoc hello (b'\n' ∷ []) rest)
      ∙ scan_text (banner ls) [] hello rest fin text (omega arith)
      ∙ rw (accepted, at_line) refl

  -- What a scan that succeeds has read: some text, and the line that was looked for. Text that is
  -- not only newlines is bounded.
  pub record IsFound (preamble line bytes : Bytes) (fin : IoError) (src : Source) : Type 0 where
    pub before : Bytes
    pub hello : Bytes
    pub all : line ++ bytes ≡ before ++ (hello ++ src.bytes)
    pub accepted : matches hello ≡ ok true
    pub same_fin : src.fin ≡ fin
    pub bound : 2 ≤ length hello → length preamble + length before + length hello ≤ max_preamble + 1

  -- The line that is read so far is within the bound.
  abbrev IsShort : Bytes → Bytes → Type 0
  IsShort preamble line = (length line ≡ 0) ⊎ (length preamble + length line ≤ max_preamble)

  at_line-IsFound :
      (preamble line bs : Bytes) (fin : IoError) (src : Source)
      → (2 ≤ length line → length preamble + length line ≤ max_preamble + 1)
      → ((src' : Source)
          → scan matches (preamble ++ line) [] bs fin ≡ ok src'
          → IsFound (preamble ++ line) [] bs fin src')
      → at_line matches preamble line bs fin ≡ ok src
      → IsFound preamble line bs fin src
  at_line-IsFound preamble line bs fin src short later h = elim (Result-cases (matches line)) [
    | inr (e, m) ↦ let bad : err e ≡ ok src = sym (rw (m, at_line) refl) ∙ h in cc
    | inl (false, m) ↦
        let f = later src (sym (rw (m, at_line) refl) ∙ h) in
        record {
          before = line ++ f.before;
          hello = f.hello;
          all = ap (λ t. line ++ t) f.all ∙ sym (append_assoc line f.before (f.hello ++ src.bytes));
          accepted = f.accepted;
          same_fin = f.same_fin;
          bound = λ two.
              omega (arith, f.bound two, length-append preamble line, length-append line f.before);
        }
    | inl (true, m) ↦
        let r : ok (record { bytes = bs; fin = fin }) ≡ ok src = sym (rw (m, at_line) refl) ∙ h in
        let e : record { bytes = bs; fin = fin } ≡ src = cc in
        record {
          before = [];
          hello = line;
          all = ap (λ (s : Source). line ++ s.bytes) e;
          accepted = m;
          same_fin = ap (λ (s : Source). s.fin) (sym e);
          bound = λ two. omega (arith, short two);
        }
  ]

  push :
      {preamble line bs : Bytes} {b : ℕ} {fin : IoError} {src : Source}
      → IsFound preamble (line ++ b ∷ []) bs fin src
      → IsFound preamble line (b ∷ bs) fin src
  push {line = line} {bs} {b} f = record {
    before = f.before;
    hello = f.hello;
    all = sym (append_assoc line (b ∷ []) bs) ∙ f.all;
    accepted = f.accepted;
    same_fin = f.same_fin;
    bound = f.bound;
  }

  pub scan-IsFound :
      (preamble line bytes : Bytes) (fin : IoError) (src : Source)
      → IsShort preamble line
      → scan matches preamble line bytes fin ≡ ok src
      → IsFound preamble line bytes fin src
  unfolding scan
  scan-IsFound preamble line [] fin src short h = cc
  scan-IsFound preamble line (b ∷ bs) fin src short h =
      let line' = line ++ b ∷ [] in
      let one = length-append line (b ∷ []) in
      elim (Bool-cases (b == b'\n')) [
        | inr plain ↦ elim (Bool-cases (ltb max_preamble (length preamble + length line'))) [
          | inl long ↦
              let refused : scan matches preamble line (b ∷ bs) fin
                  ≡ err (no_hello too_much (said preamble line')) =
                rw (plain, scan) (rw (long, scan) refl) in
              cc
          | inr fits ↦ push (
              scan-IsFound preamble line' bs fin src (inr (not-ltb→le _ _ fits))
                (sym (rw (plain, scan) (rw (fits, scan) refl)) ∙ h))
        ]
        | inl newline ↦ push (
            at_line-IsFound preamble line' bs fin src (λ two. ground (arith, short, one))
              (λ src' h'. scan-IsFound (preamble ++ line') [] bs fin src' (inl refl) h')
              (sym (rw (newline, scan) refl) ∙ h))
      ]
