-- ===== src/Mote/Config/Saving.antt =====
-- mote/config.go: what setPassword saves, lookupPassword finds.
use mathlib.Core.Path.{subst}
use cmd.Prelude.{
  ℕ, ◌<◌, ◌≡◌, ◌⊎◌, refl, sym, ap, ◌∙◌, inl, inr, false, Bool-cases, Option, none, some, [], ◌∷◌,
  ◌++◌, arith, Bytes, bytes_eq, bytes_eq_iff, ◌==◌, if◌then◌else◌, if_true, if_false, length, ok,
  err, Result-cases,
}
use cmd.Prelude.Text.{
  is_space, is_space2, width3, width2, space_width, trim_front, trim_back, trim_space,
}
use cmd.Mote.Config.{
  Table, get, put, Stored, text, ConfigError, write_failed, rename_failed, Line, is_blank,
  password_line, print, Disk, read, set, set_password, look_up, lookup_password, required,
  no_password, prompt_password,
}
use cmd.Mote.Config.Tables.{get-put}
use cmd.Mote.Config.Spaces.{
  Bytes-cases, skips, starts_comment, trim_front_eq, solid-is_space, trim_front_head,
  trim_front-suffix, trim_back_solid, trim_back-All, trim_back-IsTrimmed,
}
use cmd.Mote.Config.Lines.{
  NoNewline, body, IsStorable, IsNormal, put-IsGood, read-IsGood, read-print,
}
use cmd.Mote.Config.Passwords.{IsValue, IsKey, storable_lem, password_line-IsNormal, All-right}

-- A key as "mote login" makes it: a URL that starts in ASCII, without blanks or newlines.
pub record IsUrl (key : Bytes) : Type 0 where
  pub first : ℕ
  pub rest : Bytes
  pub shape : key ≡ first ∷ rest
  pub ascii : first < 128
  pub solid : is_space first ≡ false
  pub no_comment : (first == b'#') ≡ false
  pub blankless : IsKey key

not_blank : (c : ℕ) → is_space c ≡ false → is_blank c ≡ false
not_blank c h = ground arith

nonempty : (c : ℕ) (s : Bytes) → (length (c ∷ s) == 0) ≡ false
nonempty c s = ground arith

abbrev prompted_of : Bytes → Option Bytes
prompted_of t = if length (trim_back t) == 0 then none else some (trim_back t)

trim_space-IsValue :
    (line : Bytes) (c : ℕ) (s : Bytes)
    → NoNewline line
    → trim_front 0 line ≡ c ∷ s
    → IsValue (trim_back (c ∷ s))
trim_space-IsValue line c s plain cut =
    let solid = trim_front_head 0 line c s cut in
    let (front, e) = trim_front-suffix 0 line in
    let whole : line ≡ front ++ (c ∷ s) = e ∙ ap (λ t. front ++ t) cut in
    let one_line = All-right _ front (c ∷ s) (subst NoNewline whole plain) in
    record {
      first = c;
      rest = trim_back s;
      shape = trim_back_solid c s solid;
      solid = not_blank c (solid-is_space c s solid);
      trimmed = trim_back-IsTrimmed (c ∷ s);
      one_line = trim_back-All _ (c ∷ s) one_line;
    }

-- What promptPassword returns is read as it is written.
prompt_password-IsValue :
    (line value : Bytes) → NoNewline line → prompt_password line ≡ some value → IsValue value
unfolding prompt_password trim_space
prompt_password-IsValue line value plain h = elim (Bytes-cases (trim_front 0 line)) [
  | inl e ↦ absurd (let bad : none ≡ some value = sym (ap prompted_of e) ∙ h in cc)
  | inr (c, s, e) ↦
      let shape = trim_back_solid c s (trim_front_head 0 line c s e) in
      let full : (length (trim_back (c ∷ s)) == 0) ≡ false =
        ap (λ t. length t == 0) shape ∙ nonempty c (trim_back s) in
      let whole : some (trim_back (c ∷ s)) ≡ some value =
        sym (if_false none (some (trim_back (c ∷ s))) full) ∙ sym (ap prompted_of e) ∙ h in
      let same : trim_back (c ∷ s) ≡ value = cc in
      subst IsValue same (trim_space-IsValue line c s plain e)
]

module _ (parse : Bytes → Line) (normal : IsNormal parse) (disk : Disk) (key value : Bytes)
    (file : Stored) where
  -- Either the map is saved with the new entry, or there is an error and the file is as it was.
  set_cases :
      IsStorable parse (key, value)
      → ((t : Table) × (read parse file ≡ ok t)
          × ((set parse disk key value file).0 ≡ none)
          × (read parse (set parse disk key value file).1 ≡ ok (put key value t)))
        ⊎ ((e : ConfigError) × (set parse disk key value file ≡ (some e, file)))
  unfolding set
  set_cases storable = elim (Result-cases (read parse file)) [
    | inl (t, e) ↦ elim (Bool-cases disk.writes) [
      | inl wrote ↦ elim (Bool-cases disk.renames) [
        | inl renamed ↦
            let saved : set parse disk key value file ≡ (none, text (print (put key value t))) =
              rw (e, wrote, renamed, set) refl in
            let good = put-IsGood parse key value t storable (read-IsGood parse file t normal e) in
            inl (
              t,
              e,
              ap (λ r. r.0) saved,
              ap (λ r. read parse r.1) saved ∙ read-print parse (put key value t) good,
            )
        | inr failed ↦ inr (rename_failed, rw (e, wrote, failed, set) refl)
      ]
      | inr failed ↦ inr (write_failed, rw (e, failed, set) refl)
    ]
    | inr (e, bad) ↦ inr (e, rw (bad, set) refl)
  ]

look_up_ok :
    (parse : Bytes → Line) (key : Bytes) (file : Stored) (t : Table)
    → read parse file ≡ ok t
    → look_up parse key file ≡ ok (get key t)
unfolding look_up
look_up_ok parse key file t e = rw (e, look_up) refl

lookup_same :
    (key : Bytes) (file file' : Stored) (t t' : Table)
    → read password_line file ≡ ok t
    → read password_line file' ≡ ok t'
    → get key t ≡ get key t'
    → lookup_password key file ≡ lookup_password key file'
unfolding lookup_password
lookup_same key file file' t t' e e' same = ap required (
    look_up_ok password_line key file t e
    ∙ ap (λ v. ok v) same
    ∙ sym (look_up_ok password_line key file' t' e'))

lookup_found :
    (key : Bytes) (file : Stored) (t : Table) (c : ℕ) (s : Bytes)
    → read password_line file ≡ ok t
    → get key t ≡ c ∷ s
    → lookup_password key file ≡ ok (c ∷ s)
unfolding lookup_password
lookup_found key file t c s e same =
    let full = nonempty c s in
    ap required (look_up_ok password_line key file t e ∙ ap (λ v. ok v) same)
    ∙ if_false (err no_password) (ok (c ∷ s)) full

width3_ascii : (c d : ℕ) (s : Bytes) → c < 128 → width3 c d s ≡ 0
unfolding width3
width3_ascii c d [] h = refl
width3_ascii c d (e ∷ s) h = ground arith

ascii_width : (c : ℕ) (s : Bytes) → c < 128 → is_space c ≡ false → space_width (c ∷ s) ≡ 0
unfolding space_width width2
ascii_width c [] h solid = if_false 1 0 solid
ascii_width c (d ∷ s) h solid =
    let pair : is_space2 c d ≡ false = ground arith in
    if_false _ _ solid ∙ if_false _ _ pair ∙ width3_ascii c d s h

skips_solid :
    (c : ℕ) (s : Bytes) → c < 128 → is_space c ≡ false → (c == b'#') ≡ false → skips (c ∷ s) ≡ false
unfolding trim_front
skips_solid c s h solid plain =
    ap starts_comment (trim_front_eq c s 0 (ascii_width c s h solid)) ∙ plain

-- setPassword with the URL of a server, which has no blank or newline and starts with an ASCII byte that is
-- no space and no `#`, and a password that was prompted for in a line without a newline, either fails and
-- leaves the file as it was, or afterwards lookupPassword finds the password, and for any other URL what
-- it found before.
pub set_password_round_trip :
    (disk : Disk) (key line password : Bytes) (file : Stored)
    → IsUrl key
    → NoNewline line
    → prompt_password line ≡ some password
    → ((e : ConfigError) × (set_password disk key password file ≡ (some e, file)))
      ⊎ (((set_password disk key password file).0 ≡ none)
          × (lookup_password key (set_password disk key password file).1 ≡ ok password)
          × ((other : Bytes)
              → bytes_eq other key ≡ false
              → lookup_password other file
                ≡ lookup_password other (set_password disk key password file).1))
set_password_round_trip disk key line password file url plain prompted =
    let v = prompt_password-IsValue line password plain prompted in
    let solid : skips (body key password) ≡ false =
      ap (λ k. skips (k ++ (b' ' ∷ password))) url.shape
      ∙ skips_solid url.first (url.rest ++ (b' ' ∷ password)) url.ascii url.solid url.no_comment in
    let storable = storable_lem key password url.blankless v solid in
    elim (set_cases password_line password_line-IsNormal disk key password file storable) [
      | inl (t, before, saved, after) ↦
          let file' = (set_password disk key password file).1 in
          let here : get key (put key password t) ≡ v.first ∷ v.rest =
            get-put key key password t
            ∙ if_true password (get key t) ((bytes_eq_iff key key).1 refl)
            ∙ v.shape in
          inr (
            saved,
            lookup_found key file' (put key password t) v.first v.rest after here
                ∙ ap (λ p. ok p) (sym v.shape),
            λ other differs.
                lookup_same other file file' t (put key password t) before after
                  (sym (get-put key other password t ∙ if_false password (get other t) differs)),
          )
      | inr failed ↦ inl failed
    ]
