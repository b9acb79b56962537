-- ===== src/Tests/Settings.antt =====
-- Tests of the files of passwords and aliases.
use cmd.Prelude.{
  arith, ◌≡◌, ◌⊎◌, refl, true, false, some, none, [], ◌∷◌, ◌++◌, Bytes, codes, bytes_eq, ok,
}
use cmd.Prelude.Text.{trim_space}
use cmd.Mote.Config.{
  skip, Stored, missing, text, ConfigError, malformed_line, Disk, set, password_line, set_password,
  lookup_password, prompt_password, cmd_alias, printed, failed,
}
use cmd.Mote.Config.Saving.{IsUrl, set_password_round_trip}

abbrev works : Disk
works = record { writes = true; renames = true }

abbrev url : Bytes
url = codes "tcp://h:1"

abbrev line : Bytes
line = codes " a b "

abbrev password : Bytes
password = codes "a b"

-- A comment, and an entry with blanks between.
abbrev file : Stored
file = text (codes "# x" ++ (b'\n' ∷ (codes "tcp://g:2   p q" ++ (b'\n' ∷ []))))

url-IsUrl : IsUrl url
url-IsUrl = record {
  first = b't';
  rest = codes "cp://h:1";
  shape = refl;
  ascii = omega arith;
  solid = refl;
  no_comment = refl;
  blankless = (
    (refl, (refl, (refl, (refl, (refl, (refl, (refl, (refl, (refl, tt))))))))),
    (refl, (refl, (refl, (refl, (refl, (refl, (refl, (refl, (refl, tt))))))))),
  );
}

prompted : prompt_password line ≡ some password
unfolding prompt_password
prompted = refl

set_password_round_trip_example :
    ((e : ConfigError) × (set_password works url password file ≡ (some e, file)))
    ⊎ (((set_password works url password file).0 ≡ none)
        × (lookup_password url (set_password works url password file).1 ≡ ok password)
        × ((other : Bytes)
            → bytes_eq other url ≡ false
            → lookup_password other file
              ≡ lookup_password other (set_password works url password file).1))
set_password_round_trip_example =
    set_password_round_trip works url line password file url-IsUrl
      (refl, (refl, (refl, (refl, (refl, tt))))) prompted

saved_test :
    set_password works url password file
    ≡ (none, text (codes "tcp://g:2 p q" ++ (b'\n' ∷ (codes "tcp://h:1 a b" ++ (b'\n' ∷ [])))))
unfolding set password_line
saved_test = refl

-- An alias whose name has a space is saved, and then no alias can be looked up.
abbrev spoiled : Stored
spoiled = (cmd_alias works (codes "a b" ∷ codes "tail://x" ∷ []) missing).1

spoiled_test : cmd_alias works (codes "c" ∷ []) spoiled ≡ (failed (malformed_line 1), spoiled)
unfolding cmd_alias
spoiled_test = refl

alias_test :
    cmd_alias works []
      (cmd_alias works (codes "vm" ∷ codes "tail://x" ∷ []) (text (codes "linux tail://y"))).1
    ≡ (
      printed (codes "linux tail://y" ++ (b'\n' ∷ (codes "vm    tail://x" ++ (b'\n' ∷ [])))),
      text (codes "linux tail://y" ++ (b'\n' ∷ (codes "vm tail://x" ++ (b'\n' ∷ [])))),
    )
unfolding cmd_alias
alias_test = refl

-- TrimSpace takes off a no-break space and an em space, and no part of another rune.
spaces_test :
    trim_space (0xe2 ∷ 0x80 ∷ 0x83 ∷ b'a' ∷ 0xc3 ∷ 0xa0 ∷ b' ' ∷ 0xc2 ∷ 0xa0 ∷ [])
    ≡ b'a' ∷ 0xc3 ∷ 0xa0 ∷ []
unfolding trim_space
spaces_test = refl

-- A line that is a comment behind a no-break space is passed over.
comment_test : password_line (0xc2 ∷ 0xa0 ∷ codes "#x y") ≡ skip
unfolding password_line bytes_eq
comment_test = refl
