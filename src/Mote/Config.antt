-- ===== src/Mote/Config.antt =====
-- mote/config.go: the files of passwords and of aliases.
pub mod Tables
pub mod Trims
pub mod Spaces
pub mod Passwords
pub mod Saving
pub mod Lines
use cmd.Prelude.{
  ℕ, zero, suc, ◌+◌, ◌-◌, ◌*◌, ◌≡◌, max, Bool, true, false, not, ◌||◌, Option, none, some, List, [],
  ◌∷◌, ◌++◌, Bytes, codes, bytes_eq, length, drop, ◌==◌, if◌then◌else◌, Result, ok, err,
}
use cmd.Prelude.Io.{IoError}
use cmd.Prelude.Text.{
  is_newline, space_width, trim_left, trim_right, trim_space, before, has_prefix, bytes_ltb,
}

-- A file: none is there, it cannot be read, or its text.
pub data Stored : Type 0 where
  missing : Stored
  unreadable : IoError → Stored
  text : Bytes → Stored

pub data ConfigError : Type 0 where
  read_failed : IoError → ConfigError
  -- the number of the line
  malformed_line : ℕ → ConfigError
  write_failed rename_failed no_password : ConfigError

-- A map from strings to strings, by its entries in the order of the keys.
abbrev pub Table : Type 0
Table = List (Bytes × Bytes)

-- m[key], which is "" where there is no such key
unfoldable pub get : Bytes → Table → Bytes
unfolding bytes_eq
get key [] = []
get key ((k, v) ∷ t) = let rest = get key t in if bytes_eq key k then v else rest

-- m[key] = value
unfoldable pub put : Bytes → Bytes → Table → Table
unfolding bytes_eq bytes_ltb
put key value [] = (key, value) ∷ []
put key value ((k, v) ∷ t) =
    let rest = put key value t in
    if bytes_eq key k
    then (key, value) ∷ t
    else if bytes_ltb key k
    then (key, value) ∷ (k, v) ∷ t
    else (k, v) ∷ rest

-- strings.Lines: the lines with the newlines that end them.
abbrev pub first_line : ℕ → List Bytes → List Bytes
first_line c [] = (c ∷ []) ∷ []
first_line c (line ∷ lines) = (c ∷ line) ∷ lines

unfoldable pub lines : Bytes → List Bytes
lines [] = []
lines (c ∷ s) = let rest = lines s in if c == b'\n' then (c ∷ []) ∷ rest else first_line c rest

-- strings.Fields
abbrev pub end_field : Bytes → List Bytes → List Bytes
end_field [] words = words
end_field (c ∷ word) words = (c ∷ word) ∷ words

-- The field that `s` starts with, empty if it starts with a space, and those behind it; the first k
-- bytes belong to a space.
unfoldable pub fields_from : ℕ → Bytes → Bytes × List Bytes
unfolding space_width
fields_from k [] = ([], [])
fields_from (suc k) (c ∷ s) = fields_from k s
fields_from zero (c ∷ s) = elim (space_width (c ∷ s)) [
  | zero ↦ let (word, words) = fields_from 0 s in (c ∷ word, words)
  | suc k ↦ let (word, words) = fields_from k s in ([], end_field word words)
]

unfoldable pub fields : Bytes → List Bytes
unfolding fields_from
fields s = let (word, words) = fields_from 0 s in end_field word words

-- What a line says.
pub data Line : Type 0 where
  skip malformed : Line
  entry : Bytes → Bytes → Line

abbrev pub is_blank : ℕ → Bool
is_blank c = c == b' ' || c == b'\t'

-- A line of password.txt without its newline: the key up to the first blank, and the password behind.
abbrev pub with_password : Bytes → Bytes → Line
with_password key [] = malformed
with_password key (c ∷ password) = entry key (c ∷ password)

unfoldable pub split_password : Bytes → Line
unfolding before trim_left
split_password line =
    let key = before is_blank line in
    if length key == length line
    then malformed
    else with_password key (trim_left is_blank (drop (length key) line))

-- Whether a line is passed over: nothing but space, or a comment.
unfoldable pub is_comment : Bytes → Bool
unfolding trim_space has_prefix
is_comment line = length (trim_space line) == 0 || has_prefix (trim_space line) (codes "#")

-- The loop body of readPasswords.
unfoldable pub password_line : Bytes → Line
unfolding trim_right is_comment split_password
password_line l =
    let line = trim_right is_newline l in if is_comment line then skip else split_password line

-- The loop body of readAliases.
abbrev pub alias_fields : List Bytes → Line
alias_fields (name ∷ url ∷ []) = entry name url
alias_fields _ = malformed

unfoldable pub alias_words : List Bytes → Line
unfolding has_prefix
alias_words [] = skip
alias_words (name ∷ words) =
    if has_prefix name (codes "#") then skip else alias_fields (name ∷ words)

unfoldable pub alias_line : Bytes → Line
unfolding fields alias_words
alias_line line = alias_words (fields line)

-- What setPassword and setAlias write for one entry, and for a map.
unfoldable pub format : Bytes → Bytes → Bytes
format key value = key ++ (b' ' ∷ (value ++ (b'\n' ∷ [])))

unfoldable pub print : Table → Bytes
unfolding format
print [] = []
print ((key, value) ∷ t) = format key value ++ print t

-- Whether the temporary file can be written, and renamed.
pub record Disk : Type 0 where
  pub writes : Bool
  pub renames : Bool

-- readPasswords and readAliases, and what is built on them: they differ in how a line is read.
module _ (parse : Bytes → Line) where
  -- The loop, from line number n on, with the map so far.
  unfoldable pub read_lines : ℕ → List Bytes → Table → Result ConfigError Table
  unfolding put
  read_lines n [] t = ok t
  read_lines n (line ∷ rest) t = elim (parse line) [
    | skip ↦ read_lines (suc n) rest t
    | malformed ↦ err (malformed_line n)
    | entry key value ↦ read_lines (suc n) rest (put key value t)
  ]

  unfoldable pub read : Stored → Result ConfigError Table
  unfolding read_lines lines
  read missing = ok []
  read (unreadable e) = err (read_failed e)
  read (text s) = read_lines 1 (lines s) []

  -- setPassword and setAlias: the error, and the file.
  unfoldable pub set : Disk → Bytes → Bytes → Stored → Option ConfigError × Stored
  unfolding read put print
  set disk key value file = elim (read file) [
    | err e ↦ (some e, file)
    | ok t ↦
        if not disk.writes
        then (some write_failed, file)
        else if not disk.renames
        then (some rename_failed, file)
        else (none, text (print (put key value t)))
  ]

  -- lookupAlias
  unfoldable pub look_up : Bytes → Stored → Result ConfigError Bytes
  unfolding read get
  look_up key file = elim (read file) [ err e ↦ err e | ok t ↦ ok (get key t) ]

abbrev pub read_passwords : Stored → Result ConfigError Table
read_passwords = read password_line

abbrev pub set_password : Disk → Bytes → Bytes → Stored → Option ConfigError × Stored
set_password = set password_line

abbrev pub read_aliases : Stored → Result ConfigError Table
read_aliases = read alias_line

abbrev pub set_alias : Disk → Bytes → Bytes → Stored → Option ConfigError × Stored
set_alias = set alias_line

abbrev pub lookup_alias : Bytes → Stored → Result ConfigError Bytes
lookup_alias = look_up alias_line

-- lookupPassword
abbrev pub required : Result ConfigError Bytes → Result ConfigError Bytes
required (err e) = err e
required (ok password) = if length password == 0 then err no_password else ok password

unfoldable pub lookup_password : Bytes → Stored → Result ConfigError Bytes
unfolding look_up password_line
lookup_password key file = required (look_up password_line key file)

-- promptPassword, of the line that was read; none if there is no password in it
unfoldable pub prompt_password : Bytes → Option Bytes
unfolding trim_space
prompt_password line = if length (trim_space line) == 0 then none else some (trim_space line)

-- fmt.Printf("%-*s %s\n", w, name, url), for a name in ASCII
unfoldable pub padded : ℕ → Bytes
padded zero = []
padded (suc n) = b' ' ∷ padded n

unfoldable pub list_entries : ℕ → Table → Bytes
unfolding padded
list_entries w [] = []
list_entries w ((name, url) ∷ t) =
    name ++ (padded (w - length name) ++ (b' ' ∷ (url ++ (b'\n' ∷ list_entries w t))))

unfoldable pub width : Table → ℕ
width [] = 0
width ((name, url) ∷ t) = max (length name) (width t)

-- What "mote alias" does with its arguments: it prints, ends with an error, or shows the usage.
pub data AliasResult : Type 0 where
  printed : Bytes → AliasResult
  failed : ConfigError → AliasResult
  no_alias usage done : AliasResult

abbrev shown : Result ConfigError Bytes → AliasResult
shown (err e) = failed e
shown (ok []) = no_alias
shown (ok (c ∷ url)) = printed ((c ∷ url) ++ (b'\n' ∷ []))

abbrev listed : Result ConfigError Table → AliasResult
listed (err e) = failed e
listed (ok t) = printed (list_entries (width t) t)

abbrev stored : Option ConfigError × Stored → AliasResult × Stored
stored (some e, file) = (failed e, file)
stored (none, file) = (done, file)

unfoldable pub cmd_alias : Disk → List Bytes → Stored → AliasResult × Stored
unfolding read look_up set alias_line list_entries width
cmd_alias disk [] file = (listed (read_aliases file), file)
cmd_alias disk (name ∷ []) file = (shown (lookup_alias name file), file)
cmd_alias disk (name ∷ url ∷ []) file = stored (set_alias disk name url file)
cmd_alias disk _ file = (usage, file)
