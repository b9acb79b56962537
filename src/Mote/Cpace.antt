-- ===== src/Mote/Cpace.antt =====
-- mote/internal/cpace: the password-authenticated key exchange CPace. SHA-512, HMAC and X25519 are
-- parameters.
pub mod Field
pub mod Elligator
pub mod Encoding
pub mod Padding
pub mod Agreement
pub mod Refusal
pub mod Binding
pub mod Rooms
pub mod Sessions
use cmd.Prelude.{
  ℕ, zero, suc, ◌+◌, ◌-◌, ◌*◌, ◌/◌, ◌%◌, Bool, true, false, Option, none, some, List, [], ◌∷◌, ◌++◌,
  Bytes, codes, bytes_eq, length, take, ltb, ◌==◌, if◌then◌else◌, Result, ok, err, ◌>>=◌, need,
}
use cmd.Prelude.Text.{bytes_ltb}
use cmd.Prelude.Io.{IoError, Source, read_full}
use cmd.Mote.Cpace.Field.{fe_set_bytes}
use cmd.Mote.Cpace.Elligator.{elligator2}

-- crypto/sha512, crypto/hmac over it, and crypto/ecdh over X25519. A private key is the bytes it was
-- made of, a public key its encoding.
pub record Suite : Type 0 where
  pub sha512 : Bytes → Bytes
  pub hmac : Bytes → Bytes → Bytes
  pub new_private_key : Bytes → Option Bytes
  pub new_public_key : Bytes → Option Bytes
  pub ecdh : Bytes → Bytes → Option Bytes

-- `other` is every number that names no role.
pub data Role : Type 0 where
  initiator responder symmetric other : Role

-- Config, less the source of randomness.
pub record Config : Type 0 where
  pub role : Role
  pub password : Bytes
  pub channel_id : Bytes
  pub session_id : Bytes
  pub ad : Bytes

-- The last three are nil before a successful Finish, and `priv` is nil behind any.
pub record State : Type 0 where
  pub role : Role
  pub sid : Bytes
  pub ad : Bytes
  pub msg : Bytes
  pub priv : Option Bytes
  pub sid_output : Option Bytes
  pub tag : Option Bytes
  pub peer_tag : Option Bytes

pub data CpaceError : Type 0 where
  invalid_role invalid_scalar unreachable invalid_generator : CpaceError
  no_random : IoError → CpaceError
  already_finished own_message invalid_message low_order : CpaceError
  not_finished not_confirmed : CpaceError

abbrev pub dsi : Bytes
dsi = codes "CPace255"

abbrev pub dsi_isk : Bytes
dsi_isk = dsi ++ codes "_ISK"

abbrev pub dsi_sid : Bytes
dsi_sid = codes "CPaceSidOutput"

abbrev pub dsi_mac : Bytes
dsi_mac = codes "CPaceMac"

abbrev pub block_size : ℕ
block_size = 128

abbrev pub element_size : ℕ
element_size = 32

abbrev pub max_len_prefix : ℕ
max_len_prefix = 10

-- The loop of prependLen, which shifts n until it is 0.
unfoldable pub leb128 : ℕ → ℕ → Bytes
leb128 zero n = []
leb128 (suc fuel) n =
    let rest = leb128 fuel (n / 128) in
    (if ltb n 128 then n % 256 else n % 128 + 128) ∷ (if n / 128 == 0 then [] else rest)

-- What prependLen appends.
unfoldable pub prepend_len : Bytes → Bytes
unfolding leb128
prepend_len v = leb128 (suc (length v)) (length v) ++ v

-- What lvCat appends.
unfoldable pub lv_cat : List Bytes → Bytes
unfolding prepend_len
lv_cat [] = []
lv_cat (v ∷ vs) = prepend_len v ++ lv_cat vs

-- What oCat appends.
unfoldable pub o_cat : Bytes → Bytes → Bytes
unfolding bytes_ltb
o_cat v1 v2 = codes "oc" ++ (if bytes_ltb v1 v2 then v2 ++ v1 else v1 ++ v2)

-- What State.transcript appends.
unfoldable pub transcript : Role → Bytes → Bytes → Bytes → Bytes → Bytes
unfolding lv_cat o_cat
transcript symmetric ya ada yb adb = o_cat (lv_cat (ya ∷ ada ∷ [])) (lv_cat (yb ∷ adb ∷ []))
transcript _ ya ada yb adb = lv_cat (ya ∷ ada ∷ []) ++ lv_cat (yb ∷ adb ∷ [])

unfoldable pub zeros : ℕ → Bytes
zeros zero = []
zeros (suc n) = 0 ∷ zeros n

-- generatorString
unfoldable pub generator_string : Bytes → Bytes → Bytes → Bytes
unfolding lv_cat zeros
generator_string prs ci sid =
    let b = lv_cat (dsi ∷ prs ∷ []) in
    let zpad = block_size - 1 - length b in b ++ lv_cat (zeros zpad ∷ ci ∷ sid ∷ [])

-- The messages and the associated data of a role and of its peer, in the order of the transcript.
unfoldable pub ordered : Role → Bytes → Bytes → Bytes → Bytes → (Bytes × Bytes) × (Bytes × Bytes)
ordered responder y ad y' ad' = ((y', ad'), (y, ad))
ordered _ y ad y' ad' = ((y, ad), (y', ad'))

-- The transcript that Finish writes.
unfoldable pub exchange : Role → Bytes → Bytes → Bytes → Bytes → Bytes
unfolding ordered transcript
exchange role y ad y' ad' = let (a, b) = ordered role y ad y' ad' in transcript role a.0 a.1 b.0 b.1

-- The buffers that Finish hashes to the session key and to the key of the tags.
unfoldable pub isk_input : State → Bytes → Bytes → Bytes → Bytes
unfolding lv_cat exchange
isk_input s k msg ad = lv_cat (dsi_isk ∷ s.sid ∷ k ∷ []) ++ exchange s.role s.msg s.ad msg ad

unfoldable pub mac_input : Bytes → Bytes → Bytes
mac_input sid isk = dsi_mac ++ (sid ++ isk)

-- The size of the buffer that Finish allocates for `isk_input`, and generatorString for its result.
unfoldable pub isk_room : State → Bytes → Bytes → Bytes → ℕ
isk_room s k msg ad =
    7 * max_len_prefix
    + 2
    + length dsi_isk
    + length s.sid
    + length k
    + length s.msg
    + length s.ad
    + length msg
    + length ad

unfoldable pub generator_room : Bytes → Bytes → Bytes → ℕ
generator_room prs ci sid =
    5 * max_len_prefix + length dsi + length prs + block_size + length ci + length sid

-- The state that start makes.
abbrev pub started : Config → Bytes → Bytes → State
started cfg priv msg = record {
  role = cfg.role;
  sid = cfg.session_id;
  ad = cfg.ad;
  msg = msg;
  priv = some priv;
  sid_output = none;
  tag = none;
  peer_tag = none;
}

module _ (C : Suite) where
  -- generator
  unfoldable pub generator : Bytes → Bytes → Bytes → Bytes
  unfolding generator_string
  generator prs ci sid =
      elligator2 (fe_set_bytes (take element_size (C.sha512 (generator_string prs ci sid))))

  -- start
  unfoldable pub start : Config → Bytes → Result CpaceError (State × Bytes)
  unfolding generator
  start cfg scalar = do
    priv ← need (C.new_private_key scalar) invalid_scalar
    g ← need (C.new_public_key (generator cfg.password cfg.channel_id cfg.session_id)) unreachable
    msg ← need (C.ecdh priv g) invalid_generator
    ok (started cfg priv msg, msg)

  random_start : Config → Source → Result CpaceError (State × Bytes)
  unfolding start read_full
  random_start cfg rand = elim (read_full element_size rand) [
    | err e ↦ err (no_random e)
    | ok (scalar, _) ↦ start cfg scalar
  ]

  -- Start
  unfoldable pub start_exchange : Config → Source → Result CpaceError (State × Bytes)
  unfolding random_start
  start_exchange cfg rand = elim cfg.role [ other ↦ err invalid_role | _ ↦ random_start cfg rand ]

  -- mac
  unfoldable pub mac : Bytes → Bytes → Bytes → Bytes
  unfolding lv_cat
  mac key msg ad = C.hmac key (lv_cat (msg ∷ ad ∷ []))

  -- Finish from the shared secret on, in a state without its private key.
  unfoldable pub derive : State → Bytes → Bytes → Bytes → Bytes × State
  unfolding isk_input exchange mac_input mac
  derive s k msg ad =
      let isk = C.sha512 (isk_input s k msg ad) in
      let mac_key = C.sha512 (mac_input s.sid isk) in
      (
        isk,
        record s {
          sid_output = some (C.sha512 (dsi_sid ++ exchange s.role s.msg s.ad msg ad));
          tag = some (mac mac_key s.msg s.ad);
          peer_tag = some (mac mac_key msg ad);
        },
      )

  -- The shared secret that Finish computes.
  unfoldable pub shared : Bytes → Bytes → Result CpaceError Bytes
  shared priv msg = do
    peer ← need (C.new_public_key msg) invalid_message
    need (C.ecdh priv peer) low_order

  -- State.Finish
  unfoldable pub finish : State → Bytes → Bytes → Result CpaceError Bytes × State
  unfolding bytes_eq shared derive
  finish s msg ad = elim s.priv [
    | none ↦ (err already_finished, s)
    | some priv ↦
        let s' = record s { priv = none } in
        if bytes_eq msg s.msg then (err own_message, s') else elim (shared priv msg) [
          | err e ↦ (err e, s')
          | ok k ↦ let (isk, s'') = derive s' k msg ad in (ok isk, s'')
        ]
  ]

-- State.Verify: the error, if there is one. hmac.Equal compares the bytes.
unfoldable pub verify : State → Bytes → Option CpaceError
unfolding bytes_eq
verify s tag = elim s.peer_tag [
  | none ↦ some not_finished
  | some peer_tag ↦ if bytes_eq tag peer_tag then none else some not_confirmed
]
