-- ===== src/Mote/Cpace/Sessions.antt =====
-- mote/secure.go's use of mote/internal/cpace: the exchange of cpace.go fills the interface that
-- secureServer and secureClient are written against.
use cmd.Prelude.{
  ℕ, ◌≤◌, ◌≡◌, ◌≢◌, refl, ap, ◌∙◌, Bool, true, false, Option, none, some, [], ◌∷◌, arith, Bytes,
  codes, length, if◌then◌else◌, Result, ok, err,
}
use cmd.Mote.Packet.{max_handshake}
use cmd.Mote.Cpace.{
  Suite, initiator, responder, Config, State, CpaceError, start, finish, verify, mac, lv_cat,
}
use cmd.Mote.Cpace.Agreement.{IsGroup, first, start-IsStarted, exchange_agreement}
use cmd.Mote.Password.{Cpace, channel_id}
use cmd.Mote.Password.Sides.{IsPaired}

-- The configuration of the server, which is the initiator, and of the client.
abbrev pub config : Bool → Bytes → Bytes → Config
config initiates password channel = record {
  role = if initiates then initiator else responder;
  password = password;
  channel_id = channel;
  session_id = [];
  ad = [];
}

-- `if err != nil` of a caller that returns any error as it is.
abbrev value : {A : Type 0} → Result CpaceError A → Option A
value (ok a) = some a
value (err e) = none

abbrev both : Result CpaceError Bytes × State → Option (Bytes × State)
both (ok key, s) = some (key, s)
both (err e, s) = none

abbrev tag_of : Option Bytes → Bytes
tag_of none = []
tag_of (some tag) = tag

abbrev accepted : Option CpaceError → Bool
accepted none = true
accepted (some e) = false

-- What secure.go calls: Start, Finish without associated data, Tag and Verify; and hkdf.Key.
module _ (C : Suite) (hkdf_key : Bytes → Bytes → ℕ → Option Bytes) where
  abbrev pub cpace : Cpace
  cpace = record {
    State = State;
    start = λ initiates password channel scalar.
        value (start C (config initiates password channel) scalar);
    finish = λ s msg. both (finish C s msg []);
    tag = λ s. tag_of s.tag;
    verify = λ s tag. accepted (verify s tag);
    hkdf_key = hkdf_key;
  }

  -- X25519, HMAC over SHA-512 and HKDF give values of their sizes.
  pub record IsSized : Type 0 where
    pub element : (p g m : Bytes) → C.ecdh p g ≡ some m → length m ≡ 32
    pub tag : (key text : Bytes) → length (C.hmac key text) ≡ 64
    pub derived :
        (key info : Bytes) → (psk : Bytes) × (hkdf_key key info 32 ≡ some psk) × (length psk ≡ 32)

  -- A tag is short.
  length_tag :
      IsSized
      → (s : State) (key msg ad : Bytes) → s.tag ≡ some (mac C key msg ad)
      → length (tag_of s.tag) ≤ max_handshake
  unfolding mac
  length_tag sized s key msg ad e = rw e (omega (arith, sized.tag key (lv_cat (msg ∷ ad ∷ []))))

  length_message :
      IsSized
      → (cfg : Config) (scalar m : Bytes) (s : State) → start C cfg scalar ≡ ok (s, m)
      → length m ≤ max_handshake
  length_message sized cfg scalar m s h =
      let a = start-IsStarted C cfg scalar s m h in
      omega (arith, sized.element a.priv a.g m a.multiplied)

  -- The two sides of secure.go, started with the same password and with different messages, have what
  -- the interface asks of them.
  pub cpace-IsPaired :
      (password scalar scalar' m m' : Bytes) (s s' : State)
      → IsGroup C
      → IsSized
      → start C (config true password channel_id) scalar ≡ ok (s, m)
      → start C (config false password channel_id) scalar' ≡ ok (s', m')
      → m ≢ m'
      → IsPaired cpace password scalar scalar'
  cpace-IsPaired password scalar scalar' m m' s s' group sized h h' differ =
      let cfg = config true password channel_id in
      let cfg' = config false password channel_id in
      let a =
        exchange_agreement C cfg cfg' scalar scalar' s s' m m' group first refl refl refl h h'
          differ in
      let (psk, derives, size) = sized.derived a.key (codes "mote noise psk") in
      record {
        st = s;
        st' = s';
        end = a.end;
        end' = a.end';
        msg1 = m;
        msg2 = m';
        key = a.key;
        psk = psk;
        starts = ap value h;
        starts' = ap value h';
        finishes = ap both a.finishes;
        finishes' = ap both a.finishes';
        verifies = ap (λ t. accepted (verify a.end (tag_of t))) a.tagged' ∙ ap accepted a.verifies;
        verifies' =
            ap (λ t. accepted (verify a.end' (tag_of t))) a.tagged ∙ ap accepted a.verifies';
        derives = derives;
        psk_size = size;
        short1 = length_message sized cfg scalar m s h;
        short2 = length_message sized cfg' scalar' m' s' h';
        short_tag = length_tag sized a.end a.mac_key m [] a.tagged;
        short_tag' = length_tag sized a.end' a.mac_key m' [] a.tagged';
      }
