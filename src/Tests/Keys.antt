-- ===== src/Tests/Keys.antt =====
-- Tests of CPace: the test vector of cpace_test.go, and toy cryptography in which a key is its first
-- byte and a multiplication adds.
use cmd.Prelude.{
  ℕ, zero, suc, ◌+◌, ◌≤◌, ◌≡◌, ◌≢◌, refl, sym, ap, ◌∙◌, arith, true, false, Option, none, some, [],
  ◌∷◌, ◌++◌, Bytes, codes, bytes_eq, length, ◌==◌, if◌then◌else◌, ok, err,
}
use cmd.Mote.Password.{channel_id}
use cmd.Mote.Password.Sides.{IsPaired}
use cmd.Mote.Cpace.{
  Suite, symmetric, Config, State, started, start, finish, verify, generator, generator_string,
  lv_cat, already_finished, not_confirmed, isk_input, isk_room, mac_input, mac, derive, shared,
  exchange,
}
use cmd.Mote.Cpace.Agreement.{IsGroup, IsAgreed, exchange_agreement, first}
use cmd.Mote.Cpace.Encoding.{read_values, lv_cat_lem}
use cmd.Mote.Cpace.Padding.{generator_string_injective}
use cmd.Mote.Cpace.Rooms.{isk_input_room}
use cmd.Mote.Cpace.Refusal.{finish_once, finish_confirms, finish_reflected, confirmation, Collide}
use cmd.Mote.Cpace.Binding.{view, finish_same_key}
use cmd.Mote.Cpace.Sessions.{cpace, config, IsSized, cpace-IsPaired}
use cmd.Mote.Cpace.Field.{fe_set_bytes}
use cmd.Mote.Cpace.Elligator.{elligator2}

-- tvGenHash and tvGen
abbrev gen_hash : Bytes
gen_hash =
    0x03 ∷ 0x99 ∷ 0x80 ∷ 0x87 ∷ 0xbd ∷ 0xb1 ∷ 0xa2 ∷ 0x61 ∷ 0x7b ∷ 0xbe ∷ 0x25 ∷ 0xef ∷ 0x5a ∷ 0x7c
    ∷ 0x18 ∷ 0xcd ∷ 0x4f ∷ 0x84 ∷ 0xf9 ∷ 0x02 ∷ 0x32 ∷ 0x87 ∷ 0x01 ∷ 0x79 ∷ 0x09 ∷ 0x58 ∷ 0x75
    ∷ 0x5e ∷ 0xe4 ∷ 0xae ∷ 0xd1 ∷ 0xd3 ∷ []

abbrev gen : Bytes
gen =
    0xd0 ∷ 0x4b ∷ 0xf6 ∷ 0xd4 ∷ 0x1f ∷ 0x6a ∷ 0x28 ∷ 0x96 ∷ 0x32 ∷ 0xa2 ∷ 0xe9 ∷ 0x29 ∷ 0xfa ∷ 0x29
    ∷ 0xbe ∷ 0xbd ∷ 0x51 ∷ 0x09 ∷ 0x25 ∷ 0x12 ∷ 0xa7 ∷ 0x82 ∷ 0x9f ∷ 0xdd ∷ 0xe7 ∷ 0xd3 ∷ 0x14
    ∷ 0xb6 ∷ 0x2f ∷ 0x05 ∷ 0xa7 ∷ 0x3f ∷ []

elligator2_test : elligator2 (fe_set_bytes gen_hash) ≡ gen
unfolding elligator2 fe_set_bytes
elligator2_test = refl

abbrev zeros : ℕ → Bytes
zeros zero = []
zeros (suc n) = 0 ∷ zeros n

abbrev head : Bytes → ℕ
head [] = 0
head (b ∷ bs) = b

abbrev sum : Bytes → ℕ
sum [] = 0
sum (b ∷ bs) = b + sum bs

abbrev toy : Suite
toy = record {
  sha512 = λ text. text;
  hmac = λ key text. (sum text) ∷ zeros 63;
  new_private_key = λ key. some key;
  new_public_key = λ key. if length key == 32 then some key else none;
  ecdh = λ private public. some ((head private + head public) ∷ zeros 31);
}

abbrev toy_hkdf : Bytes → Bytes → ℕ → Option Bytes
toy_hkdf key info size = some (zeros size)

-- The key of a product is the product.
toy_product :
    (p g m : Bytes)
    → toy.ecdh p g ≡ some m
    → (toy.new_public_key m ≡ some m)
      × ((e : Bytes) → toy.new_public_key m ≡ some e → head e ≡ head p + head g)
toy_product p g m h =
    let is : (head p + head g) ∷ zeros 31 ≡ m = cc in
    let key : some ((head p + head g) ∷ zeros 31) ≡ toy.new_public_key m =
      ap toy.new_public_key is in
    (
      sym key ∙ ap (λ t. some t) is,
      λ e he.
          let whole : some ((head p + head g) ∷ zeros 31) ≡ some e = key ∙ he in
          let same : e ≡ (head p + head g) ∷ zeros 31 = cc in ap head same,
    )

toy-IsGroup : IsGroup toy
toy-IsGroup = record {
  is_element = λ p g m h. (m, (toy_product p g m h).0, λ q. ((head q + head m) ∷ zeros 31, refl));
  commutes = λ p q g m m' e e' h h' he he'.
      let one = (toy_product p g m h).1 e he in
      let two = (toy_product q g m' h').1 e' he' in
      let same : head p + head e' ≡ head q + head e = omega (arith, one, two) in
      ap (λ n. some (n ∷ zeros 31)) same;
}

toy-IsSized : IsSized toy toy_hkdf
toy-IsSized = record {
  element = λ p g m h. let is : (head p + head g) ∷ zeros 31 ≡ m = cc in ap length (sym is);
  tag = λ key text. refl;
  derived = λ key info. (zeros 32, refl, refl);
}

abbrev password : Bytes
password = codes "secret"

gg : Bytes
unfolding generator
gg = generator toy password channel_id []

abbrev scalar : ℕ → Bytes
scalar n = n ∷ zeros 31

abbrev cfg : Config
cfg = config true password channel_id

abbrev cfg' : Config
cfg' = config false password channel_id

-- The states behind start with the scalars 1 and 2, whose messages are 1 and 2 more than the generator.
abbrev s : State
s = started cfg (scalar 1) (scalar 85)

abbrev s' : State
s' = started cfg' (scalar 2) (scalar 86)

start_s : start toy cfg (scalar 1) ≡ ok (s, scalar 85)
unfolding start generator elligator2 fe_set_bytes generator_string
start_s = refl

start_s' : start toy cfg' (scalar 2) ≡ ok (s', scalar 86)
unfolding start generator elligator2 fe_set_bytes generator_string
start_s' = refl

differ : scalar 85 ≢ scalar 86
differ h = let heads : 85 ≡ 86 = ap head h in absurd (omega (arith, heads))

exchange_agreement_example : IsAgreed toy s s' (scalar 85) (scalar 86) [] []
exchange_agreement_example =
    exchange_agreement toy cfg cfg' (scalar 1) (scalar 2) s s' (scalar 85) (scalar 86) toy-IsGroup
      first refl refl refl start_s start_s' differ

cpace-IsPaired_example : IsPaired (cpace toy toy_hkdf) password (scalar 1) (scalar 2)
cpace-IsPaired_example =
    cpace-IsPaired toy toy_hkdf password (scalar 1) (scalar 2) (scalar 85) (scalar 86) s s'
      toy-IsGroup toy-IsSized start_s start_s' differ

-- What both sides get.
abbrev key : Bytes
key = isk_input s (scalar 87) (scalar 86) []

done : (finish toy s (scalar 86) []).0 ≡ ok key
unfolding finish shared derive bytes_eq
done = refl

done' : (finish toy s' (scalar 85) []).0 ≡ ok key
unfolding finish shared derive bytes_eq isk_input exchange
done' = refl

accepted : verify (finish toy s (scalar 86) []).1 (confirmation toy s key (scalar 86) []) ≡ none
unfolding verify finish shared derive bytes_eq mac lv_cat mac_input isk_input exchange
accepted = refl

tagged : (finish toy s (scalar 86) []).1.tag ≡ some (confirmation toy s key (scalar 85) [])
unfolding finish shared derive bytes_eq
tagged = refl

no_collision : ¬ Collide toy (toy.sha512 (mac_input s.sid key)) (scalar 85) [] (scalar 86) []
unfolding mac lv_cat
no_collision (texts, same) = let heads : 117 ≡ 118 = ap head same in absurd (omega (arith, heads))

plain : s.role ≢ symmetric
plain h = cc

plain' : s'.role ≢ symmetric
plain' h = cc

finish_once_example :
    finish toy (finish toy s (scalar 86) []).1 (scalar 86) []
    ≡ (err already_finished, (finish toy s (scalar 86) []).1)
finish_once_example = finish_once toy s (scalar 86) [] (scalar 86) []

finish_confirms_example :
    (isk : Bytes) × ((finish toy s (scalar 86) []).0 ≡ ok isk)
    × (confirmation toy s key (scalar 86) [] ≡ confirmation toy s isk (scalar 86) [])
finish_confirms_example =
    finish_confirms toy s (scalar 86) [] (confirmation toy s key (scalar 86) []) refl accepted

finish_reflected_example :
    verify (finish toy s (scalar 86) []).1 (confirmation toy s key (scalar 85) [])
    ≡ some not_confirmed
finish_reflected_example =
    finish_reflected toy s (scalar 86) [] key (confirmation toy s key (scalar 85) []) no_collision
      done tagged

finish_same_key_example : (s.sid ≡ s'.sid) × (view s (scalar 86) [] ≡ view s' (scalar 85) [])
finish_same_key_example =
    finish_same_key toy s s' (scalar 86) [] (scalar 85) [] key plain plain'
      (λ k k' secret secret' same. same) done done'

lv_cat_lem_example :
    read_values 2 (lv_cat (codes "ab" ∷ [] ∷ []) ++ codes "rest")
    ≡ some (codes "ab" ∷ [] ∷ [], codes "rest")
lv_cat_lem_example = lv_cat_lem (codes "ab" ∷ [] ∷ []) (codes "rest")

generator_string_injective_example :
    (password ≡ password) × (channel_id ≡ channel_id) × (s.sid ≡ s'.sid)
generator_string_injective_example =
    generator_string_injective password password channel_id channel_id [] [] refl

isk_input_room_example :
    length (isk_input s (scalar 87) (scalar 86) []) ≤ isk_room s (scalar 87) (scalar 86) []
isk_input_room_example =
    isk_input_room s (scalar 87) (scalar 86) [] (omega arith) (omega arith) (omega arith)
      (omega arith) (omega arith) (omega arith)
