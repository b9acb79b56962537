-- ===== src/Mote/Cpace/Rooms.antt =====
-- cpace.go: the buffers that hold secrets, which the code clears, are never outgrown.
use cmd.Prelude.{
  ◌+◌, ◌*◌, ◌^◌, ◌≤◌, ◌<◌, ◌≡◌, [], ◌∷◌, arith, Bytes, length, length-append, Bool-cases, inl, inr,
}
use cmd.Prelude.Text.{bytes_ltb}
use cmd.Mote.Cpace.{
  Role, initiator, responder, symmetric, other, State, dsi_isk, lv_cat, o_cat, transcript, ordered,
  exchange, isk_input, isk_room, max_len_prefix,
}
use cmd.Mote.Cpace.Padding.{length-lv_cat, length-lv_cat_nil, length-prepend_len_le}

length-o_cat : (v w : Bytes) → length (o_cat v w) ≡ 2 + length v + length w
unfolding o_cat
length-o_cat v w = elim (Bool-cases (bytes_ltb v w)) [
  | inl less ↦ rw less (omega (arith, length-append w v))
  | inr more ↦ rw more (omega (arith, length-append v w))
]

length_two :
    (v w : Bytes)
    → length v < 2 ^ 63
    → length w < 2 ^ 63
    → length (lv_cat (v ∷ w ∷ [])) ≤ 2 * max_len_prefix + length v + length w
length_two v w hv hw = omega (
  arith,
  length-lv_cat v (w ∷ []),
  length-lv_cat w [],
  length-lv_cat_nil,
  length-prepend_len_le v hv,
  length-prepend_len_le w hw,
)

module _ (y ad y' ad' : Bytes) (hy : length y < 2 ^ 63) (ha : length ad < 2 ^ 63)
    (hy' : length y' < 2 ^ 63) (ha' : length ad' < 2 ^ 63) where
  first_two : length (lv_cat (y ∷ ad ∷ [])) ≤ 2 * max_len_prefix + length y + length ad
  first_two = length_two y ad hy ha

  last_two : length (lv_cat (y' ∷ ad' ∷ [])) ≤ 2 * max_len_prefix + length y' + length ad'
  last_two = length_two y' ad' hy' ha'

  length-exchange :
      (role : Role)
      → length (exchange role y ad y' ad')
        ≤ 4 * max_len_prefix + 2 + length y + length ad + length y' + length ad'
  unfolding exchange ordered transcript
  length-exchange initiator =
      omega
        (arith, first_two, last_two, length-append (lv_cat (y ∷ ad ∷ [])) (lv_cat (y' ∷ ad' ∷ [])))
  length-exchange responder =
      omega
        (arith, first_two, last_two, length-append (lv_cat (y' ∷ ad' ∷ [])) (lv_cat (y ∷ ad ∷ [])))
  length-exchange symmetric =
      omega
        (arith, first_two, last_two, length-o_cat (lv_cat (y ∷ ad ∷ [])) (lv_cat (y' ∷ ad' ∷ [])))
  length-exchange other =
      omega
        (arith, first_two, last_two, length-append (lv_cat (y ∷ ad ∷ [])) (lv_cat (y' ∷ ad' ∷ [])))

-- The buffer that Finish allocates for the hash of the shared secret holds all that is put in it.
pub isk_input_room :
    (s : State) (k msg ad : Bytes)
    → length s.sid < 2 ^ 63
    → length k < 2 ^ 63
    → length s.msg < 2 ^ 63
    → length s.ad < 2 ^ 63
    → length msg < 2 ^ 63
    → length ad < 2 ^ 63
    → length (isk_input s k msg ad) ≤ isk_room s k msg ad
unfolding isk_input isk_room
isk_input_room s k msg ad hs hk hm ha hm' ha' =
    let b = lv_cat (dsi_isk ∷ s.sid ∷ k ∷ []) in
    let x = exchange s.role s.msg s.ad msg ad in
    omega (
      arith,
      length-append b x,
      length-exchange s.msg s.ad msg ad hm ha hm' ha' s.role,
      length-lv_cat dsi_isk (s.sid ∷ k ∷ []),
      length-prepend_len_le dsi_isk (omega arith),
      length-prepend_len_le s.sid hs,
      length-lv_cat s.sid (k ∷ []),
      length_two s.sid k hs hk,
    )
