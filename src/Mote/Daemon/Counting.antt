-- ===== src/Mote/Daemon/Counting.antt =====
-- How many clients there are of each kind.
use cmd.Prelude.{
  ℕ, zero, suc, ◌↔◌, ◌+◌, ◌≤◌, ◌≡◌, refl, ◌⊎◌, inl, inr, Bool, true, false, not, ◌&&◌, Option, none,
  some, List, [], ◌∷◌, ◌++◌, arith, ◌==◌, Bool-cases, leb,
}
use cmd.Mote.Daemon.{
  Phase, reading, dialing, connected, proxying, asked, registered, announced, attached, ending,
  cleared, closed, departed, Client,
}

abbrev pub bit : Bool → ℕ
bit true = 1
bit false = 0

abbrev pub count : (Client → Bool) → List Client → ℕ
count p [] = 0
count p (c ∷ cs) = bit (p c) + count p cs

pub count-middle :
    (p : Client → Bool) (xs ys : List Client) (c : Client)
    → count p (xs ++ c ∷ ys) ≡ count p (c ∷ (xs ++ ys))
count-middle p [] ys c = refl
count-middle p (x ∷ xs) ys c = omega (arith, count-middle p xs ys c)

-- Who is of one kind is of one of two others.
pub count-le :
    (p q r : Client → Bool)
    → ((c : Client) → p c ≡ true → (q c ≡ true) ⊎ (r c ≡ true))
    → (cs : List Client) → count p cs ≤ count q cs + count r cs
count-le p q r h [] = omega arith
count-le p q r h (c ∷ cs) =
    let rest = count-le p q r h cs in
    elim (Bool-cases (p c)) [
      | inr e ↦ rw e (omega arith)
      | inl e ↦ elim (h c e) [ inl f ↦ rw (e, f) (omega arith) | inr f ↦ rw (e, f) (omega arith) ]
    ]

abbrev pub everyone : Client → Bool
everyone c = true

-- Counted in `active`.
abbrev pub counts : Phase → Bool
counts departed = false
counts _ = true

-- Between the two changes of `serving`.
abbrev pub serves : Phase → Bool
serves registered = true
serves announced = true
serves attached = true
serves ending = true
serves _ = false

-- Attached to the log.
abbrev pub logs : Phase → Bool
logs attached = true
logs _ = false

-- May still be logged to: it has not detached from the log and closed its connection.
abbrev pub opens : Phase → Bool
opens attached = true
opens ending = true
opens cleared = true
opens _ = false

pub logs-serves : (p : Phase) → logs p ≡ true → serves p ≡ true
logs-serves reading h = cc
logs-serves (dialing addr) h = cc
logs-serves connected h = cc
logs-serves proxying h = cc
logs-serves asked h = cc
logs-serves registered h = refl
logs-serves announced h = refl
logs-serves attached h = refl
logs-serves ending h = refl
logs-serves cleared h = cc
logs-serves closed h = cc
logs-serves departed h = cc

abbrev pub is_active : Client → Bool
is_active c = counts c.phase

abbrev pub is_server : Client → Bool
is_server c = serves c.phase

abbrev pub is_zero : ℕ → Bool
is_zero zero = true
is_zero (suc n) = false

pub is_zero_iff : (n : ℕ) → (is_zero n ≡ true) ↔ (n ≡ 0)
is_zero_iff zero = ((λ _. refl), (λ _. refl))
is_zero_iff (suc n) = ((λ h. cc), (λ h. absurd (omega arith)))

pub bit-le : (b : Bool) → bit b ≤ 1
bit-le true = omega arith
bit-le false = omega arith

abbrev pub has_id : ℕ → Client → Bool
has_id i c = c.id == i

abbrev pub is_newer : ℕ → Client → Bool
is_newer n c = leb n c.id

abbrev pub logs_to : Option ℕ → ℕ → Bool
logs_to none i = false
logs_to (some l) i = l == i

-- Attached, but the log goes elsewhere.
abbrev pub is_stray : Option ℕ → Client → Bool
is_stray l c = logs c.phase && not (logs_to l c.id)

abbrev pub may_log : ℕ → Client → Bool
may_log i c = opens c.phase && has_id i c
