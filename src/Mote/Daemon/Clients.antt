-- ===== src/Mote/Daemon/Clients.antt =====
-- What the actions of the clients keep true.
use cmd.Prelude.{
  ℕ, zero, suc, ◌+◌, ◌≤◌, ◌≡◌, refl, sym, ap, ◌∙◌, ◌⊎◌, inl, inr, Bool, true, false, not, ◌&&◌,
  Option, none, some, List, ◌∷◌, arith, ◌==◌, ==_iff, if◌then◌else◌, if_true, if_false, Bool-cases,
  Option-cases,
}
use mathlib.Core.Path.{subst}
use cmd.Prelude.Int.{pos}
use cmd.Mote.Daemon.{
  Daemon, dial, serve, stop, unexpected, Phase, reading, dialing, connected, proxying, asked,
  registered, announced, attached, ending, cleared, closed, departed, Answer, request, succeeds,
  fails, Client, sub_one, is_positive, rearm, depart, shut, attach, detach, dispatch, advance, Run,
}
use cmd.Mote.Daemon.Counting.{
  bit, count, count-le, is_active, is_server, logs-serves, logs, is_zero, is_zero_iff, bit-le,
  has_id, logs_to, is_stray,
}
use cmd.Mote.Daemon.Consistent.{pending, Valid}

pub same : (i : ℕ) → (i == i) ≡ true
same i = ground arith

and_left : (a b : Bool) → (a && b) ≡ true → a ≡ true
and_left true b h = refl
and_left false b h = h

stray-server : (l : Option ℕ) (c : Client) → is_stray l c ≡ true → is_server c ≡ true
stray-server l c h = logs-serves c.phase (and_left _ _ h)

depart_eq :
    (d : Daemon) (m : ℕ)
    → d.active ≡ pos (suc m)
    → depart d ≡ record d { active = pos m; armed = is_zero m }
unfolding depart rearm is_positive sub_one
depart_eq d zero e = λ i. rearm (record d { active = sub_one (e i) })
depart_eq d (suc m) e = λ i. rearm (record d { active = sub_one (e i) })

module _ (r : Run) (n : ℕ) (zs : List Client) (c : ℕ) (d : Daemon) where
  abbrev At : Phase → Type 0
  At p = Valid d r n (record { id = c; phase = p } ∷ zs)

  abbrev After : Daemon → Phase → Type 0
  After d' p = Valid d' r n (record { id = c; phase = p } ∷ zs)

  shut-Valid : At reading → After (shut d) closed
  unfolding shut
  shut-Valid v = record {
    active_eq = v.active_eq;
    server_eq = v.server_eq;
    unique = v.unique;
    no_newer = v.no_newer;
    no_stray = v.no_stray;
    log_open = v.log_open;
    timer = v.timer;
    idle = λ o e z. cc;
    over = λ e. refl;
    empty = v.empty;
  }

  register-Valid : d.serving ≡ false → At asked → After (record d { serving = true }) registered
  register-Valid e v =
      let none_yet : bit d.serving ≡ 0 = ap bit e in
      record {
        active_eq = v.active_eq;
        server_eq = omega (arith, v.server_eq);
        unique = v.unique;
        no_newer = v.no_newer;
        no_stray = v.no_stray;
        log_open = v.log_open;
        timer = v.timer;
        idle = v.idle;
        over = v.over;
        empty = v.empty;
      }

  attach-Valid : At announced → After (attach c d) attached
  unfolding attach
  attach-Valid v =
      let others =
        count-le (is_stray (some c)) is_server is_server (λ x h. inl (stray-server (some c) x h))
          zs in
      let one : bit d.serving ≤ 1 = bit-le d.serving in
      record {
        active_eq = v.active_eq;
        server_eq = v.server_eq;
        unique = v.unique;
        no_newer = v.no_newer;
        no_stray = omega (arith, v.server_eq, others, one, ap (λ b. bit (not b)) (same c));
        log_open = λ i e. let own : c ≡ i = cc in omega (arith, ap bit ((==_iff c i).1 own));
        timer = v.timer;
        idle = v.idle;
        over = v.over;
        empty = v.empty;
      }

  end-Valid : At attached → After d ending
  end-Valid v = record {
    active_eq = v.active_eq;
    server_eq = v.server_eq;
    unique = v.unique;
    no_newer = v.no_newer;
    no_stray = omega (arith, v.no_stray);
    log_open = v.log_open;
    timer = v.timer;
    idle = v.idle;
    over = v.over;
    empty = v.empty;
  }

  -- The reply was not written.
  unreplied-Valid : At registered → After d ending
  unreplied-Valid v = record {
    active_eq = v.active_eq;
    server_eq = v.server_eq;
    unique = v.unique;
    no_newer = v.no_newer;
    no_stray = v.no_stray;
    log_open = λ i e. omega (arith, v.log_open i e);
    timer = v.timer;
    idle = v.idle;
    over = v.over;
    empty = v.empty;
  }

  clear-Valid : At ending → After (record d { serving = false }) cleared
  clear-Valid v = record {
    active_eq = v.active_eq;
    server_eq = omega (arith, v.server_eq, bit-le d.serving);
    unique = v.unique;
    no_newer = v.no_newer;
    no_stray = v.no_stray;
    log_open = v.log_open;
    timer = v.timer;
    idle = v.idle;
    over = v.over;
    empty = v.empty;
  }

  depart-Valid : At closed → After (depart d) departed
  depart-Valid v =
      let m = count is_active (record { id = c; phase = departed } ∷ zs) + pending r in
      let e : d.active ≡ pos (suc m) = v.active_eq ∙ ap pos (omega arith) in
      subst (λ t. After t departed) (sym (depart_eq d m e))
        (record {
          active_eq = refl;
          server_eq = v.server_eq;
          unique = v.unique;
          no_newer = v.no_newer;
          no_stray = v.no_stray;
          log_open = v.log_open;
          timer = (is_zero_iff m).0;
          idle = λ o a z. inl ((is_zero_iff m).1 z);
          over = v.over;
          empty = v.empty;
        })

  -- The log goes to another client, or nowhere: nothing changes.
  keep-Valid : ((i : ℕ) → d.log_to ≡ some i → (c == i) ≡ false) → At cleared → After d closed
  keep-Valid other v = record {
    active_eq = v.active_eq;
    server_eq = v.server_eq;
    unique = v.unique;
    no_newer = v.no_newer;
    no_stray = v.no_stray;
    log_open = λ i e. omega (arith, v.log_open i e, ap bit (other i e));
    timer = v.timer;
    idle = v.idle;
    over = v.over;
    empty = v.empty;
  }

  -- A client attached to a log that goes nowhere was attached to one that went elsewhere, or is `c`.
  drop-stray :
      (l : ℕ)
      → d.log_to ≡ some l
      → (l == c) ≡ true
      → (x : Client) → is_stray none x ≡ true
      → (is_stray d.log_to x ≡ true) ⊎ (has_id c x ≡ true)
  drop-stray l to own x h = elim (Bool-cases (x.id == c)) [
    | inl f ↦ inr f
    | inr f ↦
        let elsewhere : (l == x.id) ≡ false = ground arith in
        inl (
          ap (λ t. logs x.phase && not (logs_to t x.id)) to
          ∙ ap (λ b. logs x.phase && not b) elsewhere
          ∙ h)
  ]

  drop-Valid :
      (l : ℕ)
      → d.log_to ≡ some l
      → (l == c) ≡ true
      → At cleared
      → After (record d { log_to = none }) closed
  drop-Valid l to own v =
      let stray_or_own =
        count-le (is_stray none) (is_stray d.log_to) (has_id c) (drop-stray l to own) zs in
      record {
        active_eq = v.active_eq;
        server_eq = v.server_eq;
        unique = v.unique;
        no_newer = v.no_newer;
        no_stray = omega (arith, v.no_stray, stray_or_own, v.unique c, ap bit (same c));
        log_open = λ i e. cc;
        timer = v.timer;
        idle = v.idle;
        over = v.over;
        empty = v.empty;
      }

  detach-Valid : At cleared → After (detach c d) closed
  unfolding detach
  detach-Valid v =
      let leaves : Option ℕ → Daemon =
        λ t. elim t [ none ↦ d | some m ↦ if m == c then record d { log_to = none } else d ] in
      elim (Option-cases d.log_to) [
        | inl e ↦
            let kept : detach c d ≡ d = ap leaves e in
            subst (λ t. After t closed) (sym kept) (keep-Valid (λ i f. cc) v)
        | inr (l, e) ↦ elim (Bool-cases (l == c)) [
          | inl own ↦
              let dropped : detach c d ≡ record d { log_to = none } =
                ap leaves e ∙ if_true _ _ own in
              subst (λ t. After t closed) (sym dropped) (drop-Valid l e own v)
          | inr other ↦
              let kept : detach c d ≡ d = ap leaves e ∙ if_false _ _ other in
              subst (λ t. After t closed) (sym kept)
                (keep-Valid (λ i f. let l_i : l ≡ i = cc in ground arith) v)
        ]
      ]

  ask-Valid :
      At asked
      → (o : Daemon × Phase)
      → (if d.serving then (d, closed) else (record d { serving = true }, registered)) ≡ o
      → After o.0 o.1
  ask-Valid v o e =
      subst (λ (t : Daemon × Phase). After t.0 t.1) e
        (elim (Bool-cases d.serving) [
          | inl busy ↦ subst (λ (t : Daemon × Phase). After t.0 t.1) (sym (if_true _ _ busy)) v
          | inr free ↦
              subst (λ (t : Daemon × Phase). After t.0 t.1) (sym (if_false _ _ free))
                (register-Valid free v)
        ])

  pub advance-Valid :
      (a : Answer) (p : Phase) → At p → After (advance a c p d).0 (advance a c p d).1
  unfolding advance dispatch
  advance-Valid (request (dial addr)) reading v = v
  advance-Valid (request serve) reading v = v
  advance-Valid (request stop) reading v = shut-Valid v
  advance-Valid (request unexpected) reading v = v
  advance-Valid succeeds reading v = v
  advance-Valid fails reading v = v
  advance-Valid fails (dialing addr) v = v
  advance-Valid succeeds (dialing addr) v = v
  advance-Valid (request q) (dialing addr) v = v
  advance-Valid fails connected v = v
  advance-Valid succeeds connected v = v
  advance-Valid (request q) connected v = v
  advance-Valid a proxying v = v
  advance-Valid fails asked v = v
  advance-Valid succeeds asked v = ask-Valid v _ refl
  advance-Valid (request q) asked v = ask-Valid v _ refl
  advance-Valid fails registered v = unreplied-Valid v
  advance-Valid succeeds registered v = v
  advance-Valid (request q) registered v = v
  advance-Valid a announced v = attach-Valid v
  advance-Valid fails attached v = end-Valid v
  advance-Valid succeeds attached v = v
  advance-Valid (request q) attached v = v
  advance-Valid a ending v = clear-Valid v
  advance-Valid a cleared v = detach-Valid v
  advance-Valid a closed v = depart-Valid v
  advance-Valid a departed v = v
