-- ===== src/Mote/Daemon/Consistent.antt =====
-- The state of the daemon against its clients.
use cmd.Prelude.{ℕ, ◌+◌, ◌≤◌, ◌<◌, ◌≡◌, ◌⊎◌, Bool, true, false, some, List}
use cmd.Prelude.Int.{pos}
use cmd.Mote.Daemon.{Daemon, Client, Run, counted, disarmed, returned}
use cmd.Mote.Daemon.Counting.{
  bit, count, everyone, is_active, is_server, has_id, is_newer, is_stray, may_log,
}

-- A client that is counted and not yet served.
abbrev pub pending : Run → ℕ
pending counted = 1
pending _ = 0

-- Behind the wait, where no client is left.
abbrev pub is_over : Run → Bool
is_over disarmed = true
is_over returned = true
is_over _ = false

-- The state of the daemon against the clients: how many there are, are counted, serve, have a number
-- not given out yet, are attached to a log that goes elsewhere, have a number, and may be logged to.
pub record Consistent (d : Daemon) (r : Run) (all active servers newer strays : ℕ)
    (ids logs : ℕ → ℕ) : Type 0 where
  pub active_eq : d.active ≡ pos (active + pending r)
  pub server_eq : servers ≡ bit d.serving
  pub unique : (i : ℕ) → ids i ≤ 1
  pub no_newer : newer ≡ 0
  pub no_stray : strays ≡ 0
  pub log_open : (i : ℕ) → d.log_to ≡ some i → 1 ≤ logs i
  pub timer : d.armed ≡ true → active + pending r ≡ 0
  pub idle :
      is_over r ≡ false
      → d.accepts ≡ true
      → active + pending r ≡ 0
      → (d.armed ≡ true) ⊎ (0 < d.firing)
  pub over : r ≡ returned → d.accepts ≡ false
  pub empty : is_over r ≡ true → all ≡ 0

abbrev pub Valid : Daemon → Run → ℕ → List Client → Type 0
Valid d r n cs =
    Consistent d r (count everyone cs) (count is_active cs) (count is_server cs)
      (count (is_newer n) cs) (count (is_stray d.log_to) cs) (λ i. count (has_id i) cs)
      (λ i. count (may_log i) cs)
