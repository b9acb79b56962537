-- ===== src/Mote/Daemon/Closing.antt =====
-- Why the daemon closes its socket.
use cmd.Prelude.{ℕ, suc, ◌≡◌, List, [], ◌∷◌, ◌++◌}
use cmd.Prelude.Int.{pos}
use cmd.Mote.Daemon.{
  Daemon, stop, reading, request, Client, expire, advance, disarmed, returned, System, waited,
}

-- A client that has not sent its request yet sends Stop, and nothing else changes.
pub record IsStopped (s t : System) : Type 0 where
  pub client : Client
  pub before : List Client
  pub behind : List Client
  pub was : s.clients ≡ before ++ client ∷ behind
  pub waited : client.phase ≡ reading
  pub stopped : t.daemon ≡ (advance (request stop) client.id reading s.daemon).0

-- A callback of the idle timer that waited for the lock gets it while no client is active, and nothing
-- else changes.
pub record IsExpired (s t : System) : Type 0 where
  pub left : ℕ
  pub waited : s.daemon.firing ≡ suc left
  pub alone : s.daemon.active ≡ pos 0
  pub expired : t.daemon ≡ expire (record s.daemon { firing = left })
  pub same_run : t.run ≡ s.run
  pub same_clients : t.clients ≡ s.clients

-- `run` returns, when it has waited for all clients.
pub record IsFinished (s t : System) : Type 0 where
  pub disarms : s.run ≡ disarmed
  pub returns : t.run ≡ returned
  pub alone : s.clients ≡ []
