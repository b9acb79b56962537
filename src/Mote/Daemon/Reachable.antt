-- ===== src/Mote/Daemon/Reachable.antt =====
-- What holds in every state of the daemon that an interleaving of its steps leads to.
use cmd.Mote.Daemon.{Daemon, System}
use cmd.Mote.Daemon.Consistent.{Valid}

abbrev pub IsValid : System → Type 0
IsValid s = Valid s.daemon s.run s.next s.clients
