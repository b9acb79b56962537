-- ===== src/Tests/Sharing.antt =====
-- Tests of the daemon.
use cmd.Prelude.{[], ◌∷◌}
use cmd.Mote.Daemon.{Answer, reading, System, accepting, new_daemon, arrive, advance}

-- One client is there, and has not sent its request.
abbrev one_client : System
one_client = record {
  daemon = arrive new_daemon;
  run = accepting;
  next = 1;
  clients = record { id = 0; phase = reading } ∷ [];
}

abbrev after : Answer → System
after a = record {
  daemon = (advance a 0 reading (arrive new_daemon)).0;
  run = accepting;
  next = 1;
  clients = record { id = 0; phase = (advance a 0 reading (arrive new_daemon)).1 } ∷ [];
}
