-- ===== src/Mote/Daemon.antt =====
-- mote/taildaemon.go, the daemon side: one node shared by the clients that connect to its socket.
-- Every critical section of the locks, and every other action that a goroutine takes, is a step.
pub mod Counting
pub mod Consistent
pub mod Clients
pub mod Reachable
pub mod Closing
use cmd.Prelude.{
  ℕ, zero, suc, ◌+◌, ◌≡◌, Bool, true, false, Option, none, some, List, [], ◌∷◌, ◌++◌, Bytes, ◌==◌,
  if◌then◌else◌,
}
use cmd.Prelude.Int.{ℤ, pos, negsuc}

-- daemon, with its log: `active`, `serving`, whether the timer `idle` runs and how many of its
-- callbacks wait for the lock, whether `svc` accepts, and the connection `log.c` by its number.
pub record Daemon : Type 0 where
  pub active : ℤ
  pub serving : Bool
  pub armed : Bool
  pub firing : ℕ
  pub accepts : Bool
  pub log_to : Option ℕ

pub data Request : Type 0 where
  dial : Bytes → Request
  serve stop unexpected : Request

-- Where a goroutine that runs `client` stands: before the request is read; in `dial`, before and
-- after the network answered, and in `proxy`; in `serve`, before the lock, and then with the flag
-- set, the reply written, the log attached, the connection ended, the flag cleared; with the
-- connection closed; and behind `add(-1)`.
pub data Phase : Type 0 where
  reading : Phase
  dialing : Bytes → Phase
  connected proxying : Phase
  asked registered announced attached ending cleared : Phase
  closed departed : Phase

-- What the outside gives a step: a request, or whether what it tries succeeds.
pub data Answer : Type 0 where
  request : Request → Answer
  succeeds fails : Answer

pub record Client : Type 0 where
  pub id : ℕ
  pub phase : Phase

unfoldable pub add_one : ℤ → ℤ
add_one (pos n) = pos (suc n)
add_one (negsuc zero) = pos 0
add_one (negsuc (suc n)) = negsuc n

unfoldable pub sub_one : ℤ → ℤ
sub_one (pos zero) = negsuc 0
sub_one (pos (suc n)) = pos n
sub_one (negsuc n) = negsuc (suc n)

unfoldable pub is_positive : ℤ → Bool
is_positive (pos zero) = false
is_positive (pos (suc n)) = true
is_positive (negsuc n) = false

-- The part of `add` behind the change of `active`: the timer stops or starts again.
unfoldable pub rearm : Daemon → Daemon
rearm d = if is_positive d.active then record d { armed = false } else record d { armed = true }

-- `add(1)` and `add(-1)`
unfoldable pub arrive : Daemon → Daemon
arrive d = rearm (record d { active = add_one d.active })

pub depart : Daemon → Daemon
depart d = rearm (record d { active = sub_one d.active })

-- `expire`, as one of the callbacks that wait.
pub expire : Daemon → Daemon
expire d = if is_positive d.active then d else record d { accepts = false }

-- `stop`
unfoldable pub shut : Daemon → Daemon
shut d = record d { accepts = false }

-- logFanout.attach and logFanout.detach
pub attach : ℕ → Daemon → Daemon
attach c d = record d { log_to = some c }

pub detach : ℕ → Daemon → Daemon
detach c d = elim d.log_to [ none ↦ d | some l ↦ if l == c then record d { log_to = none } else d ]

-- `client`, the switch over the type of the request.
unfoldable pub dispatch : Request → Daemon → Daemon × Phase
dispatch (dial addr) d = (d, dialing addr)
dispatch serve d = (d, asked)
dispatch stop d = (shut d, closed)
dispatch unexpected d = (d, closed)

-- The next action of the client `c`: `client`, `dial` and `serve`.
unfoldable pub advance : Answer → ℕ → Phase → Daemon → Daemon × Phase
unfolding dispatch
advance (request r) c reading d = dispatch r d
advance succeeds c reading d = (d, closed)
advance fails c reading d = (d, closed)
advance fails c (dialing addr) d = (d, closed)
advance _ c (dialing addr) d = (d, connected)
advance fails c connected d = (d, closed)
advance _ c connected d = (d, proxying)
advance _ c proxying d = (d, closed)
advance fails c asked d = (d, closed)
advance _ c asked d = if d.serving then (d, closed) else (record d { serving = true }, registered)
advance fails c registered d = (d, ending)
advance _ c registered d = (d, announced)
advance _ c announced d = (attach c d, attached)
advance fails c attached d = (d, ending)
advance _ c attached d = (d, attached)
advance _ c ending d = (record d { serving = false }, cleared)
advance _ c cleared d = (detach c d, closed)
advance _ c closed d = (depart d, departed)
advance _ c departed d = (d, departed)

-- Where `run` stands: at `Accept`, before and after `add(1)`, at `wg.Wait`, behind its deferred
-- `idle.Stop`, and behind its deferred `svc.Close`, returned.
pub data Run : Type 0 where
  accepting accepted counted draining disarmed returned : Run

-- The daemon with the goroutine of `run` and those of its clients; `next` numbers the connections.
-- The wait group counts the clients that are there.
pub record System : Type 0 where
  pub daemon : Daemon
  pub run : Run
  pub next : ℕ
  pub clients : List Client

-- newDaemon
unfoldable pub new_daemon : Daemon
new_daemon = record {
  active = pos 0;
  serving = false;
  armed = true;
  firing = 0;
  accepts = true;
  log_to = none;
}

unfoldable pub start : System
start = record { daemon = new_daemon; run = accepting; next = 0; clients = [] }

pub data Step : System → System → Type 0 where
  -- `run`: a connection is accepted, counted and served
  accept :
      (d : Daemon) (n : ℕ) (cs : List Client)
      → d.accepts ≡ true
      → Step
          (record { daemon = d; run = accepting; next = n; clients = cs })
          (record { daemon = d; run = accepted; next = n; clients = cs })
  count_in :
      (d : Daemon) (n : ℕ) (cs : List Client)
      → Step
          (record { daemon = d; run = accepted; next = n; clients = cs })
          (record { daemon = arrive d; run = counted; next = n; clients = cs })
  go :
      (d : Daemon) (n : ℕ) (cs : List Client)
      → Step
          (record { daemon = d; run = counted; next = n; clients = cs })
          (record {
            daemon = d;
            run = accepting;
            next = suc n;
            clients = record { id = n; phase = reading } ∷ cs;
          })
  -- `run`: Accept fails, since the socket is closed or for any other reason; the wait group is empty, and
  -- the first deferred call stops the timer; the second closes the socket
  refused :
      (d : Daemon) (n : ℕ) (cs : List Client)
      → Step
          (record { daemon = d; run = accepting; next = n; clients = cs })
          (record { daemon = d; run = draining; next = n; clients = cs })
  waited :
      (d : Daemon) (n : ℕ)
      → Step
          (record { daemon = d; run = draining; next = n; clients = [] })
          (record { daemon = record d { armed = false }; run = disarmed; next = n; clients = [] })
  finished :
      (d : Daemon) (n : ℕ) (cs : List Client)
      → Step
          (record { daemon = d; run = disarmed; next = n; clients = cs })
          (record { daemon = shut d; run = returned; next = n; clients = cs })
  -- the timer fires, and its callback gets the lock
  fire :
      (d : Daemon) (r : Run) (n : ℕ) (cs : List Client)
      → d.armed ≡ true
      → Step
          (record { daemon = d; run = r; next = n; clients = cs })
          (record {
            daemon = record d { armed = false; firing = suc d.firing };
            run = r;
            next = n;
            clients = cs;
          })
  callback :
      (d : Daemon) (k : ℕ) (r : Run) (n : ℕ) (cs : List Client)
      → d.firing ≡ suc k
      → Step
          (record { daemon = d; run = r; next = n; clients = cs })
          (record { daemon = expire (record d { firing = k }); run = r; next = n; clients = cs })
  -- a client takes its next action, and its goroutine ends with `wg.Done`
  act :
      (d : Daemon) (r : Run) (n : ℕ) (xs ys : List Client) (c : Client) (a : Answer)
      → Step
          (record { daemon = d; run = r; next = n; clients = xs ++ c ∷ ys })
          (record {
            daemon = (advance a c.id c.phase d).0;
            run = r;
            next = n;
            clients = xs ++ record { id = c.id; phase = (advance a c.id c.phase d).1 } ∷ ys;
          })
  leave :
      (d : Daemon) (r : Run) (n c : ℕ) (xs ys : List Client)
      → Step
          (record {
            daemon = d;
            run = r;
            next = n;
            clients = xs ++ record { id = c; phase = departed } ∷ ys;
          })
          (record { daemon = d; run = r; next = n; clients = xs ++ ys })

-- The states that any interleaving leads to.
pub data IsReachable : System → Type 0 where
  begins : IsReachable start
  goes_on : (s t : System) → IsReachable s → Step s t → IsReachable t
