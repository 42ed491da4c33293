-- ===== src/Server/Loop.antt =====
-- PollOnce, ProcessEvents and Shutdown of docs/server/Server.cpp, and the loop of docs/main.cpp. What
-- the system gives during the handling of an entry is an argument.
pub mod Kept
pub mod Sound
pub mod Others
pub mod Rounds
mod Tests
use selfserv.Base.{
  ℕ, Bool, true, false, not, ◌&&◌, ◌||◌, Option, none, some, List, [], ◌∷◌, ◌==◌, ltb, map,
  if◌then◌else◌, Bytes,
}
use selfserv.Base.Int.{ℤ, pos, negsuc}
use selfserv.Config.Data.{ServerConfig}
use selfserv.Server.Connection.{ClientConnection}
use selfserv.Server.Connection.Writable.{After, still, closed, handle_writable}
use selfserv.Server.Connection.Timeout.{sweep, is_cgi_late, compute_poll_timeout}
use selfserv.Server.System.{System, World}
use selfserv.Server.Handle.{Handled}
use selfserv.Server.Output.{Progress}
use selfserv.Server.Readable.{Read, read, threw, handle_readable}
use selfserv.Server.Descriptor.{Dup, close_if_valid}
use selfserv.Server.Clients.{
  Clients, PollFd, find_client, set_client, close_connection, fd_of, accept_new, build_poll_fds,
}
use selfserv.Server.Event.{reap, client_fd, handle_cgi_event}

-- The members of class Server that change, with the open descriptors of the process.
pub record Server : Type 0 where
  pub listening : List ℕ
  pub clients : Clients
  pub open_fds : List ℕ
  pub world : World

-- revents; `hangs_up` is POLLHUP or POLLERR, `other` any further bit.
pub record Revents : Type 0 where
  pub reads : Bool
  pub writes : Bool
  pub hangs_up : Bool
  pub other : Bool

abbrev pub is_set : Revents → Bool
is_set r = r.reads || r.writes || r.hangs_up || r.other

-- An entry of m_pfds behind poll, with what the system gives while it is handled: the descriptors of
-- accept with what setNonBlocking returns, the time, and what the calls of the handlers return.
pub record Entry : Type 0 where
  pub fd : ℕ
  pub revents : Revents
  pub accepts : List (ℕ × Bool)
  pub time : ℕ
  pub received : List (ℕ × Bytes)
  pub system : System
  pub sends : List ℕ
  pub early : Progress
  pub late : Progress

-- `left`: an exception of Parse went through ProcessEvents.
pub data Dispatched : Type 0 where
  went : Server → Dispatched
  left : Dispatched

-- What comes behind an entry, unless an exception was thrown.
abbrev pub then_dispatch : Dispatched → (Server → Dispatched) → Dispatched
then_dispatch left f = left
then_dispatch (went s) f = f s

abbrev pub is_listening : ℕ → List ℕ → Bool
is_listening fd [] = false
is_listening fd (n ∷ ns) = n == fd || is_listening fd ns

-- CloseConnection, with the destructor of the connection.
unfoldable pub close_client : Option ℕ → Server → Server
unfolding find_client close_connection
close_client none s = s
close_client (some fd) s = record s {
  clients = close_connection fd s.clients;
  open_fds = close_if_valid (fd_of (find_client fd s.clients)) s.open_fds;
}

abbrev pub accept_entry : Dup → Entry → Server → Server
accept_entry dup e s =
    let (open_now, clients) = accept_new dup e.time e.accepts (s.open_fds, s.clients) in
    record s { open_fds = open_now; clients = clients }

abbrev pub program_entry : Entry → Server → Server
program_entry e s =
    let (going, clients, w) =
      handle_cgi_event e.revents.hangs_up e.early e.late e.fd s.clients s.world in
    record s { clients = clients; world = w }

-- it->second behind a handler
abbrev pub put_client : ℕ → ClientConnection → Server → Server
put_client fd conn s = record s { clients = set_client fd conn s.clients }

-- The connection is in the map with what HandleWritable has made of it, and CloseConnection erases what
-- stands under the descriptor that it holds, which may be another or nothing.
abbrev pub after_writable : ℕ → After → Server → Server
after_writable key (still conn) s = put_client key conn s
after_writable key (closed conn) s = close_client conn.fd (put_client key conn s)

abbrev pub writable_entry : Bool → Entry → ClientConnection → Server → Server
writable_entry false e conn s = s
writable_entry true e conn s = after_writable e.fd (handle_writable e.sends conn) s

abbrev pub hang_up_entry : Bool → ℕ → Server → Server
hang_up_entry hangs_up fd s = if hangs_up then close_client (some fd) s else s

-- Behind HandleReadable, or in its place.
abbrev pub after_readable : Entry → ClientConnection → Server → Server
after_readable e conn s =
    hang_up_entry e.revents.hangs_up e.fd (writable_entry e.revents.writes e conn s)

module _ (first : ServerConfig) (others : List ServerConfig) where
  abbrev pub by_read : Entry → Server → Read → Dispatched
  by_read e s threw = left
  by_read e s (read (conn, w)) =
      went (after_readable e conn (put_client e.fd conn (record s { world = w })))

  abbrev pub client_entry : Bool → Entry → ClientConnection → Server → Dispatched
  client_entry true e conn s =
      by_read e s (handle_readable e.system first others e.received conn s.world)
  client_entry false e conn s = went (after_readable e conn s)

  abbrev pub found_entry : Entry → Option ClientConnection → Server → Dispatched
  found_entry e none s = went s
  found_entry e (some conn) s = client_entry e.revents.reads e conn s

  abbrev pub known_entry : Entry → Option (Option ℕ) → Server → Dispatched
  known_entry e none s = found_entry e (find_client e.fd s.clients) s
  known_entry e (some client) s = went (program_entry e s)

  -- The first loop of ProcessEvents: the connections, and what ReapCgi does to the system.
  unfoldable pub sweep_clients : ℕ → Clients → Clients
  unfolding sweep
  sweep_clients now [] = []
  sweep_clients now ((key, conn) ∷ clients) =
      (key, sweep first others now conn) ∷ sweep_clients now clients

  unfoldable pub sweep_world : ℕ → Clients → World → World
  unfolding is_cgi_late reap
  sweep_world now [] w = w
  sweep_world now ((key, conn) ∷ clients) w =
      sweep_world now clients (if is_cgi_late first others now conn then (reap conn w).1 else w)

  abbrev pub sweep_server : ℕ → Server → Server
  sweep_server now s = record s {
    clients = sweep_clients now s.clients;
    world = sweep_world now s.clients s.world;
  }

module _ (dup : Dup) (first : ServerConfig) (others : List ServerConfig) where
  -- The body of the second loop of ProcessEvents.
  unfoldable pub dispatch_event : Entry → Server → Dispatched
  unfolding close_client find_client set_client accept_new handle_cgi_event handle_readable
      handle_writable client_fd
  dispatch_event e s =
      if not (is_set e.revents)
      then went s
      else if is_listening e.fd s.listening
      then if e.revents.reads
        then went (accept_entry dup e s)
        else found_entry first others e (find_client e.fd s.clients) s
      else known_entry first others e (client_fd e.fd s.world.cgi_clients) s

  unfoldable pub dispatch_all : List Entry → Server → Dispatched
  unfolding dispatch_event
  dispatch_all [] s = went s
  dispatch_all (e ∷ es) s = then_dispatch (dispatch_event e s) (λ t. dispatch_all es t)

  -- ProcessEvents
  unfoldable pub process_events : ℕ → List Entry → Server → Dispatched
  unfolding sweep_clients sweep_world dispatch_all
  process_events now es s = dispatch_all es (sweep_server first others now s)
