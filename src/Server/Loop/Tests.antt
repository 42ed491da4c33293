-- ===== src/Server/Loop/Tests.antt =====
-- Runs of the event loop and of main, and their properties at concrete inputs.
use selfserv.Base.{
  ℕ, ◌≡◌, refl, ap, subst, true, false, Option, none, some, List, [], ◌∷◌, Bytes, codes, arith,
  length, equal, ◌+◌, ◌==◌, if◌then◌else◌,
}
use selfserv.Base.Int.{pos, negsuc}
use selfserv.Config.Data.{ServerConfig, new_server_config}
use selfserv.Http.Request.{new_parser}
use selfserv.Http.Parser.Ready.{IsFresh}
use selfserv.Server.Connection.{new_connection}
use selfserv.Server.Connection.Timeout.{sweep, is_late, is_cgi_late, has_passed}
use selfserv.Server.Samples.{disk, clean}
use selfserv.Server.Output.{Progress}
use selfserv.Server.Readable.Reachable.{Sound}
use selfserv.Server.Descriptor.{Dup}
use selfserv.Server.Clients.{find_client, build_poll_fds}
use selfserv.Server.Event.{client_fd}
use selfserv.Server.Listen.{Calls, open_listening_sockets}
use selfserv.Server.Listen.Kept.{IsOpened, all_succeed, open_listening_sockets-IsOpened}
use selfserv.Server.Loop.{Server, Revents, Entry, dispatch_event, sweep_clients, sweep_server}
use selfserv.Server.Loop.Sound.{Goes, AllFit}
use selfserv.Server.Loop.Rounds.{PollRound, poll_once, poll_timeout, serve, serve-Goes}
use selfserv.Server.Loop.Others.{LeavesAt, dispatch_event-LeavesAt}
use selfserv.Server.Program.{
  status, parse_file, config_path, server_main, RunFits, server_main-status,
}

-- Descriptors are numbered on from the number of those that are open.
abbrev count : Dup
count open_fds = some (100 + length open_fds)

abbrev site : ServerConfig
site = new_server_config (codes "h") (pos 80)

abbrev no_progress : Progress
no_progress = record { taken = 0; output = []; exited = false }

abbrev reading : Revents
reading = record { reads = true; writes = false; hangs_up = false; other = false }

abbrev event : ℕ → Entry
event fd = record {
  fd = fd;
  revents = reading;
  accepts = (9, true) ∷ [];
  time = 2000;
  received = (2000, codes "GET /a") ∷ [];
  system = disk;
  sends = [];
  early = no_progress;
  late = no_progress;
}

-- A server with a listening socket and two connections.
abbrev served : Server
served = record {
  listening = 3 ∷ [];
  clients =
      (5, record new_connection { fd = some 6; created_at_ms = 1000 })
      ∷ (7, record new_connection { fd = some 8; created_at_ms = 1000 })
      ∷ [];
  open_fds = 3 ∷ 6 ∷ 8 ∷ [];
  world = clean;
}

-- poll reports that the first connection can be read.
abbrev one_event : PollRound
one_event = record {
  time_before = 2000;
  poll = λ fds timeout. some (event 5 ∷ []);
  time_behind = 2000;
}

new_parser-IsFresh : IsFresh new_parser
new_parser-IsFresh = record {
  none_consumed = refl;
  chunks_new = refl;
  state_is = tt;
  read_le = omega arith;
}

served-Sound :
    (own created : ℕ)
    → Sound site [] (record new_connection { fd = some own; created_at_ms = created })
unfolding Sound
served-Sound own created = new_parser-IsFresh

abbrev entries_of : Option (List Entry) → List Entry
entries_of none = []
entries_of (some es) = es

served-Fits :
    (es : List Entry)
    → poll_once site [] one_event (pos 1000) served ≡ some es
    → AllFit count site [] es (sweep_server site [] 2000 served)
unfolding poll_once build_poll_fds sweep_clients find_client sweep is_late is_cgi_late has_passed
served-Fits es polled =
    subst (λ xs. AllFit count site [] xs (sweep_server site [] 2000 served)) (ap entries_of polled)
      (omega arith, λ t e. tt)

serve-Goes_example : Goes site [] (serve count site [] (one_event ∷ []) served)
serve-Goes_example =
    serve-Goes count site [] (one_event ∷ []) served
      (λ es polled. (served-Fits es polled, λ t same. tt))
      (served-Sound 6 1000, (served-Sound 8 1000, tt))

dispatch_event-LeavesAt_example :
    LeavesAt site [] 7 served.clients (dispatch_event count site [] (event 5) served)
unfolding find_client client_fd
dispatch_event-LeavesAt_example =
    dispatch_event-LeavesAt count site [] 7 (event 5) served refl refl (λ e. omega (arith, e))
      (λ e. omega (arith, e))

poll_timeout-shorter : poll_timeout (pos 1000) (pos 4) ≡ pos 4
unfolding poll_timeout
poll_timeout-shorter = refl

poll_timeout-none : poll_timeout (pos 1000) (negsuc 0) ≡ pos 1000
unfolding poll_timeout
poll_timeout-none = refl

-- The first server's sockets open, and bind fails for the second.
abbrev calls : ℕ → Calls
calls n = record {
  socket = some (3 + n);
  binds = n == 0;
  listens = true;
  sets_non_blocking = true;
  grows = true;
}

open_listening_sockets-IsOpened_example :
    IsOpened (0 ∷ 1 ∷ 2 ∷ []) (all_succeed calls 0 (site ∷ site ∷ [])) (
      open_listening_sockets count calls 0
        (site ∷ site ∷ [])
        (record { fds = []; open_fds = 0 ∷ 1 ∷ 2 ∷ [] }))
open_listening_sockets-IsOpened_example =
    open_listening_sockets-IsOpened count calls (site ∷ site ∷ []) (0 ∷ 1 ∷ 2 ∷ [])

open_listening_sockets-bind :
    open_listening_sockets count calls 0
      (site ∷ site ∷ [])
      (record { fds = []; open_fds = 0 ∷ 1 ∷ 2 ∷ [] })
    ≡ (false, record { fds = some 104 ∷ []; open_fds = 104 ∷ 0 ∷ 1 ∷ 2 ∷ [] })
unfolding open_listening_sockets
open_listening_sockets-bind = refl

-- The configuration is found where no path is given.
abbrev files : Bytes → Option (List Bytes)
files path =
    if equal path (codes "conf/selfserv.conf") then some (codes "server h 80\n" ∷ []) else none

abbrev accepting : PollRound
accepting = record {
  time_before = 2000;
  poll = λ fds timeout. some (event 104 ∷ []);
  time_behind = 2000;
}

abbrev opened_server : Server
opened_server = record {
  listening = 104 ∷ [];
  clients = [];
  open_fds = 104 ∷ 0 ∷ 1 ∷ 2 ∷ [];
  world = clean;
}

accepting-Fits :
    RunFits count calls
      (0 ∷ 1 ∷ 2 ∷ [])
      clean
      (accepting ∷ [])
      (parse_file (files (config_path (codes "selfserv" ∷ []))))
unfolding parse_file config_path poll_once build_poll_fds sweep_clients find_client
    open_listening_sockets
accepting-Fits es polled = (
  subst (λ xs. AllFit count site [] xs (sweep_server site [] 2000 opened_server))
      (ap entries_of polled) (tt, λ t e. tt),
  λ t same. tt,
)

server_main-status_example :
    status (
      server_main count calls (0 ∷ 1 ∷ 2 ∷ []) clean (accepting ∷ []) files (codes "selfserv" ∷ []))
    ≡ some 0
unfolding parse_file config_path
server_main-status_example =
    server_main-status count calls (0 ∷ 1 ∷ 2 ∷ []) clean (accepting ∷ []) files
      (codes "selfserv" ∷ []) accepting-Fits
