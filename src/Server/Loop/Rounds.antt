-- ===== src/Server/Loop/Rounds.antt =====
-- PollOnce and Shutdown of docs/server/Server.cpp, and the loop of docs/main.cpp, which calls them
-- under the names pollOnce, processEvents and shutdown.
use selfserv.Base.{ℕ, ◌≡◌, refl, Option, none, some, List, [], ◌∷◌, ltb, if◌then◌else◌}
use selfserv.Base.Int.{ℤ, pos, negsuc}
use selfserv.Config.Data.{ServerConfig}
use selfserv.Server.Connection.{ClientConnection}
use selfserv.Server.Connection.Timeout.{compute_poll_timeout}
use selfserv.Server.Descriptor.{Dup, close, close_if_valid}
use selfserv.Server.Clients.{Clients, PollFd, build_poll_fds}
use selfserv.Server.Loop.{
  Server, Entry, Dispatched, went, then_dispatch, sweep_server, process_events,
}
use selfserv.Server.Loop.Sound.{Goes, AllFit, then_dispatch-Goes, process_events-Goes}
use selfserv.Server.Loop.Kept.{AllSound}

-- dyn, where it is not negative and timeoutMs is negative or above it; and else timeoutMs
unfoldable pub poll_timeout : ℤ → ℤ → ℤ
poll_timeout timeout (negsuc n) = timeout
poll_timeout (negsuc t) (pos n) = pos n
poll_timeout (pos t) (pos n) = if ltb n t then pos n else pos t

-- What the system gives in one turn of the loop: the time when ComputePollTimeout asks for it and when
-- ProcessEvents does, and poll, which gives `none` where it fails, and else the array with the bits
-- that are set, and what comes of the handling of each entry.
pub record PollRound : Type 0 where
  pub time_before : ℕ
  pub poll : List PollFd → ℤ → Option (List Entry)
  pub time_behind : ℕ

abbrev pub connections : Clients → List ClientConnection
connections [] = []
connections ((key, conn) ∷ clients) = conn ∷ connections clients

-- Where m_pfds is empty, poll is not called, and ProcessEvents finds no entry.
abbrev pub poll_unless_empty : List PollFd → PollRound → ℤ → Option (List Entry)
poll_unless_empty [] r timeout = some []
poll_unless_empty (p ∷ ps) r timeout = r.poll (p ∷ ps) timeout

module _ (first : ServerConfig) (others : List ServerConfig) where
  -- PollOnce; `none` is false.
  unfoldable pub poll_once : PollRound → ℤ → Server → Option (List Entry)
  unfolding build_poll_fds compute_poll_timeout poll_timeout
  poll_once r timeout s = poll_unless_empty (build_poll_fds s.listening s.clients) r (
      poll_timeout timeout
        (compute_poll_timeout first others r.time_before (connections s.clients)))

-- The ends of the objects that a list holds: the connections, and the listening sockets.
unfoldable pub end_clients : Clients → List ℕ → List ℕ
unfolding close
end_clients [] open_fds = open_fds
end_clients ((key, conn) ∷ clients) open_fds = end_clients clients (close_if_valid conn.fd open_fds)

unfoldable pub end_listening : List ℕ → List ℕ → List ℕ
unfolding close
end_listening [] open_fds = open_fds
end_listening (fd ∷ fds) open_fds = end_listening fds (close fd open_fds)

-- Shutdown
unfoldable pub shutdown : Server → Server
unfolding end_clients end_listening
shutdown s = record s {
  clients = [];
  listening = [];
  open_fds = end_listening s.listening (end_clients s.clients s.open_fds);
}

module _ (dup : Dup) (first : ServerConfig) (others : List ServerConfig) where
  abbrev pub by_poll : Option (List Entry) → ℕ → Server → (Server → Dispatched) → Dispatched
  by_poll none now s rest = went s
  by_poll (some es) now s rest = then_dispatch (process_events dup first others now es s) rest

  -- The loop of main, with the turns that it makes before g_running is 0.
  unfoldable pub serve : List PollRound → Server → Dispatched
  unfolding poll_once process_events
  serve [] s = went s
  serve (r ∷ rs) s =
      by_poll (poll_once first others r (pos 1000) s) r.time_behind s (λ t. serve rs t)

  -- Turn by turn, what comes for a connection fits.
  abbrev pub RoundsFit : List PollRound → Server → Type 0
  RoundsFit [] s = Unit
  RoundsFit (r ∷ rs) s =
      (es : List Entry)
      → poll_once first others r (pos 1000) s ≡ some es
      → AllFit dup first others es (sweep_server first others r.time_behind s)
        × ((t : Server)
            → process_events dup first others r.time_behind es s ≡ went t
            → RoundsFit rs t)

  by_poll-Goes :
      (o : Option (List Entry)) (now : ℕ) (s : Server) (rest : Server → Dispatched)
      → AllSound first others s.clients
      → ((es : List Entry)
          → o ≡ some es
          → Goes first others (then_dispatch (process_events dup first others now es s) rest))
      → Goes first others (by_poll o now s rest)
  by_poll-Goes none now s rest h k = h
  by_poll-Goes (some es) now s rest h k = k es refl

  -- However many turns the loop of main makes, whatever poll and the system give, and however the
  -- bytes of the requests come: no exception of Parse ends the program, and at the end the parser of
  -- every connection is ready for what the connection has read. That was so at the start, as it is
  -- where there is no connection, and no connection gets to 2 ^ 64 bytes read.
  pub serve-Goes :
      (rs : List PollRound) (s : Server)
      → RoundsFit rs s
      → AllSound first others s.clients
      → Goes first others (serve rs s)
  unfolding serve
  serve-Goes [] s l h = h
  serve-Goes (r ∷ rs) s l h =
      by_poll-Goes (poll_once first others r (pos 1000) s) r.time_behind s (λ t. serve rs t) h
        (λ es polled.
          let (fits, others_fit) = l es polled in
          then_dispatch-Goes dup first others (process_events dup first others r.time_behind es s)
            (λ t. serve rs t) (process_events-Goes dup first others r.time_behind es s fits h)
            (λ t same k. serve-Goes rs t (others_fit t same) k))
