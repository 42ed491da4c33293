-- ===== src/Server/Program.antt =====
-- main of docs/main.cpp, which calls the functions of ConfigParser and of Server by other names:
-- parseFile, init, pollOnce, processEvents and shutdown. Signals are the number of turns that the loop
-- makes.
use selfserv.Base.{
  ℕ, ◌≡◌, refl, ap, ◌∙◌, Bool, true, false, Option, none, some, List, [], ◌∷◌, if◌then◌else◌, Bytes,
  codes,
}
use selfserv.Config.Data.{ServerConfig, new_reader}
use selfserv.Config.Line.{parse_lines}
use selfserv.Server.System.{World}
use selfserv.Server.Descriptor.{Dup}
use selfserv.Server.Listen.{Calls, Sockets, open_listening_sockets}
use selfserv.Server.Listen.Kept.{all_succeed, open_listening_sockets-IsOpened}
use selfserv.Server.Loop.{Server, Dispatched, went, left}
use selfserv.Server.Loop.Sound.{Goes}
use selfserv.Server.Loop.Rounds.{PollRound, RoundsFit, serve, shutdown, serve-Goes}

-- How the program ends: with an exit status, and what the server is then, or by an exception that
-- nothing catches.
pub data Exit : Type 0 where
  refused : Exit
  finished : Server → Exit
  terminated : Exit

-- The exit status.
abbrev pub status : Exit → Option ℕ
status refused = some 1
status (finished s) = some 0
status terminated = none

-- An FD of -1 is in no list: poll leaves out its entry, and no descriptor of an event equals it.
abbrev pub valid_fds : List (Option ℕ) → List ℕ
valid_fds [] = []
valid_fds (none ∷ fds) = valid_fds fds
valid_fds (some fd ∷ fds) = fd ∷ valid_fds fds

-- ParseFile, where `none` is a file that cannot be opened, and else there are the lines of fgets.
unfoldable pub parse_file : Option (List Bytes) → Bool × List ServerConfig
unfolding parse_lines
parse_file none = (false, [])
parse_file (some lines) = let (ok, reader) = parse_lines lines new_reader in (ok, reader.servers)

-- The path of the configuration: argv[1], or defaultConfigPath()
unfoldable pub config_path : List Bytes → Bytes
config_path (program ∷ path ∷ more) = path
config_path _ = codes "conf/selfserv.conf"

-- The members of Server behind Init.
abbrev pub started_server : Sockets → World → Server
started_server s w = record {
  listening = valid_fds s.fds;
  clients = [];
  open_fds = s.open_fds;
  world = w;
}

abbrev pub by_dispatched : Dispatched → Exit
by_dispatched (went s) = finished (shutdown s)
by_dispatched left = terminated

module _ (dup : Dup) (calls : ℕ → Calls) (open_fds : List ℕ) (w : World)
    (rounds : List PollRound) where
  -- The sockets behind Init.
  abbrev pub init : List ServerConfig → Bool × Sockets
  init servers =
      open_listening_sockets dup calls 0 servers (record { fds = []; open_fds = open_fds })

  abbrev pub by_init : ServerConfig → List ServerConfig → Bool × Sockets → Exit
  by_init first others (false, s) = refused
  by_init first others (true, s) =
      by_dispatched (serve dup first others rounds (started_server s w))

  abbrev pub by_servers : List ServerConfig → Exit
  by_servers [] = refused
  by_servers (first ∷ others) = by_init first others (init (first ∷ others))

  abbrev pub by_config : Bool × List ServerConfig → Exit
  by_config (false, servers) = refused
  by_config (true, servers) = by_servers servers

  unfoldable pub server_main : (Bytes → Option (List Bytes)) → List Bytes → Exit
  unfolding parse_file config_path open_listening_sockets serve shutdown
  server_main files argv = by_config (parse_file (files (config_path argv)))

  -- The server can be started.
  abbrev pub is_started : Bool × List ServerConfig → Bool
  is_started (false, servers) = false
  is_started (true, []) = false
  is_started (true, first ∷ others) = all_succeed calls 0 (first ∷ others)

  -- What comes while the server runs fits, where it runs.
  abbrev pub RunFits : Bool × List ServerConfig → Type 0
  RunFits (true, first ∷ others) =
      RoundsFit dup first others rounds (started_server (init (first ∷ others)).1 w)
  RunFits _ = Unit

  by_dispatched-status :
      (first : ServerConfig) (others : List ServerConfig) (d : Dispatched)
      → Goes first others d
      → status (by_dispatched d) ≡ some 0
  by_dispatched-status first others (went s) h = refl
  by_dispatched-status first others left h = absurd h

  by_init-status :
      (first : ServerConfig) (others : List ServerConfig) (o : Bool × Sockets)
      → RoundsFit dup first others rounds (started_server o.1 w)
      → status (by_init first others o) ≡ some (if o.0 then 0 else 1)
  by_init-status first others (false, s) h = refl
  by_init-status first others (true, s) h =
      by_dispatched-status first others (serve dup first others rounds (started_server s w))
        (serve-Goes dup first others rounds (started_server s w) h tt)

  by_config-status :
      (c : Bool × List ServerConfig)
      → RunFits c
      → status (by_config c) ≡ some (if is_started c then 0 else 1)
  by_config-status (false, servers) h = refl
  by_config-status (true, []) h = refl
  by_config-status (true, first ∷ others) h =
      by_init-status first others (init (first ∷ others)) h
      ∙ ap (λ b. some (if b then 0 else 1))
          (open_listening_sockets-IsOpened dup calls (first ∷ others) open_fds).0

  -- However many turns its loop makes, main returns, and no exception ends the program, where no
  -- connection gets to 2 ^ 64 bytes read: it gives 0 exactly where the file at the path that it was
  -- given, or else at conf/selfserv.conf, can be opened, every line of it is taken, it names a server,
  -- and the sockets of all servers can be opened; and else it gives 1.
  pub server_main-status :
      (files : Bytes → Option (List Bytes)) (argv : List Bytes)
      → RunFits (parse_file (files (config_path argv)))
      → status (server_main files argv)
        ≡ some (if is_started (parse_file (files (config_path argv))) then 0 else 1)
  unfolding server_main
  server_main-status files argv h = by_config-status (parse_file (files (config_path argv))) h
