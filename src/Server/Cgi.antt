-- ===== src/Server/Cgi.antt =====
-- MaybeStartCgi of docs/server/Server.cpp.
pub mod Environment
use selfserv.Base.{
  ℕ, Bool, true, false, Option, none, some, List, [], ◌∷◌, ◌++◌, ◌==◌, if◌then◌else◌, Bytes, codes,
  length, find_char, take, drop,
}
use selfserv.Config.Data.{RouteConfig}
use selfserv.Server.Connection.{ClientConnection, is_empty}
use selfserv.Server.System.{System, World, Program}

-- scriptDir: the path up to its last slash; the child stays where it is for an empty one, or where
-- there is no slash.
unfoldable pub script_dir : Bytes → Option Bytes
script_dir [] = none
script_dir (c ∷ cs) = elim (script_dir cs) [
  | none ↦ if c == b'/' then some [] else none
  | some s ↦ some (c ∷ s)
]

abbrev pub chdir_to : Option Bytes → Option Bytes
chdir_to none = none
chdir_to (some []) = none
chdir_to (some (c ∷ cs)) = some (c ∷ cs)

-- What the child runs.
unfoldable pub child_program : RouteConfig → Bytes → Program
unfolding script_dir
child_program route file_path = record {
  directory = chdir_to (script_dir file_path);
  arguments =
      if is_empty route.cgi_interpreter
      then file_path ∷ []
      else route.cgi_interpreter ∷ file_path ∷ [];
}

-- The parent's side behind a fork: it keeps the write end of the one pipe and the read end of the
-- other.
unfoldable pub forked :
    ℕ × ℕ → ℕ × ℕ → ℕ → Program → ClientConnection → World → ClientConnection × World
forked (in_read, in_write) (out_read, out_write) pid program conn w = (
  record conn {
    cgi_in_fd = some in_write;
    cgi_out_fd = some out_read;
    cgi_pid = some pid;
    cgi_active = true;
  },
  record w {
    closed_fds = w.closed_fds ++ in_read ∷ out_write ∷ [];
    cgi_clients = (out_read, conn.fd) ∷ (in_write, conn.fd) ∷ w.cgi_clients;
    started = w.started ++ program ∷ [];
  },
)

-- Whether the program was started, and the connection and the world behind it.
abbrev pub Started : Type 0
Started = Bool × ClientConnection × World

abbrev pub by_fork : Option ℕ → ℕ × ℕ → ℕ × ℕ → Program → ClientConnection → World → Started
by_fork none (in_read, in_write) (out_read, out_write) program conn w = (
  false,
  conn,
  record w { closed_fds = w.closed_fds ++ in_read ∷ in_write ∷ out_read ∷ out_write ∷ [] },
)
by_fork (some pid) pipe_in pipe_out program conn w =
    let (c, v) = forked pipe_in pipe_out pid program conn w in (true, c, v)

abbrev pub by_pipe_out :
    System → Option (ℕ × ℕ) → ℕ × ℕ → Program → ClientConnection → World → Started
by_pipe_out sys none (in_read, in_write) program conn w =
    (false, conn, record w { closed_fds = w.closed_fds ++ in_read ∷ in_write ∷ [] })
by_pipe_out sys (some pipe_out) pipe_in program conn w =
    by_fork sys.fork pipe_in pipe_out program conn w

abbrev pub by_pipe_in : System → Option (ℕ × ℕ) → Program → ClientConnection → World → Started
by_pipe_in sys none program conn w = (false, conn, w)
by_pipe_in sys (some pipe_in) program conn w = by_pipe_out sys sys.pipe_out pipe_in program conn w

-- MaybeStartCgi
unfoldable pub maybe_start_cgi : System → RouteConfig → Bytes → ClientConnection → World → Started
unfolding forked child_program
maybe_start_cgi sys route file_path conn w =
    by_pipe_in sys sys.pipe_in (child_program route file_path) conn w
