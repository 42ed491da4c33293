-- ===== src/Server/Handle/Running.antt =====
-- What becomes of a connection in MaybeStartCgi of docs/server/Server.cpp.
use selfserv.Base.{ℕ, ◌≡◌, refl, true, Option, none, some, Bytes}
use selfserv.Config.Data.{RouteConfig}
use selfserv.Server.Connection.{ClientConnection}
use selfserv.Server.System.{System, World, Program}
use selfserv.Server.Cgi.{
  Started, maybe_start_cgi, by_pipe_in, by_pipe_out, by_fork, forked, child_program,
}

-- What the connection has read, the parser's place in it, and the descriptor are as they were.
abbrev pub SameInput : ClientConnection → ClientConnection → Type 0
SameInput conn after =
    (after.parser ≡ conn.parser) × (after.read_buf ≡ conn.read_buf) × (after.fd ≡ conn.fd)

-- What MaybeStartCgi says: where it says true, the program runs.
abbrev pub Says : ClientConnection → Started → Type 0
Says conn (b, after, w) =
    (b ≡ true → after.cgi_active ≡ true)
    × (after.write_buf ≡ conn.write_buf)
    × (after.keep_alive ≡ conn.keep_alive)
    × SameInput conn after

by_fork-Says :
    (fork : Option ℕ) (i o : ℕ × ℕ) (program : Program) (conn : ClientConnection) (w : World)
    → Says conn (by_fork fork i o program conn w)
unfolding forked
by_fork-Says none i o program conn w = ((λ e. cc e), refl, refl, (refl, refl, refl))
by_fork-Says (some pid) i o program conn w = ((λ e. refl), refl, refl, (refl, refl, refl))

module _ (sys : System) where
  by_pipe_out-Says :
      (o : Option (ℕ × ℕ)) (i : ℕ × ℕ) (program : Program) (conn : ClientConnection) (w : World)
      → Says conn (by_pipe_out sys o i program conn w)
  by_pipe_out-Says none i program conn w = ((λ e. cc e), refl, refl, (refl, refl, refl))
  by_pipe_out-Says (some o) i program conn w = by_fork-Says sys.fork i o program conn w

  by_pipe_in-Says :
      (i : Option (ℕ × ℕ)) (program : Program) (conn : ClientConnection) (w : World)
      → Says conn (by_pipe_in sys i program conn w)
  by_pipe_in-Says none program conn w = ((λ e. cc e), refl, refl, (refl, refl, refl))
  by_pipe_in-Says (some i) program conn w = by_pipe_out-Says sys.pipe_out i program conn w

  pub maybe_start_cgi-Says :
      (route : RouteConfig) (path : Bytes) (conn : ClientConnection) (w : World)
      → Says conn (maybe_start_cgi sys route path conn w)
  unfolding maybe_start_cgi
  maybe_start_cgi-Says route path conn w =
      by_pipe_in-Says sys.pipe_in (child_program route path) conn w
