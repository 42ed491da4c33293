-- ===== src/Server/Readable/Confined.antt =====
-- Which files HandleReadable of docs/server/Server.cpp writes and removes.
use selfserv.Base.{ℕ, Bool, true, false, ◌||◌, List, [], ◌∷◌, Bytes, if-both}
use selfserv.Config.Data.{ServerConfig}
use selfserv.Http.Parser.{Outcome, returned, out_of_range, stuck, parse, has_error}
use selfserv.Server.Connection.{ClientConnection}
use selfserv.Server.System.{System, World}
use selfserv.Server.System.Confined.{IsConfined}
use selfserv.Server.Handle.{Handled}
use selfserv.Server.Handle.Confined.{IsRoute, handle_request-IsConfined}
use selfserv.Server.Readable.{
  Read, read, threw, handle_readable, with_bytes, with_parser, by_outcome, by_parsed, respond_to,
}

module _ (first : ServerConfig) (others : List ServerConfig) where
  abbrev Confined : World → Type 0
  Confined w = IsConfined (IsRoute first others) w

  -- The files are confined behind HandleReadable, too, unless Parse throws.
  abbrev pub LeavesConfined : Read → Type 0
  LeavesConfined threw = Unit
  LeavesConfined (read h) = Confined h.1

  respond_to-Confined :
      (sys : System) (conn : ClientConnection) (w : World)
      → Confined w
      → Confined (respond_to sys first others conn w).1
  unfolding respond_to
  respond_to-Confined sys conn w h =
      if-both {A = Handled} (λ r. Confined r.1) (has_error conn.parser) h
        (handle_request-IsConfined first others sys conn w h)

  by_outcome-LeavesConfined :
      (sys : System) (o : Outcome) (c : ClientConnection) (w : World)
      (rest : ClientConnection → Read)
      → Confined w
      → ((d : ClientConnection) → LeavesConfined (rest d))
      → LeavesConfined (by_outcome sys first others o c w rest)
  by_outcome-LeavesConfined sys out_of_range c w rest h k = tt
  by_outcome-LeavesConfined sys stuck c w rest h k = tt
  by_outcome-LeavesConfined sys (returned p req complete) c w rest h k =
      go (complete || has_error p)
    where
      d : ClientConnection
      d = with_parser p req c

      go : (b : Bool) → LeavesConfined (by_parsed sys first others b d w rest)
      go true = respond_to-Confined sys d w h
      go false = k d

  -- Whatever HandleReadable receives, and whatever the system answers: files are written only into the
  -- directories for uploads of the configured routes, under names with no slash, and the path of a file
  -- that is removed is the root of a configured route and a text with no ".."; where that root ends in
  -- a slash and has no "..", the whole path has none. This holds of all files written and removed
  -- behind the call, where it held of those before it and no exception of Parse ended it.
  pub handle_readable-IsConfined :
      (sys : System) (received : List (ℕ × Bytes)) (conn : ClientConnection) (w : World)
      → Confined w
      → LeavesConfined (handle_readable sys first others received conn w)
  unfolding handle_readable with_bytes
  handle_readable-IsConfined sys [] conn w h = h
  handle_readable-IsConfined sys ((time, bytes) ∷ more) conn w h =
      let c = with_bytes time bytes conn in
      by_outcome-LeavesConfined sys (parse c.read_buf c.parser c.request) c w
        (λ d. handle_readable sys first others more d w) h
        (λ d. handle_readable-IsConfined sys more d w h)
