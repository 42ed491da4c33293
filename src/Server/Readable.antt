-- ===== src/Server/Readable.antt =====
-- HandleReadable of docs/server/Server.cpp. What recv returns is an argument: a list with an entry for
-- each call that takes bytes, the time behind it and the bytes; the call behind them is the one that
-- gives 0 or -1.
pub mod Returns
pub mod Arrival
pub mod Confined
pub mod Input
pub mod Reachable
mod Tests
use selfserv.Base.{ℕ, Bool, true, false, ◌||◌, List, [], ◌∷◌, ◌++◌, if◌then◌else◌, Bytes, codes}
use selfserv.Config.Data.{ServerConfig}
use selfserv.Http.Request.{HttpRequest, HttpRequestParser}
use selfserv.Http.Parser.{Outcome, returned, out_of_range, stuck, parse, has_error}
use selfserv.Server.Connection.{ClientConnection}
use selfserv.Server.System.{System, World}
use selfserv.Server.Reply.{refuse_page}
use selfserv.Server.Handle.{Handled, handle_request}

-- `threw`: Parse left by an exception, or did not return.
pub data Read : Type 0 where
  read : Handled → Read
  threw : Read

unfoldable pub with_bytes : ℕ → Bytes → ClientConnection → ClientConnection
with_bytes time bytes conn = record conn {
  read_buf = conn.read_buf ++ bytes;
  last_activity_ms = time;
}

abbrev pub with_parser : HttpRequestParser → HttpRequest → ClientConnection → ClientConnection
with_parser p req conn = record conn { parser = p; request = req }

module _ (sys : System) (first : ServerConfig) (others : List ServerConfig) where
  abbrev pub bad_request : ClientConnection → ClientConnection
  bad_request conn =
      record (refuse_page sys first 400 (codes "Bad Request") (codes "400 Bad Request\n") false
        conn) { want_write = true }

  -- Behind a call of Parse that returned true, or left the parser in error.
  unfoldable pub respond_to : ClientConnection → World → Handled
  unfolding handle_request
  respond_to conn w =
      if has_error conn.parser
      then (bad_request conn, w)
      else handle_request sys first others conn w

  -- Behind a round of the loop: `rest` is what the rounds behind it do.
  abbrev pub by_parsed : Bool → ClientConnection → World → (ClientConnection → Read) → Read
  by_parsed true conn w rest = read (respond_to conn w)
  by_parsed false conn w rest = rest conn

  abbrev pub by_outcome : Outcome → ClientConnection → World → (ClientConnection → Read) → Read
  by_outcome (returned p req complete) conn w rest =
      by_parsed (complete || has_error p) (with_parser p req conn) w rest
  by_outcome out_of_range conn w rest = threw
  by_outcome stuck conn w rest = threw

  -- HandleReadable
  unfoldable pub handle_readable : List (ℕ × Bytes) → ClientConnection → World → Read
  handle_readable [] conn w = read (conn, w)
  handle_readable ((time, bytes) ∷ more) conn w =
      let c = with_bytes time bytes conn in
      by_outcome (parse c.read_buf c.parser c.request) c w (λ d. handle_readable more d w)
