-- ===== src/Server/Readable/Returns.antt =====
-- HandleReadable and the parser.
use selfserv.Base.{
  ℕ, ◌<◌, ◌≡◌, refl, ap, Bool, true, false, ◌||◌, List, [], ◌∷◌, ◌++◌, Bytes, length, append_assoc,
  length-append, arith,
}
use selfserv.Base.Int.{size_mod}
use selfserv.Config.Data.{ServerConfig}
use selfserv.Http.Parser.{Outcome, returned, out_of_range, stuck, parse, has_error}
use selfserv.Http.Parser.Ready.{IsReady}
use selfserv.Http.Parser.Kept.{Keeps, parse-Keeps}
use selfserv.Http.Parser.Pieces.{IsReady-append}
use selfserv.Server.Connection.{ClientConnection}
use selfserv.Server.System.{System, World}
use selfserv.Server.Handle.{Handled}
use selfserv.Server.Readable.{
  read, handle_readable, respond_to, with_bytes, with_parser, by_outcome, by_parsed,
}

-- The bytes of all calls of recv.
abbrev pub all_bytes : List (ℕ × Bytes) → Bytes
all_bytes [] = []
all_bytes ((time, bytes) ∷ more) = bytes ++ all_bytes more

module _ (sys : System) (first : ServerConfig) (others : List ServerConfig) where
  by_outcome-returns :
      (more : List (ℕ × Bytes)) (c : ClientConnection) (w : World) (o : Outcome)
      → Keeps c.read_buf o
      → ((d : ClientConnection)
          → IsReady d.parser.state d.read_buf d.parser
          → d.read_buf ≡ c.read_buf
          → (h : Handled) × (handle_readable sys first others more d w ≡ read h))
      → (h : Handled) × (by_outcome sys first others o c w
            (λ d. handle_readable sys first others more d w)
          ≡ read h)
  by_outcome-returns more c w out_of_range keeps rest = absurd keeps
  by_outcome-returns more c w stuck keeps rest = absurd keeps
  by_outcome-returns more c w (returned p req complete) keeps rest = go (complete || has_error p)
    where
      d : ClientConnection
      d = with_parser p req c

      go :
          (b : Bool)
          → (h : Handled) × (by_parsed sys first others b d w
                (λ d. handle_readable sys first others more d w)
              ≡ read h)
      go true = (respond_to sys first others d w, refl)
      go false = rest d keeps refl

  -- Where the parser is ready for what the connection has read, and there are fewer than 2 ^ 64 bytes
  -- in all, HandleReadable returns, whatever is received: no exception leaves it.
  pub handle_readable-returns :
      (received : List (ℕ × Bytes)) (conn : ClientConnection) (w : World)
      → IsReady conn.parser.state conn.read_buf conn.parser
      → length (conn.read_buf ++ all_bytes received) < size_mod
      → (h : Handled) × (handle_readable sys first others received conn w ≡ read h)
  unfolding handle_readable with_bytes
  handle_readable-returns [] conn w ready l = ((conn, w), refl)
  handle_readable-returns ((time, bytes) ∷ more) conn w ready l =
      let c = with_bytes time bytes conn in
      let whole = append_assoc conn.read_buf bytes (all_bytes more) in
      let bound : length (c.read_buf ++ all_bytes more) < size_mod =
        omega (arith, l, ap length whole) in
      by_outcome-returns more c w (parse c.read_buf c.parser c.request)
        (parse-Keeps c.read_buf c.parser c.request
          (IsReady-append conn.parser.state conn.read_buf bytes conn.parser ready)
          (omega (arith, bound, length-append c.read_buf (all_bytes more))))
        (λ d r e.
          handle_readable-returns more d w r
            (omega (arith, bound, ap (λ b. length (b ++ all_bytes more)) e)))
