-- ===== src/Server/Readable/Reachable.antt =====
-- The states that a connection goes through: the calls of the handlers as steps.
use selfserv.Base.{
  ℕ, ◌≡◌, refl, sym, ap, subst, ◌<◌, ◌++◌, ◌||◌, not, Bool, true, false, if-both, List, [], ◌∷◌,
  Bytes, length, append_assoc, length-append, arith, if◌then◌else◌,
}
use selfserv.Base.Int.{size_mod}
use selfserv.Config.Data.{ServerConfig}
use selfserv.Http.Request.{HttpRequestParser, reset}
use selfserv.Http.Parser.{Outcome, returned, out_of_range, stuck, parse, has_error}
use selfserv.Http.Parser.Ready.{IsReady, IsFresh}
use selfserv.Http.Parser.Kept.{Keeps, parse-Keeps}
use selfserv.Http.Parser.Pieces.{IsReady-append}
use selfserv.Server.Connection.{ClientConnection, new_connection, is_closing}
use selfserv.Server.Connection.Writable.{
  still, behind, handle_writable, after_sends, next_request, unsent,
}
use selfserv.Server.Connection.Timeout.{sweep, time_out_cgi, close_late, is_late, is_cgi_late}
use selfserv.Server.System.{System, World}
use selfserv.Server.Handle.{Handled}
use selfserv.Server.Handle.Running.{SameInput}
use selfserv.Server.Output.{Progress, drive_cgi_io}
use selfserv.Server.Readable.{
  Read, read, threw, handle_readable, respond_to, with_bytes, with_parser, by_outcome, by_parsed,
}
use selfserv.Server.Readable.Returns.{all_bytes}
use selfserv.Server.Readable.Input.{
  close_late-SameInput, drive_cgi_io-SameInput, respond_to-SameInput,
}

module _ (first : ServerConfig) (others : List ServerConfig) where
  -- A call of HandleReadable, with fewer than 2 ^ 64 bytes read in all; one of HandleWritable that
  -- leaves the connection open; a sweep; a call of DriveCgiIO.
  pub data Step : Handled → Handled → Type 0 where
    reads :
        (sys : System) (received : List (ℕ × Bytes)) (conn after : ClientConnection) (w v : World)
        → length (conn.read_buf ++ all_bytes received) < size_mod
        → handle_readable sys first others received conn w ≡ read (after, v)
        → Step (conn, w) (after, v)
    writes :
        (sends : List ℕ) (conn after : ClientConnection) (w : World)
        → handle_writable sends conn ≡ still after
        → Step (conn, w) (after, w)
    sweeps :
        (now : ℕ) (conn : ClientConnection) (w : World)
        → Step (conn, w) (sweep first others now conn, w)
    drives :
        (step : Progress) (conn : ClientConnection) (w : World)
        → Step (conn, w) ((drive_cgi_io step conn w).1, (drive_cgi_io step conn w).2)

  -- The states behind any number of steps from a connection with nothing read.
  pub data Reachable : Handled → Type 0 where
    starts : (w : World) → Reachable (new_connection, w)
    goes : {s t : Handled} → Reachable s → Step s t → Reachable t

  unfoldable pub Sound : ClientConnection → Type 0
  Sound conn = IsReady conn.parser.state conn.read_buf conn.parser

  pub Sound-same : (conn after : ClientConnection) → Sound conn → SameInput conn after → Sound after
  unfolding Sound
  Sound-same conn after h (parser, input, own) =
      subst (λ p. IsReady p.state after.read_buf p) (sym parser)
        (subst (λ b. IsReady conn.parser.state b conn.parser) (sym input) h)

  reset-IsFresh : (p : HttpRequestParser) → IsFresh (reset p)
  unfolding reset
  reset-IsFresh p = record {
    none_consumed = refl;
    chunks_new = refl;
    state_is = tt;
    read_le = omega arith;
  }

  next_request-Sound : (conn : ClientConnection) → Sound (next_request conn)
  unfolding next_request Sound reset
  next_request-Sound conn = reset-IsFresh conn.parser

  after_sends-Sound :
      (rest : Bytes) (conn : ClientConnection) → Sound conn → Sound (behind (after_sends rest conn))
  after_sends-Sound (c ∷ cs) conn h = h
  after_sends-Sound [] conn h =
      if-both (λ a. Sound (behind a)) (not conn.keep_alive || is_closing conn.phase) h
        (next_request-Sound conn)

  pub handle_writable-Sound :
      (sends : List ℕ) (conn : ClientConnection)
      → Sound conn
      → Sound (behind (handle_writable sends conn))
  unfolding handle_writable Sound
  handle_writable-Sound sends conn h =
      after_sends-Sound (unsent sends conn.write_buf)
        (record conn { write_buf = unsent sends conn.write_buf }) h

  time_out_cgi-Sound : (conn : ClientConnection) → Sound conn → Sound (time_out_cgi conn)
  unfolding time_out_cgi Sound
  time_out_cgi-Sound conn h = h

  pub sweep-Sound :
      (now : ℕ) (conn : ClientConnection) → Sound conn → Sound (sweep first others now conn)
  unfolding sweep
  sweep-Sound now conn h =
      let c = if is_cgi_late first others now conn then time_out_cgi conn else conn in
      let timed : Sound c =
        if-both Sound (is_cgi_late first others now conn) (time_out_cgi-Sound conn h) h in
      if-both Sound (is_late first others now c)
        (Sound-same c (close_late c) timed (close_late-SameInput c)) timed

  abbrev handled_of : Handled → Read → Handled
  handled_of h (read g) = g
  handled_of h threw = h

  module _ (sys : System) (after : ClientConnection) (v : World) where
    -- What `rest` does keeps the connection sound.
    abbrev Keeping : ClientConnection → (ClientConnection → Read) → Type 0
    Keeping c rest =
        (d : ClientConnection)
        → Sound d
        → d.read_buf ≡ c.read_buf
        → rest d ≡ read (after, v)
        → Sound after

    by_parsed-Sound :
        (b : Bool) (d : ClientConnection) (w : World) (rest : ClientConnection → Read)
        → Sound d
        → (rest d ≡ read (after, v) → Sound after)
        → by_parsed sys first others b d w rest ≡ read (after, v)
        → Sound after
    by_parsed-Sound true d w rest h keeping e =
        let g = respond_to sys first others d w in
        subst Sound (ap (λ r. (handled_of g r).0) e)
          (Sound-same d g.0 h (respond_to-SameInput first others sys d w))
    by_parsed-Sound false d w rest h keeping e = keeping e

    by_outcome-Sound :
        (o : Outcome) (c : ClientConnection) (w : World) (rest : ClientConnection → Read)
        → Keeps c.read_buf o
        → Keeping c rest
        → by_outcome sys first others o c w rest ≡ read (after, v)
        → Sound after
    unfolding Sound
    by_outcome-Sound out_of_range c w rest keeps keeping e = absurd keeps
    by_outcome-Sound stuck c w rest keeps keeping e = absurd keeps
    by_outcome-Sound (returned p req complete) c w rest keeps keeping e =
        let d = with_parser p req c in
        by_parsed-Sound (complete || has_error p) d w rest keeps (keeping d keeps refl) e

    pub handle_readable-Sound :
        (received : List (ℕ × Bytes)) (conn : ClientConnection) (w : World)
        → Sound conn
        → length (conn.read_buf ++ all_bytes received) < size_mod
        → handle_readable sys first others received conn w ≡ read (after, v)
        → Sound after
    unfolding handle_readable with_bytes
    handle_readable-Sound [] conn w h l e = subst Sound (ap (λ r. (handled_of (conn, w) r).0) e) h
    handle_readable-Sound ((time, bytes) ∷ more) conn w h l e =
        let c = with_bytes time bytes conn in
        let bound : length (c.read_buf ++ all_bytes more) < size_mod =
          omega (arith, l, ap length (append_assoc conn.read_buf bytes (all_bytes more))) in
        by_outcome-Sound (parse c.read_buf c.parser c.request) c w
          (λ d. handle_readable sys first others more d w)
          (parse-Keeps c.read_buf c.parser c.request
            (IsReady-append conn.parser.state conn.read_buf bytes conn.parser (unfold Sound in h))
            (omega (arith, bound, length-append c.read_buf (all_bytes more))))
          (λ d k same f.
            handle_readable-Sound more d w k
              (omega (arith, bound, ap (λ b. length (b ++ all_bytes more)) same)) f)
          e

  Step-Sound : {s t : Handled} → Step s t → Sound s.0 → Sound t.0
  Step-Sound (reads sys received conn after w v l e) h =
      handle_readable-Sound sys after v received conn w h l e
  Step-Sound (writes sends conn after w e) h =
      subst Sound (ap (λ a. behind a) e) (handle_writable-Sound sends conn h)
  Step-Sound (sweeps now conn w) h = sweep-Sound now conn h
  Step-Sound (drives step conn w) h =
      Sound-same conn (drive_cgi_io step conn w).1 h (drive_cgi_io-SameInput step conn w)

  Reachable-Sound : {s : Handled} → Reachable s → Sound s.0
  unfolding Sound
  Reachable-Sound (starts w) = record {
    none_consumed = refl;
    chunks_new = refl;
    state_is = tt;
    read_le = omega arith;
  }
  Reachable-Sound (goes r step) = Step-Sound step (Reachable-Sound r)

  -- In every state that a connection reaches, by calls of HandleReadable, of HandleWritable that leave
  -- it open, of DriveCgiIO, and sweeps, the parser is ready for what the connection has read, as the
  -- next call of HandleReadable asks of it. No call reads on to 2 ^ 64 bytes.
  pub Reachable-IsReady :
      {s : Handled} → Reachable s → IsReady s.0.parser.state s.0.read_buf s.0.parser
  unfolding Sound
  Reachable-IsReady r = Reachable-Sound r
