-- ===== src/Server/Readable/Arrival.antt =====
-- A request that arrives in pieces.
use selfserv.Base.{
  ℕ, ◌≡◌, refl, sym, ap, ◌∙◌, Bool, true, false, ◌||◌, List, ◌∷◌, ◌++◌, ◌<◌, Bytes, length,
  append_assoc, arith,
}
use selfserv.Base.Int.{size_mod}
use selfserv.Config.Data.{ServerConfig}
use selfserv.Http.Request.{
  State, request_line, headers, body, done, error, HttpRequest, HttpRequestParser,
}
use selfserv.Http.Parser.{Outcome, returned, parse, has_error, is_error}
use selfserv.Http.Parser.Ready.{IsReady}
use selfserv.Http.Parser.Resume.{resume, take_up}
use selfserv.Http.Parser.Arrival.{parse-append}
use selfserv.Http.Parser.Pieces.{IsReady-append}
use selfserv.Server.Connection.{ClientConnection}
use selfserv.Server.System.{System, World}
use selfserv.Server.Readable.{Read, handle_readable, with_bytes, with_parser, by_outcome, by_parsed}

-- The parser is in the head or the body.
abbrev pub is_waiting : State → Bool
is_waiting done = false
is_waiting error = false
is_waiting _ = true

take_up-waiting :
    (st : State) (input : Bytes) (p : HttpRequestParser) (req : HttpRequest) (b : Bool)
    → is_waiting st ≡ true
    → take_up st input p req b ≡ parse input p req
take_up-waiting request_line input p req b h = refl
take_up-waiting headers input p req b h = refl
take_up-waiting body input p req b h = refl
take_up-waiting done input p req b h = cc h
take_up-waiting error input p req b h = cc h

has_error-waiting : (st : State) → is_waiting st ≡ true → is_error st ≡ false
unfolding is_error
has_error-waiting request_line h = refl
has_error-waiting headers h = refl
has_error-waiting body h = refl
has_error-waiting done h = refl
has_error-waiting error h = cc h

module _ (sys : System) (first : ServerConfig) (others : List ServerConfig) where
  by_outcome-same :
      (o : Outcome) (c d : ClientConnection) (w : World) (rest : ClientConnection → Read)
      → ((p : HttpRequestParser) (req : HttpRequest) → with_parser p req c ≡ with_parser p req d)
      → by_outcome sys first others o c w rest ≡ by_outcome sys first others o d w rest
  by_outcome-same (returned p req complete) c d w rest same =
      ap (λ k. by_parsed sys first others (complete || has_error p) k w rest) (same p req)
  by_outcome-same Outcome.out_of_range c d w rest same = refl
  by_outcome-same Outcome.stuck c d w rest same = refl

  -- Where Parse is not done with the bytes of a call of recv, HandleReadable does the same as when
  -- they come in one call with those of the next one, at its time.
  pub handle_readable-pieces :
      (s t : ℕ) (a b : Bytes) (more : List (ℕ × Bytes)) (conn : ClientConnection) (w : World)
      {p : HttpRequestParser} {req : HttpRequest}
      → IsReady conn.parser.state conn.read_buf conn.parser
      → length (conn.read_buf ++ (a ++ b)) < size_mod
      → parse (conn.read_buf ++ a) conn.parser conn.request ≡ returned p req false
      → is_waiting p.state ≡ true
      → handle_readable sys first others ((s, a) ∷ (t, b) ∷ more) conn w
        ≡ handle_readable sys first others ((t, a ++ b) ∷ more) conn w
  unfolding handle_readable with_bytes has_error
  handle_readable-pieces s t a b more conn w {p} {req} ready l e waits =
      let buffer = conn.read_buf ++ a in
      let whole = append_assoc conn.read_buf a b in
      let joined =
        parse-append buffer b conn.parser conn.request
          (IsReady-append conn.parser.state conn.read_buf a conn.parser ready)
          (omega (arith, l, ap length whole)) in
      let c = with_bytes s a conn in
      let d = with_parser p req c in
      ap
        (λ o.
          by_outcome sys first others o c w
            (λ k. handle_readable sys first others ((t, b) ∷ more) k w))
        e
      ∙ ap
          (λ x.
            by_parsed sys first others x d w
              (λ k. handle_readable sys first others ((t, b) ∷ more) k w))
          (has_error-waiting p.state waits)
      ∙ ap
          (λ o.
            by_outcome sys first others o (with_bytes t b d) w
              (λ k. handle_readable sys first others more k w))
          (sym (take_up-waiting p.state (buffer ++ b) p req false waits)
            ∙ sym (ap (λ o. resume (buffer ++ b) o) e)
            ∙ sym joined
            ∙ ap (λ x. parse x conn.parser conn.request) whole)
      ∙ by_outcome-same (parse (conn.read_buf ++ (a ++ b)) conn.parser conn.request)
          (with_bytes t b d) (with_bytes t (a ++ b) conn) w
          (λ k. handle_readable sys first others more k w)
          (λ q r.
            ap (λ x. record (with_parser q r conn) { read_buf = x; last_activity_ms = t }) whole)
