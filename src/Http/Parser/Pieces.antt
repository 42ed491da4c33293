-- ===== src/Http/Parser/Pieces.antt =====
-- A request that arrives in pieces: HandleReadable of docs/server/Server.cpp appends what recv
-- returns to the read buffer and calls Parse on the whole buffer.
use selfserv.Base.{
  ◌<◌, ◌≡◌, sym, ap, subst, ◌∙◌, List, [], ◌∷◌, ◌++◌, append_assoc, append-nil, Bytes, length,
  length-append, arith,
}
use selfserv.Base.Int.{size_mod}
use selfserv.Http.Request.{
  HttpRequest, HttpRequestParser, State, request_line, headers, body, done, error,
}
use selfserv.Http.Parser.Ready.{IsReady}
use selfserv.Http.Parser.Resume.{resume}
use selfserv.Http.Parser.Arrival.{parse-append}
use selfserv.Http.Parser.{Outcome, parse}

-- The bytes of all pieces.
abbrev pub joined : List Bytes → Bytes
joined [] = []
joined (piece ∷ pieces) = piece ++ joined pieces

-- Parse on the buffer, then on the buffer with the next piece behind it, and so on, until the parser
-- is done or in error.
unfoldable pub feed : Bytes → List Bytes → Outcome → Outcome
feed buffer [] o = o
feed buffer (piece ∷ pieces) o = feed (buffer ++ piece) pieces (resume (buffer ++ piece) o)

pub IsReady-append :
    (st : State) (input m : Bytes) (p : HttpRequestParser)
    → IsReady st input p
    → IsReady st (input ++ m) p
IsReady-append request_line input m p h = h
IsReady-append headers input m p h = h
IsReady-append body input m p h = record {
  head_pos = h.head_pos;
  head_le = omega (arith, length-append input m, h.head_le);
  consumed_is = ground (arith, length-append input m, h.consumed_is);
  state_is = h.state_is;
  read_le = h.read_le;
}
IsReady-append done input m p h = tt
IsReady-append error input m p h = tt

-- Where the parser is ready and all the bytes together are fewer than 2 ^ 64, parsing the pieces as
-- they arrive leaves the parser and the request, and returns, what one call on all the bytes does.
pub parse-feed :
    (buffer : Bytes) (pieces : List Bytes) (p : HttpRequestParser) (req : HttpRequest)
    → IsReady p.state buffer p
    → length (buffer ++ joined pieces) < size_mod
    → feed buffer pieces (parse buffer p req) ≡ parse (buffer ++ joined pieces) p req
unfolding feed
parse-feed buffer [] p req h l = ap (λ s. parse s p req) (sym (append-nil buffer))
parse-feed buffer (piece ∷ pieces) p req h l =
    let whole = append_assoc buffer piece (joined pieces) in
    ap (feed (buffer ++ piece) pieces) (
      sym (
        parse-append buffer piece p req h
          (omega (arith, length-append (buffer ++ piece) (joined pieces), ap length whole))))
    ∙ parse-feed (buffer ++ piece) pieces p req (IsReady-append p.state buffer piece p h)
        (subst (λ s. length s < size_mod) (sym whole) l)
    ∙ ap (λ s. parse s p req) whole
