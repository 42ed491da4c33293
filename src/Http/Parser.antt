-- ===== src/Http/Parser.antt =====
-- HttpRequestParser::Parse, Consumed and Error of docs/http/HttpRequest.hpp and HttpRequest.cpp.
pub mod Framing
pub mod Ready
pub mod Kept
pub mod Resume
pub mod Arrival
pub mod Pieces
pub mod Encoded
use selfserv.Base.{
  ℕ, ◌+◌, ◌-◌, ◌%◌, Bool, true, false, ◌&&◌, Option, none, some, [], ◌∷◌, ltb, leb, ◌==◌,
  if◌then◌else◌, Bytes, find, length, take, drop,
}
use selfserv.Base.Int.{size_mod}
use selfserv.Http.Request.{
  HttpRequest, HttpRequestParser, State, ChunkState, request_line, headers, body, done, error,
  chunk_trailer, chunk_done,
}
use selfserv.Http.Head.{Head, malformed, parsed, header_lines, read_lines}
use selfserv.Http.Chunks.{Cursor, Loop, finished, stopped, out_of_fuel, chunk_loop}

-- The parser and the request as Parse leaves them, and what it returns. `out_of_range` is the
-- exception of substr; `stuck` says that the fuel of the chunk loop ran out.
pub data Outcome : Type 0 where
  returned : HttpRequestParser → HttpRequest → Bool → Outcome
  out_of_range stuck : Outcome

-- m_state == kStateError
unfoldable pub is_error : State → Bool
is_error error = true
is_error _ = false

-- Error and Consumed
unfoldable pub has_error : HttpRequestParser → Bool
unfolding is_error
has_error p = is_error p.state

abbrev pub get_consumed : HttpRequestParser → ℕ
get_consumed p = p.consumed

-- a - b in size_t
abbrev pub sub_size : ℕ → ℕ → ℕ
sub_size a b = (a + size_mod - b) % size_mod

-- The body by its Content-Length.
unfoldable pub length_body : Bytes → HttpRequestParser → HttpRequest → Outcome
length_body input p req =
    let start = p.header_end_offset in
    if leb p.content_length (sub_size (length input) start)
    then if ltb (length input) start
      then out_of_range
      else returned (record p { consumed = start + p.content_length; state = done })
          (record req { body = take p.content_length (drop start input); complete = true }) true
    else returned p req req.complete

-- Behind the loop, in the state kChunkTrailer: the final CR LF.
unfoldable pub trailer : Bytes → ℕ → HttpRequestParser → HttpRequest → Outcome
trailer (c ∷ d ∷ cs) at p req =
    if c == 13 && d == 10
    then returned (record p { consumed = at + 2; chunk_state = chunk_done; state = done })
        (record req { complete = true }) true
    else returned (record p { state = error }) req req.complete
trailer _ at p req = returned p req req.complete

unfoldable pub behind_loop : ChunkState → Cursor → Outcome
unfolding trailer
behind_loop chunk_trailer s = trailer s.rest s.p s.parser s.request
behind_loop chunk_done s = returned s.parser s.request true
behind_loop _ s = returned s.parser s.request s.request.complete

abbrev pub after_loop : Loop → Outcome
after_loop (finished s) = behind_loop s.parser.chunk_state s
after_loop (stopped s) = returned s.parser s.request false
after_loop out_of_fuel = stuck

-- The position at which the chunk loop starts: header end + (m_consumed - header end) in size_t,
-- which is m_consumed once that is set.
abbrev pub loop_start : HttpRequestParser → ℕ
loop_start p = if p.consumed == 0 then p.header_end_offset else p.consumed

abbrev pub start_cursor : Bytes → HttpRequestParser → HttpRequest → Cursor
start_cursor input p req = record {
  p = loop_start p;
  rest = drop (loop_start p) input;
  parser =
      if ltb p.consumed p.header_end_offset then record p { consumed = p.header_end_offset } else p;
  request = req;
}

unfoldable pub chunked_body : Bytes → HttpRequestParser → HttpRequest → Outcome
unfolding chunk_loop behind_loop
chunked_body input p req =
    let s = start_cursor input p req in after_loop (chunk_loop (length s.rest + 1) s)

-- if (m_state == kStateBody), by m_chunked
abbrev pub body_by : Bool → Bytes → HttpRequestParser → HttpRequest → Outcome
body_by true input p req = chunked_body input p req
body_by false input p req = length_body input p req

unfoldable pub read_body : Bytes → HttpRequestParser → HttpRequest → Outcome
unfolding length_body chunked_body
read_body input p req = body_by p.chunked input p req

abbrev pub after_head : Bytes → ℕ → Head → HttpRequest → Outcome
after_head input end (malformed p) req = returned p req false
after_head input end (parsed p req') req =
    read_body input (record p { state = body; header_end_offset = end + 4 }) req'

abbrev pub blank_line : Bytes
blank_line = 13 ∷ 10 ∷ 13 ∷ 10 ∷ []

abbrev pub max_head : ℕ
max_head = 8192

-- if (headerEnd > kMaxHeader), where the head has `end` bytes.
unfoldable pub head_within : Bool → ℕ → Bytes → HttpRequestParser → HttpRequest → Outcome
unfolding header_lines read_lines read_body
head_within true end input p req = returned (record p { state = error; consumed = end }) req false
head_within false end input p req =
    after_head input end (read_lines (header_lines (take end input)) p req) req

abbrev pub head_at : Option ℕ → Bytes → HttpRequestParser → HttpRequest → Outcome
head_at none input p req = returned p req false
head_at (some end) input p req = head_within (ltb max_head end) end input p req

-- if (m_state == kStateRequestLine || m_state == kStateHeaders)
unfoldable pub read_head : Bytes → HttpRequestParser → HttpRequest → Outcome
unfolding find head_within
read_head input p req = head_at (find blank_line input) input p req

unfoldable pub parse_in : State → Bytes → HttpRequestParser → HttpRequest → Outcome
unfolding read_head read_body
parse_in request_line input p req = read_head input p req
parse_in headers input p req = read_head input p req
parse_in body input p req = read_body input p req
parse_in done input p req = returned p req req.complete
parse_in error input p req = returned p req req.complete

-- Parse
unfoldable pub parse : Bytes → HttpRequestParser → HttpRequest → Outcome
unfolding parse_in
parse input p req = parse_in p.state input p req
