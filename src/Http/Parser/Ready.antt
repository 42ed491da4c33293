-- ===== src/Http/Parser/Ready.antt =====
-- HttpRequestParser between two calls of Parse: what every call keeps, so that none throws and the
-- chunk loop always ends.
use selfserv.Base.{
  ◌≤◌, ◌≡◌, ◌⊎◌, inl, inr, Bool, true, false, refl, sym, subst, ◌∙◌, List, [], ◌∷◌, ◌++◌, Bytes,
  length, drop, arith, ltb, ◌==◌, ◌&&◌, equal, codes, if◌then◌else◌, Option, none, some,
  drop-append_of_le,
}
use selfserv.Base.Int.{to_size, atoi}
use selfserv.Http.Head.{
  Head, malformed, parsed, note_header, read_header, read_headers, read_request_line, read_lines,
  split_at, trim, take_header, take_request_line,
}
use selfserv.Http.Request.{
  HttpHeader, HttpRequest, HttpRequestParser, State, request_line, headers, body, done, error,
  chunk_size,
}
use selfserv.Http.Chunks.{Cursor}
use selfserv.Http.Chunks.Progress.{IsAt, IsOpen}
use selfserv.Http.Chunks.Resume.{extend}
use selfserv.Http.Parser.{loop_start, start_cursor}

-- A parser in the body state: where it stands in the input it has seen.
pub record IsInBody (input : Bytes) (p : HttpRequestParser) : Type 0 where
  pub head_pos : 4 ≤ p.header_end_offset
  pub head_le : p.header_end_offset ≤ length input
  pub consumed_is :
      (p.consumed ≡ 0) ⊎ ((p.header_end_offset ≤ p.consumed) × (p.consumed ≤ length input))
  pub state_is : IsOpen p.chunk_state
  pub read_le : p.current_chunk_read ≤ p.current_chunk_size

-- A parser that has read no head yet.
pub record IsFresh (p : HttpRequestParser) : Type 0 where
  pub none_consumed : p.consumed ≡ 0
  pub chunks_new : p.chunk_state ≡ chunk_size
  pub state_is : IsOpen p.chunk_state
  pub read_le : p.current_chunk_read ≤ p.current_chunk_size

-- The states that a parser has between two calls.
abbrev pub IsReady : State → Bytes → HttpRequestParser → Type 0
IsReady request_line input p = IsFresh p
IsReady headers input p = IsFresh p
IsReady body input p = IsInBody input p
IsReady done input p = Unit
IsReady error input p = Unit

abbrev pub at_offset : Bytes → HttpRequestParser → HttpRequest → Cursor
at_offset input p req = record {
  p = p.consumed;
  rest = drop p.consumed input;
  parser = p;
  request = req;
}

-- Where the chunk loop starts: behind the head at first, then behind what has been consumed.
pub start_first :
    (input : Bytes) (p : HttpRequestParser) (req : HttpRequest)
    → p.consumed ≡ 0
    → 4 ≤ p.header_end_offset
    → start_cursor input p req ≡ at_offset input (record p { consumed = p.header_end_offset }) req
start_first input p req e l =
    let first : (p.consumed == 0) ≡ true = ground arith in
    let behind : ltb p.consumed p.header_end_offset ≡ true = ground arith in rw (first, behind)

start_again :
    (input : Bytes) (p : HttpRequestParser) (req : HttpRequest)
    → 4 ≤ p.header_end_offset
    → p.header_end_offset ≤ p.consumed
    → start_cursor input p req ≡ at_offset input p req
start_again input p req l k =
    let later : (p.consumed == 0) ≡ false = ground arith in
    let past : ltb p.consumed p.header_end_offset ≡ false = ground arith in rw (later, past)

pub start_cursor-IsAt :
    (input : Bytes) (p : HttpRequestParser) (req : HttpRequest)
    → p.state ≡ body
    → p.chunked ≡ true
    → IsInBody input p
    → IsAt input (start_cursor input p req)
start_cursor-IsAt input p req st ch h = elim h.consumed_is [
  | inl first ↦ subst (IsAt input) (sym (start_first input p req first h.head_pos)) (record {
    rest_is = refl;
    consumed_is = refl;
    within = h.head_le;
    in_body = (st, ch, h.head_pos);
    head_le = omega arith;
    state_is = h.state_is;
    read_le = h.read_le;
  })
  | inr (past, within) ↦
      subst (IsAt input) (sym (start_again input p req h.head_pos past)) (record {
        rest_is = refl;
        consumed_is = refl;
        within = within;
        in_body = (st, ch, h.head_pos);
        head_le = past;
        state_is = h.state_is;
        read_le = h.read_le;
      })
]

pub start_cursor-extend :
    (input m : Bytes) (p : HttpRequestParser) (req : HttpRequest)
    → IsInBody input p
    → start_cursor (input ++ m) p req ≡ extend m (start_cursor input p req)
start_cursor-extend input m p req h =
    let within : loop_start p ≤ length input = ground (arith, h.consumed_is, h.head_le) in
    rw (drop-append_of_le (loop_start p) input m within)

-- A cursor between two rounds is where the next call starts.
pub start_cursor-at :
    (input : Bytes) (s : Cursor) → IsAt input s → start_cursor input s.parser s.request ≡ s
start_cursor-at input s h =
    start_again input s.parser s.request h.in_body.2 (omega (arith, h.head_le, h.consumed_is))
    ∙ rw (h.rest_is, h.consumed_is) refl

abbrev pub HeadIsFresh : Head → Type 0
HeadIsFresh (malformed p) = p.state ≡ error
HeadIsFresh (parsed p req) = IsFresh p

if-IsFresh :
    (b : Bool) (p q : HttpRequestParser) → IsFresh p → IsFresh q → IsFresh (if b then p else q)
if-IsFresh true p q hp hq = hp
if-IsFresh false p q hp hq = hq

note_header-IsFresh :
    (h : HttpHeader) (p : HttpRequestParser) → IsFresh p → IsFresh (note_header h p)
unfolding note_header
note_header-IsFresh h p f =
    let by_length =
      if-IsFresh (equal h.name (codes "Content-Length"))
        (record p { content_length = to_size (atoi h.value) }) p
        (record {
          none_consumed = f.none_consumed;
          chunks_new = f.chunks_new;
          state_is = f.state_is;
          read_le = f.read_le;
        })
        f in
    if-IsFresh (equal h.name (codes "Transfer-Encoding") && equal h.value (codes "chunked")) _ _
      (record {
        none_consumed = by_length.none_consumed;
        chunks_new = by_length.chunks_new;
        state_is = by_length.state_is;
        read_le = by_length.read_le;
      })
      by_length

take_header-IsFresh :
    (o : Option (Bytes × Bytes)) (s : HttpRequestParser × HttpRequest)
    → IsFresh s.0
    → IsFresh (take_header o s).0
unfolding take_header
take_header-IsFresh none s f = f
take_header-IsFresh (some (name, value)) (p, req) f =
    note_header-IsFresh (record { name = trim name; value = trim value }) p f

read_headers-IsFresh :
    (lines : List Bytes) (s : HttpRequestParser × HttpRequest)
    → IsFresh s.0
    → IsFresh (read_headers lines s).0
unfolding read_headers
read_headers-IsFresh [] s f = f
read_headers-IsFresh (line ∷ lines) s f =
    read_headers-IsFresh lines (read_header line s)
      (unfold read_header in take_header-IsFresh (split_at b':' line) s f)

take_request_line-IsFresh :
    (o : Option (Bytes × Bytes × Bytes)) (line : Bytes) (lines : List Bytes) (p : HttpRequestParser)
    (req : HttpRequest)
    → IsFresh p
    → HeadIsFresh (take_request_line o line lines p req)
unfolding take_request_line
take_request_line-IsFresh none line lines p req f = refl
take_request_line-IsFresh (some (method, uri, version)) line lines p req f =
    read_headers-IsFresh lines (p, record req { method = method; uri = uri; version = version }) f

pub read_lines-IsFresh :
    (lines : List Bytes) (p : HttpRequestParser) (req : HttpRequest)
    → IsFresh p
    → HeadIsFresh (read_lines lines p req)
unfolding read_lines
read_lines-IsFresh [] p req f = f
read_lines-IsFresh (line ∷ lines) p req f =
    take_request_line-IsFresh (read_request_line line) line lines p req f
