-- ===== src/Http/Parser/Kept.antt =====
-- Every call of HttpRequestParser::Parse returns, and keeps the parser ready for the next.
use selfserv.Base.{
  ℕ, ◌+◌, ◌-◌, ◌≤◌, ◌<◌, ◌≡◌, inl, inr, Bool, true, false, refl, sym, subst, [], ◌∷◌, Bytes, length,
  take, arith, ltb, ◌==◌, ◌&&◌, Bool-cases, Option, none, some, find,
}
use selfserv.Base.Find.{find-le}
use selfserv.Base.Int.{size_mod}
use selfserv.Http.Head.{Head, malformed, parsed, read_lines, header_lines}
use selfserv.Http.Request.{
  HttpRequest, HttpRequestParser, State, ChunkState, request_line, headers, body, done, error,
  chunk_size, chunk_data, chunk_crlf, chunk_trailer, chunk_done,
}
use selfserv.Http.Chunks.{Cursor, Loop, finished, stopped, out_of_fuel, chunk_loop}
use selfserv.Http.Chunks.Progress.{IsAt, LoopIsAt, chunk_loop-IsAt}
use selfserv.Http.Parser.Framing.{length_body-fits, length_body-waits, le-or-lt}
use selfserv.Http.Parser.Ready.{
  IsInBody, IsFresh, IsReady, HeadIsFresh, read_lines-IsFresh, start_cursor-IsAt,
}
use selfserv.Http.Parser.{
  Outcome, returned, out_of_range, stuck, trailer, behind_loop, after_loop, start_cursor,
  chunked_body, read_body, body_by, after_head, blank_line, max_head, head_within, head_at,
  read_head, parse_in, parse,
}

-- The call returned, and the parser is ready.
abbrev pub Keeps : Bytes → Outcome → Type 0
Keeps input (returned p req b) = IsReady p.state input p
Keeps input out_of_range = ⊥
Keeps input stuck = ⊥

state-IsReady :
    (st : State) (input : Bytes) (p : HttpRequestParser)
    → st ≡ body
    → IsInBody input p
    → IsReady st input p
state-IsReady st input p e h = subst (λ s. IsReady s input p) (sym e) h

IsAt-IsInBody : (input : Bytes) (s : Cursor) → IsAt input s → IsReady s.parser.state input s.parser
IsAt-IsInBody input s h = state-IsReady s.parser.state input s.parser h.in_body.0 (record {
  head_pos = h.in_body.2;
  head_le = omega (arith, h.head_le, h.within);
  consumed_is =
      inr (omega (arith, h.head_le, h.consumed_is), omega (arith, h.within, h.consumed_is));
  state_is = h.state_is;
  read_le = h.read_le;
})

trailer-Keeps :
    (input r : Bytes) (s : Cursor) → IsAt input s → Keeps input (trailer r s.p s.parser s.request)
unfolding trailer
trailer-Keeps input [] s h = IsAt-IsInBody input s h
trailer-Keeps input (c ∷ []) s h = IsAt-IsInBody input s h
trailer-Keeps input (c ∷ d ∷ cs) s h = elim (Bool-cases (c == 13 && d == 10)) [
  | inl ends ↦ rw ends tt
  | inr wrong ↦ rw wrong tt
]

behind_loop-Keeps :
    (st : ChunkState) (input : Bytes) (s : Cursor) → IsAt input s → Keeps input (behind_loop st s)
unfolding behind_loop
behind_loop-Keeps chunk_size input s h = IsAt-IsInBody input s h
behind_loop-Keeps chunk_data input s h = IsAt-IsInBody input s h
behind_loop-Keeps chunk_crlf input s h = IsAt-IsInBody input s h
behind_loop-Keeps chunk_done input s h = IsAt-IsInBody input s h
behind_loop-Keeps chunk_trailer input s h = trailer-Keeps input s.rest s h

after_loop-Keeps : (input : Bytes) (l : Loop) → LoopIsAt input l → Keeps input (after_loop l)
after_loop-Keeps input (finished s) h = behind_loop-Keeps s.parser.chunk_state input s h
after_loop-Keeps input (stopped s) h = subst (λ st. IsReady st input s.parser) (sym h) tt
after_loop-Keeps input out_of_fuel h = h

body_by-Keeps :
    (b : Bool) (input : Bytes) (p : HttpRequestParser) (req : HttpRequest)
    → p.chunked ≡ b
    → p.state ≡ body
    → IsInBody input p
    → length input < size_mod
    → Keeps input (body_by b input p req)
body_by-Keeps true input p req ch st h l =
    let s = start_cursor input p req in
    unfold chunked_body in
    after_loop-Keeps input (chunk_loop (length s.rest + 1) s) (
      chunk_loop-IsAt (length s.rest + 1) input s (start_cursor-IsAt input p req st ch h)
        (omega arith))
body_by-Keeps false input p req ch st h l =
    elim (le-or-lt p.content_length (length input - p.header_end_offset)) [
      | inl fits ↦ subst (Keeps input) (sym (length_body-fits input p req l h.head_le fits)) tt
      | inr waits ↦
          subst (Keeps input) (sym (length_body-waits input p req l h.head_le waits))
            (state-IsReady p.state input p st h)
    ]

after_head-Keeps :
    (input : Bytes) (end : ℕ) (head : Head) (req : HttpRequest)
    → HeadIsFresh head
    → end + 4 ≤ length input
    → length input < size_mod
    → Keeps input (after_head input end head req)
after_head-Keeps input end (malformed p) req h le l = subst (λ st. IsReady st input p) (sym h) tt
after_head-Keeps input end (parsed p req') req h le l =
    unfold read_body in
    body_by-Keeps p.chunked input _ req' refl refl
      (record {
        head_pos = omega arith;
        head_le = le;
        consumed_is = inl h.none_consumed;
        state_is = h.state_is;
        read_le = h.read_le;
      })
      l

head_within-Keeps :
    (b : Bool) (input : Bytes) (end : ℕ) (p : HttpRequestParser) (req : HttpRequest)
    → IsFresh p
    → end + 4 ≤ length input
    → length input < size_mod
    → Keeps input (head_within b end input p req)
unfolding head_within
head_within-Keeps true input end p req h le l = tt
head_within-Keeps false input end p req h le l =
    let lines = header_lines (take end input) in
    after_head-Keeps input end (read_lines lines p req) req (read_lines-IsFresh lines p req h) le l

head_at-Keeps :
    (o : Option ℕ) (input : Bytes) (p : HttpRequestParser) (req : HttpRequest)
    → find blank_line input ≡ o
    → IsReady p.state input p
    → IsFresh p
    → length input < size_mod
    → Keeps input (head_at o input p req)
head_at-Keeps none input p req found ready h l = ready
head_at-Keeps (some end) input p req found ready h l =
    head_within-Keeps (ltb max_head end) input end p req h (find-le blank_line input found) l

parse_in-Keeps :
    (st : State) (input : Bytes) (p : HttpRequestParser) (req : HttpRequest)
    → p.state ≡ st
    → IsReady st input p
    → length input < size_mod
    → Keeps input (parse_in st input p req)
unfolding parse_in read_head
parse_in-Keeps request_line input p req st h l =
    head_at-Keeps (find blank_line input) input p req refl
      (subst (λ s. IsReady s input p) (sym st) h) h l
parse_in-Keeps headers input p req st h l =
    head_at-Keeps (find blank_line input) input p req refl
      (subst (λ s. IsReady s input p) (sym st) h) h l
parse_in-Keeps body input p req st h l =
    unfold read_body in body_by-Keeps p.chunked input p req refl st h l
parse_in-Keeps done input p req st h l = rw st tt
parse_in-Keeps error input p req st h l = rw st tt

-- A call on fewer than 2 ^ 64 bytes, with a parser that is ready, returns (substr does not throw and
-- the chunk loop ends), and leaves the parser ready for the next call.
pub parse-Keeps :
    (input : Bytes) (p : HttpRequestParser) (req : HttpRequest)
    → IsReady p.state input p
    → length input < size_mod
    → Keeps input (parse input p req)
unfolding parse
parse-Keeps input p req h l = parse_in-Keeps p.state input p req refl h l
