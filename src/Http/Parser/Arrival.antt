-- ===== src/Http/Parser/Arrival.antt =====
-- HttpRequestParser::Parse on a request that arrives in pieces, as the server calls it: each time on
-- all the bytes read so far.
use selfserv.Base.{
  ℕ, ◌+◌, ◌-◌, ◌≤◌, ◌<◌, ◌≡◌, inl, inr, Bool, true, false, refl, sym, ap, subst, ◌∙◌, ◌++◌, Bytes,
  length, take, drop, arith, length-append, length-drop, ltb, Option, none, some, find,
  drop-append_of_le, take-append_of_le,
}
use selfserv.Base.Find.{find-le, find-append}
use selfserv.Base.Int.{size_mod}
use selfserv.Http.Head.{Head, malformed, parsed, read_lines, header_lines}
use selfserv.Http.Request.{
  HttpRequest, HttpRequestParser, State, request_line, headers, body, done, error,
}
use selfserv.Http.Chunks.Progress.{chunk_loop-IsAt}
use selfserv.Http.Chunks.Resume.{extend}
use selfserv.Http.Chunks.Arrival.{run, loop-ResumesAs}
use selfserv.Http.Parser.Framing.{length_body-fits, length_body-waits, le-or-lt}
use selfserv.Http.Parser.Ready.{
  IsInBody, IsFresh, HeadIsFresh, read_lines-IsFresh, IsReady, start_cursor-IsAt,
  start_cursor-extend,
}
use selfserv.Http.Parser.{
  length_body, after_loop, start_cursor, chunked_body, read_body, body_by, after_head, blank_line,
  max_head, head_within, head_at, read_head, parse_in, parse,
}
use selfserv.Http.Parser.Resume.{take_up, resume, take_up_body, parse-by_length, loop-resume}

chunked_body-resume :
    (input m : Bytes) (p : HttpRequestParser) (req : HttpRequest)
    → p.state ≡ body
    → p.chunked ≡ true
    → IsInBody input p
    → chunked_body (input ++ m) p req ≡ resume (input ++ m) (chunked_body input p req)
unfolding chunked_body
chunked_body-resume input m p req st ch h =
    let s = start_cursor input p req in
    let at = start_cursor-IsAt input p req st ch h in
    ap (λ c. after_loop (run c)) (start_cursor-extend input m p req h)
    ∙ loop-resume input m (run (extend m s)) (run s)
        (chunk_loop-IsAt (length s.rest + 1) input s at (omega arith))
        (loop-ResumesAs (length s.rest + 1) input m s at (omega arith))

length_body-resume :
    (input m : Bytes) (p : HttpRequestParser) (req : HttpRequest)
    → p.state ≡ body
    → p.chunked ≡ false
    → p.header_end_offset ≤ length input
    → length (input ++ m) < size_mod
    → length_body (input ++ m) p req ≡ resume (input ++ m) (length_body input p req)
length_body-resume input m p req st ch h l =
    let longer = length-append input m in
    elim (le-or-lt p.content_length (length input - p.header_end_offset)) [
      | inl fits ↦
          let same : take p.content_length (drop p.header_end_offset (input ++ m))
              ≡ take p.content_length (drop p.header_end_offset input) =
            ap (take p.content_length) (drop-append_of_le p.header_end_offset input m h)
            ∙ take-append_of_le p.content_length (drop p.header_end_offset input) m
                (omega (arith, length-drop p.header_end_offset input)) in
          length_body-fits (input ++ m) p req l (omega arith) (omega arith)
          ∙ rw same refl
          ∙ ap (resume (input ++ m)) (sym (length_body-fits input p req (omega arith) h fits))
      | inr waits ↦
          subst (λ o. length_body (input ++ m) p req ≡ resume (input ++ m) o)
            (sym (length_body-waits input p req (omega arith) h waits))
            (sym (parse-by_length (input ++ m) p req st ch)
              ∙ sym (take_up_body p.state (input ++ m) p req req.complete st))
    ]

body_by-resume :
    (b : Bool) (input m : Bytes) (p : HttpRequestParser) (req : HttpRequest)
    → p.chunked ≡ b
    → p.state ≡ body
    → IsInBody input p
    → length (input ++ m) < size_mod
    → body_by b (input ++ m) p req ≡ resume (input ++ m) (body_by b input p req)
body_by-resume true input m p req ch st h l = chunked_body-resume input m p req st ch h
body_by-resume false input m p req ch st h l = length_body-resume input m p req st ch h.head_le l

read_body-resume :
    (input m : Bytes) (p : HttpRequestParser) (req : HttpRequest)
    → p.state ≡ body
    → IsInBody input p
    → length (input ++ m) < size_mod
    → read_body (input ++ m) p req ≡ resume (input ++ m) (read_body input p req)
unfolding read_body
read_body-resume input m p req st h l = body_by-resume p.chunked input m p req refl st h l

after_head-resume :
    (input m : Bytes) (end : ℕ) (head : Head) (req : HttpRequest)
    → HeadIsFresh head
    → end + 4 ≤ length input
    → length (input ++ m) < size_mod
    → after_head (input ++ m) end head req ≡ resume (input ++ m) (after_head input end head req)
after_head-resume input m end (malformed p) req h le l = rw h refl
after_head-resume input m end (parsed p req') req h le l =
    read_body-resume input m _ req' refl
      (record {
        head_pos = omega arith;
        head_le = le;
        consumed_is = inl h.none_consumed;
        state_is = h.state_is;
        read_le = h.read_le;
      })
      l

head_within-resume :
    (b : Bool) (input m : Bytes) (end : ℕ) (p : HttpRequestParser) (req : HttpRequest)
    → IsFresh p
    → end + 4 ≤ length input
    → length (input ++ m) < size_mod
    → head_within b end (input ++ m) p req ≡ resume (input ++ m) (head_within b end input p req)
unfolding head_within
head_within-resume true input m end p req h le l = refl
head_within-resume false input m end p req h le l =
    let head = read_lines (header_lines (take end input)) p req in
    ap (λ s. after_head (input ++ m) end (read_lines (header_lines s) p req) req)
      (take-append_of_le end input m (omega arith))
    ∙ after_head-resume input m end head req
        (read_lines-IsFresh (header_lines (take end input)) p req h) le l

head_at-resume :
    (o : Option ℕ) (input m : Bytes) (p : HttpRequestParser) (req : HttpRequest)
    → find blank_line input ≡ o
    → parse (input ++ m) p req ≡ read_head (input ++ m) p req
    → take_up p.state (input ++ m) p req false ≡ parse (input ++ m) p req
    → IsFresh p
    → length (input ++ m) < size_mod
    → read_head (input ++ m) p req ≡ resume (input ++ m) (head_at o input p req)
unfolding read_head
head_at-resume none input m p req found whole again h l = sym whole ∙ sym again
head_at-resume (some end) input m p req found whole again h l =
    ap (λ o. head_at o (input ++ m) p req) (find-append blank_line input m found)
    ∙ head_within-resume (ltb max_head end) input m end p req h (find-le blank_line input found) l

parse_in-resume :
    (st : State) (input m : Bytes) (p : HttpRequestParser) (req : HttpRequest)
    → p.state ≡ st
    → IsReady st input p
    → length (input ++ m) < size_mod
    → parse_in st (input ++ m) p req ≡ resume (input ++ m) (parse_in st input p req)
unfolding parse_in
parse_in-resume request_line input m p req st h l =
    unfold read_head in
    head_at-resume (find blank_line input) input m p req refl (unfold parse in rw st refl)
      (rw st refl) h l
parse_in-resume headers input m p req st h l =
    unfold read_head in
    head_at-resume (find blank_line input) input m p req refl (unfold parse in rw st refl)
      (rw st refl) h l
parse_in-resume body input m p req st h l = read_body-resume input m p req st h l
parse_in-resume done input m p req st h l = rw st refl
parse_in-resume error input m p req st h l = rw st refl

-- A call on more bytes comes to the call on the first of them, taken up again, where it was neither
-- done nor in error, by a call on all of them.
pub parse-append :
    (input m : Bytes) (p : HttpRequestParser) (req : HttpRequest)
    → IsReady p.state input p
    → length (input ++ m) < size_mod
    → parse (input ++ m) p req ≡ resume (input ++ m) (parse input p req)
unfolding parse
parse-append input m p req h l = parse_in-resume p.state input m p req refl h l
