-- ===== src/Http/Parser/Resume.antt =====
-- HttpRequestParser::Parse, called again on more bytes: a body in chunks.
use selfserv.Base.{
  suc, ◌+◌, ◌≡◌, inl, inr, Bool, false, refl, sym, ap, ◌∙◌, [], ◌∷◌, ◌++◌, Bytes, length, arith,
  ◌==◌, ◌&&◌, Bool-cases,
}
use selfserv.Http.Request.{
  HttpRequest, HttpRequestParser, State, ChunkState, body, done, error, chunk_size, chunk_data,
  chunk_crlf, chunk_trailer, chunk_done,
}
use selfserv.Http.Chunks.{
  Cursor, Loop, finished, stopped, out_of_fuel, chunk_loop, one_round, round_at, next_round,
}
use selfserv.Http.Chunks.Progress.{IsAt, IsOpen, LoopIsAt}
use selfserv.Http.Chunks.Resume.{extend, IsAt-extend}
use selfserv.Http.Chunks.Arrival.{run, ResumesAs}
use selfserv.Http.Parser.Ready.{start_cursor-at}
use selfserv.Http.Parser.{
  Outcome, returned, out_of_range, stuck, length_body, trailer, behind_loop, after_loop,
  chunked_body, read_body, body_by, parse_in, parse,
}

-- The next call, on the longer input; a parser that is done or has failed is not called again.
abbrev pub take_up : State → Bytes → HttpRequestParser → HttpRequest → Bool → Outcome
take_up done input p req b = returned p req b
take_up error input p req b = returned p req b
take_up _ input p req b = parse input p req

abbrev pub resume : Bytes → Outcome → Outcome
resume input (returned p req b) = take_up p.state input p req b
resume input out_of_range = out_of_range
resume input stuck = stuck

pub take_up_body :
    (st : State) (input : Bytes) (p : HttpRequestParser) (req : HttpRequest) (b : Bool)
    → st ≡ body
    → take_up st input p req b ≡ parse input p req
take_up_body st input p req b e = rw e

pub parse-by_length :
    (input : Bytes) (p : HttpRequestParser) (req : HttpRequest)
    → p.state ≡ body
    → p.chunked ≡ false
    → parse input p req ≡ length_body input p req
unfolding parse parse_in read_body
parse-by_length input p req st ch =
    ap (λ st. parse_in st input p req) st ∙ ap (λ b. body_by b input p req) ch

-- A call in the middle of a chunked body.
parse-at :
    (input : Bytes) (s : Cursor)
    → IsAt input s
    → parse input s.parser s.request ≡ after_loop (run s)
unfolding parse parse_in read_body chunked_body
parse-at input s h =
    ap (λ st. parse_in st input s.parser s.request) h.in_body.0
    ∙ ap (λ b. body_by b input s.parser s.request) h.in_body.1
    ∙ ap (λ c. after_loop (run c)) (start_cursor-at input s h)

-- The loop left in the middle of the body, and the next call.
resume-at :
    (input m : Bytes) (t : Cursor) (b : Bool)
    → IsAt input t
    → after_loop (run (extend m t)) ≡ take_up t.parser.state (input ++ m) t.parser t.request b
resume-at input m t b h =
    sym (parse-at (input ++ m) (extend m t) (IsAt-extend input m t h))
    ∙ sym (take_up_body t.parser.state (input ++ m) t.parser t.request b h.in_body.0)

run-trailer : (s : Cursor) → s.parser.chunk_state ≡ chunk_trailer → run s ≡ finished s
unfolding chunk_loop one_round round_at
run-trailer s e =
    let one_more : length s.rest + 1 ≡ suc (length s.rest) = omega arith in
    ap (λ f. chunk_loop f s) one_more ∙ go s.rest
  where
    go : (r : Bytes) → next_round (chunk_loop (length s.rest)) (one_round r s) ≡ finished s
    go [] = refl
    go (c ∷ cs) = rw e

trailer-resume :
    (input m r : Bytes) (t : Cursor)
    → IsAt input t
    → t.parser.chunk_state ≡ chunk_trailer
    → after_loop (run (extend m t)) ≡ trailer (r ++ m) t.p t.parser t.request
    → after_loop (run (extend m t)) ≡ resume (input ++ m) (trailer r t.p t.parser t.request)
unfolding trailer
trailer-resume input m [] t h e k = resume-at input m t _ h
trailer-resume input m (c ∷ []) t h e k = resume-at input m t _ h
trailer-resume input m (c ∷ d ∷ cs) t h e k = elim (Bool-cases (c == 13 && d == 10)) [
  | inl ends ↦ k ∙ rw ends refl
  | inr wrong ↦ k ∙ rw wrong refl
]

behind_loop-resume :
    (input m : Bytes) (st : ChunkState) (t : Cursor)
    → IsAt input t
    → t.parser.chunk_state ≡ st
    → IsOpen st
    → after_loop (run (extend m t)) ≡ resume (input ++ m) (behind_loop st t)
unfolding behind_loop
behind_loop-resume input m chunk_size t h e o = resume-at input m t _ h
behind_loop-resume input m chunk_data t h e o = resume-at input m t _ h
behind_loop-resume input m chunk_crlf t h e o = absurd o
behind_loop-resume input m chunk_done t h e o = absurd o
behind_loop-resume input m chunk_trailer t h e o =
    trailer-resume input m t.rest t h e
      (ap after_loop (run-trailer (extend m t) e) ∙ ap (λ st. behind_loop st (extend m t)) e)

pub loop-resume :
    (input m : Bytes) (whole l : Loop)
    → LoopIsAt input l
    → ResumesAs m whole l
    → after_loop whole ≡ resume (input ++ m) (after_loop l)
loop-resume input m whole (finished t) h e =
    ap after_loop (sym e) ∙ behind_loop-resume input m t.parser.chunk_state t h refl h.state_is
loop-resume input m whole (stopped t) h e = ap after_loop e ∙ rw h refl
loop-resume input m whole out_of_fuel h e = absurd h
