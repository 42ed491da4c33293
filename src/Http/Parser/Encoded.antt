-- ===== src/Http/Parser/Encoded.antt =====
-- Requests with a body in chunks, as HttpRequestParser::Parse reads them in one call.
use selfserv.Base.{
  ℕ, ◌+◌, ◌≤◌, ◌≡◌, refl, sym, ap, ◌∙◌, subst, true, false, some, List, [], ◌∷◌, ◌++◌, ltb, Bytes,
  find, length, take, drop, length-append, length-drop, arith,
}
use selfserv.Base.Find.{find-le}
use selfserv.Http.Request.{HttpRequest, HttpRequestParser, request_line, body, done, chunk_size}
use selfserv.Http.Head.{parsed, header_lines, read_lines}
use selfserv.Http.Chunks.{Cursor, hex_value, chunk_loop}
use selfserv.Http.Chunks.Encoded.{Chunk, encoded, decoded, AreChunks, cursor}
use selfserv.Http.Chunks.Decoded.{rounds, IsDecoded, chunk_loop-encoded}
use selfserv.Http.Parser.Ready.{IsFresh, HeadIsFresh, read_lines-IsFresh, start_first}
use selfserv.Http.Parser.{
  Outcome, returned, trailer, behind_loop, after_loop, chunked_body, read_body, body_by, after_head,
  blank_line, max_head, head_within, head_at, read_head, parse_in, parse,
}

rounds-le :
    (chunks : List Chunk) (last rest : Bytes)
    → AreChunks chunks
    → rounds chunks ≤ length (encoded chunks last rest) + 1
unfolding encoded
rounds-le [] last rest h = omega (arith, length-append last (13 ∷ 10 ∷ 13 ∷ 10 ∷ rest))
rounds-le ((line, bytes) ∷ chunks) last rest h =
    let others : Bytes = encoded chunks last rest in
    omega (
      arith,
      h.1,
      rounds-le chunks last rest h.2,
      length-append line (13 ∷ 10 ∷ (bytes ++ 13 ∷ 10 ∷ others)),
      length-append bytes (13 ∷ 10 ∷ others),
    )

-- The request is complete, with `bytes` behind its body, and what has been consumed is all but `rest`.
abbrev pub IsRead : HttpRequest → Bytes → Bytes → ℕ → Outcome → Type 0
IsRead req bytes rest end (returned p r complete) =
    (r ≡ record req { body = req.body ++ bytes; complete = true })
    × (p.consumed + length rest ≡ end)
    × (p.state ≡ done)
    × (complete ≡ true)
IsRead req bytes rest end _ = ⊥

trailer-IsRead :
    (p : ℕ) (parser : HttpRequestParser) (r req : HttpRequest) (bytes rest : Bytes) (end : ℕ)
    → r ≡ record req { body = req.body ++ bytes }
    → p + length (13 ∷ 10 ∷ rest) ≡ end
    → IsRead req bytes rest end (trailer (13 ∷ 10 ∷ rest) p parser r)
unfolding trailer
trailer-IsRead p parser r req bytes rest end same at =
    (ap (λ (x : HttpRequest). record x { complete = true }) same, omega (arith, at), refl, refl)

behind_loop-IsRead :
    (t : Cursor) (req : HttpRequest) (bytes rest : Bytes) (end : ℕ)
    → IsDecoded req bytes rest end t
    → IsRead req bytes rest end (behind_loop t.parser.chunk_state t)
unfolding behind_loop
behind_loop-IsRead t req bytes rest end d =
    subst (λ st. IsRead req bytes rest end (behind_loop st t)) (sym d.1)
      (subst (λ r. IsRead req bytes rest end (trailer r t.p t.parser t.request)) (sym d.0)
        (trailer-IsRead t.p t.parser t.request req bytes rest end d.2
          (ap (λ r. t.p + length r) (sym d.0) ∙ d.3)))

module _ (chunks : List Chunk) (last rest : Bytes) (are : AreChunks chunks)
    (ends : hex_value 0 last ≡ some 0) where
  loop-IsRead :
      (p : ℕ) (parser : HttpRequestParser) (req : HttpRequest)
      → parser.chunk_state ≡ chunk_size
      → let text = encoded chunks last rest in
        IsRead req
          (decoded chunks)
          rest
          (p + length text)
          (after_loop (chunk_loop (length text + 1) (cursor p text parser req)))
  loop-IsRead p parser req c =
      let text : Bytes = encoded chunks last rest in
      let (t, finishes, d) =
        chunk_loop-encoded (length text + 1) p chunks last rest parser req
          (rounds-le chunks last rest are) c are ends in
      subst (λ l. IsRead req (decoded chunks) rest (p + length text) (after_loop l)) (sym finishes)
        (behind_loop-IsRead t req (decoded chunks) rest (p + length text) d)

  chunked_body-IsRead :
      (input : Bytes) (p : HttpRequestParser) (req : HttpRequest)
      → IsFresh p
      → 4 ≤ p.header_end_offset
      → drop p.header_end_offset input ≡ encoded chunks last rest
      → IsRead req
          (decoded chunks)
          rest
          (p.header_end_offset + length (encoded chunks last rest))
          (chunked_body input p req)
  unfolding chunked_body
  chunked_body-IsRead input p req fresh l text =
      let q = record p { consumed = p.header_end_offset } in
      let end = p.header_end_offset + length (encoded chunks last rest) in
      subst
        (λ s. IsRead req (decoded chunks) rest end (after_loop (chunk_loop (length s.rest + 1) s)))
        (sym (start_first input p req fresh.none_consumed l))
        (subst
          (λ r.
            IsRead req (decoded chunks) rest end
              (after_loop (chunk_loop (length r + 1) (cursor p.header_end_offset r q req))))
          (sym text) (loop-IsRead p.header_end_offset q req fresh.chunks_new))

  -- Parse reads a request with a body in chunks in one call: where the head ends at `end`, within the
  -- limit, and is parsed as one with a chunked body, and the bytes behind it are chunks, each with its
  -- size in hexadecimal ahead of it, the chunk of size 0 and a blank line, the request is that of the
  -- head, complete, with the data of the chunks in their order behind its body, the state is DONE,
  -- Parse returns true, and all bytes have been consumed but those behind the blank line.
  pub parse-encoded :
      (input : Bytes) (end : ℕ) (start p : HttpRequestParser) (before req : HttpRequest)
      → start.state ≡ request_line
      → IsFresh start
      → find blank_line input ≡ some end
      → end ≤ max_head
      → read_lines (header_lines (take end input)) start before ≡ parsed p req
      → p.chunked ≡ true
      → drop (end + 4) input ≡ encoded chunks last rest
      → IsRead req (decoded chunks) rest (length input) (parse input start before)
  unfolding parse parse_in read_head head_within read_body
  parse-encoded input end start p before req st fresh found within head ch text =
      let q : HttpRequestParser = record p { state = body; header_end_offset = end + 4 } in
      let f : IsFresh p =
        subst HeadIsFresh head
          (read_lines-IsFresh (header_lines (take end input)) start before fresh) in
      let short : ltb max_head end ≡ false = ground arith in
      let reads : parse input start before ≡ chunked_body input q req =
        ap (λ s. parse_in s input start before) st
        ∙ ap (λ o. head_at o input start before) found
        ∙ ap (λ b. head_within b end input start before) short
        ∙ ap (λ h. after_head input end h before) head
        ∙ ap (λ b. body_by b input q req) ch in
      let whole : end + 4 + length (encoded chunks last rest) ≡ length input =
        omega
          (arith, find-le blank_line input found, length-drop (end + 4) input, ap length text) in
      subst (IsRead req (decoded chunks) rest (length input)) (sym reads) (
        subst (λ n. IsRead req (decoded chunks) rest n (chunked_body input q req)) whole
          (chunked_body-IsRead input q req
            (record {
              none_consumed = f.none_consumed;
              chunks_new = f.chunks_new;
              state_is = f.state_is;
              read_le = f.read_le;
            })
            (omega arith) text))
