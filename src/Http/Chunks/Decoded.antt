-- ===== src/Http/Chunks/Decoded.antt =====
-- A body in chunks, and the loop of HttpRequestParser::Parse on it.
use selfserv.Base.{
  ℕ, zero, suc, ◌+◌, ◌≤◌, ◌≡◌, refl, sym, ap, ◌∙◌, some, List, [], ◌∷◌, ◌++◌, Bytes, length,
  length-append, append_assoc, append-nil, arith,
}
use selfserv.Http.Request.{HttpRequest, HttpRequestParser, chunk_size, chunk_trailer}
use selfserv.Http.Chunks.{Cursor, again, hex_value, one_round, finished, next_round, chunk_loop}
use selfserv.Http.Chunks.Encoded.{
  Chunk, encoded, decoded, AreChunks, cursor, in_chunk, one_round-line, behind_chunk,
  one_round-data,
}

-- What the loop comes to: the trailer is next, the data is behind the body that was there, and as
-- much has been consumed as has been read.
abbrev pub IsDecoded : HttpRequest → Bytes → Bytes → ℕ → Cursor → Type 0
IsDecoded req bytes rest end t =
    (t.rest ≡ 13 ∷ 10 ∷ rest)
    × (t.parser.chunk_state ≡ chunk_trailer)
    × (t.request ≡ record req { body = req.body ++ bytes })
    × (t.p + length t.rest ≡ end)

next_round-again :
    (f : ℕ) (s t : Cursor) → one_round s.rest s ≡ again t → chunk_loop (suc f) s ≡ chunk_loop f t
unfolding chunk_loop
next_round-again f s t e = ap (next_round (chunk_loop f)) e

chunk_loop-trailer :
    (f p q : ℕ) (rest : Bytes) (parser : HttpRequestParser) (req : HttpRequest)
    → chunk_loop (suc f) (cursor p (13 ∷ 10 ∷ rest) (in_chunk q 0 parser) req)
      ≡ finished (cursor p (13 ∷ 10 ∷ rest) (in_chunk q 0 parser) req)
unfolding chunk_loop
chunk_loop-trailer f p q rest parser req = refl

-- Two rounds for each chunk, and two for the last one.
abbrev pub rounds : List Chunk → ℕ
rounds [] = 2
rounds (c ∷ chunks) = suc (suc (rounds chunks))

pub chunk_loop-encoded :
    (f p : ℕ) (chunks : List Chunk) (last rest : Bytes) (parser : HttpRequestParser)
    (req : HttpRequest)
    → rounds chunks ≤ f
    → parser.chunk_state ≡ chunk_size
    → AreChunks chunks
    → hex_value 0 last ≡ some 0
    → (t : Cursor) × (chunk_loop f (cursor p (encoded chunks last rest) parser req) ≡ finished t)
      × IsDecoded req (decoded chunks) rest (p + length (encoded chunks last rest)) t
unfolding encoded decoded
chunk_loop-encoded zero p [] last rest parser req l c h k = absurd (omega arith)
chunk_loop-encoded (suc zero) p [] last rest parser req l c h k = absurd (omega arith)
chunk_loop-encoded (suc (suc f)) p [] last rest parser req l c h k =
    let text : Bytes = 13 ∷ 10 ∷ rest in
    let q : ℕ = p + (length last + 2) in
    (
      cursor q text (in_chunk q 0 parser) req,
      next_round-again (suc f) (cursor p (last ++ 13 ∷ 10 ∷ text) parser req)
            (cursor q text (in_chunk q 0 parser) req) (one_round-line p 0 last text parser req c k)
          ∙ chunk_loop-trailer f q q rest parser req,
      (
        refl,
        refl,
        ap (λ b. record req { body = b }) (sym (append-nil req.body)),
        omega (arith, length-append last (13 ∷ 10 ∷ text)),
      ),
    )
chunk_loop-encoded zero p ((line, bytes) ∷ chunks) last rest parser req l c h k =
    absurd (omega arith)
chunk_loop-encoded (suc zero) p ((line, bytes) ∷ chunks) last rest parser req l c h k =
    absurd (omega arith)
chunk_loop-encoded (suc (suc f)) p ((line, bytes) ∷ chunks) last rest parser req l c h k =
    let others : Bytes = encoded chunks last rest in
    let text : Bytes = bytes ++ 13 ∷ 10 ∷ others in
    let q : ℕ = p + (length line + 2) in
    let r : ℕ = q + length bytes + 2 in
    let inside = in_chunk q (length bytes) parser in
    let behind = behind_chunk r (length bytes) parser in
    let longer : HttpRequest = record req { body = req.body ++ bytes } in
    let (t, ends, d) =
      chunk_loop-encoded f r chunks last rest behind longer (omega arith) refl h.2 k in
    (
      t,
      next_round-again (suc f) (cursor p (line ++ 13 ∷ 10 ∷ text) parser req)
            (cursor q text inside req) (one_round-line p (length bytes) line text parser req c h.0)
          ∙ next_round-again f (cursor q text inside req) (cursor r others behind longer)
              (one_round-data q q bytes others parser req h.1)
          ∙ ends,
      (
        d.0,
        d.1,
        d.2 ∙ ap (λ b. record req { body = b }) (append_assoc req.body bytes (decoded chunks)),
        omega (
          arith,
          d.3,
          length-append line (13 ∷ 10 ∷ text),
          length-append bytes (13 ∷ 10 ∷ others),
        ),
      ),
    )
