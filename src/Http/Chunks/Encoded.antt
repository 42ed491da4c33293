-- ===== src/Http/Chunks/Encoded.antt =====
-- The text of a body in chunks, and the rounds of the loop of HttpRequestParser::Parse on it.
use selfserv.Base.{
  ℕ, ◌+◌, ◌-◌, ◌*◌, ◌%◌, ◌<◌, ◌≡◌, refl, sym, ap, ◌∙◌, true, false, some, List, [], ◌∷◌, ◌++◌, ◌==◌,
  ltb, if◌then◌else◌, Bytes, crlf, find, starts_with, length, drop, length-append, take-append_self,
  drop-append_self, arith, Option-cases, inl, inr,
}
use selfserv.Base.Int.{size_mod}
use selfserv.Http.Request.{HttpRequest, HttpRequestParser, chunk_size, chunk_data, chunk_trailer}
use selfserv.Http.Chunks.{
  Cursor, again, hex_digit, hex_value, size_line, size_round, end_of_chunk, data_round, to_take,
  round_at, one_round,
}

-- A chunk: its size line without the CR LF, and its data.
abbrev pub Chunk : Type 0
Chunk = Bytes × Bytes

-- The text of the chunks, the line of the last one, whose size is 0, and the blank line, with more
-- behind it.
unfoldable pub encoded : List Chunk → Bytes → Bytes → Bytes
encoded [] last rest = last ++ 13 ∷ 10 ∷ 13 ∷ 10 ∷ rest
encoded ((line, bytes) ∷ chunks) last rest =
    line ++ 13 ∷ 10 ∷ (bytes ++ 13 ∷ 10 ∷ encoded chunks last rest)

-- The data of the chunks.
unfoldable pub decoded : List Chunk → Bytes
decoded [] = []
decoded ((line, bytes) ∷ chunks) = bytes ++ decoded chunks

-- Every size line is the number of bytes of its chunk in hexadecimal, which is not 0.
abbrev pub AreChunks : List Chunk → Type 0
AreChunks [] = Unit
AreChunks ((line, bytes) ∷ chunks) =
    (hex_value 0 line ≡ some (length bytes)) × (0 < length bytes) × AreChunks chunks

-- A hexadecimal digit is no CR.
hex_digit-ne_cr : (c d : ℕ) → hex_digit c ≡ some d → (13 == c) ≡ false
unfolding hex_digit
hex_digit-ne_cr c d h = ground arith

find-hex_value :
    (line t : Bytes) (v : ℕ) {n : ℕ}
    → hex_value v line ≡ some n
    → find crlf (line ++ 13 ∷ 10 ∷ t) ≡ some (length line)
unfolding find starts_with hex_value
find-hex_value [] t v e = refl
find-hex_value (c ∷ cs) t v {n} e = elim (Option-cases (hex_digit c)) [
  | inl missing ↦ absurd (ground (arith, missing, e))
  | inr (d, digit) ↦
      let rest : hex_value ((v * 16 + d) % size_mod) cs ≡ some n = rw (digit, hex_value) at e in
      rw (hex_digit-ne_cr c d digit, find-hex_value cs t ((v * 16 + d) % size_mod) rest) refl
]

-- A cursor by its fields.
abbrev pub cursor : ℕ → Bytes → HttpRequestParser → HttpRequest → Cursor
cursor p rest parser req = record { p = p; rest = rest; parser = parser; request = req }

abbrev pub in_chunk : ℕ → ℕ → HttpRequestParser → HttpRequestParser
in_chunk p n parser = record parser {
  current_chunk_size = n;
  current_chunk_read = 0;
  consumed = p;
  chunk_state = if n == 0 then chunk_trailer else chunk_data;
}

one_round-some :
    (line t : Bytes) (s : Cursor)
    → one_round (line ++ 13 ∷ 10 ∷ t) s ≡ round_at s.parser.chunk_state s
unfolding one_round
one_round-some [] t s = refl
one_round-some (c ∷ cs) t s = refl

drop-line : (line t : Bytes) → drop (length line + 2) (line ++ 13 ∷ 10 ∷ t) ≡ t
drop-line line t = drop-append_self 2 line (13 ∷ 10 ∷ t)

drop-bytes : (bytes t : Bytes) → drop (length bytes) (bytes ++ t) ≡ t
drop-bytes bytes t =
    let e : length bytes + 0 ≡ length bytes = omega arith in
    ap (λ n. drop n (bytes ++ t)) (sym e) ∙ drop-append_self 0 bytes t

size_round-line :
    (p n : ℕ) (line t : Bytes) (parser : HttpRequestParser) (req : HttpRequest)
    → hex_value 0 line ≡ some n
    → size_round (cursor p (line ++ 13 ∷ 10 ∷ t) parser req)
      ≡ again (cursor (p + (length line + 2)) t (in_chunk (p + (length line + 2)) n parser) req)
unfolding size_round size_line
size_round-line p n line t parser req h =
    rw (find-hex_value line t 0 h, take-append_self line (13 ∷ 10 ∷ t), h, drop-line line t) refl

-- The size line of a chunk, and of the last one.
pub one_round-line :
    (p n : ℕ) (line t : Bytes) (parser : HttpRequestParser) (req : HttpRequest)
    → parser.chunk_state ≡ chunk_size
    → hex_value 0 line ≡ some n
    → one_round (line ++ 13 ∷ 10 ∷ t) (cursor p (line ++ 13 ∷ 10 ∷ t) parser req)
      ≡ again (cursor (p + (length line + 2)) t (in_chunk (p + (length line + 2)) n parser) req)
unfolding round_at
one_round-line p n line t parser req c h =
    one_round-some line t (cursor p (line ++ 13 ∷ 10 ∷ t) parser req)
    ∙ ap (λ st. round_at st (cursor p (line ++ 13 ∷ 10 ∷ t) parser req)) c
    ∙ size_round-line p n line t parser req h

-- Behind the data of a chunk of `n` bytes and its CR LF.
abbrev pub behind_chunk : ℕ → ℕ → HttpRequestParser → HttpRequestParser
behind_chunk p n parser = record parser {
  current_chunk_size = n;
  current_chunk_read = 0 + n;
  consumed = p;
  chunk_state = chunk_size;
}

to_take-chunk :
    (p q : ℕ) (bytes t : Bytes) (parser : HttpRequestParser) (req : HttpRequest)
    → to_take (cursor p (bytes ++ 13 ∷ 10 ∷ t) (in_chunk q (length bytes) parser) req)
      ≡ length bytes
to_take-chunk p q bytes t parser req =
    let enough : ltb (length (bytes ++ 13 ∷ 10 ∷ t)) (length bytes - 0) ≡ false =
      ground (arith, length-append bytes (13 ∷ 10 ∷ t)) in
    rw enough (omega arith)

data_round-chunk :
    (p q : ℕ) (bytes t : Bytes) (parser : HttpRequestParser) (req : HttpRequest)
    → data_round
        (length bytes)
        (cursor p (bytes ++ 13 ∷ 10 ∷ t) (in_chunk q (length bytes) parser) req)
      ≡ again (
          cursor
            (p + length bytes + 2)
            t
            (behind_chunk (p + length bytes + 2) (length bytes) parser)
            (record req { body = req.body ++ bytes }))
unfolding data_round end_of_chunk
data_round-chunk p q bytes t parser req =
    let full : (0 + length bytes == length bytes) ≡ true = ground arith in
    rw (full, drop-bytes bytes (13 ∷ 10 ∷ t), take-append_self bytes (13 ∷ 10 ∷ t)) refl

-- The data of a chunk and the CR LF behind it.
pub one_round-data :
    (p q : ℕ) (bytes t : Bytes) (parser : HttpRequestParser) (req : HttpRequest)
    → 0 < length bytes
    → one_round
        (bytes ++ 13 ∷ 10 ∷ t)
        (cursor p (bytes ++ 13 ∷ 10 ∷ t) (in_chunk q (length bytes) parser) req)
      ≡ again (
          cursor
            (p + length bytes + 2)
            t
            (behind_chunk (p + length bytes + 2) (length bytes) parser)
            (record req { body = req.body ++ bytes }))
unfolding round_at
one_round-data p q bytes t parser req l =
    let s = cursor p (bytes ++ 13 ∷ 10 ∷ t) (in_chunk q (length bytes) parser) req in
    let some_left : (length bytes == 0) ≡ false = ground arith in
    one_round-some bytes t s
    ∙ ap (λ b. round_at (if b then chunk_trailer else chunk_data) s) some_left
    ∙ ap (λ n. data_round n s) (to_take-chunk p q bytes t parser req)
    ∙ data_round-chunk p q bytes t parser req
