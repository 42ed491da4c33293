-- ===== src/Http/Chunks.antt =====
-- The loop of HttpRequestParser::Parse over a chunked body, in docs/http/HttpRequest.cpp. The bytes
-- of `data` from the position `p` on are the argument `rest`.
pub mod Progress
pub mod Resume
pub mod Arrival
pub mod Encoded
pub mod Decoded
use selfserv.Base.{
  ℕ, zero, suc, ◌+◌, ◌-◌, ◌*◌, ◌%◌, Bool, ◌&&◌, Option, none, some, [], ◌∷◌, ◌++◌, ltb, leb, ◌==◌,
  if◌then◌else◌, Bytes, crlf, find, length, take, drop,
}
use selfserv.Base.Int.{size_mod}
use selfserv.Http.Request.{
  HttpRequest, HttpRequestParser, ChunkState, error, chunk_size, chunk_data, chunk_crlf,
  chunk_trailer, chunk_done,
}

-- The value of a hexadecimal digit; `none` for another character.
unfoldable pub hex_digit : ℕ → Option ℕ
hex_digit c =
    if leb b'0' c && leb c b'9'
    then some (c - b'0')
    else if leb b'a' c && leb c b'f'
    then some (10 + (c - b'a'))
    else if leb b'A' c && leb c b'F'
    then some (10 + (c - b'A'))
    else none

-- val = (val << 4) + d, over the digits of the size line.
unfoldable pub hex_value : ℕ → Bytes → Option ℕ
hex_value val [] = some val
hex_value val (c ∷ cs) = elim (hex_digit c) [
  | none ↦ none
  | some d ↦ hex_value ((val * 16 + d) % size_mod) cs
]

-- Where the loop is: the position p, the bytes from there on, and the two objects.
pub record Cursor : Type 0 where
  pub p : ℕ
  pub rest : Bytes
  pub parser : HttpRequestParser
  pub request : HttpRequest

-- One round of the loop: it goes on, it is left (a break), or the parser has its error state.
pub data Round : Type 0 where
  again left failed : Cursor → Round

abbrev pub fail : Cursor → Round
fail s = failed (record s { parser = record s.parser { state = error } })

-- kChunkSize, where the size line has `i` bytes of the given value.
unfoldable pub size_line : ℕ → Option ℕ → Cursor → Round
size_line i none s = fail s
size_line i (some val) s = again (record s {
  p = s.p + (i + 2);
  rest = drop (i + 2) s.rest;
  parser = record s.parser {
    current_chunk_size = val;
    current_chunk_read = 0;
    consumed = s.p + (i + 2);
    chunk_state = if val == 0 then chunk_trailer else chunk_data;
  };
})

abbrev pub size_at : Option ℕ → Cursor → Round
size_at none s = left s
size_at (some i) s = size_line i (hex_value 0 (take i s.rest)) s

-- kChunkSize
unfoldable pub size_round : Cursor → Round
size_round s = size_at (find crlf s.rest) s

-- The CR LF behind a chunk.
unfoldable pub end_of_chunk : Bytes → Cursor → Round
end_of_chunk [] s = left s
end_of_chunk (c ∷ []) s = left s
end_of_chunk (c ∷ d ∷ cs) s =
    if c == 13 && d == 10
    then again (record s {
      p = s.p + 2;
      rest = cs;
      parser = record s.parser { consumed = s.p + 2; chunk_state = chunk_size };
    })
    else fail s

-- `n` bytes more of the chunk are appended to the body.
abbrev pub advance : ℕ → Cursor → Cursor
advance n s = record s {
  p = s.p + n;
  rest = drop n s.rest;
  parser = record s.parser {
    current_chunk_read = s.parser.current_chunk_read + n;
    consumed = s.p + n;
  };
  request = record s.request { body = s.request.body ++ take n s.rest };
}

-- Is the chunk read to its end?
abbrev pub is_full : Cursor → Bool
is_full s = s.parser.current_chunk_read == s.parser.current_chunk_size

abbrev pub after_data : Cursor → Round
after_data s = if is_full s then end_of_chunk s.rest s else left s

-- kChunkData, with `n` bytes to take.
unfoldable pub data_round : ℕ → Cursor → Round
data_round n s = after_data (advance n s)

-- size_t take = available < need ? available : need;
abbrev pub to_take : Cursor → ℕ
to_take s =
    let need = s.parser.current_chunk_size - s.parser.current_chunk_read in
    if ltb (length s.rest) need then length s.rest else need

unfoldable pub round_at : ChunkState → Cursor → Round
unfolding size_round data_round
round_at chunk_size s = size_round s
round_at chunk_data s = data_round (to_take s) s
round_at chunk_crlf s = again s
round_at chunk_trailer s = left s
round_at chunk_done s = left s

unfoldable pub one_round : Bytes → Cursor → Round
unfolding round_at
one_round [] s = left s
one_round (c ∷ cs) s = round_at s.parser.chunk_state s

-- What the loop comes to.
pub data Loop : Type 0 where
  finished stopped : Cursor → Loop
  out_of_fuel : Loop

abbrev pub next_round : (Cursor → Loop) → Round → Loop
next_round loop (again t) = loop t
next_round loop (left t) = finished t
next_round loop (failed t) = stopped t

-- The loop, with fuel; `stopped` is the return with the error state.
unfoldable pub chunk_loop : ℕ → Cursor → Loop
unfolding one_round size_line end_of_chunk find hex_value hex_digit
chunk_loop zero s = out_of_fuel
chunk_loop (suc f) s = next_round (chunk_loop f) (one_round s.rest s)
