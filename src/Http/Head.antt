-- ===== src/Http/Head.antt =====
-- The request line and the headers: the first part of HttpRequestParser::Parse and `trim` in
-- docs/http/HttpRequest.cpp.
use selfserv.Base.{
  onto_first, ℕ, suc, Bool, true, ◌&&◌, ◌||◌, Option, none, some, List, [], ◌∷◌, ◌++◌, ◌==◌,
  if◌then◌else◌, Bytes, codes, equal, find_char, length, take, drop,
}
use selfserv.Base.Int.{atoi, to_size}
use selfserv.Http.Request.{HttpHeader, HttpRequest, HttpRequestParser, error}

abbrev pub is_blank : ℕ → Bool
is_blank c = c == b' ' || c == b'\t' || c == b'\r' || c == b'\n'

unfoldable pub trim_start : Bytes → Bytes
trim_start [] = []
trim_start (c ∷ cs) = if is_blank c then trim_start cs else c ∷ cs

abbrev keep_blank : ℕ → Bytes → Bytes
keep_blank c [] = if is_blank c then [] else c ∷ []
keep_blank c (d ∷ ds) = c ∷ d ∷ ds

unfoldable pub trim_end : Bytes → Bytes
trim_end [] = []
trim_end (c ∷ cs) = keep_blank c (trim_end cs)

-- trim
unfoldable pub trim : Bytes → Bytes
unfolding trim_start trim_end
trim s = trim_end (trim_start s)

-- The lines that the loop over `headersPart` visits: it ends where no byte is left, so an empty
-- line behind the last CR LF is none.
unfoldable pub header_lines : Bytes → List Bytes
header_lines [] = []
header_lines (c ∷ []) = (c ∷ []) ∷ []
header_lines (c ∷ d ∷ cs) =
    let others = header_lines (d ∷ cs) in
    let after = header_lines cs in if c == 13 && d == 10 then [] ∷ after else onto_first c others

-- The text before the first such character, and the text behind it.
unfoldable pub split_at : ℕ → Bytes → Option (Bytes × Bytes)
unfolding find_char
split_at p s = elim (find_char p s) [ none ↦ none | some i ↦ some (take i s, drop (suc i) s) ]

-- Method, URI and version; `none` where one of the two spaces is missing.
unfoldable pub read_request_line : Bytes → Option (Bytes × Bytes × Bytes)
unfolding split_at
read_request_line line = elim (split_at b' ' line) [
  | none ↦ none
  | some (method, rest) ↦ elim (split_at b' ' rest) [
    | none ↦ none
    | some (uri, version) ↦ some (method, uri, version)
  ]
]

-- What a header does to the parser.
unfoldable pub note_header : HttpHeader → HttpRequestParser → HttpRequestParser
unfolding equal to_size atoi
note_header h p =
    let p' =
      if equal h.name (codes "Content-Length")
      then record p { content_length = to_size (atoi h.value) }
      else p in
    if equal h.name (codes "Transfer-Encoding") && equal h.value (codes "chunked")
    then record p' { chunked = true }
    else p'

-- One header line; a line with no colon is passed over.
unfoldable pub take_header :
    Option (Bytes × Bytes) → HttpRequestParser × HttpRequest → HttpRequestParser × HttpRequest
unfolding trim note_header
take_header none s = s
take_header (some (name, value)) (p, req) =
    let h : HttpHeader = record { name = trim name; value = trim value } in
    (note_header h p, record req { headers = req.headers ++ h ∷ [] })

unfoldable pub read_header :
    Bytes → HttpRequestParser × HttpRequest → HttpRequestParser × HttpRequest
unfolding split_at take_header
read_header line s = take_header (split_at b':' line) s

unfoldable pub read_headers :
    List Bytes → HttpRequestParser × HttpRequest → HttpRequestParser × HttpRequest
unfolding read_header
read_headers [] s = s
read_headers (line ∷ lines) s = read_headers lines (read_header line s)

-- What the loop over the head comes to: the parser in its error state, or the head read.
pub data Head : Type 0 where
  malformed : HttpRequestParser → Head
  parsed : HttpRequestParser → HttpRequest → Head

unfoldable pub take_request_line :
    Option (Bytes × Bytes × Bytes) → Bytes → List Bytes → HttpRequestParser → HttpRequest → Head
unfolding read_headers
take_request_line none line lines p req =
    malformed (record p { state = error; consumed = length line })
take_request_line (some (method, uri, version)) line lines p req =
    let (p', req') =
      read_headers lines (p, record req { method = method; uri = uri; version = version }) in
    parsed p' req'

unfoldable pub read_lines : List Bytes → HttpRequestParser → HttpRequest → Head
unfolding read_request_line take_request_line
read_lines [] p req = parsed p req
read_lines (line ∷ lines) p req = take_request_line (read_request_line line) line lines p req
