-- ===== src/Http/Tests.antt =====
-- Runs of the HTTP parser, and its properties at concrete inputs.
use selfserv.Base.{◌≡◌, refl, true, false, [], ◌∷◌, List, Bytes, codes, arith, find}
use selfserv.Http.Request.{HttpHeader, HttpRequest, new_parser, new_request, done, chunk_done}
use selfserv.Http.Parser.{returned, parse}
use selfserv.Http.Parser.Ready.{IsFresh}
use selfserv.Http.Parser.Kept.{Keeps, parse-Keeps}
use selfserv.Http.Parser.Pieces.{joined, feed, parse-feed}
use selfserv.Http.Chunks.{hex_value}
use selfserv.Http.Chunks.Encoded.{Chunk, encoded, decoded}
use selfserv.Http.Parser.Encoded.{IsRead, parse-encoded}
use selfserv.Http.Head.{header_lines, read_lines}

abbrev post : Bytes
post = codes "POST /a HTTP/1.1\r\nHost: x\r\nContent-Length: 3\r\n\r\nabcd"

abbrev header : Bytes → Bytes → HttpHeader
header n v = record { name = n; value = v }

parse-post :
    parse post new_parser new_request
    ≡ returned
        (record new_parser {
          state = done;
          content_length = 3;
          consumed = 51;
          header_end_offset = 48;
        })
        (record {
          method = codes "POST";
          uri = codes "/a";
          version = codes "HTTP/1.1";
          headers =
              header (codes "Host") (codes "x") ∷ header (codes "Content-Length") (codes "3") ∷ [];
          body = codes "abc";
          complete = true;
        })
        true
unfolding parse
parse-post = refl

abbrev chunked : Bytes
chunked =
    codes
      "GET / HTTP/1.1\r\nTransfer-Encoding: chunked\r\n\r\n3\r\nabc\r\nA\r\n0123456789\r\n0\r\n\r\nGET"

parse-chunked :
    parse chunked new_parser new_request
    ≡ returned
        (record new_parser {
          state = done;
          consumed = 74;
          chunked = true;
          header_end_offset = 46;
          chunk_state = chunk_done;
        })
        (record {
          method = codes "GET";
          uri = codes "/";
          version = codes "HTTP/1.1";
          headers = header (codes "Transfer-Encoding") (codes "chunked") ∷ [];
          body = codes "abc0123456789";
          complete = true;
        })
        true
unfolding parse
parse-chunked = refl

new_parser-IsFresh : IsFresh new_parser
new_parser-IsFresh = record {
  none_consumed = refl;
  chunks_new = refl;
  state_is = tt;
  read_le = omega arith;
}

abbrev pieces : List Bytes
pieces =
    codes "GET / HTTP/1.1\r\nTransfer-Encoding: chu"
    ∷ codes "nked\r\n\r\n3\r"
    ∷ codes "\nab"
    ∷ codes "c\r\nA\r\n01234567"
    ∷ codes "89\r\n0\r\n\r"
    ∷ codes "\nGET"
    ∷ []

parse-feed_example :
    feed [] pieces (parse [] new_parser new_request) ≡ parse (joined pieces) new_parser new_request
parse-feed_example = parse-feed [] pieces new_parser new_request new_parser-IsFresh (omega arith)

parse-Keeps_example : Keeps chunked (parse chunked new_parser new_request)
parse-Keeps_example = parse-Keeps chunked new_parser new_request new_parser-IsFresh (omega arith)

abbrev two_chunks : List Chunk
two_chunks = (codes "3", codes "abc") ∷ (codes "A", codes "0123456789") ∷ []

abbrev chunked_request : HttpRequest
chunked_request = record {
  method = codes "GET";
  uri = codes "/";
  version = codes "HTTP/1.1";
  headers = header (codes "Transfer-Encoding") (codes "chunked") ∷ [];
  body = [];
  complete = false;
}

parse-encoded_example :
    IsRead chunked_request
      (decoded two_chunks)
      (codes "GET")
      77
      (parse chunked new_parser new_request)
unfolding hex_value encoded find header_lines read_lines selfserv.Http.Chunks.hex_digit
parse-encoded_example =
    parse-encoded two_chunks (codes "0") (codes "GET") (refl, omega arith, (refl, omega arith, tt))
      refl chunked 42 new_parser (record new_parser { chunked = true }) new_request chunked_request
      refl new_parser-IsFresh refl (omega arith) refl refl refl
