-- ===== src/Server/Output.antt =====
-- DriveCgiIO of docs/server/Server.cpp: a program's input and output. What write, read and waitpid
-- return are arguments.
pub mod Answer
mod Tests
use selfserv.Base.{
  ℕ, ◌+◌, Bool, true, false, not, ◌&&◌, ◌||◌, Option, none, some, List, [], ◌∷◌, ◌++◌, ◌==◌, ltb,
  leb, if◌then◌else◌, Bytes, codes, crlf, equal, find, to_lower, length, take, drop, map,
}
use selfserv.Base.Decimal.{to_decimal}
use selfserv.Base.Int.{ℤ, pos, negsuc, atoi}
use selfserv.Http.Head.{split_at, header_lines}
use selfserv.Http.Parser.{blank_line}
use selfserv.Server.Response.{status_line, length_line, connection_line, build_response}
use selfserv.Server.Connection.{ClientConnection, respond, is_empty}
use selfserv.Server.System.{World}
use selfserv.Server.Multipart.{skip_gaps}

-- The result of write (0 where it is not above 0), what read gives before a result that is not above
-- 0, and whether waitpid has found the program at its end.
pub record Progress : Type 0 where
  pub taken : ℕ
  pub output : List Bytes
  pub exited : Bool

-- m_cgiFdToClient.erase(fd)
unfoldable pub erase_fd : ℕ → List (ℕ × Option ℕ) → List (ℕ × Option ℕ)
erase_fd fd [] = []
erase_fd fd ((key, client) ∷ rest) =
    let others = erase_fd fd rest in if key == fd then others else (key, client) ∷ others

unfoldable pub close_fd : ℕ → World → World
unfolding erase_fd
close_fd fd w = record w {
  closed_fds = w.closed_fds ++ fd ∷ [];
  cgi_clients = erase_fd fd w.cgi_clients;
}

abbrev pub Driven : Type 0
Driven = ClientConnection × World

-- The request's body, to the program.
abbrev pub write_to : Option ℕ → ℕ → ClientConnection → World → Driven
write_to none taken conn w = (conn, w)
write_to (some fd) taken conn w =
    let offset = conn.cgi_write_offset + taken in
    if ltb conn.cgi_write_offset (length conn.request.body)
    then (if leb (length conn.request.body) offset
        then (record conn { cgi_write_offset = offset; cgi_in_fd = none }, close_fd fd w)
        else (record conn { cgi_write_offset = offset }, w))
    else (conn, w)

unfoldable pub concat : List Bytes → Bytes
concat [] = []
concat (s ∷ ss) = s ++ concat ss

abbrev pub read_from : Option ℕ → List Bytes → ClientConnection → ClientConnection
read_from none output conn = conn
read_from (some fd) output conn = record conn { cgi_buffer = conn.cgi_buffer ++ concat output }

abbrev pub close_output : Option ℕ → World → World
close_output none w = w
close_output (some fd) w = close_fd fd w

unfoldable pub note_exit : Bool → ClientConnection → World → Driven
unfolding close_fd
note_exit false conn w = (conn, w)
note_exit true conn w =
    (record conn { cgi_out_fd = none; cgi_active = false }, close_output conn.cgi_out_fd w)

-- code, reason, contentType, connectionHdr and passHeaders
pub record CgiHead : Type 0 where
  pub code : ℕ
  pub reason : Bytes
  pub content_type : Bytes
  pub connection : Bytes
  pub passed : List (Bytes × Bytes)

abbrev pub new_head : CgiHead
new_head = record {
  code = 200;
  reason = codes "OK";
  content_type = codes "text/html";
  connection = [];
  passed = [];
}

abbrev pub code_or : ℤ → ℕ → ℕ
code_or (negsuc n) code = code
code_or (pos n) code = if leb 100 n && leb n 599 then n else code

abbrev pub reason_or : Option (Bytes × Bytes) → Bytes → Bytes
reason_or none reason = reason
reason_or (some (_, rest)) reason = if is_empty rest then reason else rest

-- One line of the head.
abbrev pub note_field : Option (Bytes × Bytes) → CgiHead → CgiHead
note_field none head = head
note_field (some (name, text)) head =
    let value = skip_gaps text in
    let lower = map to_lower name in
    if equal lower (codes "status")
    then record head {
      code = code_or (atoi value) head.code;
      reason = reason_or (split_at b' ' value) head.reason;
    }
    else if equal lower (codes "content-type")
    then record head { content_type = value }
    else if equal lower (codes "connection")
    then record head { connection = value }
    else record head { passed = head.passed ++ (name, value) ∷ [] }

-- The loop ends at an empty line.
unfoldable pub read_fields : List Bytes → CgiHead → CgiHead
unfolding equal to_lower atoi split_at skip_gaps
read_fields [] head = head
read_fields ([] ∷ lines) head = head
read_fields ((c ∷ cs) ∷ lines) head = read_fields lines (note_field (split_at b':' (c ∷ cs)) head)

unfoldable pub keeps_alive : CgiHead → Bool
unfolding equal to_lower
keeps_alive head =
    is_empty head.connection || equal (map to_lower head.connection) (codes "keep-alive")

unfoldable pub is_named : Bytes → Bytes → Bool
unfolding equal to_lower
is_named lower name = equal (map to_lower name) lower

-- Whether passHeaders has a header of the name.
unfoldable pub has_field : Bytes → List (Bytes × Bytes) → Bool
unfolding is_named
has_field lower [] = false
has_field lower ((name, value) ∷ fields) = is_named lower name || has_field lower fields

unfoldable pub passed_lines : List (Bytes × Bytes) → Bytes
unfolding is_named
passed_lines [] = []
passed_lines ((name, value) ∷ fields) =
    let others = passed_lines fields in
    if is_named (codes "connection") name
    then others
    else name ++ (codes ": " ++ (value ++ (crlf ++ others)))

-- resp
unfoldable pub cgi_response : CgiHead → Bytes → Bytes
unfolding has_field passed_lines keeps_alive
cgi_response head body =
    status_line head.code head.reason
    ++ (crlf
        ++ (passed_lines head.passed
            ++ ((if has_field (codes "content-length") head.passed
                  then []
                  else length_line body ++ crlf)
                ++ ((if has_field (codes "content-type") head.passed || is_empty head.content_type
                      then []
                      else codes "Content-Type: " ++ (head.content_type ++ crlf))
                    ++ (connection_line (keeps_alive head) ++ (blank_line ++ body))))))

abbrev pub no_answer : Bool → ClientConnection → Bool × ClientConnection
no_answer true conn = (
  false,
  record conn {
    keep_alive = false;
    write_buf =
        build_response 500 (codes "Internal Server Error") (codes "CGI Execution Failed\n")
          (codes "text/plain") false false;
    phase = respond;
    want_write = true;
  },
)
no_answer false conn = (true, conn)

-- Behind the search for the end of the head: with the response, or with the test for a program that
-- has ended without one.
unfoldable pub by_head : Option ℕ → ClientConnection → Bool × ClientConnection
unfolding cgi_response read_fields header_lines
by_head none conn = no_answer (not conn.cgi_active && not conn.cgi_headers_done) conn
by_head (some end) conn =
    let head = read_fields (header_lines (take end conn.cgi_buffer)) new_head in
    (
      true,
      record conn {
        cgi_headers_done = true;
        cgi_body_start = end + 4;
        keep_alive = keeps_alive head;
        write_buf = cgi_response head (drop (end + 4) conn.cgi_buffer);
        phase = respond;
        want_write = true;
      },
    )

-- The end of the head, where the buffer is not empty and the head has not been read.
unfoldable pub head_end : ClientConnection → Option ℕ
unfolding find
head_end conn =
    if not (is_empty conn.cgi_buffer) && not conn.cgi_headers_done
    then find blank_line conn.cgi_buffer
    else none

-- The connection behind write, read and waitpid.
unfoldable pub moved : Progress → ClientConnection → World → Driven
unfolding concat note_exit close_fd
moved step conn w =
    let (c, v) = write_to conn.cgi_in_fd step.taken conn w in
    note_exit step.exited (read_from c.cgi_out_fd step.output c) v

-- DriveCgiIO
unfoldable pub drive_cgi_io : Progress → ClientConnection → World → Bool × ClientConnection × World
unfolding moved head_end by_head
drive_cgi_io step conn w =
    let (c, v) = moved step conn w in let (going, d) = by_head (head_end c) c in (going, d, v)
