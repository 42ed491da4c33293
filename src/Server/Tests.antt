-- ===== src/Server/Tests.antt =====
-- Runs of the server's helpers, and their properties at concrete inputs.
use selfserv.Base.{
  Bytes, suc, zero, List, ℕ, ◌+◌, ◌<◌, ◌≡◌, refl, sym, ap, ◌∙◌, true, false, not, ◌&&◌, ◌==◌, ltb,
  some, [], ◌∷◌, codes, length, find, take, drop, arith,
}
use mathlib.Core.List.Memᴰ.{head, tail}
use selfserv.Base.Int.{pos, to_int}
use selfserv.Base.Decimal.{to_decimal}
use selfserv.Http.Request.{HttpRequest, new_request, new_parser}
use selfserv.Http.Head.{read_header, header_lines}
use selfserv.Http.Parser.{blank_line}
use selfserv.Server.Response.{
  build_response, status_line, length_line, type_line, connection_line, guess_type,
}
use selfserv.Server.Response.Frame.{response-frame}
use selfserv.Server.Response.Length.{read_header-length_line}
use selfserv.Server.Connection.{ClientConnection, new_connection, respond}
use selfserv.Server.Connection.Writable.{
  closed, still, handle_writable, next_request, IsSent, handle_writable-IsSent,
  handle_writable-done,
}
use selfserv.Server.Connection.Timeout.{
  is_cgi_late, close_late, compute_poll_timeout, earliest, deadline, is_late, server_of, has_passed,
  sweep, remaining,
}
use selfserv.Server.Connection.Timeout.Deadline.{is_late-deadline}
use selfserv.Server.Connection.Timeout.Late.{handle_writable-sweep}
use selfserv.Server.Connection.Timeout.Idle.{sweep-handle_writable}
use selfserv.Server.Connection.Timeout.Earliest.{IsWait, IsShort, compute_poll_timeout-IsWait}
use selfserv.Config.Data.{ServerConfig, new_route, new_server_config}
use selfserv.Server.Filename.{sanitize_filename, is_safe_name, sanitize_filename-safe}
use selfserv.Server.Route.{match_route, select_server, has_header}
use selfserv.Server.Select.{IsHostHeader, IsIndexFor, select_server-IsIndexFor}
use selfserv.Server.Best.{IsLongest, match_route-IsLongest}

sanitize_filename-safe_example : is_safe_name (sanitize_filename (codes "a/../\"b\r\nc")) ≡ true
sanitize_filename-safe_example = sanitize_filename-safe (codes "a/../\"b\r\nc")

sanitize_filename-path : sanitize_filename (codes "a/../\"b\r\nc") ≡ codes "bc"
unfolding sanitize_filename
sanitize_filename-path = refl

-- The two names that stand for directories are kept.
sanitize_filename-parent : sanitize_filename (codes "..") ≡ codes ".."
unfolding sanitize_filename
sanitize_filename-parent = refl

abbrev site : ServerConfig
site = record (new_server_config (codes "h") (pos 80)) {
  server_names = codes "x" ∷ [];
  routes =
      new_route (codes "/") (codes "w")
      ∷ new_route (codes "/a") (codes "v")
      ∷ new_route (codes "/b") (codes "u")
      ∷ [];
}

match_route-IsLongest_example :
    IsLongest site.routes (codes "/a/c") (match_route site (codes "/a/c"))
match_route-IsLongest_example = match_route-IsLongest site (codes "/a/c")

match_route-site : match_route site (codes "/a/c") ≡ some (new_route (codes "/a") (codes "v"))
unfolding match_route
match_route-site = refl

abbrev request : HttpRequest
request = record new_request {
  headers = (record { name = codes "HOST"; value = codes "x:8080" }) ∷ [];
}

select_server-named : select_server (new_server_config (codes "h") (pos 80) ∷ site ∷ []) request ≡ 1
unfolding select_server
select_server-named = refl

has_header-case : has_header request.headers (codes "Host") ≡ some (codes "x:8080")
unfolding has_header
has_header-case = refl

abbrev servers : List ServerConfig
servers = new_server_config (codes "h") (pos 80) ∷ site ∷ []

select_server-IsIndexFor_example :
    (select_server servers request < length servers)
    × ((value : Bytes) × IsHostHeader request.headers value
        × IsIndexFor value servers (select_server servers request))
select_server-IsIndexFor_example = select_server-IsIndexFor servers request (omega arith)

guess_type-page : guess_type (codes "www/a.b/index.html") ≡ codes "text/html"
unfolding guess_type
guess_type-page = refl

response-frame_example :
    (end : ℕ) × (find blank_line
        (build_response 200 (codes "OK") (codes "hi") (codes "text/plain") true false)
      ≡ some end)
    × (drop (end + 4) (build_response 200 (codes "OK") (codes "hi") (codes "text/plain") true false)
        ≡ codes "hi")
    × (header_lines
          (take end (build_response 200 (codes "OK") (codes "hi") (codes "text/plain") true false))
        ≡ status_line 200 (codes "OK")
          ∷ length_line (codes "hi")
          ∷ type_line (codes "text/plain")
          ∷ connection_line true
          ∷ [])
response-frame_example =
    response-frame 200 (codes "OK") (codes "hi") (codes "text/plain") true false refl refl

read_header-length_line_run :
    read_header (length_line (codes "hello")) (new_parser, new_request) ≡ (
      record new_parser { content_length = 5 },
      record new_request {
        headers = (record { name = codes "Content-Length"; value = to_decimal 5 }) ∷ [];
      },
    )
read_header-length_line_run =
    read_header-length_line (codes "hello") new_parser new_request (omega arith)

-- A connection with a response to send, and a second request behind the first.
abbrev answered : ClientConnection
answered = record new_connection {
  read_buf = codes "firstsecond";
  write_buf = codes "abc";
  want_write = true;
  parser = record new_parser { consumed = 5 };
  keep_alive = true;
  headers_complete = true;
  body_complete = true;
  phase = respond;
}

handle_writable-IsSent_example :
    IsSent (2 ∷ 0 ∷ []) answered (handle_writable (2 ∷ 0 ∷ []) answered)
handle_writable-IsSent_example = handle_writable-IsSent (2 ∷ 0 ∷ []) answered

handle_writable-part :
    handle_writable (2 ∷ 0 ∷ []) answered ≡ still (record answered { write_buf = codes "c" })
unfolding handle_writable
handle_writable-part = refl

handle_writable-done_example :
    handle_writable (2 ∷ 9 ∷ 1 ∷ []) answered
    ≡ still (next_request (record answered { write_buf = [] }))
handle_writable-done_example = handle_writable-done (2 ∷ 9 ∷ 1 ∷ []) answered refl (omega arith)

handle_writable-answered :
    handle_writable (9 ∷ 9 ∷ 9 ∷ []) answered
    ≡ still (next_request (record answered { write_buf = [] }))
unfolding handle_writable next_request
handle_writable-answered = refl

sweep-handle_writable_example :
    (sweep site [] 99999999 (next_request (record answered { write_buf = [] }))
      ≡ next_request (record answered { write_buf = [] }))
    × (deadline site [] (next_request (record answered { write_buf = [] })) ≡ 0)
unfolding next_request
sweep-handle_writable_example =
    sweep-handle_writable site [] (9 ∷ 9 ∷ 9 ∷ []) answered 99999999 refl refl refl
      handle_writable-answered refl

-- A connection that has had no complete request since the time 1000.
abbrev waiting : ClientConnection
waiting = record new_connection { created_at_ms = 1000; last_activity_ms = 1000 }

is_late-deadline_example :
    is_late site [] 100000 waiting
    ≡ (not (deadline site [] waiting == 0) && ltb (deadline site [] waiting) 100000)
unfolding server_of
is_late-deadline_example = is_late-deadline site [] 100000 waiting (record {
  created_le = omega arith;
  activity_le = omega arith;
  now_lt = omega arith;
  header_set = (omega arith, omega arith);
  body_set = (omega arith, omega arith);
  idle_set = (omega arith, omega arith);
})

is_late-waiting : is_late site [] 100000 waiting ≡ true
unfolding is_late has_passed
is_late-waiting = refl

waiting-deadline : deadline site [] waiting ≡ 6000
unfolding deadline
waiting-deadline = refl

waiting-remaining : remaining 6000 2000 ≡ 4000
unfolding remaining
waiting-remaining = refl

compute_poll_timeout-IsWait_example :
    IsWait site [] 2000 (waiting ∷ []) (compute_poll_timeout site [] 2000 (waiting ∷ []))
compute_poll_timeout-IsWait_example = compute_poll_timeout-IsWait site [] 2000 (waiting ∷ []) short
  where
    short : IsShort site [] 2000 (waiting ∷ [])
    short c n (head e) left =
        let same : n ≡ 4000 =
          sym left.1
          ∙ ap (λ k. remaining (deadline site [] k) 2000) e
          ∙ ap (λ d. remaining d 2000) waiting-deadline
          ∙ waiting-remaining in
        omega (arith, same)
    short c n (tail m) left = elim m [ ]

poll_timeout-waiting : compute_poll_timeout site [] 2000 (waiting ∷ answered ∷ []) ≡ pos 4000
unfolding compute_poll_timeout earliest deadline remaining to_int
poll_timeout-waiting = refl

-- 200 calls of send, each of which takes a byte.
abbrev ones : ℕ → List ℕ
ones zero = []
ones (suc n) = 1 ∷ ones n

handle_writable-sweep_run :
    handle_writable (ones 200) (sweep site [] 100000 waiting)
    ≡ closed (record (close_late waiting) { write_buf = [] })
unfolding is_late has_passed is_cgi_late sweep close_late build_response status_line length_line
    to_decimal
handle_writable-sweep_run =
    handle_writable-sweep site [] 100000 (ones 200) waiting refl refl refl (omega arith)
