-- ===== src/Server/Readable/Tests.antt =====
-- Runs of the handlers, and their properties at concrete inputs.
use selfserv.Base.{List, ℕ, ◌≡◌, refl, true, some, [], ◌∷◌, Bytes, codes, equal, arith}
use selfserv.Base.Int.{pos}
use selfserv.Config.Data.{ServerConfig, new_route, new_server_config}
use selfserv.Http.Request.{new_request, new_parser}
use selfserv.Http.Parser.{parse, has_error}
use selfserv.Http.Head.{header_lines}
use selfserv.Http.Parser.Ready.{IsFresh, IsReady}
use selfserv.Server.Route.{select_server, match_route}
use selfserv.Server.Response.{build_response, status_line, length_line}
use selfserv.Server.Samples.{disk, clean}
use selfserv.Server.Cgi.{maybe_start_cgi}
use selfserv.Server.Connection.{ClientConnection, new_connection}
use selfserv.Server.Connection.Writable.{closed, handle_writable}
use selfserv.Server.System.{World, ensure_dir, write_file}
use selfserv.Server.Multipart.{
  SavedFile, multipart_loop, multipart_round, find_from, store_part, part_names, skip_gaps,
  drop_gaps, unquoted, stored_path, data_end, part_data, parse_multipart_form_data,
}
use selfserv.Server.Multipart.Ends.{parse_multipart_form_data-ends}
use selfserv.Server.Reply.{is_method}
use selfserv.Server.System.Confined.{IsConfined}
use selfserv.Server.Handle.{handle_request, wants_cgi}
use selfserv.Server.Handle.Answered.{IsAnswered, handle_request-IsAnswered}
use selfserv.Server.Handle.Handover.{handle_writable-started}
use selfserv.Server.Handle.Confined.{IsRoute}
use selfserv.Server.Readable.Confined.{LeavesConfined, handle_readable-IsConfined}
use selfserv.Server.Readable.{read, handle_readable, with_bytes}
use selfserv.Server.Readable.Reachable.{reads, starts, goes, Reachable-IsReady}
use selfserv.Server.Readable.Returns.{handle_readable-returns}
use selfserv.Server.Readable.Arrival.{handle_readable-pieces}

abbrev site : ServerConfig
site = record (new_server_config (codes "h") (pos 80)) {
  routes =
      new_route (codes "/") (codes "w/")
      ∷ record (new_route (codes "/up") (codes "w")) { uploads_enabled = true }
      ∷ record (new_route (codes "/cgi") (codes "c")) { cgi_extension = codes ".py" }
      ∷ [];
}

-- A connection with a request.
abbrev asks : Bytes → Bytes → Bytes → ClientConnection
asks method uri body = record new_connection {
  request = record new_request {
    method = method;
    uri = uri;
    version = codes "HTTP/1.1";
    body = body;
    complete = true;
  };
}

handle_request-IsAnswered_example :
    ((handle_request disk site [] (asks (codes "GET") (codes "/a.txt") []) clean).0.want_write
      ≡ true)
    × IsAnswered
        (asks (codes "GET") (codes "/a.txt") [])
        (handle_request disk site [] (asks (codes "GET") (codes "/a.txt") []) clean).0
handle_request-IsAnswered_example =
    handle_request-IsAnswered disk site [] (asks (codes "GET") (codes "/a.txt") []) clean

handle_request-get :
    (handle_request disk site [] (asks (codes "GET") (codes "/a.txt") []) clean).0.write_buf
    ≡ codes
        "HTTP/1.1 200 OK\r\nContent-Length: 5\r\nContent-Type: text/plain\r\nConnection: keep-alive\r\n\r\nhello"
unfolding handle_request select_server match_route wants_cgi is_method build_response status_line
    length_line
handle_request-get = refl

-- A path with "..", and the guard.
-- A root that is a dot, and a path that begins with one: the file that is removed is outside the root.
handle_request-dot :
    (handle_request
      (record disk { is_regular = λ path. true })
      (record site { routes = new_route (codes "/") (codes ".") ∷ [] })
      []
      (asks (codes "DELETE") (codes "/./secret") [])
      clean).1.removed
    ≡ codes "../secret" ∷ []
unfolding handle_request select_server match_route wants_cgi is_method
handle_request-dot = refl

-- A form with one file.
abbrev form : Bytes
form =
    codes
      "--B\r\nContent-Disposition: form-data; name=\"f\"; filename=\"../x\"\r\n\r\ndata\r\n--B--"

parse_multipart_form_data-ends_example :
    (out : World × List SavedFile) × (parse_multipart_form_data disk
        (codes "w")
        form
        (codes "B")
        clean
      ≡ some out)
parse_multipart_form_data-ends_example =
    parse_multipart_form_data-ends disk (codes "w") form (codes "B") clean

parse_multipart_form_data-form :
    parse_multipart_form_data disk (codes "w") form (codes "B") clean
    ≡ some (
      record clean { made = codes "w" ∷ []; written = (codes "w/x", codes "data") ∷ [] },
      (record { field = codes "f"; filename = codes "w/x"; size = 4 }) ∷ [],
    )
unfolding parse_multipart_form_data multipart_loop multipart_round find_from store_part part_names
    header_lines skip_gaps equal drop_gaps unquoted write_file stored_path data_end ensure_dir
    part_data
parse_multipart_form_data-form = refl

-- A part whose head is followed by the boundary with no line end between: its data ends in front of
-- its start, and the size wraps round.
parse_multipart_form_data-empty :
    parse_multipart_form_data disk
      (codes "w")
      (codes "--B\r\nContent-Disposition: form-data; filename=\"x\"\r\n\r\n--B--")
      (codes "B")
      clean
    ≡ some (
      record clean { made = codes "w" ∷ []; written = (codes "w/x", []) ∷ [] },
      (record { field = []; filename = codes "w/x"; size = 18446744073709551614 }) ∷ [],
    )
unfolding parse_multipart_form_data multipart_loop multipart_round find_from store_part part_names
    header_lines skip_gaps equal drop_gaps unquoted write_file stored_path data_end ensure_dir
    part_data
parse_multipart_form_data-empty = refl

clean-IsConfined : IsConfined (IsRoute site []) clean
clean-IsConfined = record { stored = λ p c m. elim m [ ]; served = λ p m. elim m [ ] }

abbrev removal : Bytes
removal = codes "DELETE /a.txt HTTP/1.1\r\nHost: h\r\n\r\n"

handle_readable-IsConfined_example :
    LeavesConfined site [] (handle_readable disk site [] ((7, removal) ∷ []) new_connection clean)
handle_readable-IsConfined_example =
    handle_readable-IsConfined site [] disk ((7, removal) ∷ []) new_connection clean
      clean-IsConfined

-- A request for a program.
abbrev runs : ClientConnection
runs = asks (codes "GET") (codes "/cgi/a.py") []

handle_writable-started_example :
    handle_writable (100 ∷ []) (handle_request disk site [] runs clean).0
    ≡ closed (record (handle_request disk site [] runs clean).0 { write_buf = [] })
unfolding handle_request select_server match_route wants_cgi maybe_start_cgi
handle_writable-started_example =
    handle_writable-started disk site [] (100 ∷ []) runs clean refl refl refl

new_parser-IsFresh : IsFresh new_parser
new_parser-IsFresh = record {
  none_consumed = refl;
  chunks_new = refl;
  state_is = tt;
  read_le = omega arith;
}

-- The head of a request, in two pieces.
abbrev head_pieces : List (ℕ × Bytes)
head_pieces = (7000, codes "GET /a.txt HTTP/1.1\r\nHost: ") ∷ (8000, codes "h\r\n\r\n") ∷ []

handle_readable-returns_run :
    (h : ClientConnection × World) × (handle_readable disk site [] head_pieces new_connection clean
      ≡ read h)
handle_readable-returns_run =
    handle_readable-returns disk site [] head_pieces new_connection clean new_parser-IsFresh
      (omega arith)

handle_readable-pieces_example :
    handle_readable disk site [] head_pieces new_connection clean
    ≡ handle_readable disk site []
        ((8000, codes "GET /a.txt HTTP/1.1\r\nHost: h\r\n\r\n") ∷ [])
        new_connection
        clean
unfolding parse
handle_readable-pieces_example =
    handle_readable-pieces disk site [] 7000 8000 (codes "GET /a.txt HTTP/1.1\r\nHost: ")
      (codes "h\r\n\r\n") [] new_connection clean new_parser-IsFresh (omega arith) refl refl

-- The first bytes of a request.
abbrev begun : ClientConnection
begun = record new_connection { read_buf = codes "GET /"; last_activity_ms = 7000 }

handle_readable-begun :
    handle_readable disk site [] ((7000, codes "GET /") ∷ []) new_connection clean
    ≡ read (begun, clean)
unfolding handle_readable with_bytes parse has_error
handle_readable-begun = refl

Reachable-IsReady_run : IsReady begun.parser.state begun.read_buf begun.parser
Reachable-IsReady_run = Reachable-IsReady site [] (
    goes (starts clean) (
      reads disk ((7000, codes "GET /") ∷ []) new_connection begun clean clean (omega arith)
        handle_readable-begun))
