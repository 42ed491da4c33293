-- ===== src/Server/Handle.antt =====
-- What HandleReadable of docs/server/Server.cpp does with a request that Parse has completed.
pub mod Running
pub mod Answered
pub mod Handover
pub mod Confined
use selfserv.Base.{
  ℕ, suc, ◌+◌, ◌-◌, ◌%◌, Bool, true, false, not, ◌&&◌, ◌||◌, Option, none, some, List, [], ◌∷◌,
  ◌++◌, ltb, leb, ◌==◌, if◌then◌else◌, Bytes, codes, equal, length, take, drop, find, find_char,
}
use selfserv.Base.Decimal.{to_decimal}
use selfserv.Base.Int.{size_mod}
use selfserv.Config.Data.{RouteConfig, ServerConfig}
use selfserv.Http.Request.{HttpRequest}
use selfserv.Server.Route.{match_route, select_server, has_header, has_name}
use selfserv.Server.Response.{build_response, build_redirect, guess_type}
use selfserv.Server.Connection.{
  ClientConnection, Phase, accepted, headers, handle, respond, is_accepted, is_empty,
}
use selfserv.Server.Connection.Timeout.{server_of}
use selfserv.Server.System.{
  System, World, contains, with_slash, error_page, list_dir, ensure_dir, write_file,
}
use selfserv.Server.Multipart.{SavedFile, parse_multipart_form_data}
use selfserv.Server.Cgi.{Started, maybe_start_cgi}
use selfserv.Server.Reply.{
  is_method, is_head, keep_by, wants_keep_alive, with_response, refuse, accept, refuse_page,
  forbidden, not_found, internal_error,
}
use selfserv.Server.Upload.{
  unquoted_boundary, boundary_of, received, saved_lines, form_text, value_or_empty, upload_dir,
  upload_name, form_result, store_raw, store_upload, store_dat,
}

-- A connection with its response, kept alive or not, and the state of the system.
abbrev pub Handled : Type 0
Handled = ClientConnection × World

-- route->methods
abbrev pub allows : RouteConfig → ClientConnection → Bool
allows route conn = is_empty_list route.methods || has_name conn.request.method route.methods
  where
    is_empty_list : List Bytes → Bool
    is_empty_list [] = true
    is_empty_list (_ ∷ _) = false

-- rel
unfoldable pub relative_path : RouteConfig → Bytes → Bytes
unfolding equal
relative_path route uri =
    let rel = drop (length route.path) uri in
    if (is_empty rel || equal rel (codes "/")) && not (is_empty route.index)
    then b'/' ∷ route.index
    else rel

-- Whether the path ends with the extension.
unfoldable pub wants_cgi : RouteConfig → Bytes → Bool
unfolding equal
wants_cgi route file_path =
    let n = length route.cgi_extension in
    not (is_empty route.cgi_extension)
    && leb n (length file_path)
    && equal (drop (length file_path - n) file_path) route.cgi_extension

module _ (first : ServerConfig) (others : List ServerConfig) where
  -- m_headersComplete, m_phase and m_serverIndex
  unfoldable pub with_server : ClientConnection → ClientConnection
  with_server conn = record conn {
    headers_complete = true;
    phase = if is_accepted conn.phase then headers else conn.phase;
    server_index = select_server (first ∷ others) conn.request;
  }

module _ (sys : System) where
  abbrev pub by_started : ServerConfig → Started → Handled
  by_started sc (true, conn, w) =
      (record conn { cgi_start_ms = sys.time; phase = handle; want_write = false }, w)
  by_started sc (false, conn, w) = (internal_error sys sc false conn, w)

  abbrev pub answer_upload : ClientConnection → Bytes × World → Handled
  answer_upload conn (text, w) = (
    record (accept 200 (codes "OK") text (codes "text/plain") false conn) { body_complete = true },
    w,
  )

  -- POST to a route with uploads
  unfoldable pub handle_upload : RouteConfig → ClientConnection → World → Handled
  unfolding accept store_upload
  handle_upload route conn w =
      let ctype = value_or_empty (has_header conn.request.headers (codes "Content-Type")) in
      answer_upload conn
        (store_upload sys route ctype conn.request.body (ensure_dir sys (upload_dir route) w))

  abbrev pub by_page : ServerConfig → Option Bytes → ClientConnection → ClientConnection
  by_page sc none conn = internal_error sys sc (is_head conn) conn
  by_page sc (some page) conn = accept 200 (codes "OK") page (codes "text/html") (is_head conn) conn

  -- isDir(filePath)
  unfoldable pub handle_directory :
      ServerConfig → RouteConfig → Bytes → ClientConnection → ClientConnection
  unfolding accept refuse_page
  handle_directory sc route file_path conn =
      if route.directory_listing
      then by_page sc (list_dir sys file_path) conn
      else forbidden sys sc (is_head conn) conn

  unfoldable pub handle_delete : ServerConfig → Bytes → ClientConnection → World → Handled
  unfolding accept refuse_page
  handle_delete sc file_path conn w =
      if sys.is_regular file_path
      then (if sys.unlinks file_path
          then (
            accept 204 (codes "No Content") [] (codes "text/plain") false conn,
            record w { removed = w.removed ++ file_path ∷ [] },
          )
          else (internal_error sys sc false conn, w))
      else if sys.is_dir file_path
      then (forbidden sys sc false conn, w)
      else (not_found sys sc false conn, w)

  abbrev pub answer_post : ClientConnection → Bytes × World → Handled
  answer_post conn (text, w) = (accept 200 (codes "OK") text (codes "text/plain") false conn, w)

  -- readFile(filePath, body)
  unfoldable pub handle_file :
      ServerConfig → RouteConfig → Bytes → Option Bytes → ClientConnection → World → Handled
  unfolding accept refuse_page guess_type store_dat
  handle_file sc route file_path none conn w = (not_found sys sc (is_head conn) conn, w)
  handle_file sc route file_path (some text) conn w =
      if is_method (codes "GET") conn || is_head conn
      then (
        record (accept 200 (codes "OK") text (guess_type file_path) (is_head conn) conn) {
          body_complete = true;
        },
        w,
      )
      else if is_method (codes "POST") conn
      then answer_post conn (store_dat sys route conn.request.body w)
      else if is_method (codes "DELETE") conn
      then (
        refuse_page sys sc 501 (codes "Not Implemented") (codes "501 Not Implemented\n") false conn,
        w,
      )
      else (
        refuse_page sys sc 405 (codes "Method Not Allowed") (codes "405 Method Not Allowed\n") false
            conn,
        w,
      )

  -- The request for a file of the route.
  unfoldable pub serve_path :
      ServerConfig → RouteConfig → Bytes → ClientConnection → World → Handled
  unfolding handle_upload handle_directory handle_delete handle_file
  serve_path sc route file_path conn w =
      if wants_cgi route file_path
      then by_started sc (maybe_start_cgi sys route file_path conn w)
      else if is_method (codes "POST") conn && route.uploads_enabled
      then handle_upload route conn w
      else if sys.is_dir file_path
      then (handle_directory sc route file_path conn, w)
      else if is_method (codes "DELETE") conn
      then handle_delete sc file_path conn w
      else handle_file sc route file_path (sys.file_text file_path) conn w

  unfoldable pub serve_route : ServerConfig → RouteConfig → ClientConnection → World → Handled
  unfolding serve_path relative_path contains
  serve_route sc route conn w =
      let rel = relative_path route conn.request.uri in
      if not (allows route conn)
      then (
        refuse 405 (codes "Method Not Allowed") (codes "405 Method Not Allowed\n") (is_head conn)
            conn,
        w,
      )
      else if not (is_empty route.redirect)
      then (
        record (with_response (build_redirect 302 (codes "Found") route.redirect false) false
            conn) { body_complete = true },
        w,
      )
      else if contains (codes "..") rel
      then (forbidden sys sc (is_head conn) conn, w)
      else serve_path sc route (route.root ++ rel) conn w

  abbrev pub by_route : ServerConfig → Option RouteConfig → ClientConnection → World → Handled
  by_route sc none conn w = (not_found sys sc (is_head conn) conn, w)
  by_route sc (some route) conn w = serve_route sc route conn w

  unfoldable pub by_server : ServerConfig → ClientConnection → World → Handled
  unfolding serve_route
  by_server sc conn w =
      if ltb sc.client_max_body_size (length conn.request.body)
      then (
        refuse_page sys sc 413 (codes "Payload Too Large") (codes "413 Payload Too Large\n") false
            conn,
        w,
      )
      else by_route sc (match_route sc conn.request.uri) conn w

  module _ (first : ServerConfig) (others : List ServerConfig) where
    -- m_wantWrite, which every branch sets at its end
    abbrev pub to_write : Handled → Handled
    to_write (conn, w) = (record conn { want_write = true }, w)

    -- The server that selectServer returns is the one with the index that it gives out.
    unfoldable pub handle_request : ClientConnection → World → Handled
    unfolding with_server by_server server_of
    handle_request conn w =
        let c = with_server first others conn in to_write (by_server (server_of first others c) c w)
