-- ===== src/Server/Handle/Answered.antt =====
-- What becomes of a request, and of its connection, in docs/server/Server.cpp.
use selfserv.Base.{
  ℕ, ◌≡◌, refl, if-both, ◌⊎◌, inl, inr, Bool, true, false, Option, none, some, List, Bytes, codes,
  starts_with, not, ◌&&◌, ◌||◌, ltb, length,
}
use selfserv.Config.Data.{RouteConfig, ServerConfig}
use selfserv.Server.Response.{build_response, build_redirect, status_line, guess_type}
use selfserv.Server.Connection.{ClientConnection, handle, respond, is_empty}
use selfserv.Server.Connection.Timeout.{server_of}
use selfserv.Server.System.{ensure_dir, System, World, list_dir, error_page, contains}
use selfserv.Server.Cgi.{Started, maybe_start_cgi}
use selfserv.Server.Reply.{with_response, refuse, accept, refuse_page, is_head, is_method}
use selfserv.Server.Upload.{upload_dir, value_or_empty, store_upload}
use selfserv.Server.Route.{has_header}
use selfserv.Server.Handle.{
  Handled, wants_cgi, allows, relative_path, by_started, by_page, by_route, handle_upload,
  handle_directory, handle_delete, handle_file, serve_path, serve_route, by_server, with_server,
  handle_request,
}
use selfserv.Server.Handle.Running.{SameInput, Says, maybe_start_cgi-Says}

-- A response waits in the buffer.
abbrev pub HasResponse : ClientConnection → Type 0
HasResponse conn = (conn.phase ≡ respond) × (starts_with (codes "HTTP/1.1 ") conn.write_buf ≡ true)

-- What has become of the connection `conn`: the other one has a response, or a program runs for it,
-- and then its buffer and its flag are as they were.
abbrev pub IsAnswered : ClientConnection → ClientConnection → Type 0
IsAnswered conn after =
    HasResponse after
    ⊎ ((after.phase ≡ handle)
        × (after.cgi_active ≡ true)
        × (after.write_buf ≡ conn.write_buf)
        × (after.keep_alive ≡ conn.keep_alive))

refuse-HasResponse :
    (code : ℕ) (reason text : Bytes) (head_only : Bool) (conn : ClientConnection)
    → HasResponse (refuse code reason text head_only conn)
unfolding refuse with_response build_response status_line starts_with
refuse-HasResponse code reason text head_only conn = (refl, refl)

accept-HasResponse :
    (code : ℕ) (reason text type : Bytes) (head_only : Bool) (conn : ClientConnection)
    → HasResponse (accept code reason text type head_only conn)
unfolding accept with_response build_response status_line starts_with
accept-HasResponse code reason text type head_only conn = (refl, refl)

module _ (sys : System) (sc : ServerConfig) where
  refuse_page-HasResponse :
      (code : ℕ) (reason fallback : Bytes) (head_only : Bool) (conn : ClientConnection)
      → HasResponse (refuse_page sys sc code reason fallback head_only conn)
  unfolding refuse_page
  refuse_page-HasResponse code reason fallback head_only conn =
      refuse-HasResponse code reason (error_page sys sc code fallback) head_only conn

  unfoldable Done : ClientConnection → Handled → Type 0
  Done conn h = IsAnswered conn h.0 × SameInput conn h.0

  refuse_page-Done :
      (code : ℕ) (reason fallback : Bytes) (head_only : Bool) (conn : ClientConnection) (w : World)
      → Done conn (refuse_page sys sc code reason fallback head_only conn, w)
  unfolding Done refuse_page refuse with_response
  refuse_page-Done code reason fallback head_only conn w =
      (inl (refuse_page-HasResponse code reason fallback head_only conn), (refl, refl, refl))

  accept-Done :
      (code : ℕ) (reason text type : Bytes) (head_only : Bool) (conn : ClientConnection) (w : World)
      → Done conn (accept code reason text type head_only conn, w)
  unfolding Done accept with_response
  accept-Done code reason text type head_only conn w =
      (inl (accept-HasResponse code reason text type head_only conn), (refl, refl, refl))

  by_started-Done :
      (conn : ClientConnection) (s : Started) → Says conn s → Done conn (by_started sys sc s)
  unfolding Done refuse_page refuse with_response
  by_started-Done conn (true, after, w) (active, buffer, keep, same) =
      (inr (refl, active refl, buffer, keep), same)
  by_started-Done conn (false, after, w) (active, buffer, keep, same) = (
    inl (
        refuse_page-HasResponse 500 (codes "Internal Server Error")
          (codes "500 Internal Server Error\n") false after),
    same,
  )

  handle_upload-Done :
      (route : RouteConfig) (conn : ClientConnection) (w : World)
      → Done conn (handle_upload sys route conn w)
  unfolding Done handle_upload accept with_response
  handle_upload-Done route conn w = (
    inl (
        accept-HasResponse 200 (codes "OK")
          (store_upload sys route
            (value_or_empty (has_header conn.request.headers (codes "Content-Type")))
            conn.request.body (ensure_dir sys (upload_dir route) w)).0
          (codes "text/plain") false conn),
    (refl, refl, refl),
  )

  by_page-Done :
      (page : Option Bytes) (conn : ClientConnection) (w : World)
      → Done conn (by_page sys sc page conn, w)
  by_page-Done none conn w = refuse_page-Done 500 _ _ _ conn w
  by_page-Done (some page) conn w = accept-Done 200 _ _ _ _ conn w

  handle_directory-Done :
      (route : RouteConfig) (path : Bytes) (conn : ClientConnection) (w : World)
      → Done conn (handle_directory sys sc route path conn, w)
  unfolding handle_directory
  handle_directory-Done route path conn w =
      if-both (λ c. Done conn (c, w)) route.directory_listing
        (by_page-Done (list_dir sys path) conn w) (refuse_page-Done 403 _ _ _ conn w)

  handle_delete-Done :
      (path : Bytes) (conn : ClientConnection) (w : World)
      → Done conn (handle_delete sys sc path conn w)
  unfolding handle_delete Done
  handle_delete-Done path conn w =
      if-both (Done conn) (sys.is_regular path)
        (if-both (Done conn) (sys.unlinks path) (accept-Done 204 _ _ _ false conn w)
          (refuse_page-Done 500 _ _ false conn w))
        (if-both (Done conn) (sys.is_dir path) (refuse_page-Done 403 _ _ false conn w)
          (refuse_page-Done 404 _ _ false conn w))

  complete-Done :
      (conn after : ClientConnection) (w : World)
      → Done conn (after, w)
      → Done conn (record after { body_complete = true }, w)
  unfolding Done
  complete-Done conn after w h = h

  handle_file-Done :
      (route : RouteConfig) (path : Bytes) (text : Option Bytes) (conn : ClientConnection)
      (w : World)
      → Done conn (handle_file sys sc route path text conn w)
  unfolding handle_file Done
  handle_file-Done route path none conn w = refuse_page-Done 404 _ _ _ conn w
  handle_file-Done route path (some text) conn w =
      if-both (Done conn) (is_method (codes "GET") conn || is_head conn)
        (complete-Done conn (accept 200 (codes "OK") text (guess_type path) (is_head conn) conn) w
          (accept-Done 200 _ text _ _ conn w))
        (if-both (Done conn) (is_method (codes "POST") conn) (accept-Done 200 _ _ _ false conn w) (
          if-both (Done conn) (is_method (codes "DELETE") conn)
            (refuse_page-Done 501 _ _ false conn w) (refuse_page-Done 405 _ _ false conn w)))

  serve_path-Done :
      (route : RouteConfig) (path : Bytes) (conn : ClientConnection) (w : World)
      → Done conn (serve_path sys sc route path conn w)
  unfolding serve_path
  serve_path-Done route path conn w =
      if-both (Done conn) (wants_cgi route path)
        (by_started-Done conn (maybe_start_cgi sys route path conn w)
          (maybe_start_cgi-Says sys route path conn w))
        (if-both (Done conn) (is_method (codes "POST") conn && route.uploads_enabled)
          (handle_upload-Done route conn w)
          (if-both (Done conn) (sys.is_dir path) (handle_directory-Done route path conn w) (
            if-both (Done conn) (is_method (codes "DELETE") conn) (handle_delete-Done path conn w)
              (handle_file-Done route path (sys.file_text path) conn w))))

  refuse-Done :
      (code : ℕ) (reason text : Bytes) (head_only : Bool) (conn : ClientConnection) (w : World)
      → Done conn (refuse code reason text head_only conn, w)
  unfolding Done refuse with_response
  refuse-Done code reason text head_only conn w =
      (inl (refuse-HasResponse code reason text head_only conn), (refl, refl, refl))

  redirect-Done :
      (route : RouteConfig) (conn : ClientConnection) (w : World)
      → Done conn (
        record (with_response
            (build_redirect 302 (codes "Found") route.redirect false)
            false
            conn) { body_complete = true },
        w,
      )
  unfolding Done with_response build_redirect status_line starts_with
  redirect-Done route conn w = (inl (refl, refl), (refl, refl, refl))

  serve_route-Done :
      (route : RouteConfig) (conn : ClientConnection) (w : World)
      → Done conn (serve_route sys sc route conn w)
  unfolding serve_route
  serve_route-Done route conn w =
      if-both (Done conn) (not (allows route conn)) (refuse-Done 405 _ _ _ conn w) (
        if-both (Done conn) (not (is_empty route.redirect)) (redirect-Done route conn w) (
          if-both (Done conn) (contains (codes "..") (relative_path route conn.request.uri))
            (refuse_page-Done 403 _ _ _ conn w) (serve_path-Done route _ conn w)))

  by_route-Done :
      (route : Option RouteConfig) (conn : ClientConnection) (w : World)
      → Done conn (by_route sys sc route conn w)
  by_route-Done none conn w = refuse_page-Done 404 _ _ _ conn w
  by_route-Done (some route) conn w = serve_route-Done route conn w

  by_server-Done : (conn : ClientConnection) (w : World) → Done conn (by_server sys sc conn w)
  unfolding by_server
  by_server-Done conn w =
      if-both (Done conn) (ltb sc.client_max_body_size (length conn.request.body))
        (refuse_page-Done 413 _ _ false conn w) (by_route-Done _ conn w)

-- Every complete request has one answer, whatever the system says: a response that begins with the
-- version waits in the buffer, or a program has been started, and the buffer and the keep-alive flag
-- are as they were; and in both cases the connection waits to be written.
pub handle_request-IsAnswered :
    (sys : System) (first : ServerConfig) (others : List ServerConfig) (conn : ClientConnection)
    (w : World)
    → ((handle_request sys first others conn w).0.want_write ≡ true)
      × IsAnswered conn (handle_request sys first others conn w).0
unfolding handle_request with_server Done
handle_request-IsAnswered sys first others conn w =
    let c = with_server first others conn in
    (refl, (by_server-Done sys (server_of first others c) c w).0)

pub handle_request-SameInput :
    (sys : System) (first : ServerConfig) (others : List ServerConfig) (conn : ClientConnection)
    (w : World)
    → SameInput conn (handle_request sys first others conn w).0
unfolding handle_request with_server Done
handle_request-SameInput sys first others conn w =
    let c = with_server first others conn in (by_server-Done sys (server_of first others c) c w).1
