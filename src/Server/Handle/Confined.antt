-- ===== src/Server/Handle/Confined.antt =====
-- Which files the handling of a request writes and removes, in docs/server/Server.cpp.
use selfserv.Base.{
  ℕ, zero, suc, ◌≡◌, refl, sym, ap, subst, true, false, not, ◌&&◌, ◌||◌, if-both, if-when, Option,
  none, some, List, [], ◌∷◌, ◌++◌, ltb, length, Bytes, codes, get_elem?, Option-cases, inl, inr,
}
use mathlib.Core.List.{Memᴰ}
use mathlib.Core.List.Memᴰ.{head, tail}
use selfserv.Config.Data.{RouteConfig, ServerConfig}
use selfserv.Server.Route.{match_route}
use selfserv.Server.Best.{IsLongest, match_route-IsLongest}
use selfserv.Server.Connection.{ClientConnection, is_empty}
use selfserv.Server.Connection.Timeout.{server_of}
use selfserv.Server.System.{System, World, Program, contains}
use selfserv.Server.Cgi.{
  Started, maybe_start_cgi, by_pipe_in, by_pipe_out, by_fork, forked, child_program,
}
use selfserv.Server.Response.{build_redirect}
use selfserv.Server.Reply.{is_head, is_method, refuse, with_response, forbidden}
use selfserv.Server.Upload.{upload_dir}
use selfserv.Server.Upload.Confined.{store_upload-IsConfined, store_dat-IsConfined}
use selfserv.Server.System.Confined.{
  IsConfined, IsServed, fenced, ensure_dir-IsConfined, remove-IsConfined,
}
use selfserv.Server.Handle.{
  Handled, wants_cgi, allows, relative_path, by_started, handle_upload, handle_directory,
  handle_delete, handle_file, serve_path, serve_route, by_route, by_server, with_server,
  handle_request,
}

module _ (K : RouteConfig → Type 0) (sys : System) where
  -- The pipes and the child do nothing to the files.
  abbrev SameFiles : Started → World → Type 0
  SameFiles (b, conn, v) w = (v.written ≡ w.written) × (v.removed ≡ w.removed)

  by_fork-SameFiles :
      (fork : Option ℕ) (i o : ℕ × ℕ) (program : Program) (conn : ClientConnection) (w : World)
      → SameFiles (by_fork fork i o program conn w) w
  unfolding forked
  by_fork-SameFiles none i o program conn w = (refl, refl)
  by_fork-SameFiles (some pid) i o program conn w = (refl, refl)

  by_pipe_out-SameFiles :
      (o : Option (ℕ × ℕ)) (i : ℕ × ℕ) (program : Program) (conn : ClientConnection) (w : World)
      → SameFiles (by_pipe_out sys o i program conn w) w
  by_pipe_out-SameFiles none i program conn w = (refl, refl)
  by_pipe_out-SameFiles (some o) i program conn w = by_fork-SameFiles sys.fork i o program conn w

  by_pipe_in-SameFiles :
      (i : Option (ℕ × ℕ)) (program : Program) (conn : ClientConnection) (w : World)
      → SameFiles (by_pipe_in sys i program conn w) w
  by_pipe_in-SameFiles none program conn w = (refl, refl)
  by_pipe_in-SameFiles (some i) program conn w = by_pipe_out-SameFiles sys.pipe_out i program conn w

  maybe_start_cgi-SameFiles :
      (route : RouteConfig) (path : Bytes) (conn : ClientConnection) (w : World)
      → SameFiles (maybe_start_cgi sys route path conn w) w
  unfolding maybe_start_cgi
  maybe_start_cgi-SameFiles route path conn w =
      by_pipe_in-SameFiles sys.pipe_in (child_program route path) conn w

  IsConfined-same :
      (v w : World)
      → IsConfined K w
      → v.written ≡ w.written
      → v.removed ≡ w.removed
      → IsConfined K v
  IsConfined-same v w h e f = record {
    stored = λ p c m. h.stored p c (subst (λ ws. Memᴰ (p, c) ws) e m);
    served = λ p m. h.served p (subst (λ ws. Memᴰ p ws) f m);
  }

  unfoldable Safe : Handled → Type 0
  Safe h = IsConfined K h.1

  kept : (conn : ClientConnection) (w : World) → IsConfined K w → Safe (conn, w)
  unfolding Safe
  kept conn w h = h

  by_started-Safe :
      (sc : ServerConfig) (s : Started) (w : World)
      → SameFiles s w
      → IsConfined K w
      → Safe (by_started sys sc s)
  unfolding Safe
  by_started-Safe sc (true, conn, v) w (e, f) h = IsConfined-same v w h e f
  by_started-Safe sc (false, conn, v) w (e, f) h = IsConfined-same v w h e f

  module _ (sc : ServerConfig) (route : RouteConfig) (k : K route) where
    handle_upload-Safe :
        (conn : ClientConnection) (w : World)
        → IsConfined K w
        → Safe (handle_upload sys route conn w)
    unfolding handle_upload Safe
    handle_upload-Safe conn w h =
        store_upload-IsConfined K sys route k _ conn.request.body _
          (ensure_dir-IsConfined K sys (upload_dir route) w h)

    handle_delete-Safe :
        (path : Bytes) (conn : ClientConnection) (w : World)
        → IsConfined K w
        → IsServed K path
        → Safe (handle_delete sys sc path conn w)
    unfolding handle_delete Safe
    handle_delete-Safe path conn w h p =
        if-both {A = Handled} (λ r. IsConfined K r.1) (sys.is_regular path)
          (if-both {A = Handled} (λ r. IsConfined K r.1) (sys.unlinks path)
            (remove-IsConfined K path w h p) h)
          (if-both {A = Handled} (λ r. IsConfined K r.1) (sys.is_dir path) h h)

    handle_file-Safe :
        (path : Bytes) (text : Option Bytes) (conn : ClientConnection) (w : World)
        → IsConfined K w
        → Safe (handle_file sys sc route path text conn w)
    unfolding handle_file Safe
    handle_file-Safe path none conn w h = h
    handle_file-Safe path (some text) conn w h =
        if-both {A = Handled} (λ r. IsConfined K r.1) (is_method (codes "GET") conn || is_head conn)
          h
          (if-both {A = Handled} (λ r. IsConfined K r.1) (is_method (codes "POST") conn)
            (store_dat-IsConfined K sys route k conn.request.body w h)
            (if-both {A = Handled} (λ r. IsConfined K r.1) (is_method (codes "DELETE") conn) h h))

    serve_path-Safe :
        (path : Bytes) (conn : ClientConnection) (w : World)
        → IsConfined K w
        → IsServed K path
        → Safe (serve_path sys sc route path conn w)
    unfolding serve_path
    serve_path-Safe path conn w h p =
        if-both Safe (wants_cgi route path)
          (by_started-Safe sc (maybe_start_cgi sys route path conn w) w
            (maybe_start_cgi-SameFiles route path conn w) h)
          (if-both Safe (is_method (codes "POST") conn && route.uploads_enabled)
            (handle_upload-Safe conn w h)
            (if-both Safe (sys.is_dir path) (kept (handle_directory sys sc route path conn) w h) (
              if-both Safe (is_method (codes "DELETE") conn) (handle_delete-Safe path conn w h p)
                (handle_file-Safe path (sys.file_text path) conn w h))))

    serve_route-Safe :
        (conn : ClientConnection) (w : World)
        → IsConfined K w
        → Safe (serve_route sys sc route conn w)
    unfolding serve_route
    serve_route-Safe conn w h =
        let rel = relative_path route conn.request.uri in
        if-both Safe (not (allows route conn))
          (kept
            (refuse 405 (codes "Method Not Allowed") (codes "405 Method Not Allowed\n")
              (is_head conn) conn)
            w h)
          (if-both Safe (not (is_empty route.redirect))
            (kept
              (record (with_response (build_redirect 302 (codes "Found") route.redirect false) false
                conn) { body_complete = true })
              w h)
            (if-when Safe (contains (codes "..") rel)
              (λ dots. kept (forbidden sys sc (is_head conn) conn) w h)
              (λ plain.
                serve_path-Safe (route.root ++ rel) conn w h
                  (route, k, rel, refl, plain, fenced route.root rel plain))))

  by_route-Safe :
      (sc : ServerConfig) (route : Option RouteConfig) (conn : ClientConnection) (w : World)
      → ((r : RouteConfig) → route ≡ some r → K r)
      → IsConfined K w
      → Safe (by_route sys sc route conn w)
  by_route-Safe sc none conn w known h = kept _ w h
  by_route-Safe sc (some route) conn w known h =
      serve_route-Safe sc route (known route refl) conn w h

module _ (first : ServerConfig) (others : List ServerConfig) where
  -- A route of the configuration.
  abbrev pub IsRoute : RouteConfig → Type 0
  IsRoute route = (sc : ServerConfig) × Memᴰ sc (first ∷ others) × Memᴰ route sc.routes

  matched :
      (sc : ServerConfig) (uri : Bytes) (r : RouteConfig)
      → match_route sc uri ≡ some r
      → Memᴰ r sc.routes
  matched sc uri r e = (subst (IsLongest sc.routes uri) e (match_route-IsLongest sc uri)).0

  get_elem-Memᴰ :
      (l : List ServerConfig) (i : ℕ) (sc : ServerConfig) → get_elem? l i ≡ some sc → Memᴰ sc l
  get_elem-Memᴰ [] i sc e = cc e
  get_elem-Memᴰ (x ∷ l) zero sc e = head (ap (λ o. elim o [ none ↦ sc | some y ↦ y ]) (sym e))
  get_elem-Memᴰ (x ∷ l) (suc i) sc e = tail (get_elem-Memᴰ l i sc e)

  server_of-Memᴰ : (conn : ClientConnection) → Memᴰ (server_of first others conn) (first ∷ others)
  unfolding server_of
  server_of-Memᴰ conn = elim (Option-cases (get_elem? (first ∷ others) conn.server_index)) [
    | inl missing ↦ rw missing (head refl)
    | inr (sc, found) ↦ rw found (get_elem-Memᴰ (first ∷ others) conn.server_index sc found)
  ]

  -- Whatever a request asks for, and whatever the system answers: files are written only into the
  -- directories for uploads of the configured routes, under names with no slash, and removed only
  -- where a path is the root of a route and a text with no "..".
  pub handle_request-IsConfined :
      (sys : System) (conn : ClientConnection) (w : World)
      → IsConfined IsRoute w
      → IsConfined IsRoute (handle_request sys first others conn w).1
  unfolding handle_request by_server Safe
  handle_request-IsConfined sys conn w h =
      let c = with_server first others conn in
      let sc = server_of first others c in
      if-both {A = Handled} (λ r. IsConfined IsRoute r.1)
        (ltb sc.client_max_body_size (length c.request.body)) h
        (by_route-Safe IsRoute sys sc (match_route sc c.request.uri) c w
          (λ r e. (sc, server_of-Memᴰ c, matched sc c.request.uri r e)) h)
