-- ===== src/Server/Reply.antt =====
-- How HandleReadable of docs/server/Server.cpp sets a response.
use selfserv.Base.{ℕ, Bool, false, ◌||◌, Option, none, some, if◌then◌else◌, Bytes, codes, equal}
use selfserv.Config.Data.{ServerConfig}
use selfserv.Http.Request.{HttpRequest}
use selfserv.Server.Route.{has_header}
use selfserv.Server.Response.{build_response}
use selfserv.Server.Connection.{ClientConnection, respond}
use selfserv.Server.System.{System, error_page}

unfoldable pub is_method : Bytes → ClientConnection → Bool
unfolding equal
is_method name conn = equal conn.request.method name

abbrev pub is_head : ClientConnection → Bool
is_head conn = is_method (codes "HEAD") conn

unfoldable pub keep_by : Option Bytes → Bytes → Bool
unfolding equal
keep_by none version = equal version (codes "HTTP/1.1")
keep_by (some keep) version =
    if equal keep (codes "close") || equal keep (codes "Close")
    then false
    else equal keep (codes "keep-alive") || equal keep (codes "Keep-Alive")

-- What m_keepAlive is set to by the Connection header and the version.
unfoldable pub wants_keep_alive : HttpRequest → Bool
unfolding keep_by has_header
wants_keep_alive req = keep_by (has_header req.headers (codes "Connection")) req.version

-- m_writeBuf and m_phase for a response.
unfoldable pub with_response : Bytes → Bool → ClientConnection → ClientConnection
with_response response keep conn = record conn {
  keep_alive = keep;
  write_buf = response;
  phase = respond;
}

-- A response in plain text that ends the connection.
unfoldable pub refuse : ℕ → Bytes → Bytes → Bool → ClientConnection → ClientConnection
unfolding with_response
refuse code reason text head_only conn =
    with_response (build_response code reason text (codes "text/plain") false head_only) false conn

-- A response to be kept alive by the request's wish.
unfoldable pub accept : ℕ → Bytes → Bytes → Bytes → Bool → ClientConnection → ClientConnection
unfolding with_response wants_keep_alive
accept code reason text type head_only conn =
    let keep = wants_keep_alive conn.request in
    with_response (build_response code reason text type keep head_only) keep conn

module _ (sys : System) where
  unfoldable pub refuse_page :
      ServerConfig → ℕ → Bytes → Bytes → Bool → ClientConnection → ClientConnection
  unfolding refuse error_page
  refuse_page sc code reason fallback head_only conn =
      refuse code reason (error_page sys sc code fallback) head_only conn

  abbrev pub forbidden : ServerConfig → Bool → ClientConnection → ClientConnection
  forbidden sc = refuse_page sc 403 (codes "Forbidden") (codes "403 Forbidden\n")

  abbrev pub not_found : ServerConfig → Bool → ClientConnection → ClientConnection
  not_found sc = refuse_page sc 404 (codes "Not Found") (codes "404 Not Found\n")

  abbrev pub internal_error : ServerConfig → Bool → ClientConnection → ClientConnection
  internal_error sc =
      refuse_page sc 500 (codes "Internal Server Error") (codes "500 Internal Server Error\n")
