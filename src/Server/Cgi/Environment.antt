-- ===== src/Server/Cgi/Environment.antt =====
-- The environment that the child of MaybeStartCgi in docs/server/Server.cpp builds. execlp does not
-- give it to the program.
use selfserv.Base.{
  ℕ, suc, ◌-◌, Option, none, some, List, [], ◌∷◌, ◌++◌, ◌==◌, ◌&&◌, leb, if◌then◌else◌, Bytes,
  codes, equal, to_lower, length, map, get_elem?,
}
use selfserv.Base.Decimal.{to_decimal}
use selfserv.Base.Int.{ℤ, pos, negsuc}
use selfserv.Config.Data.{ServerConfig}
use selfserv.Http.Head.{split_at}
use selfserv.Http.Request.{HttpHeader}
use selfserv.Server.Connection.{ClientConnection, is_empty}

-- sprintf's %d
abbrev pub int_text : ℤ → Bytes
int_text (pos n) = to_decimal n
int_text (negsuc n) = b'-' ∷ to_decimal (suc n)

-- The URI in front of its question mark, and the query behind it.
abbrev pub path_and_query : Option (Bytes × Bytes) → Bytes → Bytes × Bytes
path_and_query none uri = (uri, [])
path_and_query (some parts) uri = parts

unfoldable pub content_type : List HttpHeader → Bytes
unfolding equal to_lower
content_type [] = []
content_type (h ∷ hs) =
    let others = content_type hs in
    if equal (map to_lower h.name) (codes "content-type") then h.value else others

-- SERVER_NAME and SERVER_PORT
abbrev pub server_name : List Bytes → Bytes → Bytes
server_name (name ∷ names) host = name
server_name [] [] = codes "localhost"
server_name [] (c ∷ cs) = c ∷ cs

abbrev pub name_and_port : Option ServerConfig → Bytes × Bytes
name_and_port none = (codes "localhost", codes "80")
name_and_port (some sc) = (server_name sc.server_names sc.host, int_text sc.port)

-- std::toupper, with `_` for a dash
abbrev pub to_key : ℕ → ℕ
to_key c = if c == b'-' then b'_' else if leb b'a' c && leb c b'z' then c - 32 else c

unfoldable pub http_entries : List HttpHeader → List Bytes
http_entries [] = []
http_entries (h ∷ hs) =
    let others = http_entries hs in
    if is_empty h.name
    then others
    else (codes "HTTP_" ++ (map to_key h.name ++ b'=' ∷ h.value)) ∷ others

-- envStrs
unfoldable pub cgi_environment : List ServerConfig → ClientConnection → Bytes → List Bytes
unfolding split_at content_type http_entries
cgi_environment servers conn file_path =
    let req = conn.request in
    let (path_info, query) = path_and_query (split_at b'?' req.uri) req.uri in
    let ctype = content_type req.headers in
    let (name, port) = name_and_port (get_elem? servers conn.server_index) in
    (codes "REQUEST_METHOD=" ++ req.method)
    ∷ (codes "SCRIPT_FILENAME=" ++ file_path)
    ∷ (codes "SCRIPT_NAME=" ++ file_path)
    ∷ (codes "PATH_INFO=" ++ path_info)
    ∷ (codes "QUERY_STRING=" ++ query)
    ∷ (codes "CONTENT_LENGTH=" ++ to_decimal (length req.body))
    ∷ ((if is_empty ctype then [] else (codes "CONTENT_TYPE=" ++ ctype) ∷ [])
        ++ (codes "GATEWAY_INTERFACE=CGI/1.1"
            ∷ codes "SERVER_PROTOCOL=HTTP/1.1"
            ∷ codes "REDIRECT_STATUS=200"
            ∷ (codes "SERVER_NAME=" ++ name)
            ∷ (codes "SERVER_PORT=" ++ port)
            ∷ http_entries req.headers))
