-- ===== src/Config/Line.antt =====
-- ConfigParser::ParseLine and the loop of ParseFile in docs/config/ConfigParser.cpp.
use selfserv.Base.{
  onto_first, ℕ, suc, Bool, true, false, ◌||◌, Option, none, some, List, [], ◌∷◌, ◌++◌, ◌==◌,
  if◌then◌else◌, Bytes, codes, equal, find_char, take, drop,
}
use selfserv.Base.Int.{atoi, to_size}
use selfserv.Config.Data.{RouteConfig, ServerConfig, Reader, new_route, new_server_config}
use selfserv.Config.Words.{tokens}

-- The values of `methods`: the texts between the commas, where nothing behind a last comma is none.
unfoldable pub method_list : Bytes → List Bytes
method_list [] = []
method_list (c ∷ cs) =
    let others = method_list cs in if c == b',' then [] ∷ others else onto_first c others

-- val == "on" || val == "1" || val == "true"
unfoldable pub is_on : Bytes → Bool
unfolding equal
is_on v = equal v (codes "on") || equal v (codes "1") || equal v (codes "true")

unfoldable pub route_option : Bytes → Bytes → RouteConfig → RouteConfig
unfolding equal is_on method_list
route_option key v rc =
    if equal key (codes "index")
    then record rc { index = v }
    else if equal key (codes "methods")
    then record rc { methods = rc.methods ++ method_list v }
    else if equal key (codes "upload")
    then (if is_on v then record rc { uploads_enabled = true } else rc)
    else if equal key (codes "upload_path")
    then record rc { upload_path = v }
    else if equal key (codes "autoindex")
    then (if is_on v then record rc { directory_listing = true } else rc)
    else if equal key (codes "redirect")
    then record rc { redirect = v }
    else if equal key (codes "cgi_ext")
    then record rc { cgi_extension = v }
    else if equal key (codes "cgi_bin")
    then record rc { cgi_interpreter = v }
    else rc

-- A token with no `=` is passed over.
unfoldable pub take_option : Option ℕ → Bytes → RouteConfig → RouteConfig
unfolding route_option
take_option none token rc = rc
take_option (some eq) token rc = route_option (take eq token) (drop (suc eq) token) rc

unfoldable pub route_options : List Bytes → RouteConfig → RouteConfig
unfolding take_option find_char
route_options [] rc = rc
route_options (token ∷ tokens) rc =
    route_options tokens (take_option (find_char b'=' token) token rc)

-- currentServer->... = ...
unfoldable pub update_last : (ServerConfig → ServerConfig) → List ServerConfig → List ServerConfig
update_last f [] = []
update_last f (sc ∷ []) = f sc ∷ []
update_last f (sc ∷ sd ∷ scs) = sc ∷ update_last f (sd ∷ scs)

-- A directive on the current server; `none` is the return of false, where there is no current server.
unfoldable pub on_current : (ServerConfig → ServerConfig) → Reader → Option Reader
unfolding update_last
on_current f s = if s.current then some (record s { servers = update_last f s.servers }) else none

-- A directive with one argument.
abbrev pub with_one : (Bytes → ServerConfig → ServerConfig) → List Bytes → Reader → Option Reader
with_one f [] s = none
with_one f (a ∷ _) s = on_current (f a) s

-- The directive `server`, which needs two arguments.
abbrev pub server_directive : List Bytes → Reader → Option Reader
server_directive [] s = none
server_directive (_ ∷ []) s = none
server_directive (host ∷ port ∷ _) s =
    some (record { servers = s.servers ++ new_server_config host (atoi port) ∷ []; current = true })

-- The directive `server_name`, which needs an argument.
abbrev pub name_directive : List Bytes → Reader → Option Reader
name_directive [] s = none
name_directive (name ∷ names) s =
    on_current (λ sc. record sc { server_names = sc.server_names ++ name ∷ names }) s

-- The directive `route`, which needs two arguments.
abbrev pub route_directive : List Bytes → Reader → Option Reader
route_directive [] s = none
route_directive (_ ∷ []) s = none
route_directive (path ∷ root ∷ options) s =
    let rc = route_options options (new_route path root) in
    on_current (λ sc. record sc { routes = sc.routes ++ rc ∷ [] }) s

-- The directives that assign one argument to a member of the current server.
unfoldable pub setting : Bytes → Option (Bytes → ServerConfig → ServerConfig)
unfolding equal to_size atoi
setting name =
    if equal name (codes "error_page_root")
    then some (λ a sc. record sc { error_page_root = a })
    else if equal name (codes "client_max_body_size")
    then some (λ a sc. record sc { client_max_body_size = to_size (atoi a) })
    else if equal name (codes "header_timeout")
    then some (λ a sc. record sc { header_timeout_ms = atoi a })
    else if equal name (codes "body_timeout")
    then some (λ a sc. record sc { body_timeout_ms = atoi a })
    else if equal name (codes "idle_timeout")
    then some (λ a sc. record sc { idle_timeout_ms = atoi a })
    else if equal name (codes "cgi_timeout")
    then some (λ a sc. record sc { cgi_timeout_ms = atoi a })
    else none

-- A line with another first token is passed over.
abbrev pub setting_directive :
    Option (Bytes → ServerConfig → ServerConfig) → List Bytes → Reader → Option Reader
setting_directive none args s = some s
setting_directive (some f) args s = with_one f args s

-- The directives, by the first token of the line. Their names differ, so the order of the tests is
-- of no account.
unfoldable pub directive : Bytes → List Bytes → Reader → Option Reader
unfolding equal on_current route_options atoi setting
directive name args s =
    if equal name (codes "server")
    then server_directive args s
    else if equal name (codes "server_name")
    then name_directive args s
    else if equal name (codes "route")
    then route_directive args s
    else setting_directive (setting name) args s

abbrev pub by_tokens : List Bytes → Reader → Option Reader
by_tokens [] s = some s
by_tokens (name ∷ args) s = directive name args s

-- ParseLine
unfoldable pub parse_line : Bytes → Reader → Option Reader
unfolding tokens directive
parse_line [] s = some s
parse_line (c ∷ cs) s = if c == b'#' then some s else by_tokens (tokens (c ∷ cs)) s

-- The loop of ParseFile over the lines that fgets returns: what it returns, and what it leaves.
unfoldable pub parse_lines : List Bytes → Reader → Bool × Reader
unfolding parse_line
parse_lines [] s = (true, s)
parse_lines (line ∷ lines) s = elim (parse_line line s) [
  | none ↦ (false, s)
  | some t ↦ parse_lines lines t
]
