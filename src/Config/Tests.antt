-- ===== src/Config/Tests.antt =====
-- Runs of the configuration code, and its properties at concrete inputs.
use selfserv.Base.{◌≡◌, refl, true, List, [], ◌∷◌, ◌++◌, Bytes, codes}
use selfserv.Base.Int.{pos}
use selfserv.Config.Data.{
  RouteConfig, ServerConfig, Reader, new_reader, new_route, new_server_config,
}
use selfserv.Config.Words.{tokens, Spaced, line_of, words_of, tokens-padded}
use selfserv.Config.Line.{parse_line, parse_lines, method_list}
use selfserv.Config.Frame.{LeavesOthers, parse_line-LeavesOthers}

abbrev spaced : List Spaced
spaced =
    (codes "route", codes " ")
    ∷ (codes "/", codes " \t ")
    ∷ (codes "./www", codes " ")
    ∷ (codes "methods=GET,POST", [])
    ∷ []

tokens-padded_example : tokens (codes "\t" ++ line_of spaced) ≡ words_of spaced
tokens-padded_example =
    tokens-padded (codes "\t") spaced refl
      (refl, refl, (λ e. cc e), (refl, refl, (λ e. cc e), (refl, refl, (λ e. cc e), (refl, refl))))

method_list-trailing : method_list (codes "GET,,POST,") ≡ codes "GET" ∷ [] ∷ codes "POST" ∷ []
unfolding method_list
method_list-trailing = refl

abbrev two_servers : Reader
two_servers = record {
  servers = new_server_config (codes "a") (pos 80) ∷ new_server_config (codes "b") (pos 81) ∷ [];
  current = true;
}

parse_line-LeavesOthers_run :
    LeavesOthers two_servers (parse_line (codes "body_timeout 7") two_servers)
parse_line-LeavesOthers_run = parse_line-LeavesOthers (codes "body_timeout 7") two_servers

abbrev file : List Bytes
file =
    codes "# a comment\n"
    ∷ codes "server 0.0.0.0 8080\n"
    ∷ codes "server_name x y\n"
    ∷ codes "\n"
    ∷ codes "route / ./www index=i.html methods=GET,POST upload=on\n"
    ∷ []

abbrev read_route : RouteConfig
read_route = record (new_route (codes "/") (codes "./www")) {
  index = codes "i.html";
  methods = codes "GET" ∷ codes "POST" ∷ [];
  uploads_enabled = true;
}

abbrev read_server : ServerConfig
read_server = record (new_server_config (codes "0.0.0.0") (pos 8080)) {
  server_names = codes "x" ∷ codes "y" ∷ [];
  routes = read_route ∷ [];
}

parse_lines-file :
    parse_lines file new_reader ≡ (true, record { servers = read_server ∷ []; current = true })
unfolding parse_lines
parse_lines-file = refl
