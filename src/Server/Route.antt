-- ===== src/Server/Route.antt =====
-- matchRoute, selectServer and hasHeader of docs/server/Server.cpp.
use selfserv.Base.{
  ℕ, suc, Bool, true, false, not, ◌&&◌, ◌||◌, Option, none, some, List, [], ◌∷◌, ltb, ◌==◌,
  if◌then◌else◌, Bytes, codes, equal, starts_with, to_lower, length, map,
}
use selfserv.Http.Request.{HttpHeader, HttpRequest}
use selfserv.Config.Data.{RouteConfig, ServerConfig}

-- A round of matchRoute's loop, on bestLen and best.
unfoldable pub consider : Bytes → RouteConfig → ℕ × Option RouteConfig → ℕ × Option RouteConfig
unfolding starts_with
consider uri r (best_length, best) =
    if starts_with r.path uri && ltb best_length (length r.path)
    then (length r.path, some r)
    else (best_length, best)

unfoldable pub match_from :
    Bytes → List RouteConfig → ℕ × Option RouteConfig → ℕ × Option RouteConfig
unfolding consider
match_from uri [] best = best
match_from uri (r ∷ rs) best = match_from uri rs (consider uri r best)

-- matchRoute; `none` is the null pointer.
unfoldable pub match_route : ServerConfig → Bytes → Option RouteConfig
unfolding match_from
match_route sc uri = (match_from uri sc.routes (0, none)).1

-- The value of the first `Host` header, whatever its case; empty where there is none.
unfoldable pub host_value : List HttpHeader → Bytes
unfolding equal to_lower
host_value [] = []
host_value (h ∷ hs) =
    let others = host_value hs in
    if equal (map to_lower h.name) (codes "host") then h.value else others

-- host.substr(0, host.rfind(':')); `none` where there is no colon.
unfoldable pub before_last_colon : Bytes → Option Bytes
before_last_colon [] = none
before_last_colon (c ∷ cs) = elim (before_last_colon cs) [
  | none ↦ if c == b':' then some [] else none
  | some s ↦ some (c ∷ s)
]

abbrev pub without_port : Option Bytes → Bytes → Bytes
without_port none host = host
without_port (some s) host = s

unfoldable pub has_name : Bytes → List Bytes → Bool
unfolding equal
has_name host [] = false
has_name host (n ∷ ns) = equal n host || has_name host ns

-- The index of the first server with the name.
unfoldable pub server_named : Bytes → List ServerConfig → Option ℕ
unfolding has_name
server_named host [] = none
server_named host (sc ∷ scs) =
    if has_name host sc.server_names
    then some 0
    else elim (server_named host scs) [ none ↦ none | some i ↦ some (suc i) ]

abbrev pub or_first : Option ℕ → ℕ
or_first none = 0
or_first (some i) = i

abbrev pub index_for : Bytes → List ServerConfig → ℕ
index_for [] servers = 0
index_for (c ∷ cs) servers =
    or_first (server_named (without_port (before_last_colon (c ∷ cs)) (c ∷ cs)) servers)

-- selectServer: the index that it gives out, which is that of the server it returns.
unfoldable pub select_server : List ServerConfig → HttpRequest → ℕ
unfolding host_value before_last_colon server_named
select_server servers req = index_for (host_value req.headers) servers

-- A name equal to another but for the case of ASCII letters.
unfoldable pub same_name : Bytes → Bytes → Bool
unfolding to_lower
same_name [] [] = true
same_name (c ∷ cs) (d ∷ ds) = to_lower c == to_lower d && same_name cs ds
same_name _ _ = false

abbrev is_empty : Bytes → Bool
is_empty [] = true
is_empty (_ ∷ _) = false

-- hasHeader; `none` is the return of false.
unfoldable pub has_header : List HttpHeader → Bytes → Option Bytes
unfolding same_name
has_header [] name = none
has_header (h ∷ hs) name =
    let others = has_header hs name in
    if not (is_empty h.name) && same_name h.name name then some h.value else others
