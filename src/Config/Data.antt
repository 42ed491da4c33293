-- ===== src/Config/Data.antt =====
-- The structs of docs/config/Config.hpp.
use selfserv.Base.{ℕ, Bool, false, List, [], Bytes}
use selfserv.Base.Int.{ℤ, pos}

pub record RouteConfig : Type 0 where
  pub path : Bytes
  pub root : Bytes
  pub methods : List Bytes
  pub redirect : Bytes
  pub index : Bytes
  pub directory_listing : Bool
  pub uploads_enabled : Bool
  pub upload_path : Bytes
  pub cgi_extension : Bytes
  pub cgi_interpreter : Bytes

-- RouteConfig(), with the path and the root that ParseLine then assigns
abbrev pub new_route : Bytes → Bytes → RouteConfig
new_route path root = record {
  path = path;
  root = root;
  methods = [];
  redirect = [];
  index = [];
  directory_listing = false;
  uploads_enabled = false;
  upload_path = [];
  cgi_extension = [];
  cgi_interpreter = [];
}

pub record ServerConfig : Type 0 where
  pub host : Bytes
  pub port : ℤ
  pub server_names : List Bytes
  pub error_page_root : Bytes
  pub client_max_body_size : ℕ
  pub header_timeout_ms : ℤ
  pub body_timeout_ms : ℤ
  pub idle_timeout_ms : ℤ
  pub cgi_timeout_ms : ℤ
  pub routes : List RouteConfig

-- ServerConfig(), with the host and the port that ParseLine then assigns
abbrev pub new_server_config : Bytes → ℤ → ServerConfig
new_server_config host port = record {
  host = host;
  port = port;
  server_names = [];
  error_page_root = [];
  client_max_body_size = 1048576;
  header_timeout_ms = pos 5000;
  body_timeout_ms = pos 10000;
  idle_timeout_ms = pos 15000;
  cgi_timeout_ms = pos 5000;
  routes = [];
}

-- The two arguments that ParseLine changes: the servers of the Config, and `currentServer`, which in
-- ParseFile is NULL (false) or the last server (true).
pub record Reader : Type 0 where
  pub servers : List ServerConfig
  pub current : Bool

abbrev pub new_reader : Reader
new_reader = record { servers = []; current = false }
