-- ===== src/Server/Connection.antt =====
-- struct ClientConnection of docs/server/Server.hpp.
pub mod Writable
pub mod Timeout
use selfserv.Base.{ℕ, Bool, true, false, Option, none, [], Bytes}
use selfserv.Http.Request.{HttpRequest, HttpRequestParser, new_request, new_parser}

-- enum Phase
pub data Phase : Type 0 where
  accepted headers body handle respond idle closing : Phase

-- A descriptor or a process id of -1 is `none`.
pub record ClientConnection : Type 0 where
  pub fd : Option ℕ
  pub read_buf : Bytes
  pub write_buf : Bytes
  pub want_write : Bool
  pub request : HttpRequest
  pub parser : HttpRequestParser
  pub keep_alive : Bool
  pub created_at_ms : ℕ
  pub last_activity_ms : ℕ
  pub headers_complete : Bool
  pub body_complete : Bool
  pub timed_out : Bool
  pub phase : Phase
  pub cgi_in_fd : Option ℕ
  pub cgi_out_fd : Option ℕ
  pub cgi_pid : Option ℕ
  pub cgi_active : Bool
  pub cgi_headers_done : Bool
  pub cgi_buffer : Bytes
  pub cgi_body_start : ℕ
  pub cgi_write_offset : ℕ
  pub cgi_start_ms : ℕ
  pub server_index : ℕ

-- ClientConnection()
abbrev pub new_connection : ClientConnection
new_connection = record {
  fd = none;
  read_buf = [];
  write_buf = [];
  want_write = false;
  request = new_request;
  parser = new_parser;
  keep_alive = false;
  created_at_ms = 0;
  last_activity_ms = 0;
  headers_complete = false;
  body_complete = false;
  timed_out = false;
  phase = accepted;
  cgi_in_fd = none;
  cgi_out_fd = none;
  cgi_pid = none;
  cgi_active = false;
  cgi_headers_done = false;
  cgi_buffer = [];
  cgi_body_start = 0;
  cgi_write_offset = 0;
  cgi_start_ms = 0;
  server_index = 0;
}

abbrev pub is_closing : Phase → Bool
is_closing closing = true
is_closing _ = false

abbrev pub is_accepted : Phase → Bool
is_accepted accepted = true
is_accepted _ = false

-- m_writeBuf.empty() and the like
abbrev pub is_empty : Bytes → Bool
is_empty [] = true
is_empty _ = false
