-- ===== src/Server/Connection/Timeout.antt =====
-- The time-outs of docs/server/Server.cpp: ComputePollTimeout, and the sweep at the start of
-- ProcessEvents. main refuses a configuration with no server, so there is a first one.
pub mod Deadline
pub mod Idle
pub mod Late
pub mod Earliest
use selfserv.Base.{
  ℕ, zero, suc, ◌+◌, ◌-◌, ◌%◌, ◌^◌, Bool, true, false, not, ◌&&◌, ◌||◌, Option, none, some, List,
  [], ◌∷◌, ltb, leb, ◌==◌, if◌then◌else◌, Bytes, codes, length, get_elem?,
}
use selfserv.Base.Int.{ℤ, pos, negsuc, size_mod, to_size, to_int}
use selfserv.Config.Data.{ServerConfig}
use selfserv.Http.Parser.{sub_size}
use selfserv.Server.Response.{build_response}
use selfserv.Server.Connection.{ClientConnection, respond, closing, is_empty}

-- (long) of an unsigned long
abbrev pub to_long : ℕ → ℤ
to_long n = if ltb n (2 ^ 63) then pos n else negsuc (size_mod - 1 - n)

-- a - b, and 0 where that is negative
abbrev pub gap : ℤ → ℤ → ℕ
gap (pos a) (pos b) = a - b
gap (pos a) (negsuc b) = a + suc b
gap (negsuc a) (pos b) = 0
gap (negsuc a) (negsuc b) = b - a

-- remain, in milliseconds
unfoldable pub remaining : ℕ → ℕ → ℕ
remaining deadline now = gap (to_long deadline) (to_long now)

-- best, where `none` is -1
abbrev pub smaller : Option ℕ → ℕ → Option ℕ
smaller none n = some n
smaller (some b) n = if ltb n b then some n else some b

abbrev pub is_positive : ℤ → Bool
is_positive (pos zero) = false
is_positive (pos (suc n)) = true
is_positive (negsuc n) = false

-- The conversion to int of the result, and of -1.
abbrev pub poll_result : Option ℕ → ℤ
poll_result none = negsuc 0
poll_result (some n) = to_int (pos n)

-- nowMs - since > (unsigned long)timeout, for a time-out that is set
unfoldable pub has_passed : ℤ → ℕ → ℕ → Bool
unfolding to_size
has_passed timeout since now = is_positive timeout && ltb (to_size timeout) (sub_size now since)

-- ReapCgi, as far as the connection goes.
abbrev pub reap_cgi : ClientConnection → ClientConnection
reap_cgi conn = record conn { cgi_in_fd = none; cgi_out_fd = none; cgi_active = false }

unfoldable pub time_out_cgi : ClientConnection → ClientConnection
time_out_cgi conn = record (reap_cgi conn) {
  keep_alive = false;
  write_buf =
      build_response 504 (codes "Gateway Timeout") (codes "504 Gateway Timeout (CGI)\n")
        (codes "text/plain") false false;
  phase = respond;
  want_write = true;
}

-- A connection that is late: 408 where its request is not complete and no response is waiting.
unfoldable pub close_late : ClientConnection → ClientConnection
close_late conn =
    let response =
      build_response 408 (codes "Request Timeout") (codes "408 Request Timeout\n")
        (codes "text/plain") false false in
    let waits = not conn.headers_complete || not conn.body_complete in
    let c =
      if waits && is_empty conn.write_buf
      then record conn { write_buf = response; want_write = true }
      else conn in
    record c { keep_alive = false; phase = closing }

module _ (first : ServerConfig) (others : List ServerConfig) where
  abbrev or_first : Option ServerConfig → ServerConfig
  or_first none = first
  or_first (some sc) = sc

  -- m_config.servers[m_serverIndex], and the first server where there is none
  unfoldable pub server_of : ClientConnection → ServerConfig
  server_of conn = or_first (get_elem? (first ∷ others) conn.server_index)

  -- 0 for none
  unfoldable pub deadline : ClientConnection → ℕ
  unfolding server_of to_size
  deadline conn =
      let sc = server_of conn in
      if not conn.headers_complete
      then (conn.created_at_ms + to_size first.header_timeout_ms) % size_mod
      else if not conn.body_complete
      then (conn.last_activity_ms + to_size sc.body_timeout_ms) % size_mod
      else if conn.keep_alive
      then (conn.last_activity_ms + to_size sc.idle_timeout_ms) % size_mod
      else 0

  abbrev pub consider_deadline : ℕ → Option ℕ → ℕ → Option ℕ
  consider_deadline now best d = if d == 0 then best else smaller best (remaining d now)

  unfoldable pub earliest : ℕ → List ClientConnection → Option ℕ → Option ℕ
  earliest now [] best = best
  earliest now (conn ∷ conns) best = earliest now conns (consider_deadline now best (deadline conn))

  -- ComputePollTimeout
  unfoldable pub compute_poll_timeout : ℕ → List ClientConnection → ℤ
  compute_poll_timeout now conns = poll_result (earliest now conns none)

  unfoldable pub is_cgi_late : ℕ → ClientConnection → Bool
  unfolding to_size
  is_cgi_late now conn =
      let sc = or_first (get_elem? (first ∷ others) conn.server_index) in
      conn.cgi_active
      && ltb conn.server_index (length (first ∷ others))
      && not (conn.cgi_start_ms == 0)
      && has_passed sc.cgi_timeout_ms conn.cgi_start_ms now

  unfoldable pub is_late : ℕ → ClientConnection → Bool
  unfolding server_of
  is_late now conn =
      let sc = server_of conn in
      if not conn.headers_complete
      then has_passed first.header_timeout_ms conn.created_at_ms now
      else if not conn.body_complete
      then has_passed sc.body_timeout_ms conn.last_activity_ms now
      else conn.keep_alive && has_passed sc.idle_timeout_ms conn.last_activity_ms now

  -- The sweep's round for one connection.
  unfoldable pub sweep : ℕ → ClientConnection → ClientConnection
  sweep now conn =
      let c = if is_cgi_late now conn then time_out_cgi conn else conn in
      if is_late now c then close_late c else c
