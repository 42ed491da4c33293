-- ===== src/Server/Readable/Input.antt =====
-- What the handlers do to what a connection has read, and to the place of its parser.
use selfserv.Base.{
  ℕ, refl, ◌||◌, ◌&&◌, not, Bool, true, false, if-both, Option, none, some, List, Bytes, length,
  leb, ltb, ◌+◌,
}
use selfserv.Config.Data.{ServerConfig}
use selfserv.Http.Parser.{has_error}
use selfserv.Server.Connection.{ClientConnection, is_empty}
use selfserv.Server.Connection.Timeout.{close_late}
use selfserv.Server.System.{System, World}
use selfserv.Server.Reply.{refuse_page, refuse, with_response}
use selfserv.Server.Handle.{Handled}
use selfserv.Server.Handle.Running.{SameInput}
use selfserv.Server.Handle.Answered.{handle_request-SameInput}
use selfserv.Server.Output.{
  Progress, Driven, drive_cgi_io, moved, write_to, read_from, note_exit, by_head, head_end,
  no_answer,
}
use selfserv.Server.Readable.{respond_to}

pub close_late-SameInput : (conn : ClientConnection) → SameInput conn (close_late conn)
unfolding close_late
close_late-SameInput conn =
    if-both (SameInput conn)
      ((not conn.headers_complete || not conn.body_complete) && is_empty conn.write_buf)
      (refl, refl, refl) (refl, refl, refl)

write_to-SameInput :
    (fd : Option ℕ) (taken : ℕ) (conn : ClientConnection) (w : World)
    → SameInput conn (write_to fd taken conn w).0
write_to-SameInput none taken conn w = (refl, refl, refl)
write_to-SameInput (some fd) taken conn w =
    if-both {A = Driven} (λ r. SameInput conn r.0)
      (ltb conn.cgi_write_offset (length conn.request.body))
      (if-both {A = Driven} (λ r. SameInput conn r.0)
        (leb (length conn.request.body) (conn.cgi_write_offset + taken)) (refl, refl, refl)
        (refl, refl, refl))
      (refl, refl, refl)

read_from-SameInput :
    (fd : Option ℕ) (output : List Bytes) (conn c : ClientConnection)
    → SameInput conn c
    → SameInput conn (read_from fd output c)
read_from-SameInput none output conn c h = h
read_from-SameInput (some fd) output conn c h = h

note_exit-SameInput :
    (exited : Bool) (conn c : ClientConnection) (w : World)
    → SameInput conn c
    → SameInput conn (note_exit exited c w).0
unfolding note_exit
note_exit-SameInput false conn c w h = h
note_exit-SameInput true conn c w h = h

no_answer-SameInput :
    (b : Bool) (conn c : ClientConnection) → SameInput conn c → SameInput conn (no_answer b c).1
no_answer-SameInput true conn c h = h
no_answer-SameInput false conn c h = h

by_head-SameInput :
    (end : Option ℕ) (conn c : ClientConnection)
    → SameInput conn c
    → SameInput conn (by_head end c).1
unfolding by_head
by_head-SameInput none conn c h =
    no_answer-SameInput (not c.cgi_active && not c.cgi_headers_done) conn c h
by_head-SameInput (some end) conn c h = h

pub drive_cgi_io-SameInput :
    (step : Progress) (conn : ClientConnection) (w : World)
    → SameInput conn (drive_cgi_io step conn w).1
unfolding drive_cgi_io moved
drive_cgi_io-SameInput step conn w =
    let driven = write_to conn.cgi_in_fd step.taken conn w in
    by_head-SameInput (head_end (moved step conn w).0) conn (moved step conn w).0 (
      note_exit-SameInput step.exited conn _ driven.1 (
        read_from-SameInput driven.0.cgi_out_fd step.output conn driven.0
          (write_to-SameInput conn.cgi_in_fd step.taken conn w)))

module _ (first : ServerConfig) (others : List ServerConfig) where
  pub respond_to-SameInput :
      (sys : System) (conn : ClientConnection) (w : World)
      → SameInput conn (respond_to sys first others conn w).0
  unfolding respond_to refuse_page refuse with_response
  respond_to-SameInput sys conn w =
      if-both {A = Handled} (λ r. SameInput conn r.0) (has_error conn.parser) (refl, refl, refl)
        (handle_request-SameInput sys first others conn w)
