-- ===== src/Server/Connection/Timeout/Late.antt =====
-- What becomes of a connection that is late.
use selfserv.Base.{ℕ, ◌≤◌, ◌≡◌, refl, ap, ◌∙◌, true, false, [], List, length}
use selfserv.Config.Data.{ServerConfig}
use selfserv.Server.Connection.{ClientConnection}
use selfserv.Server.Connection.Writable.{
  closed, handle_writable, all_positive, handle_writable-done,
}
use selfserv.Server.Connection.Timeout.{sweep, is_late, is_cgi_late, close_late}

module _ (first : ServerConfig) (others : List ServerConfig) where
  sweep-late :
      (now : ℕ) (conn : ClientConnection)
      → is_cgi_late first others now conn ≡ false
      → is_late first others now conn ≡ true
      → sweep first others now conn ≡ close_late conn
  unfolding sweep
  sweep-late now conn program late = rw (program, late) refl

  handle_writable-close_late :
      (sends : List ℕ) (conn : ClientConnection)
      → all_positive sends ≡ true
      → length (close_late conn).write_buf ≤ length sends
      → handle_writable sends (close_late conn)
        ≡ closed (record (close_late conn) { write_buf = [] })
  unfolding close_late
  handle_writable-close_late sends conn positive enough =
      handle_writable-done sends (close_late conn) positive enough

  -- For a connection that a sweep finds late, with no program that is late, once what it has to send
  -- is taken: where every send takes a byte, and there are as many calls as bytes, HandleWritable
  -- calls CloseConnection with its descriptor.
  pub handle_writable-sweep :
      (now : ℕ) (sends : List ℕ) (conn : ClientConnection)
      → is_cgi_late first others now conn ≡ false
      → is_late first others now conn ≡ true
      → all_positive sends ≡ true
      → length (sweep first others now conn).write_buf ≤ length sends
      → handle_writable sends (sweep first others now conn)
        ≡ closed (record (close_late conn) { write_buf = [] })
  handle_writable-sweep now sends conn program late positive enough =
      ap (λ c. handle_writable sends c) (sweep-late now conn program late)
      ∙ handle_writable-close_late sends conn positive
          (rw (sweep-late now conn program late) at enough)
