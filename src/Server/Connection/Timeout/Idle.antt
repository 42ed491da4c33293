-- ===== src/Server/Connection/Timeout/Idle.antt =====
-- The idle time-out.
use selfserv.Base.{ℕ, ◌≡◌, refl, sym, subst, true, false, List, []}
use selfserv.Config.Data.{ServerConfig}
use selfserv.Server.Connection.{ClientConnection}
use selfserv.Server.Connection.Writable.{
  still, handle_writable, next_request, handle_writable-still,
}
use selfserv.Server.Connection.Timeout.{sweep, is_late, is_cgi_late, deadline}

module _ (first : ServerConfig) (others : List ServerConfig) where
  is_late-idle :
      (conn : ClientConnection) (now : ℕ)
      → conn.headers_complete ≡ true
      → conn.body_complete ≡ true
      → conn.keep_alive ≡ false
      → is_late first others now conn ≡ false
  unfolding is_late
  is_late-idle conn now h b k = rw (h, b, k)

  is_cgi_late-idle :
      (conn : ClientConnection) (now : ℕ)
      → conn.cgi_active ≡ false
      → is_cgi_late first others now conn ≡ false
  unfolding is_cgi_late
  is_cgi_late-idle conn now c = rw c

  sweep-idle :
      (conn : ClientConnection) (now : ℕ)
      → conn.headers_complete ≡ true
      → conn.body_complete ≡ true
      → conn.keep_alive ≡ false
      → conn.cgi_active ≡ false
      → sweep first others now conn ≡ conn
  unfolding sweep
  sweep-idle conn now h b k c =
      rw (is_cgi_late-idle conn now c) (rw (is_late-idle conn now h b k) refl)

  deadline-idle :
      (conn : ClientConnection)
      → conn.headers_complete ≡ true
      → conn.body_complete ≡ true
      → conn.keep_alive ≡ false
      → deadline first others conn ≡ 0
  unfolding deadline
  deadline-idle conn h b k = rw (h, b, k)

  -- Where m_headersComplete and m_bodyComplete of a connection are true and m_cgiActive is not, and
  -- HandleWritable keeps it with nothing left to send, what it leaves has no deadline, and no sweep at
  -- any time changes it: HandleWritable clears the flag that the idle time-out asks for.
  pub sweep-handle_writable :
      (sends : List ℕ) (conn : ClientConnection) {t : ClientConnection} (now : ℕ)
      → conn.headers_complete ≡ true
      → conn.body_complete ≡ true
      → conn.cgi_active ≡ false
      → handle_writable sends conn ≡ still t
      → t.write_buf ≡ []
      → (sweep first others now t ≡ t) × (deadline first others t ≡ 0)
  sweep-handle_writable sends conn {t} now h b c e w =
      let u = next_request (record conn { write_buf = [] }) in
      subst (λ t. (sweep first others now t ≡ t) × (deadline first others t ≡ 0))
        (sym (handle_writable-still sends conn e w))
        (unfold next_request in (sweep-idle u now h b refl c, deadline-idle u h b refl))
