-- ===== src/Server/Handle/Handover.antt =====
-- A program that a request has started, and the next call of HandleWritable.
use selfserv.Base.{ℕ, ◌≡◌, ap, ◌∙◌, inl, inr, false, List, [], if◌then◌else◌, not, ◌||◌}
use selfserv.Config.Data.{ServerConfig}
use selfserv.Server.Connection.{ClientConnection, handle, is_closing}
use selfserv.Server.Connection.Writable.{
  closed, still, handle_writable, next_request, unsent, after_sends,
}
use selfserv.Server.System.{System, World}
use selfserv.Server.Handle.{handle_request}
use selfserv.Server.Handle.Answered.{HasResponse, handle_request-IsAnswered}

handle_writable-empty :
    (sends : List ℕ) (conn : ClientConnection)
    → conn.write_buf ≡ []
    → conn.keep_alive ≡ false
    → handle_writable sends conn ≡ closed (record conn { write_buf = [] })
unfolding handle_writable unsent
handle_writable-empty sends conn empty ends =
    ap (λ b. after_sends (unsent sends b) (record conn { write_buf = unsent sends b })) empty
    ∙ ap
        (λ k.
          if not k || is_closing conn.phase
          then closed (record conn { write_buf = [] })
          else still (next_request (record conn { write_buf = [] })))
        ends

HasResponse-phase : (conn : ClientConnection) → HasResponse conn → conn.phase ≡ handle → ⊥
HasResponse-phase conn (answered, _) e = cc (answered, e)

-- Where a request starts a program, on a connection with nothing to send that is not kept alive, the
-- next HandleWritable calls CloseConnection with its descriptor, whatever send returns.
pub handle_writable-started :
    (sys : System) (first : ServerConfig) (others : List ServerConfig) (sends : List ℕ)
    (conn : ClientConnection) (w : World)
    → (handle_request sys first others conn w).0.phase ≡ handle
    → conn.write_buf ≡ []
    → conn.keep_alive ≡ false
    → handle_writable sends (handle_request sys first others conn w).0
      ≡ closed (record (handle_request sys first others conn w).0 { write_buf = [] })
handle_writable-started sys first others sends conn w running empty ends =
    elim (handle_request-IsAnswered sys first others conn w).1 [
      | inl response ↦
          absurd (HasResponse-phase (handle_request sys first others conn w).0 response running)
      | inr (_, _, buffer, keep) ↦
          handle_writable-empty sends (handle_request sys first others conn w).0 (buffer ∙ empty)
            (keep ∙ ends)
    ]
