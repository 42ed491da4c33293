-- ===== src/Server/Connection/Writable.antt =====
-- Server::HandleWritable of docs/server/Server.cpp. What send returns is an argument: a list with an
-- entry for each call, the number of bytes taken, or 0 for an error or EAGAIN.
use selfserv.Base.{
  ℕ, zero, suc, ◌≤◌, ◌≡◌, refl, sym, ap, ◌∙◌, Bool, true, false, not, ◌&&◌, ◌||◌, List, [], ◌∷◌,
  ◌++◌, leb, ◌==◌, if◌then◌else◌, Bytes, length, take, drop, take-append-drop, append_assoc,
  length-drop, arith, inl, inr, Bool-cases, &&-split, append-nil, if-both,
}
use selfserv.Http.Request.{new_request, reset}
use selfserv.Server.Connection.{ClientConnection, idle, is_closing}

-- The loop around send: what is left of the buffer.
unfoldable pub unsent : List ℕ → Bytes → Bytes
unsent sends [] = []
unsent [] (c ∷ cs) = c ∷ cs
unsent (zero ∷ sends) (c ∷ cs) = c ∷ cs
unsent (suc n ∷ sends) (c ∷ cs) = unsent sends (drop n cs)

-- The bytes that send has taken, in their order.
unfoldable pub sent : List ℕ → Bytes → Bytes
sent sends [] = []
sent [] (c ∷ cs) = []
sent (zero ∷ sends) (c ∷ cs) = []
sent (suc n ∷ sends) (c ∷ cs) = c ∷ (take n cs ++ sent sends (drop n cs))

-- The connection behind HandleWritable; `closed` where that ends with CloseConnection of the
-- connection's descriptor, with the connection at that call.
pub data After : Type 0 where
  still closed : ClientConnection → After

-- m_readBuf without the bytes of the request that has been answered
unfoldable pub behind_request : ℕ → Bytes → Bytes
behind_request consumed buffer =
    if not (consumed == 0) && leb consumed (length buffer) then drop consumed buffer else []

unfoldable pub next_request : ClientConnection → ClientConnection
unfolding behind_request reset
next_request conn = record conn {
  read_buf = behind_request conn.parser.consumed conn.read_buf;
  want_write = false;
  request = new_request;
  parser = reset conn.parser;
  keep_alive = false;
  phase = idle;
}

abbrev pub behind : After → ClientConnection
behind (still conn) = conn
behind (closed conn) = conn

abbrev pub after_sends : Bytes → ClientConnection → After
after_sends [] conn =
    if not conn.keep_alive || is_closing conn.phase then closed conn else still (next_request conn)
after_sends (c ∷ cs) conn = still conn

-- HandleWritable
unfoldable pub handle_writable : List ℕ → ClientConnection → After
unfolding unsent next_request
handle_writable sends conn =
    let rest = unsent sends conn.write_buf in after_sends rest (record conn { write_buf = rest })

-- However send takes the buffer, what it has taken and what is left are the buffer.
sent-unsent : (sends : List ℕ) (buffer : Bytes) → sent sends buffer ++ unsent sends buffer ≡ buffer
unfolding sent unsent
sent-unsent sends [] = refl
sent-unsent [] (c ∷ cs) = refl
sent-unsent (zero ∷ sends) (c ∷ cs) = refl
sent-unsent (suc n ∷ sends) (c ∷ cs) = ap (◌∷◌ c) (
    append_assoc (take n cs) (sent sends (drop n cs)) (unsent sends (drop n cs))
    ∙ ap (◌++◌ (take n cs)) (sent-unsent sends (drop n cs))
    ∙ take-append-drop n cs)

abbrev pub all_positive : List ℕ → Bool
all_positive [] = true
all_positive (n ∷ ns) = not (n == 0) && all_positive ns

-- With as many calls that take something as there are bytes, nothing is left.
unsent-all :
    (sends : List ℕ) (buffer : Bytes)
    → all_positive sends ≡ true
    → length buffer ≤ length sends
    → unsent sends buffer ≡ []
unfolding unsent
unsent-all sends [] h l = refl
unsent-all [] (c ∷ cs) h l = absurd (omega arith)
unsent-all (zero ∷ sends) (c ∷ cs) h l = cc
unsent-all (suc n ∷ sends) (c ∷ cs) h l =
    unsent-all sends (drop n cs) (&&-split (not (suc n == 0)) (all_positive sends) h).1
      (omega (arith, length-drop n cs))

-- The connection after a response: still there with the rest of the response, or closed, or ready for
-- the bytes behind the request.
abbrev pub IsSent : List ℕ → ClientConnection → After → Type 0
IsSent sends conn (still t) =
    (sent sends conn.write_buf ++ t.write_buf ≡ conn.write_buf)
    × ((t.write_buf ≡ [])
        → (t.phase ≡ idle)
          × (t.want_write ≡ false)
          × (conn.keep_alive ≡ true)
          × (t.read_buf ≡ behind_request conn.parser.consumed conn.read_buf)
          × (t.parser ≡ reset conn.parser)
          × (t.request ≡ new_request))
IsSent sends conn (closed t) =
    (sent sends conn.write_buf ≡ conn.write_buf)
    × (t ≡ record conn { write_buf = [] })
    × ((not conn.keep_alive || is_closing conn.phase) ≡ true)

after_sends-IsSent :
    (sends : List ℕ) (conn : ClientConnection) (rest : Bytes)
    → sent sends conn.write_buf ++ rest ≡ conn.write_buf
    → IsSent sends conn (after_sends rest (record conn { write_buf = rest }))
unfolding next_request
after_sends-IsSent sends conn (c ∷ cs) h = (h, λ e. cc e)
after_sends-IsSent sends conn [] h =
    elim (Bool-cases (not conn.keep_alive || is_closing conn.phase)) [
      | inl closes ↦ rw closes (sym (append-nil (sent sends conn.write_buf)) ∙ h, refl, closes)
      | inr stays ↦ rw stays (
        h,
        λ e. (refl, refl, kept conn.keep_alive (is_closing conn.phase) stays, refl, refl, refl),
      )
    ]
  where
    kept : (keep closes : Bool) → (not keep || closes) ≡ false → keep ≡ true
    kept true closes h = refl
    kept false closes h = cc

-- However send takes the response, the bytes taken and those left are the response, in order.
-- CloseConnection is called only when all is taken and the connection is not kept alive, or is closing,
-- and nothing else of it has changed; when it is kept, it waits for the next request with a parser that
-- is reset, and the bytes behind the last request.
pub handle_writable-IsSent :
    (sends : List ℕ) (conn : ClientConnection) → IsSent sends conn (handle_writable sends conn)
unfolding handle_writable
handle_writable-IsSent sends conn =
    after_sends-IsSent sends conn (unsent sends conn.write_buf) (sent-unsent sends conn.write_buf)

-- Where every call of send takes a byte, and there are as many calls as bytes, the response is sent,
-- and CloseConnection is called with the connection's descriptor, or the connection waits for the
-- next request.
pub handle_writable-done :
    (sends : List ℕ) (conn : ClientConnection)
    → all_positive sends ≡ true
    → length conn.write_buf ≤ length sends
    → handle_writable sends conn ≡ (
        if not conn.keep_alive || is_closing conn.phase
        then closed (record conn { write_buf = [] })
        else still (next_request (record conn { write_buf = [] })))
unfolding handle_writable
handle_writable-done sends conn h l =
    ap (λ rest. after_sends rest (record conn { write_buf = rest }))
      (unsent-all sends conn.write_buf h l)

after_sends-still :
    (conn : ClientConnection) (rest : Bytes) {t : ClientConnection}
    → after_sends rest (record conn { write_buf = rest }) ≡ still t
    → t.write_buf ≡ []
    → t ≡ next_request (record conn { write_buf = [] })
after_sends-still conn (c ∷ cs) e w = cc (e, w)
after_sends-still conn [] {t} e w = go (not conn.keep_alive || is_closing conn.phase) e
  where
    go :
        (b : Bool)
        → (if b
            then closed (record conn { write_buf = [] })
            else still (next_request (record conn { write_buf = [] })))
          ≡ still t
        → t ≡ next_request (record conn { write_buf = [] })
    go true h = cc h
    go false h = cc h

after_sends-fd :
    (rest : Bytes) (conn : ClientConnection) → (behind (after_sends rest conn)).fd ≡ conn.fd
unfolding next_request
after_sends-fd (c ∷ cs) conn = refl
after_sends-fd [] conn =
    if-both (λ a. (behind a).fd ≡ conn.fd) (not conn.keep_alive || is_closing conn.phase) refl refl

-- HandleWritable leaves the descriptor as it is.
pub handle_writable-fd :
    (sends : List ℕ) (conn : ClientConnection) → (behind (handle_writable sends conn)).fd ≡ conn.fd
unfolding handle_writable
handle_writable-fd sends conn =
    after_sends-fd (unsent sends conn.write_buf)
      (record conn { write_buf = unsent sends conn.write_buf })

pub handle_writable-still :
    (sends : List ℕ) (conn : ClientConnection) {t : ClientConnection}
    → handle_writable sends conn ≡ still t
    → t.write_buf ≡ []
    → t ≡ next_request (record conn { write_buf = [] })
unfolding handle_writable
handle_writable-still sends conn e w = after_sends-still conn (unsent sends conn.write_buf) e w
