-- ===== src/Server/Connection/Timeout/Deadline.antt =====
-- The deadlines of ComputePollTimeout, and the connections that the sweep finds late.
use selfserv.Base.{
  ℕ, zero, suc, ◌+◌, ◌-◌, ◌%◌, ◌^◌, ◌≤◌, ◌<◌, ◌≡◌, refl, sym, ap, ◌∙◌, Bool, true, false, not, ◌&&◌,
  List, ltb, ◌==◌, arith,
}
use selfserv.Base.Int.{ℤ, pos, negsuc, size_mod, to_size}
use selfserv.Config.Data.{ServerConfig}
use selfserv.Http.Parser.Framing.{sub_size-le}
use selfserv.Server.Connection.{ClientConnection}
use selfserv.Server.Connection.Timeout.{has_passed, server_of, deadline, is_late, is_positive}

-- A time-out in milliseconds that is set: an int above 0.
abbrev pub IsTimeout : ℤ → Type 0
IsTimeout (pos t) = (0 < t) × (t < 2 ^ 31)
IsTimeout (negsuc t) = ⊥

is_positive-lt : (t : ℕ) → 0 < t → is_positive (pos t) ≡ true
is_positive-lt zero h = absurd (omega arith)
is_positive-lt (suc t) h = refl

ltb-sum :
    (t since now : ℕ)
    → 0 < t
    → since ≤ now
    → ltb t (now - since) ≡ (not (since + t == 0) && ltb (since + t) now)
ltb-sum t since now h le = ground arith

has_passed-deadline :
    (timeout : ℤ) (since now : ℕ)
    → IsTimeout timeout
    → since ≤ now
    → now < 2 ^ 63
    → has_passed timeout since now ≡ (
        not ((since + to_size timeout) % size_mod == 0)
        && ltb ((since + to_size timeout) % size_mod) now)
unfolding has_passed to_size
has_passed-deadline (negsuc t) since now h le l = absurd h
has_passed-deadline (pos t) since now h le l =
    let whole : (since + t) % size_mod ≡ since + t = omega (arith, h) in
    rw (is_positive-lt t h.0, sub_size-le now since le (omega (arith, l)), whole)
      (ltb-sum t since now h.0 le)

module _ (first : ServerConfig) (others : List ServerConfig) where
  -- The times of a connection are not behind the clock, which is below 2 ^ 63, and the time-outs that
  -- it is under are set.
  pub record IsTimed (now : ℕ) (conn : ClientConnection) : Type 0 where
    pub created_le : conn.created_at_ms ≤ now
    pub activity_le : conn.last_activity_ms ≤ now
    pub now_lt : now < 2 ^ 63
    pub header_set : IsTimeout first.header_timeout_ms
    pub body_set : IsTimeout (server_of first others conn).body_timeout_ms
    pub idle_set : IsTimeout (server_of first others conn).idle_timeout_ms

  -- One connection is late, or has its deadline, by one of its three time-outs.
  abbrev late_by : Bool → Bool → Bool → ℕ → ClientConnection → Bool
  late_by false b k now conn = has_passed first.header_timeout_ms conn.created_at_ms now
  late_by true false k now conn =
      has_passed (server_of first others conn).body_timeout_ms conn.last_activity_ms now
  late_by true true k now conn =
      k && has_passed (server_of first others conn).idle_timeout_ms conn.last_activity_ms now

  abbrev deadline_by : Bool → Bool → Bool → ClientConnection → ℕ
  deadline_by false b k conn = (conn.created_at_ms + to_size first.header_timeout_ms) % size_mod
  deadline_by true false k conn =
      (conn.last_activity_ms + to_size (server_of first others conn).body_timeout_ms) % size_mod
  deadline_by true true true conn =
      (conn.last_activity_ms + to_size (server_of first others conn).idle_timeout_ms) % size_mod
  deadline_by true true false conn = 0

  is_late-by :
      (h b k : Bool) (now : ℕ) (conn : ClientConnection)
      → conn.headers_complete ≡ h
      → conn.body_complete ≡ b
      → conn.keep_alive ≡ k
      → is_late first others now conn ≡ late_by h b k now conn
  unfolding is_late
  is_late-by false b k now conn eh eb ek = rw eh refl
  is_late-by true false k now conn eh eb ek = rw (eh, eb) refl
  is_late-by true true k now conn eh eb ek = rw (eh, eb, ek) refl

  deadline-by :
      (h b k : Bool) (conn : ClientConnection)
      → conn.headers_complete ≡ h
      → conn.body_complete ≡ b
      → conn.keep_alive ≡ k
      → deadline first others conn ≡ deadline_by h b k conn
  unfolding deadline
  deadline-by false b k conn eh eb ek = rw eh refl
  deadline-by true false k conn eh eb ek = rw (eh, eb) refl
  deadline-by true true true conn eh eb ek = rw (eh, eb, ek) refl
  deadline-by true true false conn eh eb ek = rw (eh, eb, ek) refl

  late_by-deadline_by :
      (h b k : Bool) (now : ℕ) (conn : ClientConnection)
      → IsTimed now conn
      → late_by h b k now conn
        ≡ (not (deadline_by h b k conn == 0) && ltb (deadline_by h b k conn) now)
  late_by-deadline_by false b k now conn t =
      has_passed-deadline first.header_timeout_ms conn.created_at_ms now t.header_set t.created_le
        t.now_lt
  late_by-deadline_by true false k now conn t =
      has_passed-deadline _ conn.last_activity_ms now t.body_set t.activity_le t.now_lt
  late_by-deadline_by true true true now conn t =
      has_passed-deadline _ conn.last_activity_ms now t.idle_set t.activity_le t.now_lt
  late_by-deadline_by true true false now conn t = refl

  -- The sweep finds a connection late exactly when it has a deadline, by the reckoning of
  -- ComputePollTimeout, and the deadline is over; where the times are sound and the time-outs set.
  pub is_late-deadline :
      (now : ℕ) (conn : ClientConnection)
      → IsTimed now conn
      → is_late first others now conn
        ≡ (not (deadline first others conn == 0) && ltb (deadline first others conn) now)
  is_late-deadline now conn t =
      let h = conn.headers_complete in
      let b = conn.body_complete in
      let k = conn.keep_alive in
      is_late-by h b k now conn refl refl refl
      ∙ late_by-deadline_by h b k now conn t
      ∙ ap (λ d. not (d == 0) && ltb d now) (sym (deadline-by h b k conn refl refl refl))
