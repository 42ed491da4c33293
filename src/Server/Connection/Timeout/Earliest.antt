-- ===== src/Server/Connection/Timeout/Earliest.antt =====
-- What ComputePollTimeout of docs/server/Server.cpp gives to poll.
use selfserv.Base.{
  ℕ, ◌≤◌, ◌<◌, ◌^◌, ◌≡◌, ◌≢◌, refl, sym, ap, ◌∙◌, ◌⊎◌, inl, inr, true, false, Option, none, some,
  List, [], ◌∷◌, ltb, ◌==◌, Bool-cases, arith,
}
use mathlib.Core.List.{Memᴰ}
use mathlib.Core.List.Memᴰ.{head, tail}
use selfserv.Base.Decimal.{to_int-pos}
use selfserv.Base.Int.{ℤ, pos, negsuc}
use selfserv.Config.Data.{ServerConfig}
use selfserv.Server.Connection.{ClientConnection}
use selfserv.Server.Connection.Timeout.{
  remaining, smaller, deadline, consider_deadline, earliest, compute_poll_timeout, poll_result,
}

module _ (first : ServerConfig) (others : List ServerConfig) (now : ℕ) where
  -- The time that a connection has left, where it has a deadline.
  abbrev pub IsLeft : ClientConnection → ℕ → Type 0
  IsLeft c n = (deadline first others c ≢ 0) × (remaining (deadline first others c) now ≡ n)

  -- The least time left among the connections with `P`; `none` where none of them has a deadline.
  abbrev pub IsLeast : (ClientConnection → Type 0) → Option ℕ → Type 0
  IsLeast P none = (c : ClientConnection) → P c → deadline first others c ≡ 0
  IsLeast P (some n) =
      ((c : ClientConnection) × P c × IsLeft c n)
      × ((c : ClientConnection) (m : ℕ) → P c → IsLeft c m → n ≤ m)

  abbrev Or : ClientConnection → (ClientConnection → Type 0) → ClientConnection → Type 0
  Or x P c = P c ⊎ (c ≡ x)

  -- A connection with no deadline.
  IsLeast-none :
      (x : ClientConnection) (P : ClientConnection → Type 0) (o : Option ℕ)
      → IsLeast P o
      → deadline first others x ≡ 0
      → IsLeast (Or x P) o
  IsLeast-none x P none h e = go
    where
      go : (c : ClientConnection) → Or x P c → deadline first others c ≡ 0
      go c (inl p) = h c p
      go c (inr same) = ap (deadline first others) same ∙ e
  IsLeast-none x P (some n) ((d, p, left), least) e = ((d, inl p, left), go)
    where
      go : (c : ClientConnection) (m : ℕ) → Or x P c → IsLeft c m → n ≤ m
      go c m (inl p) l = least c m p l
      go c m (inr same) l = absurd (l.0 (ap (deadline first others) same ∙ e))

  -- One connection has one time left.
  left-same : (x c : ClientConnection) (r m : ℕ) → IsLeft x r → IsLeft c m → c ≡ x → m ≡ r
  left-same x c r m left l same =
      sym l.1 ∙ ap (λ k. remaining (deadline first others k) now) same ∙ left.1

  IsLeast-smaller :
      (x : ClientConnection) (P : ClientConnection → Type 0) (o : Option ℕ) (r : ℕ)
      → IsLeast P o
      → IsLeft x r
      → IsLeast (Or x P) (smaller o r)
  IsLeast-smaller x P none r h left = ((x, inr refl, left), go)
    where
      go : (c : ClientConnection) (m : ℕ) → Or x P c → IsLeft c m → r ≤ m
      go c m (inl p) l = absurd (l.0 (h c p))
      go c m (inr same) l = omega (arith, left-same x c r m left l same)
  IsLeast-smaller x P (some n) r ((d, p, leftd), least) left = elim (Bool-cases (ltb r n)) [
    | inl less ↦ rw less ((x, inr refl, left), below less)
    | inr more ↦ rw more ((d, inl p, leftd), above more)
  ]
    where
      below : ltb r n ≡ true → (c : ClientConnection) (m : ℕ) → Or x P c → IsLeft c m → r ≤ m
      below less c m (inl q) l = ground (arith, least c m q l)
      below less c m (inr same) l = omega (arith, left-same x c r m left l same)

      above : ltb r n ≡ false → (c : ClientConnection) (m : ℕ) → Or x P c → IsLeft c m → n ≤ m
      above more c m (inl q) l = least c m q l
      above more c m (inr same) l = ground (arith, left-same x c r m left l same)

  consider_deadline-IsLeast :
      (x : ClientConnection) (P : ClientConnection → Type 0) (o : Option ℕ)
      → IsLeast P o
      → IsLeast (Or x P) (consider_deadline first others now o (deadline first others x))
  consider_deadline-IsLeast x P o h = elim (Bool-cases (deadline first others x == 0)) [
    | inl done ↦ rw done (IsLeast-none x P o h (ground arith))
    | inr timed ↦ rw timed (IsLeast-smaller x P o _ h ((λ e. ground arith), refl))
  ]

  IsLeast-map :
      (P Q : ClientConnection → Type 0) (o : Option ℕ)
      → ((c : ClientConnection) → P c → Q c)
      → ((c : ClientConnection) → Q c → P c)
      → IsLeast P o
      → IsLeast Q o
  IsLeast-map P Q none to from h = λ c q. h c (from c q)
  IsLeast-map P Q (some n) to from ((d, p, left), least) =
      ((d, to d p, left), λ c m q l. least c m (from c q) l)

  earliest-IsLeast :
      (P Q : ClientConnection → Type 0) (cs : List ClientConnection) (o : Option ℕ)
      → ((c : ClientConnection) → P c ⊎ Memᴰ c cs → Q c)
      → ((c : ClientConnection) → Q c → P c ⊎ Memᴰ c cs)
      → IsLeast P o
      → IsLeast Q (earliest first others now cs o)
  unfolding earliest
  earliest-IsLeast P Q [] o to from h =
      IsLeast-map P Q o (λ c p. to c (inl p)) (λ c q. known c (from c q)) h
    where
      known : (c : ClientConnection) → P c ⊎ Memᴰ c [] → P c
      known c (inl p) = p
      known c (inr m) = elim m [ ]
  earliest-IsLeast P Q (x ∷ cs) o to from h =
      earliest-IsLeast (Or x P) Q cs
        (consider_deadline first others now o (deadline first others x)) to'
        (λ c q. sort c (from c q)) (consider_deadline-IsLeast x P o h)
    where
      to' : (c : ClientConnection) → Or x P c ⊎ Memᴰ c cs → Q c
      to' c (inl (inl p)) = to c (inl p)
      to' c (inl (inr e)) = to c (inr (head e))
      to' c (inr m) = to c (inr (tail m))

      sort : (c : ClientConnection) → P c ⊎ Memᴰ c (x ∷ cs) → Or x P c ⊎ Memᴰ c cs
      sort c (inl p) = inl (inl p)
      sort c (inr (head e)) = inl (inr e)
      sort c (inr (tail m)) = inr m

  -- What poll is given to wait: -1, for ever, where no connection has a deadline; and else the
  -- least time left.
  abbrev pub IsWait : List ClientConnection → ℤ → Type 0
  IsWait conns wait =
      ((wait ≡ negsuc 0) × IsLeast (λ c. Memᴰ c conns) none)
      ⊎ ((n : ℕ) × (wait ≡ pos n) × IsLeast (λ c. Memᴰ c conns) (some n))

  -- No connection has 2 ^ 31 milliseconds left, or more.
  abbrev pub IsShort : List ClientConnection → Type 0
  IsShort conns = (c : ClientConnection) (n : ℕ) → Memᴰ c conns → IsLeft c n → n < 2 ^ 31

  poll_result-IsWait :
      (conns : List ClientConnection) (o : Option ℕ)
      → IsShort conns
      → IsLeast (λ c. Memᴰ c conns) o
      → IsWait conns (poll_result o)
  poll_result-IsWait conns none short h = inl (refl, h)
  poll_result-IsWait conns (some n) short h = inr (n, to_int-pos n (short h.0.0 n h.0.1 h.0.2), h)

  -- ComputePollTimeout gives -1 where no connection has a deadline, and else the milliseconds to
  -- the deadline that is next, of one of the connections, 0 where it has passed; on the condition
  -- that every connection with a deadline has less than 2 ^ 31 milliseconds left.
  pub compute_poll_timeout-IsWait :
      (conns : List ClientConnection)
      → IsShort conns
      → IsWait conns (compute_poll_timeout first others now conns)
  unfolding compute_poll_timeout
  compute_poll_timeout-IsWait conns short =
      poll_result-IsWait conns (earliest first others now conns none) short (
        earliest-IsLeast (λ c. ⊥) (λ c. Memᴰ c conns) conns none (λ c. behind c) (λ c. inr)
          (λ c never. absurd never))
    where
      behind : (c : ClientConnection) → ⊥ ⊎ Memᴰ c conns → Memᴰ c conns
      behind c (inl never) = absurd never
      behind c (inr m) = m
