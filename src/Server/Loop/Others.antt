-- ===== src/Server/Loop/Others.antt =====
-- Events of one connection and the other connections of docs/server/Server.cpp.
use selfserv.Base.{
  ℕ, ◌≡◌, ◌≢◌, refl, ◌∙◌, subst, sym, Bool, true, false, not, ◌||◌, Option, none, some, List, [],
  ◌∷◌, if-both, Bytes,
}
use selfserv.Config.Data.{ServerConfig}
use selfserv.Server.Connection.{ClientConnection}
use selfserv.Server.Connection.Writable.{
  After, still, closed, behind, handle_writable, handle_writable-fd,
}
use selfserv.Http.Parser.{Outcome, returned, out_of_range, stuck, parse, has_error}
use selfserv.Server.System.{System, World}
use selfserv.Server.Readable.{
  Read, read, threw, handle_readable, with_bytes, with_parser, by_outcome, by_parsed,
}
use selfserv.Server.Readable.Input.{respond_to-SameInput}
use selfserv.Server.Descriptor.{Dup}
use selfserv.Server.Clients.{Clients, find_client, close_connection}
use selfserv.Server.Clients.Laws.{find_client-set_client_other, find_client-erase_client}
use selfserv.Server.Event.{client_fd}
use selfserv.Server.Loop.{
  Server, Entry, Dispatched, went, left, is_set, is_listening, close_client, put_client,
  after_writable, writable_entry, after_readable, by_read, client_entry, found_entry,
  dispatch_event,
}

-- Under `key` the same is found as in `clients`.
abbrev pub SameAt : ℕ → Clients → Server → Type 0
SameAt key clients s = find_client key s.clients ≡ find_client key clients

-- A descriptor is not the key.
abbrev pub IsNot : ℕ → Option ℕ → Type 0
IsNot key none = Unit
IsNot key (some fd) = fd ≢ key

-- No descriptor that the connection holds is the key.
abbrev pub IsNotOwn : ℕ → Option ClientConnection → Type 0
IsNotOwn key none = Unit
IsNotOwn key (some conn) = IsNot key conn.fd

close_client-SameAt :
    (key : ℕ) (fd : Option ℕ) (s : Server) → IsNot key fd → SameAt key s.clients (close_client fd s)
unfolding close_client close_connection
close_client-SameAt key none s h = refl
close_client-SameAt key (some fd) s h = find_client-erase_client fd key s.clients h

after_writable-SameAt :
    (key fd : ℕ) (a : After) (s : Server)
    → fd ≢ key
    → IsNot key (behind a).fd
    → SameAt key s.clients (after_writable fd a s)
after_writable-SameAt key fd (still conn) s h k =
    find_client-set_client_other fd key conn s.clients h
after_writable-SameAt key fd (closed conn) s h k =
    close_client-SameAt key conn.fd (put_client fd conn s) k
    ∙ find_client-set_client_other fd key conn s.clients h

writable_entry-SameAt :
    (key : ℕ) (b : Bool) (e : Entry) (conn : ClientConnection) (s : Server)
    → e.fd ≢ key
    → IsNot key conn.fd
    → SameAt key s.clients (writable_entry b e conn s)
writable_entry-SameAt key false e conn s h k = refl
writable_entry-SameAt key true e conn s h k =
    after_writable-SameAt key e.fd (handle_writable e.sends conn) s h
      (subst (IsNot key) (sym (handle_writable-fd e.sends conn)) k)

after_readable-SameAt :
    (key : ℕ) (e : Entry) (conn : ClientConnection) (s : Server)
    → e.fd ≢ key
    → IsNot key conn.fd
    → SameAt key s.clients (after_readable e conn s)
after_readable-SameAt key e conn s h k =
    let t = writable_entry e.revents.writes e conn s in
    let kept = writable_entry-SameAt key e.revents.writes e conn s h k in
    if-both {A = Server} (SameAt key s.clients) e.revents.hangs_up
      (close_client-SameAt key (some e.fd) t h ∙ kept) kept

module _ (first : ServerConfig) (others : List ServerConfig) where
  -- HandleReadable leaves the descriptor of the connection as it is.
  abbrev IsOwn : Option ℕ → Read → Type 0
  IsOwn own threw = Unit
  IsOwn own (read h) = h.0.fd ≡ own

  by_outcome-IsOwn :
      (sys : System) (o : Outcome) (c : ClientConnection) (w : World)
      (rest : ClientConnection → Read)
      → ((d : ClientConnection) → d.fd ≡ c.fd → IsOwn c.fd (rest d))
      → IsOwn c.fd (by_outcome sys first others o c w rest)
  by_outcome-IsOwn sys out_of_range c w rest h = tt
  by_outcome-IsOwn sys stuck c w rest h = tt
  by_outcome-IsOwn sys (returned p req complete) c w rest h = go (complete || has_error p)
    where
      d : ClientConnection
      d = with_parser p req c

      go : (b : Bool) → IsOwn c.fd (by_parsed sys first others b d w rest)
      go true = (respond_to-SameInput first others sys d w).2
      go false = h d refl

  handle_readable-IsOwn :
      (sys : System) (received : List (ℕ × Bytes)) (conn : ClientConnection) (w : World)
      → IsOwn conn.fd (handle_readable sys first others received conn w)
  unfolding handle_readable with_bytes
  handle_readable-IsOwn sys [] conn w = refl
  handle_readable-IsOwn sys ((time, bytes) ∷ more) conn w =
      let c = with_bytes time bytes conn in
      by_outcome-IsOwn sys (parse c.read_buf c.parser c.request) c w
        (λ d. handle_readable sys first others more d w)
        (λ d e.
          subst (λ own. IsOwn own (handle_readable sys first others more d w)) e
            (handle_readable-IsOwn sys more d w))

  -- The handling of an entry throws, or leaves what is under the key as it was.
  abbrev pub LeavesAt : ℕ → Clients → Dispatched → Type 0
  LeavesAt key clients left = Unit
  LeavesAt key clients (went s) = SameAt key clients s

  by_read-LeavesAt :
      (key : ℕ) (e : Entry) (own : Option ℕ) (s : Server) (r : Read)
      → e.fd ≢ key
      → IsNot key own
      → IsOwn own r
      → LeavesAt key s.clients (by_read first others e s r)
  by_read-LeavesAt key e own s threw h k same = tt
  by_read-LeavesAt key e own s (read (conn, w)) h k same =
      let t : Server = record s { world = w } in
      after_readable-SameAt key e conn (put_client e.fd conn t) h (subst (IsNot key) (sym same) k)
      ∙ find_client-set_client_other e.fd key conn s.clients h

  client_entry-LeavesAt :
      (key : ℕ) (b : Bool) (e : Entry) (conn : ClientConnection) (s : Server)
      → e.fd ≢ key
      → IsNot key conn.fd
      → LeavesAt key s.clients (client_entry first others b e conn s)
  client_entry-LeavesAt key false e conn s h k = after_readable-SameAt key e conn s h k
  client_entry-LeavesAt key true e conn s h k =
      by_read-LeavesAt key e conn.fd s
        (handle_readable e.system first others e.received conn s.world) h k
        (handle_readable-IsOwn e.system e.received conn s.world)

  found_entry-LeavesAt :
      (key : ℕ) (e : Entry) (o : Option ClientConnection) (s : Server)
      → e.fd ≢ key
      → IsNotOwn key o
      → LeavesAt key s.clients (found_entry first others e o s)
  found_entry-LeavesAt key e none s h k = refl
  found_entry-LeavesAt key e (some conn) s h k =
      client_entry-LeavesAt key e.revents.reads e conn s h k

module _ (dup : Dup) (first : ServerConfig) (others : List ServerConfig) where
  -- An event of a connection, which is neither a listening socket nor a descriptor of a program,
  -- leaves every connection as it was that stands neither under the descriptor of the event nor under
  -- the one that the connection of the event holds.
  pub dispatch_event-LeavesAt :
      (key : ℕ) (e : Entry) (s : Server)
      → is_listening e.fd s.listening ≡ false
      → client_fd e.fd s.world.cgi_clients ≡ none
      → e.fd ≢ key
      → IsNotOwn key (find_client e.fd s.clients)
      → LeavesAt first others key s.clients (dispatch_event dup first others e s)
  unfolding dispatch_event
  dispatch_event-LeavesAt key e s plain no_program h k =
      if-both (LeavesAt first others key s.clients) (not (is_set e.revents)) refl (
        rw (plain, no_program)
          (found_entry-LeavesAt first others key e (find_client e.fd s.clients) s h k))
