-- ===== src/Server/Loop/Kept.antt =====
-- The handlers of docs/server/Server.cpp and the map of connections: the parsers stay ready.
use selfserv.Base.{
  ℕ, refl, Bool, true, false, Option, none, some, List, [], ◌∷◌, ◌==◌, ltb, if◌then◌else◌, if-both,
  arith,
}
use selfserv.Config.Data.{ServerConfig}
use selfserv.Server.Connection.{ClientConnection, new_connection}
use selfserv.Server.Connection.Writable.{After, still, closed, behind, handle_writable}
use selfserv.Server.System.{World}
use selfserv.Server.Output.{Progress, Driven, drive_cgi_io, close_fd}
use selfserv.Server.Readable.Input.{drive_cgi_io-SameInput}
use selfserv.Server.Readable.Reachable.{Sound, Sound-same, handle_writable-Sound, sweep-Sound}
use selfserv.Server.Descriptor.{Dup, is_fd}
use selfserv.Server.Clients.{
  Clients, find_client, erase_client, set_client, close_connection, accept_one, accept_new,
}
use selfserv.Server.Event.{
  client_fd, close_event_fd, on_hang_up, on_program, on_client, on_client_fd, handle_cgi_event,
}
use selfserv.Server.Loop.{
  Server, Entry, close_client, program_entry, put_client, after_writable, writable_entry,
  after_readable, sweep_clients,
}

module _ (first : ServerConfig) (others : List ServerConfig) where
  -- The parser of every connection is ready for what the connection has read.
  abbrev pub AllSound : Clients → Type 0
  AllSound [] = Unit
  AllSound ((key, conn) ∷ clients) = Sound first others conn × AllSound clients

  -- The connection that was looked for is sound, if it is there.
  abbrev pub SoundIf : Option ClientConnection → Type 0
  SoundIf none = Unit
  SoundIf (some conn) = Sound first others conn

  pub find_client-SoundIf :
      (key : ℕ) (clients : Clients) → AllSound clients → SoundIf (find_client key clients)
  unfolding find_client
  find_client-SoundIf key [] h = tt
  find_client-SoundIf key ((k, c) ∷ clients) h =
      if-both SoundIf (k == key) h.0 (find_client-SoundIf key clients h.1)

  erase_client-AllSound :
      (key : ℕ) (clients : Clients) → AllSound clients → AllSound (erase_client key clients)
  unfolding erase_client
  erase_client-AllSound key [] h = tt
  erase_client-AllSound key ((k, c) ∷ clients) h =
      let later = erase_client-AllSound key clients h.1 in
      if-both AllSound (k == key) later (h.0, later)

  pub set_client-AllSound :
      (key : ℕ) (conn : ClientConnection) (clients : Clients)
      → Sound first others conn
      → AllSound clients
      → AllSound (set_client key conn clients)
  unfolding set_client
  set_client-AllSound key conn [] s h = (s, tt)
  set_client-AllSound key conn ((k, c) ∷ clients) s h =
      if-both AllSound (ltb k key) (h.0, set_client-AllSound key conn clients s h.1)
        (if-both AllSound (k == key) (s, h.1) (s, h))

  pub sweep_clients-AllSound :
      (now : ℕ) (clients : Clients)
      → AllSound clients
      → AllSound (sweep_clients first others now clients)
  unfolding sweep_clients
  sweep_clients-AllSound now [] h = tt
  sweep_clients-AllSound now ((key, conn) ∷ clients) h =
      (sweep-Sound first others now conn h.0, sweep_clients-AllSound now clients h.1)

  new_connection-Sound :
      (own : Option ℕ) (created last : ℕ)
      → Sound first others
          (record new_connection { fd = own; created_at_ms = created; last_activity_ms = last })
  unfolding Sound
  new_connection-Sound own created last = record {
    none_consumed = refl;
    chunks_new = refl;
    state_is = tt;
    read_le = omega arith;
  }

  accept_one-AllSound :
      (dup : Dup) (time cfd : ℕ) (open_fds : List ℕ) (clients : Clients)
      → AllSound clients
      → AllSound (accept_one dup time cfd (open_fds, clients)).1
  unfolding accept_one
  accept_one-AllSound dup time cfd open_fds clients h =
      set_client-AllSound cfd _ clients (new_connection-Sound _ time time) h

  pub accept_new-AllSound :
      (dup : Dup) (time : ℕ) (accepts : List (ℕ × Bool)) (open_fds : List ℕ) (clients : Clients)
      → AllSound clients
      → AllSound (accept_new dup time accepts (open_fds, clients)).1
  unfolding accept_new
  accept_new-AllSound dup time [] open_fds clients h = h
  accept_new-AllSound dup time ((cfd, true) ∷ more) open_fds clients h =
      accept_new-AllSound dup time more _ _
        (accept_one-AllSound dup time cfd (cfd ∷ open_fds) clients h)
  accept_new-AllSound dup time ((cfd, false) ∷ more) open_fds clients h =
      accept_new-AllSound dup time more _ _ h

  close_client-AllSound :
      (fd : Option ℕ) (s : Server) → AllSound s.clients → AllSound (close_client fd s).clients
  unfolding close_client close_connection
  close_client-AllSound none s h = h
  close_client-AllSound (some fd) s h = erase_client-AllSound fd s.clients h

  close_event_fd-Sound :
      (fd : ℕ) (conn : ClientConnection) (w : World)
      → Sound first others conn
      → Sound first others (close_event_fd fd conn w).0
  unfolding close_event_fd Sound
  close_event_fd-Sound fd conn w h =
      let r : Driven =
        if is_fd conn.cgi_out_fd fd
        then (record conn { cgi_out_fd = none }, close_fd fd w)
        else (conn, w) in
      let kept : Sound first others r.0 =
        if-both {A = Driven} (λ q. Sound first others q.0) (is_fd conn.cgi_out_fd fd) h h in
      if-both {A = Driven} (λ q. Sound first others q.0) (is_fd r.0.cgi_in_fd fd) kept kept

  drive_cgi_io-Sound :
      (step : Progress) (conn : ClientConnection) (w : World)
      → Sound first others conn
      → Sound first others (drive_cgi_io step conn w).1
  drive_cgi_io-Sound step conn w h =
      Sound-same first others conn (drive_cgi_io step conn w).1 h
        (drive_cgi_io-SameInput step conn w)

  on_hang_up-Sound :
      (b : Bool) (step : Progress) (fd : ℕ) (conn : ClientConnection) (w : World)
      → Sound first others conn
      → Sound first others (on_hang_up b step fd conn w).0
  on_hang_up-Sound false step fd conn w h = h
  on_hang_up-Sound true step fd conn w h =
      let (going, c, v) = drive_cgi_io step conn w in
      close_event_fd-Sound fd c v (drive_cgi_io-Sound step conn w h)

  on_program-AllSound :
      (active hangs_up : Bool) (early late : Progress) (key fd : ℕ) (conn : ClientConnection)
      (clients : Clients) (w : World)
      → Sound first others conn
      → AllSound clients
      → AllSound (on_program active hangs_up early late key fd conn clients w).1
  on_program-AllSound false hangs_up early late key fd conn clients w c h = h
  on_program-AllSound true hangs_up early late key fd conn clients w c h =
      let (d, v) = on_hang_up hangs_up early fd conn w in
      set_client-AllSound key (drive_cgi_io late d v).1 clients
        (drive_cgi_io-Sound late d v (on_hang_up-Sound hangs_up early fd conn w c)) h

  on_client-AllSound :
      (o : Option ClientConnection) (hangs_up : Bool) (early late : Progress) (key fd : ℕ)
      (clients : Clients) (w : World)
      → SoundIf o
      → AllSound clients
      → AllSound (on_client o hangs_up early late key fd clients w).1
  on_client-AllSound none hangs_up early late key fd clients w c h = h
  on_client-AllSound (some conn) hangs_up early late key fd clients w c h =
      on_program-AllSound conn.cgi_active hangs_up early late key fd conn clients w c h

  on_client_fd-AllSound :
      (o : Option (Option ℕ)) (hangs_up : Bool) (early late : Progress) (fd : ℕ) (clients : Clients)
      (w : World)
      → AllSound clients
      → AllSound (on_client_fd o hangs_up early late fd clients w).1
  on_client_fd-AllSound none hangs_up early late fd clients w h = h
  on_client_fd-AllSound (some none) hangs_up early late fd clients w h = h
  on_client_fd-AllSound (some (some key)) hangs_up early late fd clients w h =
      on_client-AllSound (find_client key clients) hangs_up early late key fd clients w
        (find_client-SoundIf key clients h) h

  pub program_entry-AllSound :
      (e : Entry) (s : Server) → AllSound s.clients → AllSound (program_entry e s).clients
  unfolding handle_cgi_event
  program_entry-AllSound e s h =
      on_client_fd-AllSound (client_fd e.fd s.world.cgi_clients) e.revents.hangs_up e.early e.late
        e.fd s.clients s.world h

  after_writable-AllSound :
      (key : ℕ) (a : After) (s : Server)
      → Sound first others (behind a)
      → AllSound s.clients
      → AllSound (after_writable key a s).clients
  after_writable-AllSound key (still conn) s c h = set_client-AllSound key conn s.clients c h
  after_writable-AllSound key (closed conn) s c h =
      close_client-AllSound conn.fd (put_client key conn s)
        (set_client-AllSound key conn s.clients c h)

  writable_entry-AllSound :
      (b : Bool) (e : Entry) (conn : ClientConnection) (s : Server)
      → Sound first others conn
      → AllSound s.clients
      → AllSound (writable_entry b e conn s).clients
  writable_entry-AllSound false e conn s c h = h
  writable_entry-AllSound true e conn s c h =
      after_writable-AllSound e.fd (handle_writable e.sends conn) s
        (handle_writable-Sound first others e.sends conn c) h

  pub after_readable-AllSound :
      (e : Entry) (conn : ClientConnection) (s : Server)
      → Sound first others conn
      → AllSound s.clients
      → AllSound (after_readable e conn s).clients
  after_readable-AllSound e conn s c h =
      let t = writable_entry e.revents.writes e conn s in
      let kept = writable_entry-AllSound e.revents.writes e conn s c h in
      if-both {A = Server} (λ u. AllSound u.clients) e.revents.hangs_up
        (close_client-AllSound (some e.fd) t kept) kept
