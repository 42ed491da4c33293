-- ===== src/Server/Loop/Sound.antt =====
-- ProcessEvents of docs/server/Server.cpp, over all connections.
use selfserv.Base.{
  ℕ, ◌<◌, ◌≡◌, refl, subst, sym, Bool, true, false, not, Option, none, some, List, [], ◌∷◌, ◌++◌,
  if-both, length,
}
use selfserv.Base.Int.{size_mod}
use selfserv.Config.Data.{ServerConfig}
use selfserv.Server.Connection.{ClientConnection}
use selfserv.Server.Handle.{Handled}
use selfserv.Server.Readable.{Read, read, handle_readable}
use selfserv.Server.Readable.Returns.{all_bytes, handle_readable-returns}
use selfserv.Server.Readable.Reachable.{Sound, handle_readable-Sound}
use selfserv.Server.Descriptor.{Dup}
use selfserv.Server.Clients.{find_client}
use selfserv.Server.Event.{client_fd}
use selfserv.Server.Loop.{
  Server, Entry, Dispatched, went, left, is_set, is_listening, put_client, by_read, client_entry,
  found_entry, known_entry, dispatch_event, then_dispatch, dispatch_all, sweep_server,
  process_events,
}
use selfserv.Server.Loop.Kept.{
  AllSound, SoundIf, find_client-SoundIf, set_client-AllSound, sweep_clients-AllSound,
  accept_new-AllSound, program_entry-AllSound, after_readable-AllSound,
}

module _ (first : ServerConfig) (others : List ServerConfig) where
  -- The handling of an entry comes to an end with all connections sound.
  abbrev pub Goes : Dispatched → Type 0
  Goes (went s) = AllSound first others s.clients
  Goes left = ⊥

  -- The bytes of the connection and those that come are fewer than 2 ^ 64.
  abbrev pub FitsIf : Entry → Option ClientConnection → Type 0
  FitsIf e none = Unit
  FitsIf e (some conn) = length (conn.read_buf ++ all_bytes e.received) < size_mod

  by_read-Goes :
      (e : Entry) (s : Server) (r : Read) (h : Handled)
      → r ≡ read h
      → Sound first others h.0
      → AllSound first others s.clients
      → Goes (by_read first others e s r)
  by_read-Goes e s r (conn, w) returns c h =
      let t : Server = record s { world = w } in
      subst (λ r. Goes (by_read first others e s r)) (sym returns)
        (after_readable-AllSound first others e conn (put_client e.fd conn t) c
          (set_client-AllSound first others e.fd conn s.clients c h))

  client_entry-Goes :
      (b : Bool) (e : Entry) (conn : ClientConnection) (s : Server)
      → Sound first others conn
      → length (conn.read_buf ++ all_bytes e.received) < size_mod
      → AllSound first others s.clients
      → Goes (client_entry first others b e conn s)
  client_entry-Goes false e conn s c l h = after_readable-AllSound first others e conn s c h
  client_entry-Goes true e conn s c l h =
      let (h', returns) =
        handle_readable-returns e.system first others e.received conn s.world (unfold Sound in c)
          l in
      by_read-Goes e s (handle_readable e.system first others e.received conn s.world) h' returns
        (handle_readable-Sound first others e.system h'.0 h'.1 e.received conn s.world c l returns)
        h

  found_entry-Goes :
      (e : Entry) (o : Option ClientConnection) (s : Server)
      → SoundIf first others o
      → FitsIf e o
      → AllSound first others s.clients
      → Goes (found_entry first others e o s)
  found_entry-Goes e none s c l h = h
  found_entry-Goes e (some conn) s c l h = client_entry-Goes e.revents.reads e conn s c l h

  known_entry-Goes :
      (e : Entry) (o : Option (Option ℕ)) (s : Server)
      → FitsIf e (find_client e.fd s.clients)
      → AllSound first others s.clients
      → Goes (known_entry first others e o s)
  known_entry-Goes e none s l h =
      found_entry-Goes e (find_client e.fd s.clients) s
        (find_client-SoundIf first others e.fd s.clients h) l h
  known_entry-Goes e (some client) s l h = program_entry-AllSound first others e s h

module _ (dup : Dup) (first : ServerConfig) (others : List ServerConfig) where
  pub dispatch_event-Goes :
      (e : Entry) (s : Server)
      → FitsIf first others e (find_client e.fd s.clients)
      → AllSound first others s.clients
      → Goes first others (dispatch_event dup first others e s)
  unfolding dispatch_event
  dispatch_event-Goes e s l h =
      let found =
        found_entry-Goes first others e (find_client e.fd s.clients) s
          (find_client-SoundIf first others e.fd s.clients h) l h in
      if-both (Goes first others) (not (is_set e.revents)) h (
        if-both (Goes first others) (is_listening e.fd s.listening)
          (if-both (Goes first others) e.revents.reads
            (accept_new-AllSound first others dup e.time e.accepts s.open_fds s.clients h) found)
          (known_entry-Goes first others e (client_fd e.fd s.world.cgi_clients) s l h))

  -- Entry by entry, what comes for a connection fits.
  abbrev pub AllFit : List Entry → Server → Type 0
  AllFit [] s = Unit
  AllFit (e ∷ es) s =
      FitsIf first others e (find_client e.fd s.clients)
      × ((t : Server) → dispatch_event dup first others e s ≡ went t → AllFit es t)

  pub then_dispatch-Goes :
      (d : Dispatched) (f : Server → Dispatched)
      → Goes first others d
      → ((t : Server) → d ≡ went t → AllSound first others t.clients → Goes first others (f t))
      → Goes first others (then_dispatch d f)
  then_dispatch-Goes left f h k = absurd h
  then_dispatch-Goes (went t) f h k = k t refl h

  dispatch_all-Goes :
      (es : List Entry) (s : Server)
      → AllFit es s
      → AllSound first others s.clients
      → Goes first others (dispatch_all dup first others es s)
  unfolding dispatch_all
  dispatch_all-Goes [] s l h = h
  dispatch_all-Goes (e ∷ es) s l h =
      then_dispatch-Goes (dispatch_event dup first others e s)
        (λ t. dispatch_all dup first others es t) (dispatch_event-Goes e s l.0 h)
        (λ t same k. dispatch_all-Goes es t (l.1 t same) k)

  -- Whatever poll reports and the system gives, ProcessEvents returns, with no exception of Parse,
  -- and behind it the parser of every connection is ready for what the connection has read, as it was
  -- before; where no connection gets to 2 ^ 64 bytes read.
  pub process_events-Goes :
      (now : ℕ) (es : List Entry) (s : Server)
      → AllFit es (sweep_server first others now s)
      → AllSound first others s.clients
      → Goes first others (process_events dup first others now es s)
  unfolding process_events
  process_events-Goes now es s l h =
      dispatch_all-Goes es (sweep_server first others now s) l
        (sweep_clients-AllSound first others now s.clients h)
