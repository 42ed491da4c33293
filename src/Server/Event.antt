-- ===== src/Server/Event.antt =====
-- HandleCgiEvent and ReapCgi of docs/server/Server.cpp.
use selfserv.Base.{ℕ, Bool, true, false, Option, none, some, List, [], ◌∷◌, ◌==◌, if◌then◌else◌}
use selfserv.Server.Connection.{ClientConnection}
use selfserv.Server.Connection.Timeout.{reap_cgi}
use selfserv.Server.System.{World}
use selfserv.Server.Output.{Progress, Driven, close_fd, close_output, drive_cgi_io}
use selfserv.Server.Descriptor.{is_fd}
use selfserv.Server.Clients.{Clients, find_client, set_client}

-- ReapCgi; waitpid takes the program's status, which is not used.
unfoldable pub reap : ClientConnection → World → Driven
unfolding close_fd
reap conn w = (reap_cgi conn, close_output conn.cgi_out_fd (close_output conn.cgi_in_fd w))

-- m_cgiFdToClient.find(fd); `none` where it is not there.
unfoldable pub client_fd : ℕ → List (ℕ × Option ℕ) → Option (Option ℕ)
client_fd fd [] = none
client_fd fd ((key, client) ∷ rest) =
    let later = client_fd fd rest in if key == fd then some client else later

-- Where the descriptor of the event is the program's output, and where it is its input.
unfoldable pub close_event_fd : ℕ → ClientConnection → World → Driven
unfolding close_fd
close_event_fd fd conn w =
    let (c, v) : Driven =
      if is_fd conn.cgi_out_fd fd
      then (record conn { cgi_out_fd = none }, close_fd fd w)
      else (conn, w) in
    let (d, u) : Driven =
      if is_fd c.cgi_in_fd fd then (record c { cgi_in_fd = none }, close_fd fd v) else (c, v) in
    (record d { cgi_active = false }, u)

-- POLLHUP or POLLERR
abbrev pub on_hang_up : Bool → Progress → ℕ → ClientConnection → World → Driven
on_hang_up false step fd conn w = (conn, w)
on_hang_up true step fd conn w =
    let (going, c, v) = drive_cgi_io step conn w in close_event_fd fd c v

abbrev pub Event : Type 0
Event = Bool × Clients × World

abbrev pub on_program :
    Bool → Bool → Progress → Progress → ℕ → ℕ → ClientConnection → Clients → World → Event
on_program false hangs_up early late key fd conn clients w = (true, clients, w)
on_program true hangs_up early late key fd conn clients w =
    let (c, v) = on_hang_up hangs_up early fd conn w in
    let (going, d, u) = drive_cgi_io late c v in (going, set_client key d clients, u)

abbrev pub on_client :
    Option ClientConnection → Bool → Progress → Progress → ℕ → ℕ → Clients → World → Event
on_client none hangs_up early late key fd clients w = (true, clients, close_fd fd w)
on_client (some conn) hangs_up early late key fd clients w =
    on_program conn.cgi_active hangs_up early late key fd conn clients w

-- A key of -1 is in no map.
abbrev pub on_client_fd :
    Option (Option ℕ) → Bool → Progress → Progress → ℕ → Clients → World → Event
on_client_fd none hangs_up early late fd clients w = (true, clients, w)
on_client_fd (some none) hangs_up early late fd clients w = (true, clients, close_fd fd w)
on_client_fd (some (some key)) hangs_up early late fd clients w =
    on_client (find_client key clients) hangs_up early late key fd clients w

-- HandleCgiEvent: `early` and `late` are what the system gives in the two calls of DriveCgiIO, the
-- first of which is made where the other end has hung up.
unfoldable pub handle_cgi_event : Bool → Progress → Progress → ℕ → Clients → World → Event
unfolding client_fd close_event_fd drive_cgi_io find_client set_client close_fd
handle_cgi_event hangs_up early late fd clients w =
    on_client_fd (client_fd fd w.cgi_clients) hangs_up early late fd clients w
