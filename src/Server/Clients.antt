-- ===== src/Server/Clients.antt =====
-- The map of connections, m_clients, with AcceptNew, CloseConnection and BuildPollFds of
-- docs/server/Server.cpp. What accept and setNonBlocking return are arguments.
pub mod Accepted
pub mod Laws
use selfserv.Base.{
  ℕ, ◌≡◌, ◌≢◌, refl, sym, ap, ◌∙◌, Bool, true, false, Option, none, some, List, [], ◌∷◌, ◌++◌, ◌==◌,
  ltb, if◌then◌else◌, Bool-cases, Option-cases, inl, inr, arith, ==_refl,
}
use mathlib.Core.List.{Memᴰ}
use mathlib.Core.List.Memᴰ.{head, tail, cases_cons}
use selfserv.Server.Connection.{ClientConnection, new_connection}
use selfserv.Server.Descriptor.{
  Dup, IsDup, close, close_if_valid, copy_fd, opened, assign_fd, reset_fd, close-closes,
}

-- std::map<int, ClientConnection>, in the order of the keys
abbrev pub Clients : Type 0
Clients = List (ℕ × ClientConnection)

unfoldable pub find_client : ℕ → Clients → Option ClientConnection
find_client key [] = none
find_client key ((k, c) ∷ clients) =
    let later = find_client key clients in if k == key then some c else later

unfoldable pub erase_client : ℕ → Clients → Clients
erase_client key [] = []
erase_client key ((k, c) ∷ clients) =
    let others = erase_client key clients in if k == key then others else (k, c) ∷ others

-- m_clients[key] = conn
unfoldable pub set_client : ℕ → ClientConnection → Clients → Clients
set_client key conn [] = (key, conn) ∷ []
set_client key conn ((k, c) ∷ clients) =
    let later = set_client key conn clients in
    if ltb k key
    then (k, c) ∷ later
    else if k == key
    then (key, conn) ∷ clients
    else (key, conn) ∷ (k, c) ∷ clients

-- CloseConnection, as far as the map goes; the destructor of the connection closes its descriptor.
unfoldable pub close_connection : ℕ → Clients → Clients
unfolding erase_client
close_connection fd clients = erase_client fd clients

abbrev pub fd_of : Option ClientConnection → Option ℕ
fd_of none = none
fd_of (some conn) = conn.fd

-- A round of AcceptNew's loop for a connection whose descriptor is open: the open descriptors and the
-- map. The assignment to the map copies the connection, and with it the descriptor; the connection
-- that was copied ends with the round.
unfoldable pub accept_one : Dup → ℕ → ℕ → List ℕ × Clients → List ℕ × Clients
unfolding assign_fd reset_fd find_client set_client close
accept_one dup time cfd (open_fds, clients) =
    let (own, open_now) = reset_fd none cfd open_fds in
    let conn = record new_connection { fd = own; created_at_ms = time; last_activity_ms = time } in
    let (copy, open_then) = assign_fd dup (fd_of (find_client cfd clients)) own open_now in
    (close_if_valid own open_then, set_client cfd (record conn { fd = copy }) clients)

-- AcceptNew: for each descriptor that accept gives, whether setNonBlocking succeeds.
unfoldable pub accept_new : Dup → ℕ → List (ℕ × Bool) → List ℕ × Clients → List ℕ × Clients
unfolding accept_one
accept_new dup time [] s = s
accept_new dup time ((cfd, true) ∷ more) (open_fds, clients) =
    accept_new dup time more (accept_one dup time cfd (cfd ∷ open_fds, clients))
accept_new dup time ((cfd, false) ∷ more) (open_fds, clients) =
    accept_new dup time more (close cfd (cfd ∷ open_fds), clients)

-- An entry of the array for poll: the descriptor, and whether POLLIN and POLLOUT are asked for.
pub record PollFd : Type 0 where
  pub fd : ℕ
  pub reads : Bool
  pub writes : Bool

abbrev pub cgi_entry : Bool → Option ℕ → Bool → List PollFd
cgi_entry false fd out = []
cgi_entry true none out = []
cgi_entry true (some fd) true = (record { fd = fd; reads = false; writes = true }) ∷ []
cgi_entry true (some fd) false = (record { fd = fd; reads = true; writes = false }) ∷ []

abbrev pub client_entries : ℕ → ClientConnection → List PollFd
client_entries key conn =
    (record { fd = key; reads = true; writes = conn.want_write })
    ∷ (cgi_entry conn.cgi_active conn.cgi_in_fd true
        ++ cgi_entry conn.cgi_active conn.cgi_out_fd false)

unfoldable pub clients_entries : Clients → List PollFd
clients_entries [] = []
clients_entries ((key, conn) ∷ clients) = client_entries key conn ++ clients_entries clients

unfoldable pub listen_entries : List ℕ → List PollFd
listen_entries [] = []
listen_entries (fd ∷ fds) = (record { fd = fd; reads = true; writes = false }) ∷ listen_entries fds

-- BuildPollFds
unfoldable pub build_poll_fds : List ℕ → Clients → List PollFd
unfolding clients_entries listen_entries
build_poll_fds listening clients = listen_entries listening ++ clients_entries clients
