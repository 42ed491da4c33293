-- ===== src/Server/Listen.antt =====
-- OpenListeningSockets of docs/server/Server.cpp, which Init calls. What the system answers is a
-- parameter, and so is whether the vector of sockets grows, which copies the FDs in it.
pub mod Kept
use selfserv.Base.{
  ℕ, suc, Bool, true, false, not, Option, none, some, List, [], ◌∷◌, ◌++◌, if◌then◌else◌,
}
use selfserv.Config.Data.{ServerConfig}
use selfserv.Server.Descriptor.{Dup, close, close_if_valid, copy_fd}

-- The answers for one server: socket, which gives a descriptor; bind, listen and setNonBlocking; and
-- whether push_back makes room.
pub record Calls : Type 0 where
  pub socket : Option ℕ
  pub binds : Bool
  pub listens : Bool
  pub sets_non_blocking : Bool
  pub grows : Bool

-- m_listenSockets, the FDs in it and the open descriptors.
pub record Sockets : Type 0 where
  pub fds : List (Option ℕ)
  pub open_fds : List ℕ

-- The FDs of a vector are copied one by one.
unfoldable pub copy_fds : Dup → List (Option ℕ) → List ℕ → Sockets
copy_fds dup [] open_fds = record { fds = []; open_fds = open_fds }
copy_fds dup (fd ∷ fds) open_fds =
    let (copy, open_now) = copy_fd dup fd open_fds in
    let others = copy_fds dup fds open_now in
    record { fds = copy ∷ others.fds; open_fds = others.open_fds }

-- And they end one by one.
unfoldable pub end_fds : List (Option ℕ) → List ℕ → List ℕ
unfolding close
end_fds [] open_fds = open_fds
end_fds (fd ∷ fds) open_fds = end_fds fds (close_if_valid fd open_fds)

-- A vector that grows copies the FDs to their new place, and then ends the old ones.
abbrev pub grown_sockets : Dup → Bool → Sockets → Sockets
grown_sockets dup false s = s
grown_sockets dup true s =
    let copies = copy_fds dup s.fds s.open_fds in
    record { fds = copies.fds; open_fds = end_fds s.fds copies.open_fds }

-- m_listenSockets.push_back(FD(fd)): the copy of the new FD, the room for it, and the end of the FD
-- that was copied
unfoldable pub push_fd : Dup → Bool → ℕ → Sockets → Sockets
unfolding copy_fds end_fds
push_fd dup grows fd s =
    let (copy, open_now) = copy_fd dup (some fd) s.open_fds in
    let there = grown_sockets dup grows (record s { open_fds = open_now }) in
    record { fds = there.fds ++ copy ∷ []; open_fds = close fd there.open_fds }

-- ::close(fd) and return false
abbrev pub give_up : ℕ → Sockets → Bool × Sockets
give_up fd s = (false, record s { open_fds = close fd s.open_fds })

-- The calls behind that of socket; `rest` goes on with the next server.
abbrev pub with_socket :
    Dup → Calls → Option ℕ → Sockets → (Sockets → Bool × Sockets) → Bool × Sockets
with_socket dup c none s rest = (false, s)
with_socket dup c (some fd) s rest =
    let opened = record s { open_fds = fd ∷ s.open_fds } in
    if not c.binds
    then give_up fd opened
    else if not c.listens
    then give_up fd opened
    else if not c.sets_non_blocking
    then give_up fd opened
    else rest (push_fd dup c.grows fd opened)

-- OpenListeningSockets, from the server at index `i`
unfoldable pub open_listening_sockets :
    Dup → (ℕ → Calls) → ℕ → List ServerConfig → Sockets → Bool × Sockets
unfolding push_fd close
open_listening_sockets dup calls i [] s = (true, s)
open_listening_sockets dup calls i (sc ∷ servers) s =
    with_socket dup (calls i) (calls i).socket s
      (λ t. open_listening_sockets dup calls (suc i) servers t)
