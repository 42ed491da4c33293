-- ===== src/Server/Output/Tests.antt =====
-- Runs of the programs' output and of the descriptors, and their properties at concrete inputs.
use selfserv.Base.{
  ℕ, suc, ◌≤◌, ◌≡◌, ◌≢◌, refl, ap, true, false, Option, none, some, List, [], ◌∷◌, ltb,
  if◌then◌else◌, codes, arith,
}
use mathlib.Core.List.{Memᴰ}
use mathlib.Core.List.Memᴰ.{head, tail}
use selfserv.Server.Response.{status_line, length_line}
use selfserv.Server.Connection.{ClientConnection, new_connection}
use selfserv.Server.System.{World}
use selfserv.Server.Descriptor.{Dup, IsDup, copy_fd, close_if_valid, copy_fd-close}
use selfserv.Server.Clients.{find_client, fd_of, accept_one}
use selfserv.Server.Clients.Accepted.{accept_one-closes}
use selfserv.Server.Event.{handle_cgi_event}
use selfserv.Server.Output.{Progress, drive_cgi_io}
use selfserv.Server.Output.Answer.{IsReadyToSend, drive_cgi_io-late, drive_cgi_io-IsReadyToSend}

abbrev clean : World
clean = record {
  bin_count = 0;
  dat_count = 0;
  cgi_clients = [];
  made = [];
  written = [];
  removed = [];
  started = [];
  closed_fds = [];
}

-- A program that writes its head and half of its body, and then the other half.
abbrev first_half : Progress
first_half = record {
  taken = 0;
  output = codes "Status: 404 Gone\r\nX-A: b\r\n\r\nhalf" ∷ [];
  exited = false;
}

abbrev second_half : Progress
second_half = record { taken = 0; output = codes " a body" ∷ []; exited = true }

abbrev program_runs : ClientConnection
program_runs = record new_connection { cgi_out_fd = some 12; cgi_pid = some 99; cgi_active = true }

drive_cgi_io-first :
    (drive_cgi_io first_half program_runs clean).1.write_buf
    ≡ codes
        "HTTP/1.1 404 Gone\r\nX-A: b\r\nContent-Length: 4\r\nContent-Type: text/html\r\nConnection: keep-alive\r\n\r\nhalf"
unfolding drive_cgi_io status_line length_line
drive_cgi_io-first = refl

abbrev answered : ClientConnection
answered = record program_runs { cgi_headers_done = true; write_buf = codes "half" }

drive_cgi_io-late_example :
    ((drive_cgi_io second_half answered clean).0 ≡ true)
    × ((drive_cgi_io second_half answered clean).1.write_buf ≡ codes "half")
drive_cgi_io-late_example = drive_cgi_io-late second_half answered clean refl

drive_cgi_io-IsReadyToSend_example : IsReadyToSend (drive_cgi_io second_half program_runs clean).1
drive_cgi_io-IsReadyToSend_example =
    drive_cgi_io-IsReadyToSend second_half program_runs clean refl refl

-- A dup that gives one more than the highest open descriptor.
abbrev highest : List ℕ → ℕ
highest [] = 0
highest (n ∷ ns) = let m = highest ns in if ltb m n then n else m

abbrev above : Dup
above open_fds = some (suc (highest open_fds))

highest-le : (n : ℕ) (ns : List ℕ) → Memᴰ n ns → n ≤ highest ns
highest-le n [] m = elim m [ ]
highest-le n (k ∷ ns) (head e) = ground (arith, e)
highest-le n (k ∷ ns) (tail m) = ground (arith, highest-le n ns m)

above-IsDup : IsDup above
above-IsDup open_fds fd e m = omega (arith, highest-le fd open_fds m, ap or_zero e)
  where
    or_zero : Option ℕ → ℕ
    or_zero none = 0
    or_zero (some n) = n

copy_fd-close_run :
    close_if_valid (copy_fd above (some 4) (4 ∷ 3 ∷ [])).0 (copy_fd above (some 4) (4 ∷ 3 ∷ [])).1
    ≡ 4 ∷ 3 ∷ []
copy_fd-close_run = copy_fd-close above (some 4) (4 ∷ 3 ∷ []) above-IsDup

accept_one-closes_example :
    (Memᴰ 4 (accept_one above 9000 4 (4 ∷ 3 ∷ [], [])).0 → ⊥)
    × (fd_of (find_client 4 (accept_one above 9000 4 (4 ∷ 3 ∷ [], [])).1) ≢ some 4)
unfolding find_client
accept_one-closes_example = accept_one-closes above 9000 4 (3 ∷ []) [] above-IsDup refl

accept_one-first : (accept_one above 9000 4 (4 ∷ 3 ∷ [], [])).0 ≡ 5 ∷ 3 ∷ []
unfolding accept_one
accept_one-first = refl

-- An event on a program's output whose client is gone: the descriptor is closed and forgotten.
handle_cgi_event-gone :
    handle_cgi_event false first_half first_half 12 []
      (record clean { cgi_clients = (12, some 5) ∷ (11, some 5) ∷ [] })
    ≡ (true, [], record clean { cgi_clients = (11, some 5) ∷ []; closed_fds = 12 ∷ [] })
unfolding handle_cgi_event
handle_cgi_event-gone = refl
