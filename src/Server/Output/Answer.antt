-- ===== src/Server/Output/Answer.antt =====
-- What a client gets of a program's output.
use selfserv.Base.{
  ℕ, ◌+◌, ◌≡◌, refl, ap, ◌∙◌, Bool, true, false, if-both, Bool-cases, inl, inr, Option, none, some,
  List, ltb, leb, Bytes, codes, starts_with, length,
}
use selfserv.Server.Response.{build_response, status_line}
use selfserv.Server.Connection.{ClientConnection, respond, is_empty}
use selfserv.Server.System.{World}
use selfserv.Server.Output.{
  Progress, Driven, write_to, read_from, note_exit, no_answer, by_head, head_end, moved,
  cgi_response, drive_cgi_io,
}

-- What DriveCgiIO does to the pipes leaves the response as it was.
abbrev SameResponse : ClientConnection → ClientConnection → Type 0
SameResponse conn after =
    (after.cgi_headers_done ≡ conn.cgi_headers_done)
    × (after.write_buf ≡ conn.write_buf)
    × (after.phase ≡ conn.phase)
    × (after.want_write ≡ conn.want_write)

write_to-SameResponse :
    (fd : Option ℕ) (taken : ℕ) (conn : ClientConnection) (w : World)
    → SameResponse conn (write_to fd taken conn w).0
write_to-SameResponse none taken conn w = (refl, refl, refl, refl)
write_to-SameResponse (some fd) taken conn w =
    if-both {A = Driven} (λ r. SameResponse conn r.0)
      (ltb conn.cgi_write_offset (length conn.request.body))
      (if-both {A = Driven} (λ r. SameResponse conn r.0)
        (leb (length conn.request.body) (conn.cgi_write_offset + taken)) (refl, refl, refl, refl)
        (refl, refl, refl, refl))
      (refl, refl, refl, refl)

read_from-SameResponse :
    (fd : Option ℕ) (output : List Bytes) (conn c : ClientConnection)
    → SameResponse conn c
    → SameResponse conn (read_from fd output c)
read_from-SameResponse none output conn c h = h
read_from-SameResponse (some fd) output conn c h = h

note_exit-SameResponse :
    (exited : Bool) (conn c : ClientConnection) (w : World)
    → SameResponse conn c
    → SameResponse conn (note_exit exited c w).0
unfolding note_exit
note_exit-SameResponse false conn c w h = h
note_exit-SameResponse true conn c w h = h

moved-SameResponse :
    (step : Progress) (conn : ClientConnection) (w : World)
    → SameResponse conn (moved step conn w).0
unfolding moved
moved-SameResponse step conn w =
    let driven = write_to conn.cgi_in_fd step.taken conn w in
    note_exit-SameResponse step.exited conn _ driven.1 (
      read_from-SameResponse driven.0.cgi_out_fd step.output conn driven.0
        (write_to-SameResponse conn.cgi_in_fd step.taken conn w))

note_exit-active : (c : ClientConnection) (w : World) → (note_exit true c w).0.cgi_active ≡ false
unfolding note_exit
note_exit-active c w = refl

moved-active :
    (step : Progress) (conn : ClientConnection) (w : World)
    → step.exited ≡ true
    → (moved step conn w).0.cgi_active ≡ false
unfolding moved
moved-active step conn w e =
    let driven = write_to conn.cgi_in_fd step.taken conn w in
    let c = read_from driven.0.cgi_out_fd step.output driven.0 in
    ap (λ b. (note_exit b c driven.1).0.cgi_active) e ∙ note_exit-active c driven.1

head_end-late : (conn : ClientConnection) → conn.cgi_headers_done ≡ true → head_end conn ≡ none
unfolding head_end
head_end-late conn e = elim (Bool-cases (is_empty conn.cgi_buffer)) [
  | inl empty ↦ rw empty
  | inr output ↦ rw (output, e)
]

by_head-late :
    (conn : ClientConnection) → conn.cgi_headers_done ≡ true → by_head none conn ≡ (true, conn)
unfolding by_head
by_head-late conn e = elim (Bool-cases conn.cgi_active) [
  | inl runs ↦ rw (runs, e) refl
  | inr ended ↦ rw (ended, e) refl
]

-- Once the response has been made from the first part of a program's output, that which comes later
-- is not sent: DriveCgiIO leaves the response as it is, whatever is read, and goes on.
pub drive_cgi_io-late :
    (step : Progress) (conn : ClientConnection) (w : World)
    → conn.cgi_headers_done ≡ true
    → ((drive_cgi_io step conn w).0 ≡ true)
      × ((drive_cgi_io step conn w).1.write_buf ≡ conn.write_buf)
unfolding drive_cgi_io
drive_cgi_io-late step conn w e =
    let c = (moved step conn w).0 in
    let same = moved-SameResponse step conn w in
    let done = same.0 ∙ e in
    let result = ap (λ o. by_head o c) (head_end-late c done) ∙ by_head-late c done in
    (ap (λ r. r.0) result, ap (λ r. r.1.write_buf) result ∙ same.1)

-- A response waits to be sent.
abbrev pub IsReadyToSend : ClientConnection → Type 0
IsReadyToSend conn =
    (conn.phase ≡ respond)
    × (conn.want_write ≡ true)
    × (starts_with (codes "HTTP/1.1 ") conn.write_buf ≡ true)

no_answer-IsReadyToSend : (conn : ClientConnection) → IsReadyToSend (no_answer true conn).1
unfolding build_response status_line starts_with
no_answer-IsReadyToSend conn = (refl, refl, refl)

by_head-IsReadyToSend :
    (end : Option ℕ) (conn : ClientConnection)
    → conn.cgi_active ≡ false
    → conn.cgi_headers_done ≡ false
    → IsReadyToSend (by_head end conn).1
unfolding by_head cgi_response status_line starts_with
by_head-IsReadyToSend none conn ended unread = rw (ended, unread) (no_answer-IsReadyToSend conn)
by_head-IsReadyToSend (some end) conn ended unread = (refl, refl, refl)

-- When the program is at its end, and its head has not been read before, there is a response that
-- waits to be sent: the program's own where its output has a head, and else that of a failure.
pub drive_cgi_io-IsReadyToSend :
    (step : Progress) (conn : ClientConnection) (w : World)
    → step.exited ≡ true
    → conn.cgi_headers_done ≡ false
    → IsReadyToSend (drive_cgi_io step conn w).1
unfolding drive_cgi_io
drive_cgi_io-IsReadyToSend step conn w ended unread =
    let c = (moved step conn w).0 in
    by_head-IsReadyToSend (head_end c) c (moved-active step conn w ended)
      ((moved-SameResponse step conn w).0 ∙ unread)
