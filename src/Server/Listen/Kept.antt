-- ===== src/Server/Listen/Kept.antt =====
-- The descriptors behind OpenListeningSockets.
use selfserv.Base.{
  ℕ, suc, ◌≡◌, ◌≢◌, refl, ap, subst, ◌⊎◌, inl, inr, Bool, true, false, not, ◌&&◌, Option, none,
  some, List, [], ◌∷◌, ◌==◌, Bool-cases, if◌then◌else◌,
}
use mathlib.Core.List.{Memᴰ}
use mathlib.Core.List.Memᴰ.{head, tail, cases_cons, append_left, append_right}
use selfserv.Config.Data.{ServerConfig}
use selfserv.Server.Descriptor.{Dup, close, close_if_valid, copy_fd, opened, close-closes}
use selfserv.Server.Listen.{
  Calls, Sockets, copy_fds, end_fds, grown_sockets, push_fd, give_up, with_socket,
  open_listening_sockets,
}

Memᴰ-close : (d fd : ℕ) (open_fds : List ℕ) → Memᴰ d (close fd open_fds) → Memᴰ d open_fds
unfolding close
Memᴰ-close d fd [] m = m
Memᴰ-close d fd (n ∷ open_fds) m = elim (Bool-cases (n == fd)) [
  | inl same ↦ tail (Memᴰ-close d fd open_fds (rw same at m))
  | inr other ↦
      let kept : Memᴰ d (n ∷ close fd open_fds) = rw other at m in
      elim (cases_cons kept) [ inl e ↦ head e | inr t ↦ tail (Memᴰ-close d fd open_fds t) ]
]

-- The vector holds the descriptor.
abbrev pub Holds : ℕ → List (Option ℕ) → Type 0
Holds d fds = Memᴰ (some d) fds

-- What is open behind a step was open before, or is held by the vector.
abbrev pub IsKept : List ℕ → Sockets → Type 0
IsKept before s = (d : ℕ) → Memᴰ d s.open_fds → Memᴰ d before ⊎ Holds d s.fds

opened-Memᴰ :
    (o : Option ℕ) (open_fds : List ℕ) (d : ℕ)
    → Memᴰ d (opened o open_fds).1
    → Memᴰ d open_fds ⊎ (some d ≡ (opened o open_fds).0)
opened-Memᴰ none open_fds d m = inl m
opened-Memᴰ (some fd) open_fds d m = elim (cases_cons m) [ inl e ↦ inr (ap some e) | inr t ↦ inl t ]

copy_fd-Memᴰ :
    (dup : Dup) (fd : Option ℕ) (open_fds : List ℕ) (d : ℕ)
    → Memᴰ d (copy_fd dup fd open_fds).1
    → Memᴰ d open_fds ⊎ (some d ≡ (copy_fd dup fd open_fds).0)
copy_fd-Memᴰ dup none open_fds d m = inl m
copy_fd-Memᴰ dup (some fd) open_fds d m = opened-Memᴰ (dup open_fds) open_fds d m

copy_fds-Memᴰ :
    (dup : Dup) (fds : List (Option ℕ)) (open_fds : List ℕ) (d : ℕ)
    → Memᴰ d (copy_fds dup fds open_fds).open_fds
    → Memᴰ d open_fds ⊎ Holds d (copy_fds dup fds open_fds).fds
unfolding copy_fds
copy_fds-Memᴰ dup [] open_fds d m = inl m
copy_fds-Memᴰ dup (fd ∷ fds) open_fds d m =
    elim (copy_fds-Memᴰ dup fds (copy_fd dup fd open_fds).1 d m) [
      | inr held ↦ inr (tail held)
      | inl before ↦ elim (copy_fd-Memᴰ dup fd open_fds d before) [
        | inl m' ↦ inl m'
        | inr e ↦ inr (head e)
      ]
    ]

close_if_valid-Memᴰ :
    (d : ℕ) (fd : Option ℕ) (open_fds : List ℕ)
    → Memᴰ d (close_if_valid fd open_fds)
    → Memᴰ d open_fds × (some d ≢ fd)
close_if_valid-Memᴰ d none open_fds m = (m, λ e. cc e)
close_if_valid-Memᴰ d (some fd) open_fds m = (
  Memᴰ-close d fd open_fds m,
  λ e. close-closes fd open_fds (subst (λ x. Memᴰ x (close fd open_fds)) (ap or_zero e) m),
)
  where
    or_zero : Option ℕ → ℕ
    or_zero none = 0
    or_zero (some n) = n

end_fds-Memᴰ :
    (d : ℕ) (fds : List (Option ℕ)) (open_fds : List ℕ)
    → Memᴰ d (end_fds fds open_fds)
    → Memᴰ d open_fds × (Holds d fds → ⊥)
unfolding end_fds
end_fds-Memᴰ d [] open_fds m = (m, λ h. elim h [ ])
end_fds-Memᴰ d (fd ∷ fds) open_fds m =
    let (before, not_held) = end_fds-Memᴰ d fds (close_if_valid fd open_fds) m in
    let (first, not_first) = close_if_valid-Memᴰ d fd open_fds before in
    (first, λ h. elim (cases_cons h) [ inl e ↦ not_first e | inr t ↦ not_held t ])

grown_sockets-Memᴰ :
    (dup : Dup) (grows : Bool) (s : Sockets) (d : ℕ)
    → Memᴰ d (grown_sockets dup grows s).open_fds
    → Holds d (grown_sockets dup grows s).fds
      ⊎ (Memᴰ d s.open_fds × (Holds d s.fds → Holds d (grown_sockets dup grows s).fds))
grown_sockets-Memᴰ dup false s d m = inr (m, λ h. h)
grown_sockets-Memᴰ dup true s d m =
    let copies = copy_fds dup s.fds s.open_fds in
    let (still_open, not_held) = end_fds-Memᴰ d s.fds copies.open_fds m in
    elim (copy_fds-Memᴰ dup s.fds s.open_fds d still_open) [
      | inr held ↦ inl held
      | inl before ↦ inr (before, λ h. absurd (not_held h))
    ]

push_fd-IsKept :
    (dup : Dup) (grows : Bool) (fd : ℕ) (before : List ℕ) (s : Sockets)
    → IsKept before s
    → IsKept before (push_fd dup grows fd (record s { open_fds = fd ∷ s.open_fds }))
unfolding push_fd
push_fd-IsKept dup grows fd before s h d m =
    let open_now = copy_fd dup (some fd) (fd ∷ s.open_fds) in
    let there : Sockets = grown_sockets dup grows (record s { open_fds = open_now.1 }) in
    elim (grown_sockets-Memᴰ dup grows (record s { open_fds = open_now.1 }) d
      (Memᴰ-close d fd there.open_fds m)) [
        | inl held ↦ inr (append_left (open_now.0 ∷ []) held)
        | inr (opened_now, keeps) ↦
            elim (copy_fd-Memᴰ dup (some fd) (fd ∷ s.open_fds) d opened_now) [
              | inr e ↦ inr (append_right there.fds (head e))
              | inl older ↦ elim (cases_cons older) [
                | inl e ↦ absurd (
                    close-closes fd there.open_fds
                      (subst (λ x. Memᴰ x (close fd there.open_fds)) e m))
                | inr oldest ↦ elim (h d oldest) [
                  | inl first ↦ inl first
                  | inr held ↦ inr (append_left (open_now.0 ∷ []) (keeps held))
                ]
              ]
            ]
      ]

-- All calls for the servers from index `i` on succeed.
abbrev pub is_there : Option ℕ → Bool
is_there none = false
is_there (some fd) = true

abbrev pub all_succeed : (ℕ → Calls) → ℕ → List ServerConfig → Bool
all_succeed calls i [] = true
all_succeed calls i (sc ∷ servers) =
    is_there (calls i).socket
    && (calls i).binds
    && (calls i).listens
    && (calls i).sets_non_blocking
    && all_succeed calls (suc i) servers

-- The answer is right, and no descriptor is lost.
abbrev pub IsOpened : List ℕ → Bool → Bool × Sockets → Type 0
IsOpened before answer (b, s) = (b ≡ answer) × IsKept before s

give_up-IsKept :
    (fd : ℕ) (before : List ℕ) (s : Sockets)
    → IsKept before s
    → IsKept before (give_up fd (record s { open_fds = fd ∷ s.open_fds })).1
give_up-IsKept fd before s h d m = elim (cases_cons (Memᴰ-close d fd (fd ∷ s.open_fds) m)) [
  | inl e ↦
      absurd
        (close-closes fd (fd ∷ s.open_fds) (subst (λ x. Memᴰ x (close fd (fd ∷ s.open_fds))) e m))
  | inr older ↦ h d older
]

with_socket-IsOpened :
    (dup : Dup) (c : Calls) (o : Option ℕ) (before : List ℕ) (s : Sockets)
    (rest : Sockets → Bool × Sockets) (others : Bool)
    → IsKept before s
    → ((t : Sockets) → IsKept before t → IsOpened before others (rest t))
    → IsOpened before
        (is_there o && c.binds && c.listens && c.sets_non_blocking && others)
        (with_socket dup c o s rest)
with_socket-IsOpened dup c none before s rest others h k = (refl, h)
with_socket-IsOpened dup c (some fd) before s rest others h k =
    go c.binds c.listens c.sets_non_blocking
  where
    opened_now : Sockets
    opened_now = record s { open_fds = fd ∷ s.open_fds }

    go :
        (b l n : Bool)
        → IsOpened before (b && l && n && others) (
            if not b
            then give_up fd opened_now
            else if not l
            then give_up fd opened_now
            else if not n
            then give_up fd opened_now
            else rest (push_fd dup c.grows fd opened_now))
    go false l n = (refl, give_up-IsKept fd before s h)
    go true false n = (refl, give_up-IsKept fd before s h)
    go true true false = (refl, give_up-IsKept fd before s h)
    go true true true = k _ (push_fd-IsKept dup c.grows fd before s h)

open_listening_sockets-keeps :
    (dup : Dup) (calls : ℕ → Calls) (i : ℕ) (servers : List ServerConfig) (before : List ℕ)
    (s : Sockets)
    → IsKept before s
    → IsOpened before (all_succeed calls i servers) (open_listening_sockets dup calls i servers s)
unfolding open_listening_sockets
open_listening_sockets-keeps dup calls i [] before s h = (refl, h)
open_listening_sockets-keeps dup calls i (sc ∷ servers) before s h =
    with_socket-IsOpened dup (calls i) (calls i).socket before s
      (λ t. open_listening_sockets dup calls (suc i) servers t) (all_succeed calls (suc i) servers)
      h (λ t k. open_listening_sockets-keeps dup calls (suc i) servers before t k)

-- OpenListeningSockets says true exactly where socket, bind, listen and setNonBlocking succeed for
-- every server; and it loses no descriptor: whatever fails, a descriptor that is open behind it was
-- open before, or is held by an FD of m_listenSockets.
pub open_listening_sockets-IsOpened :
    (dup : Dup) (calls : ℕ → Calls) (servers : List ServerConfig) (open_fds : List ℕ)
    → IsOpened open_fds
        (all_succeed calls 0 servers)
        (open_listening_sockets dup calls 0 servers (record { fds = []; open_fds = open_fds }))
open_listening_sockets-IsOpened dup calls servers open_fds =
    open_listening_sockets-keeps dup calls 0 servers open_fds
      (record { fds = []; open_fds = open_fds }) (λ d m. inl m)
