-- ===== src/Server/Clients/Accepted.antt =====
-- What AcceptNew leaves of the descriptor that it has accepted.
use selfserv.Base.{ℕ, ◌≡◌, ◌≢◌, sym, ap, ◌∙◌, Option, none, some, List, ◌∷◌, Option-cases, inl, inr}
use mathlib.Core.List.{Memᴰ}
use mathlib.Core.List.Memᴰ.{head}
use selfserv.Server.Descriptor.{Dup, IsDup, opened, assign_fd, reset_fd, close-closes}
use selfserv.Server.Clients.Laws.{find_client-set_client}
use selfserv.Server.Clients.{Clients, find_client, fd_of, accept_one}

copied-ne :
    (dup : Dup) (cfd : ℕ) (open_fds : List ℕ)
    → IsDup dup
    → (opened (dup (cfd ∷ open_fds)) (cfd ∷ open_fds)).0 ≢ some cfd
copied-ne dup cfd open_fds h = elim (Option-cases (dup (cfd ∷ open_fds))) [
  | inl failed ↦ rw failed (λ e. cc e)
  | inr (d, made) ↦ rw made (λ e. h (cfd ∷ open_fds) d made (head (ap or_zero e)))
]
  where
    or_zero : Option ℕ → ℕ
    or_zero none = 0
    or_zero (some n) = n

-- A connection that AcceptNew puts into the map stands under the descriptor that accept gave, and this
-- is closed then, and is not the one that the connection holds; where dup gives a descriptor that is
-- not open, and the map has had nothing under the new one.
pub accept_one-closes :
    (dup : Dup) (time cfd : ℕ) (open_fds : List ℕ) (clients : Clients)
    → IsDup dup
    → find_client cfd clients ≡ none
    → (Memᴰ cfd (accept_one dup time cfd (cfd ∷ open_fds, clients)).0 → ⊥)
      × (fd_of (find_client cfd (accept_one dup time cfd (cfd ∷ open_fds, clients)).1) ≢ some cfd)
unfolding accept_one assign_fd reset_fd
accept_one-closes dup time cfd open_fds clients h new = rw new (
  close-closes cfd _,
  λ e. copied-ne dup cfd open_fds h (sym (ap fd_of (find_client-set_client cfd _ clients)) ∙ e),
)
