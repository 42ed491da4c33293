-- ===== src/Server/Clients/Laws.antt =====
-- The laws of the map of connections of docs/server/Server.cpp.
use selfserv.Base.{
  ℕ, ◌≡◌, ◌≢◌, refl, ap, ◌∙◌, sym, some, [], ◌∷◌, ◌==◌, ltb, if◌then◌else◌, if-both, if-when, arith,
  Bool-cases, inl, inr, ==_iff, ==_refl,
}
use selfserv.Server.Connection.{ClientConnection}
use selfserv.Server.Clients.{Clients, find_client, erase_client, set_client}

find_client-other :
    (k key : ℕ) (conn : ClientConnection) (clients : Clients)
    → k ≢ key
    → find_client key ((k, conn) ∷ clients) ≡ find_client key clients
unfolding find_client
find_client-other k key conn clients h = elim (Bool-cases (k == key)) [
  | inl same ↦ absurd (h ((==_iff k key).0 same))
  | inr other ↦ rw other refl
]

find_client-found :
    (key : ℕ) (conn : ClientConnection) (clients : Clients)
    → find_client key ((key, conn) ∷ clients) ≡ some conn
unfolding find_client
find_client-found key conn clients = rw (==_refl key) refl

find_client-cons :
    (key k : ℕ) (conn : ClientConnection) (xs ys : Clients)
    → find_client key xs ≡ find_client key ys
    → find_client key ((k, conn) ∷ xs) ≡ find_client key ((k, conn) ∷ ys)
unfolding find_client
find_client-cons key k conn xs ys h = ap (λ o. if k == key then some conn else o) h

-- What is found under another key is what was there.
pub find_client-set_client_other :
    (key other : ℕ) (conn : ClientConnection) (clients : Clients)
    → key ≢ other
    → find_client other (set_client key conn clients) ≡ find_client other clients
unfolding set_client
find_client-set_client_other key other conn [] h = find_client-other key other conn [] h
find_client-set_client_other key other conn ((k, c) ∷ clients) h =
    if-both {A = Clients} (λ m. find_client other m ≡ find_client other ((k, c) ∷ clients))
      (ltb k key)
      (find_client-cons other k c (set_client key conn clients) clients
        (find_client-set_client_other key other conn clients h))
      (if-when {A = Clients} (λ m. find_client other m ≡ find_client other ((k, c) ∷ clients))
        (k == key)
        (λ same.
          let e : k ≡ key = (==_iff k key).0 same in
          find_client-other key other conn clients h
          ∙ sym (find_client-other k other c clients (λ f. h (sym e ∙ f))))
        (λ different. find_client-other key other conn ((k, c) ∷ clients) h))

-- What is found under the key is what was set.
pub find_client-set_client :
    (key : ℕ) (conn : ClientConnection) (clients : Clients)
    → find_client key (set_client key conn clients) ≡ some conn
unfolding set_client
find_client-set_client key conn [] = find_client-found key conn []
find_client-set_client key conn ((k, c) ∷ clients) =
    if-when {A = Clients} (λ m. find_client key m ≡ some conn) (ltb k key)
      (λ less.
        find_client-other k key c (set_client key conn clients) (λ e. ground (arith, less, e))
        ∙ find_client-set_client key conn clients)
      (λ not_less.
        if-both {A = Clients} (λ m. find_client key m ≡ some conn) (k == key)
          (find_client-found key conn clients) (find_client-found key conn ((k, c) ∷ clients)))

pub find_client-erase_client :
    (key other : ℕ) (clients : Clients)
    → key ≢ other
    → find_client other (erase_client key clients) ≡ find_client other clients
unfolding erase_client
find_client-erase_client key other [] h = refl
find_client-erase_client key other ((k, c) ∷ clients) h =
    if-when {A = Clients} (λ m. find_client other m ≡ find_client other ((k, c) ∷ clients))
      (k == key)
      (λ same.
        let e : k ≡ key = (==_iff k key).0 same in
        find_client-erase_client key other clients h
        ∙ sym (find_client-other k other c clients (λ f. h (sym e ∙ f))))
      (λ different.
        find_client-cons other k c (erase_client key clients) clients
          (find_client-erase_client key other clients h))
