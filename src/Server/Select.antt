-- ===== src/Server/Select.antt =====
-- selectServer: which server answers a request.
use selfserv.Base.{
  ℕ, zero, suc, ◌<◌, ◌≡◌, ◌≢◌, ◌⊎◌, refl, sym, ap, subst, ◌∙◌, inl, inr, Bool, true, not, ◌&&◌,
  ◌==◌, Bool-cases, Option, none, some, List, [], ◌∷◌, ◌++◌, map, Bytes, codes, equal, equal_iff,
  to_lower, length, get_elem?, take, arith, Option-cases,
}
use mathlib.Core.List.{Memᴰ}
use mathlib.Core.List.Memᴰ.{head, tail}
use selfserv.Http.Request.{HttpHeader, HttpRequest}
use selfserv.Config.Data.{ServerConfig}
use selfserv.Server.Route.{
  host_value, before_last_colon, without_port, has_name, server_named, or_first, index_for,
  select_server,
}

-- The value of the first header called "host" in any case; the empty text where there is none.
abbrev pub IsHostHeader : List HttpHeader → Bytes → Type 0
IsHostHeader [] value = value ≡ []
IsHostHeader (h ∷ hs) value =
    ((map to_lower h.name ≡ codes "host") × (value ≡ h.value))
    ⊎ ((map to_lower h.name ≢ codes "host") × IsHostHeader hs value)

abbrev pub no_colon : Bytes → Bool
no_colon [] = true
no_colon (c ∷ cs) = not (c == b':') && no_colon cs

-- The value is the host, with no colon, or the host, a colon and a text with no colon.
abbrev pub IsHostOf : Bytes → Bytes → Type 0
IsHostOf value host =
    ((value ≡ host) × (no_colon value ≡ true))
    ⊎ ((port : Bytes) × (value ≡ host ++ b':' ∷ port) × (no_colon port ≡ true))

-- No server of the list has the name.
abbrev pub NoneNamed : Bytes → List ServerConfig → Type 0
NoneNamed host [] = Unit
NoneNamed host (sc ∷ scs) = (Memᴰ host sc.server_names → ⊥) × NoneNamed host scs

-- The index of the first server with the name, or 0 where none has it.
abbrev pub IsServerFor : Bytes → List ServerConfig → ℕ → Type 0
IsServerFor host servers n =
    (NoneNamed host servers × (n ≡ 0))
    ⊎ (NoneNamed host (take n servers)
        × ((sc : ServerConfig) × (get_elem? servers n ≡ some sc) × Memᴰ host sc.server_names))

-- The index for a value of the header.
abbrev pub IsIndexFor : Bytes → List ServerConfig → ℕ → Type 0
IsIndexFor value servers n =
    ((value ≡ []) × (n ≡ 0))
    ⊎ ((value ≢ []) × ((host : Bytes) × IsHostOf value host × IsServerFor host servers n))

host_value-IsHostHeader : (headers : List HttpHeader) → IsHostHeader headers (host_value headers)
unfolding host_value
host_value-IsHostHeader [] = refl
host_value-IsHostHeader (h ∷ hs) = elim (Bool-cases (equal (map to_lower h.name) (codes "host"))) [
  | inl named ↦ rw named (inl ((equal_iff (map to_lower h.name) (codes "host")).0 named, refl))
  | inr other ↦ rw other (
      inr (
        (λ e. cc ((equal_iff (map to_lower h.name) (codes "host")).1 e, other)),
        host_value-IsHostHeader hs,
      ))
]

has_name-Memᴰ : (host : Bytes) (names : List Bytes) → has_name host names ≡ true → Memᴰ host names
unfolding has_name
has_name-Memᴰ host [] h = cc
has_name-Memᴰ host (n ∷ ns) h = elim (Bool-cases (equal n host)) [
  | inl same ↦ head (sym ((equal_iff n host).0 same))
  | inr other ↦ tail (has_name-Memᴰ host ns (rw other at h))
]

Memᴰ-has_name : (host : Bytes) (names : List Bytes) → Memᴰ host names → has_name host names ≡ true
unfolding has_name
Memᴰ-has_name host [] m = elim m [ ]
Memᴰ-has_name host (n ∷ ns) (head e) = rw ((equal_iff n host).1 (sym e)) refl
Memᴰ-has_name host (n ∷ ns) (tail m) = ground (arith, Memᴰ-has_name host ns m)

before_last_colon-none : (s : Bytes) → before_last_colon s ≡ none → no_colon s ≡ true
unfolding before_last_colon
before_last_colon-none [] h = refl
before_last_colon-none (c ∷ cs) h = elim (Option-cases (before_last_colon cs)) [
  | inl missing ↦ ground (arith, before_last_colon-none cs missing, missing)
  | inr (s, found) ↦ ground (arith, found)
]

before_last_colon-some :
    (s : Bytes) {host : Bytes}
    → before_last_colon s ≡ some host
    → (port : Bytes) × (s ≡ host ++ b':' ∷ port) × (no_colon port ≡ true)
unfolding before_last_colon
before_last_colon-some [] h = cc
before_last_colon-some (c ∷ cs) {host} h = elim (Option-cases (before_last_colon cs)) [
  | inl missing ↦
      let here : (c ≡ b':') × (host ≡ []) = ground (arith, missing) in
      (
        cs,
        ap (λ d. d ∷ cs) here.0 ∙ ap (λ t. t ++ b':' ∷ cs) (sym here.1),
        before_last_colon-none cs missing,
      )
  | inr (front, found) ↦
      let (port, same, plain) = before_last_colon-some cs found in
      let longer : c ∷ front ≡ host = cc (h, found) in
      (port, ap (◌∷◌ c) same ∙ ap (λ t. t ++ b':' ∷ port) longer, plain)
]

without_port-IsHostOf : (s : Bytes) → IsHostOf s (without_port (before_last_colon s) s)
without_port-IsHostOf s = elim (Option-cases (before_last_colon s)) [
  | inl missing ↦ rw missing (inl (refl, before_last_colon-none s missing))
  | inr (host, found) ↦ rw found (inr (before_last_colon-some s found))
]

-- What `server_named` gives, as a statement.
abbrev IsFirstNamed : Bytes → List ServerConfig → Option ℕ → Type 0
IsFirstNamed host servers none = NoneNamed host servers
IsFirstNamed host servers (some i) =
    NoneNamed host (take i servers)
    × ((sc : ServerConfig) × (get_elem? servers i ≡ some sc) × Memᴰ host sc.server_names)

server_named-IsFirstNamed :
    (host : Bytes) (servers : List ServerConfig)
    → IsFirstNamed host servers (server_named host servers)
unfolding server_named
server_named-IsFirstNamed host [] = tt
server_named-IsFirstNamed host (sc ∷ scs) = elim (Bool-cases (has_name host sc.server_names)) [
  | inl named ↦ rw named (tt, (sc, refl, has_name-Memᴰ host sc.server_names named))
  | inr other ↦ rw other (
      behind (server_named host scs) (server_named-IsFirstNamed host scs)
        (λ m. cc (Memᴰ-has_name host sc.server_names m, other)))
]
  where
    behind :
        (o : Option ℕ)
        → IsFirstNamed host scs o
        → (Memᴰ host sc.server_names → ⊥)
        → IsFirstNamed host (sc ∷ scs) (elim o [ none ↦ none | some i ↦ some (suc i) ])
    behind none h e = (e, h)
    behind (some i) h e = ((e, h.0), h.1)

or_first-IsServerFor :
    (host : Bytes) (servers : List ServerConfig) (o : Option ℕ)
    → IsFirstNamed host servers o
    → IsServerFor host servers (or_first o)
or_first-IsServerFor host servers none h = inl (h, refl)
or_first-IsServerFor host servers (some i) h = inr h

index_for-IsIndexFor :
    (value : Bytes) (servers : List ServerConfig)
    → IsIndexFor value servers (index_for value servers)
index_for-IsIndexFor [] servers = inl (refl, refl)
index_for-IsIndexFor (c ∷ cs) servers =
    let host = without_port (before_last_colon (c ∷ cs)) (c ∷ cs) in
    inr (
      (λ e. cc e),
      (
        host,
        without_port-IsHostOf (c ∷ cs),
        or_first-IsServerFor host servers (server_named host servers)
            (server_named-IsFirstNamed host servers),
      ),
    )

get_elem?-lt :
    (servers : List ServerConfig) (i : ℕ) {sc : ServerConfig}
    → get_elem? servers i ≡ some sc
    → i < length servers
get_elem?-lt [] i e = cc
get_elem?-lt (x ∷ xs) zero e = omega arith
get_elem?-lt (x ∷ xs) (suc i) e = omega (arith, get_elem?-lt xs i e)

IsIndexFor-lt :
    (value : Bytes) (servers : List ServerConfig) (n : ℕ)
    → 0 < length servers
    → IsIndexFor value servers n
    → n < length servers
IsIndexFor-lt value servers n l (inl (e, none_named)) =
    subst (λ i. i < length servers) (sym none_named) l
IsIndexFor-lt value servers n l (inr (e, (host, of, inl (h, first)))) =
    subst (λ i. i < length servers) (sym first) l
IsIndexFor-lt value servers n l (inr (e, (host, of, inr (h, (sc, at, m))))) =
    get_elem?-lt servers n at

-- Where the configuration has a server, the index that selectServer gives is in range. It is 0 where
-- the first header called "host", in any case, is empty or missing. Else the host is the value of that
-- header up to its last colon, or all of it where it has none, and the index is that of the first
-- server that has this host, byte for byte, among its names, or 0 where no server has it.
pub select_server-IsIndexFor :
    (servers : List ServerConfig) (req : HttpRequest)
    → 0 < length servers
    → (select_server servers req < length servers)
      × ((value : Bytes) × IsHostHeader req.headers value
          × IsIndexFor value servers (select_server servers req))
unfolding select_server
select_server-IsIndexFor servers req l =
    let value : Bytes = host_value req.headers in
    let index = index_for-IsIndexFor value servers in
    (
      IsIndexFor-lt value servers (index_for value servers) l index,
      (value, host_value-IsHostHeader req.headers, index),
    )
