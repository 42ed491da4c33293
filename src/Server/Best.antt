-- ===== src/Server/Best.antt =====
-- Which route matchRoute of docs/server/Server.cpp gives.
use selfserv.Base.{
  ℕ, ◌≤◌, ◌<◌, ◌≡◌, ◌⊎◌, refl, sym, subst, inl, inr, true, ◌&&◌, Option, none, some, List, [], ◌∷◌,
  ltb, ltb→lt, Bytes, starts_with, length, Bool-cases, &&-split, arith,
}
use mathlib.Core.List.{Memᴰ}
use mathlib.Core.List.Memᴰ.{head, tail}
use selfserv.Config.Data.{RouteConfig, ServerConfig}
use selfserv.Server.Route.{consider, match_from, match_route}

-- What the loop has found among the routes that it has passed (`P` of a route says that it is one of
-- them): none of their paths that are prefixes is longer, and the one found is such a path.
abbrev pub Holds : Bytes → (RouteConfig → Type 0) → Option RouteConfig → ℕ → Type 0
Holds uri P none n = n ≡ 0
Holds uri P (some r) n = P r × (starts_with r.path uri ≡ true) × (length r.path ≡ n) × (0 < n)

pub record IsBest (uri : Bytes) (P : RouteConfig → Type 0) (best : ℕ × Option RouteConfig)
    : Type 0 where
  pub holds : Holds uri P best.1 best.0
  pub longest : (q : RouteConfig) → P q → starts_with q.path uri ≡ true → length q.path ≤ best.0

abbrev Or : RouteConfig → (RouteConfig → Type 0) → RouteConfig → Type 0
Or r P q = P q ⊎ (q ≡ r)

Holds-map :
    (uri : Bytes) (P Q : RouteConfig → Type 0) (o : Option RouteConfig) (n : ℕ)
    → ((q : RouteConfig) → P q → Q q)
    → Holds uri P o n
    → Holds uri Q o n
Holds-map uri P Q none n f h = h
Holds-map uri P Q (some r) n f (p, starts, len, pos) = (f r p, starts, len, pos)

-- The route passed now is the longest so far.
taken-IsBest :
    (uri : Bytes) (P : RouteConfig → Type 0) (r : RouteConfig) (n : ℕ) (o : Option RouteConfig)
    → IsBest uri P (n, o)
    → starts_with r.path uri ≡ true
    → n < length r.path
    → IsBest uri (Or r P) (length r.path, some r)
taken-IsBest uri P r n o h starts longer = record {
  holds = (inr refl, starts, refl, omega arith);
  longest = go;
}
  where
    go :
        (q : RouteConfig) → Or r P q → starts_with q.path uri ≡ true → length q.path ≤ length r.path
    go q (inl p) e = omega (arith, h.longest q p e)
    go q (inr same) e = rw same (omega arith)

-- It is not.
passed-IsBest :
    (uri : Bytes) (P : RouteConfig → Type 0) (r : RouteConfig) (n : ℕ) (o : Option RouteConfig)
    → IsBest uri P (n, o)
    → (starts_with r.path uri ≡ true → length r.path ≤ n)
    → IsBest uri (Or r P) (n, o)
passed-IsBest uri P r n o h le = record {
  holds = Holds-map uri P (Or r P) o n (λ q p. inl p) h.holds;
  longest = go;
}
  where
    go : (q : RouteConfig) → Or r P q → starts_with q.path uri ≡ true → length q.path ≤ n
    go q (inl p) e = h.longest q p e
    go q (inr same) e = subst (λ x. length x.path ≤ n) (sym same) (le (rw same at e))

consider-IsBest :
    (uri : Bytes) (P : RouteConfig → Type 0) (r : RouteConfig) (best : ℕ × Option RouteConfig)
    → IsBest uri P best
    → IsBest uri (Or r P) (consider uri r best)
unfolding consider
consider-IsBest uri P r (n, o) h =
    elim (Bool-cases (starts_with r.path uri && ltb n (length r.path))) [
      | inl better ↦
          let (starts, longer) = &&-split (starts_with r.path uri) (ltb n (length r.path)) better in
          rw better (taken-IsBest uri P r n o h starts (ltb→lt n (length r.path) longer))
      | inr worse ↦ rw worse (passed-IsBest uri P r n o h (λ e. ground arith))
    ]

match_from-IsBest :
    (uri : Bytes) (P Q : RouteConfig → Type 0) (rs : List RouteConfig)
    (best : ℕ × Option RouteConfig)
    → ((q : RouteConfig) → P q ⊎ Memᴰ q rs → Q q)
    → ((q : RouteConfig) → Q q → P q ⊎ Memᴰ q rs)
    → IsBest uri P best
    → IsBest uri Q (match_from uri rs best)
unfolding match_from
match_from-IsBest uri P Q [] best to from h = record {
  holds = Holds-map uri P Q best.1 best.0 (λ q p. to q (inl p)) h.holds;
  longest = λ q k e. h.longest q (known q (from q k)) e;
}
  where
    known : (q : RouteConfig) → P q ⊎ Memᴰ q [] → P q
    known q (inl p) = p
    known q (inr m) = elim m [ ]
match_from-IsBest uri P Q (r ∷ rs) best to from h =
    match_from-IsBest uri (Or r P) Q rs (consider uri r best) to' from'
      (consider-IsBest uri P r best h)
  where
    to' : (q : RouteConfig) → Or r P q ⊎ Memᴰ q rs → Q q
    to' q (inl (inl p)) = to q (inl p)
    to' q (inl (inr e)) = to q (inr (head e))
    to' q (inr m) = to q (inr (tail m))

    sort : (q : RouteConfig) → P q ⊎ Memᴰ q (r ∷ rs) → Or r P q ⊎ Memᴰ q rs
    sort q (inl p) = inl (inl p)
    sort q (inr (head e)) = inl (inr e)
    sort q (inr (tail m)) = inr m

    from' : (q : RouteConfig) → Q q → Or r P q ⊎ Memᴰ q rs
    from' q k = sort q (from q k)

-- What matchRoute gives for a URI: nothing, and then no route with a path that is not empty is a
-- prefix of it; or a route of the server, whose path is a prefix, and as long as any that is.
abbrev pub IsLongest : List RouteConfig → Bytes → Option RouteConfig → Type 0
IsLongest routes uri none =
    (q : RouteConfig) → Memᴰ q routes → starts_with q.path uri ≡ true → length q.path ≡ 0
IsLongest routes uri (some r) =
    Memᴰ r routes
    × (starts_with r.path uri ≡ true)
    × (0 < length r.path)
    × ((q : RouteConfig)
        → Memᴰ q routes
        → starts_with q.path uri ≡ true
        → length q.path ≤ length r.path)

IsBest-IsLongest :
    (routes : List RouteConfig) (uri : Bytes) (n : ℕ) (o : Option RouteConfig)
    → IsBest uri (λ q. Memᴰ q routes) (n, o)
    → IsLongest routes uri o
IsBest-IsLongest routes uri n none h = λ q m e. let e0 = h.holds in omega (arith, h.longest q m e)
IsBest-IsLongest routes uri n (some r) h =
    let (m, starts, len, pos) = h.holds in
    (m, starts, omega arith, λ q k e. omega (arith, h.longest q k e))

-- matchRoute gives the route of the server with the longest path that is a prefix of the URI; it
-- gives none where no path but the empty one is.
pub match_route-IsLongest :
    (sc : ServerConfig) (uri : Bytes) → IsLongest sc.routes uri (match_route sc uri)
unfolding match_route
match_route-IsLongest sc uri =
    let best = match_from uri sc.routes (0, none) in
    IsBest-IsLongest sc.routes uri best.0 best.1 (
      match_from-IsBest uri (λ q. ⊥) (λ q. Memᴰ q sc.routes) sc.routes (0, none) to (λ q m. inr m)
        (record { holds = refl; longest = λ q p e. absurd p }))
  where
    to : (q : RouteConfig) → ⊥ ⊎ Memᴰ q sc.routes → Memᴰ q sc.routes
    to q (inl p) = absurd p
    to q (inr m) = m
