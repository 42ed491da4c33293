-- ===== src/Config/Frame.antt =====
-- What a line of the configuration leaves as it was.
use selfserv.Base.{
  ◌≤◌, ◌≡◌, refl, ap, inl, inr, true, false, Bool, Bool-cases, Option, none, some, List, [], ◌∷◌,
  ◌++◌, ◌==◌, if◌then◌else◌, suc, Bytes, equal, codes, length, arith, length-append,
}
use selfserv.Config.Data.{ServerConfig, Reader}
use selfserv.Config.Words.{tokens}
use selfserv.Config.Line.{
  update_last, on_current, with_one, server_directive, name_directive, route_directive, directive,
  setting, setting_directive, by_tokens, parse_line,
}

abbrev pub all_but_last : List ServerConfig → List ServerConfig
all_but_last [] = []
all_but_last (sc ∷ []) = []
all_but_last (sc ∷ sd ∷ scs) = sc ∷ all_but_last (sd ∷ scs)

-- All the servers but the last are as they were, in the same places, and none is gone.
pub record IsFrame (s t : Reader) : Type 0 where
  pub others : (rest : List ServerConfig) × (t.servers ≡ all_but_last s.servers ++ rest)
  pub grown : length s.servers ≤ length t.servers

-- The line was refused, or kept those servers.
abbrev pub LeavesOthers : Reader → Option Reader → Type 0
LeavesOthers s none = Unit
LeavesOthers s (some t) = IsFrame s t

IsFrame-refl : (s : Reader) → IsFrame s s
IsFrame-refl s = record { others = kept s.servers; grown = omega arith }
  where
    kept : (scs : List ServerConfig) → (rest : List ServerConfig) × (scs ≡ all_but_last scs ++ rest)
    kept [] = ([], refl)
    kept (sc ∷ []) = (sc ∷ [], refl)
    kept (sc ∷ sd ∷ scs) = let (rest, e) = kept (sd ∷ scs) in (rest, ap (◌∷◌ sc) e)

length-update_last :
    (f : ServerConfig → ServerConfig) (scs : List ServerConfig)
    → length (update_last f scs) ≡ length scs
unfolding update_last
length-update_last f [] = refl
length-update_last f (sc ∷ []) = refl
length-update_last f (sc ∷ sd ∷ scs) = ap suc (length-update_last f (sd ∷ scs))

update_last-all_but_last :
    (f : ServerConfig → ServerConfig) (scs : List ServerConfig)
    → (rest : List ServerConfig) × (update_last f scs ≡ all_but_last scs ++ rest)
unfolding update_last
update_last-all_but_last f [] = ([], refl)
update_last-all_but_last f (sc ∷ []) = (f sc ∷ [], refl)
update_last-all_but_last f (sc ∷ sd ∷ scs) =
    let (rest, e) = update_last-all_but_last f (sd ∷ scs) in (rest, ap (◌∷◌ sc) e)

append-all_but_last :
    (scs more : List ServerConfig)
    → (rest : List ServerConfig) × (scs ++ more ≡ all_but_last scs ++ rest)
append-all_but_last [] more = (more, refl)
append-all_but_last (sc ∷ []) more = (sc ∷ more, refl)
append-all_but_last (sc ∷ sd ∷ scs) more =
    let (rest, e) = append-all_but_last (sd ∷ scs) more in (rest, ap (◌∷◌ sc) e)

on_current-LeavesOthers :
    (f : ServerConfig → ServerConfig) (s : Reader) → LeavesOthers s (on_current f s)
unfolding on_current
on_current-LeavesOthers f s = elim (Bool-cases s.current) [
  | inl there ↦ rw there (record {
    others = update_last-all_but_last f s.servers;
    grown = omega (arith, length-update_last f s.servers);
  })
  | inr missing ↦ rw missing tt
]

with_one-LeavesOthers :
    (f : Bytes → ServerConfig → ServerConfig) (args : List Bytes) (s : Reader)
    → LeavesOthers s (with_one f args s)
with_one-LeavesOthers f [] s = tt
with_one-LeavesOthers f (a ∷ args) s = on_current-LeavesOthers (f a) s

server_directive-LeavesOthers :
    (args : List Bytes) (s : Reader) → LeavesOthers s (server_directive args s)
server_directive-LeavesOthers [] s = tt
server_directive-LeavesOthers (_ ∷ []) s = tt
server_directive-LeavesOthers (host ∷ port ∷ _) s = record {
  others = append-all_but_last s.servers _;
  grown = omega (arith, length-append s.servers _);
}

name_directive-LeavesOthers :
    (args : List Bytes) (s : Reader) → LeavesOthers s (name_directive args s)
name_directive-LeavesOthers [] s = tt
name_directive-LeavesOthers (name ∷ names) s = on_current-LeavesOthers _ s

route_directive-LeavesOthers :
    (args : List Bytes) (s : Reader) → LeavesOthers s (route_directive args s)
route_directive-LeavesOthers [] s = tt
route_directive-LeavesOthers (_ ∷ []) s = tt
route_directive-LeavesOthers (path ∷ root ∷ options) s = on_current-LeavesOthers _ s

if-LeavesOthers :
    (b : Bool) (s : Reader) (o p : Option Reader)
    → LeavesOthers s o
    → LeavesOthers s p
    → LeavesOthers s (if b then o else p)
if-LeavesOthers true s o p ho hp = ho
if-LeavesOthers false s o p ho hp = hp

setting_directive-LeavesOthers :
    (o : Option (Bytes → ServerConfig → ServerConfig)) (args : List Bytes) (s : Reader)
    → LeavesOthers s (setting_directive o args s)
setting_directive-LeavesOthers none args s = IsFrame-refl s
setting_directive-LeavesOthers (some f) args s = with_one-LeavesOthers f args s

directive-LeavesOthers :
    (name : Bytes) (args : List Bytes) (s : Reader) → LeavesOthers s (directive name args s)
unfolding directive
directive-LeavesOthers name args s =
    let settings = setting_directive-LeavesOthers (setting name) args s in
    let routes =
      if-LeavesOthers (equal name (codes "route")) s (route_directive args s)
        (setting_directive (setting name) args s) (route_directive-LeavesOthers args s) settings in
    let names =
      if-LeavesOthers (equal name (codes "server_name")) s (name_directive args s) _
        (name_directive-LeavesOthers args s) routes in
    if-LeavesOthers (equal name (codes "server")) s (server_directive args s) _
      (server_directive-LeavesOthers args s) names

by_tokens-LeavesOthers : (words : List Bytes) (s : Reader) → LeavesOthers s (by_tokens words s)
by_tokens-LeavesOthers [] s = IsFrame-refl s
by_tokens-LeavesOthers (name ∷ args) s = directive-LeavesOthers name args s

-- ParseLine either refuses the line or keeps every server but the last as it was; no server is lost.
pub parse_line-LeavesOthers : (line : Bytes) (s : Reader) → LeavesOthers s (parse_line line s)
unfolding parse_line
parse_line-LeavesOthers [] s = IsFrame-refl s
parse_line-LeavesOthers (c ∷ cs) s =
    if-LeavesOthers (c == b'#') s (some s) (by_tokens (tokens (c ∷ cs)) s) (IsFrame-refl s)
      (by_tokens-LeavesOthers (tokens (c ∷ cs)) s)
