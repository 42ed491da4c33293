-- ===== src/Json/Ordered.antt =====
-- Values whose objects are ordered as a std::map is, at every depth: Clone keeps them, and Parse
-- builds no others.
use selfserv.Base.{◌≡◌, refl, ap, ◌∙◌, Bytes, arith}
use selfserv.Json.Value.{
  JsonValue, Values, Members, null, bool, number, string, array, object, no_values, value,
  no_members, member, add_value, set_value, clone, clone_values, clone_members,
}
use selfserv.Json.Objects.{
  Sorted, Follow, Precede, append_member, set_value-Precede, Precede-append_member, Follow→Sorted,
}

module _ {D : Type 0} where
  abbrev pub append_values : Values D → Values D → Values D
  append_values vs no_values = vs
  append_values vs (value w ws) = append_values (add_value vs w) ws

  abbrev pub append_members : Members D → Members D → Members D
  append_members ms no_members = ms
  append_members ms (member k v ns) = append_members (append_member ms k v) ns

  append_values-add :
      (v : JsonValue D) (vs ws : Values D)
      → append_values (value v vs) ws ≡ value v (append_values vs ws)
  unfolding add_value
  append_values-add v vs no_values = refl
  append_values-add v vs (value w ws) = append_values-add v (add_value vs w) ws

  pub append_values-no_values : (vs : Values D) → append_values no_values vs ≡ vs
  unfolding add_value
  append_values-no_values no_values = refl
  append_values-no_values (value v vs) =
      append_values-add v no_values vs ∙ ap (value v) (append_values-no_values vs)

  append_members-add :
      (k : Bytes) (v : JsonValue D) (ms ns : Members D)
      → append_members (member k v ms) ns ≡ member k v (append_members ms ns)
  append_members-add k v ms no_members = refl
  append_members-add k v ms (member j w ns) = append_members-add k v (append_member ms j w) ns

  pub append_members-no_members : (ms : Members D) → append_members no_members ms ≡ ms
  append_members-no_members no_members = refl
  append_members-no_members (member k v ms) =
      append_members-add k v no_members ms ∙ ap (member k v) (append_members-no_members ms)

  -- The keys so far come before the next one.
  abbrev pub Meets : Members D → Members D → Type 0
  Meets ms no_members = Unit {0}
  Meets ms (member k v ns) = Precede ms k

  Meets-no_members : (ms : Members D) → Meets no_members ms
  Meets-no_members no_members = tt
  Meets-no_members (member k v ms) = tt

  pub Meets-append_member :
      (ms : Members D) (k : Bytes) (v : JsonValue D) (ns : Members D)
      → Precede ms k
      → Follow k ns
      → Meets (append_member ms k v) ns
  Meets-append_member ms k v no_members h f = tt
  Meets-append_member ms k v (member j w ns) h f = Precede-append_member k j v ms (later ms h) f.0
    where
      later : (l : Members D) → Precede l k → Precede l k
      later l p = p

  abbrev mutual
    pub IsOrdered : JsonValue D → Type 0
    IsOrdered (array vs) = AreOrdered vs
    IsOrdered (object ms) = Sorted ms × MembersOrdered ms
    IsOrdered _ = Unit {0}

    pub AreOrdered : Values D → Type 0
    AreOrdered no_values = Unit {0}
    AreOrdered (value v vs) = IsOrdered v × AreOrdered vs

    pub MembersOrdered : Members D → Type 0
    MembersOrdered no_members = Unit {0}
    MembersOrdered (member k v ms) = IsOrdered v × MembersOrdered ms

  mutual
    unfolding clone

    clone_value_eq : (v : JsonValue D) → IsOrdered v → clone v ≡ v
    clone_value_eq (array vs) h =
        ap array (clone_values_eq vs no_values h ∙ append_values-no_values vs)
    clone_value_eq (object ms) h = ap object (
        clone_members_eq ms no_members h.0 (Meets-no_members ms) h.1 ∙ append_members-no_members ms)
    clone_value_eq null h = refl
    clone_value_eq (bool b) h = refl
    clone_value_eq (number d) h = refl
    clone_value_eq (string s) h = refl

    clone_values_eq :
        (vs done : Values D) → AreOrdered vs → clone_values done vs ≡ append_values done vs
    clone_values_eq no_values done h = refl
    clone_values_eq (value v vs) done h =
        rw (clone_value_eq v h.0) (clone_values_eq vs (add_value done v) h.1)

    clone_members_eq :
        (ms done : Members D)
        → Sorted ms
        → Meets done ms
        → MembersOrdered ms
        → clone_members done ms ≡ append_members done ms
    clone_members_eq no_members done s m h = refl
    clone_members_eq (member k v ms) done s m h =
        rw (clone_value_eq v h.0, set_value-Precede k v done m)
          (clone_members_eq ms (append_member done k v) (Follow→Sorted k ms s)
            (Meets-append_member done k v ms m s) h.1)

  -- Clone gives an equal value, if the objects in it are ordered as a std::map keeps them.
  pub clone_lem : (v : JsonValue D) → IsOrdered v → clone v ≡ v
  clone_lem = clone_value_eq

  pub AreOrdered-add_value :
      (vs : Values D) (v : JsonValue D) → AreOrdered vs → IsOrdered v → AreOrdered (add_value vs v)
  unfolding add_value
  AreOrdered-add_value no_values v h k = (k, tt)
  AreOrdered-add_value (value w ws) v h k = (h.0, AreOrdered-add_value ws v h.1 k)

  pub MembersOrdered-set_value :
      (k : Bytes) (v : JsonValue D) (ms : Members D)
      → MembersOrdered ms
      → IsOrdered v
      → MembersOrdered (set_value k v ms)
  unfolding set_value
  MembersOrdered-set_value k v no_members h o = (o, tt)
  MembersOrdered-set_value k v (member j w ms) h o = ground (arith, MembersOrdered-set_value k v ms)
