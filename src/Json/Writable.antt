-- ===== src/Json/Writable.antt =====
-- Which JSON values the text of ToString stands for, and how that text begins.
use selfserv.Base.{◌≡◌, Bool, true, false, not, ◌||◌, [], ◌∷◌, ◌==◌, Bytes, is_space, length}
use selfserv.Json.Value.{
  JsonValue, Values, Members, null, bool, number, string, array, object, no_values, value,
  no_members, member,
}
use selfserv.Json.Floats.{Floats}
use selfserv.Json.Numeral.{IsNumeral}
use selfserv.Json.Literal.{all_text, all_plain}
use selfserv.Json.Objects.{Sorted}

module _ {D : Type 0} (F : Floats D) where
  open F use {strtod, show}

  -- The text that is written for a double is a numeral, which strtod reads as that double.
  pub record IsExact (d : D) : Type 0 where
    pub numeral : IsNumeral (show d)
    pub reads : strtod (show d) ≡ (d, length (show d))

  -- Doubles are exact, strings of such bytes as both sides take, keys plain; objects are ordered as a std::map is.
  abbrev mutual
    pub IsWritable : JsonValue D → Type 0
    IsWritable null = Unit {0}
    IsWritable (bool b) = Unit {0}
    IsWritable (number d) = IsExact d
    IsWritable (string s) = all_text s ≡ true
    IsWritable (array vs) = AreWritable vs
    IsWritable (object ms) = Sorted ms × MembersWritable ms

    pub AreWritable : Values D → Type 0
    AreWritable no_values = Unit {0}
    AreWritable (value v vs) = IsWritable v × AreWritable vs

    pub MembersWritable : Members D → Type 0
    MembersWritable no_members = Unit {0}
    MembersWritable (member k v ms) = (all_plain k ≡ true) × IsWritable v × MembersWritable ms

-- A text whose first byte is neither white space nor a closing bracket.
abbrev pub opens : Bytes → Bool
opens [] = false
opens (c ∷ cs) = not (is_space c || c == b']')
