-- ===== src/Json/Value.antt =====
-- JSON values: class JsonValue and its subclasses in src/json/json_parser.hpp and .cpp.
-- A double is an element of a type `D` that the model leaves open. std::map keeps its entries in
-- the order of the keys, so the members of an object are an association list that SetValue keeps
-- in that order.
use selfserv.Base.{
  ℕ, zero, suc, Bool, true, false, ◌&&◌, ◌||◌, Option, none, some, List, [], ◌∷◌, ltb, ◌==◌,
  if◌then◌else◌, Bytes, equal,
}

pub data JsonType : Type 0 where
  json_null json_bool json_number json_string json_array json_object : JsonType

mutual
  pub data JsonValue (D : Type 0) : Type 0 where
    null : JsonValue D
    bool : Bool → JsonValue D
    number : D → JsonValue D
    string : Bytes → JsonValue D
    array : Values D → JsonValue D
    object : Members D → JsonValue D

  pub data Values (D : Type 0) : Type 0 where
    no_values : Values D
    value : JsonValue D → Values D → Values D

  pub data Members (D : Type 0) : Type 0 where
    no_members : Members D
    member : Bytes → JsonValue D → Members D → Members D

-- operator< of std::string, which orders the keys of a std::map
unfoldable pub before : Bytes → Bytes → Bool
before [] [] = false
before [] (y ∷ ys) = true
before (x ∷ xs) [] = false
before (x ∷ xs) (y ∷ ys) = ltb x y || (x == y && before xs ys)

module _ {D : Type 0} where
  unfoldable pub get_type : JsonValue D → JsonType
  get_type null = json_null
  get_type (bool b) = json_bool
  get_type (number d) = json_number
  get_type (string s) = json_string
  get_type (array vs) = json_array
  get_type (object ms) = json_object

  -- JsonArray::AddValue
  unfoldable pub add_value : Values D → JsonValue D → Values D
  add_value no_values v = value v no_values
  add_value (value w vs) v = value w (add_value vs v)

  -- JsonArray::GetSize
  unfoldable pub get_size : Values D → ℕ
  get_size no_values = 0
  get_size (value v vs) = suc (get_size vs)

  -- JsonArray::GetValue; `none` is the exception std::out_of_range.
  unfoldable pub get_item : Values D → ℕ → Option (JsonValue D)
  get_item no_values i = none
  get_item (value v vs) zero = some v
  get_item (value v vs) (suc i) = get_item vs i

  -- JsonObject::SetValue
  unfoldable pub set_value : Bytes → JsonValue D → Members D → Members D
  unfolding equal before
  set_value k v no_members = member k v no_members
  set_value k v (member j w ms) =
      if equal j k
      then member j v ms
      else if before k j
      then member k v (member j w ms)
      else member j w (set_value k v ms)

  -- JsonObject::GetValue; `none` is NULL.
  unfoldable pub get_value : Bytes → Members D → Option (JsonValue D)
  unfolding equal
  get_value k no_members = none
  get_value k (member j w ms) = if equal j k then some w else get_value k ms

  -- JsonObject::HasKey
  unfoldable pub has_key : Bytes → Members D → Bool
  unfolding equal
  has_key k no_members = false
  has_key k (member j w ms) = equal j k || has_key k ms

  -- JsonObject::GetKeys
  unfoldable pub get_keys : Members D → List Bytes
  get_keys no_members = []
  get_keys (member j w ms) = j ∷ get_keys ms

  -- The Clone methods. An array's clone is filled by AddValue, an object's by SetValue.
  unfoldable mutual
    pub clone : JsonValue D → JsonValue D
    clone null = null
    clone (bool b) = bool b
    clone (number d) = number d
    clone (string s) = string s
    clone (array vs) = array (clone_values no_values vs)
    clone (object ms) = object (clone_members no_members ms)

    pub clone_values : Values D → Values D → Values D
    clone_values done no_values = done
    clone_values done (value v vs) = clone_values (add_value done (clone v)) vs

    pub clone_members : Members D → Members D → Members D
    clone_members done no_members = done
    clone_members done (member k v ms) = clone_members (set_value k (clone v) done) ms
