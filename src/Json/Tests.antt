-- ===== src/Json/Tests.antt =====
-- Runs of the JSON code, and the properties at concrete inputs.
use selfserv.Base.{
  inr, inr, ◌≡◌, ◌≢◌, ◌↔◌, refl, true, false, some, [], ◌∷◌, ◌++◌, Bytes, codes, length, arith,
  if◌then◌else◌, equal,
}
use selfserv.Json.Value.{
  JsonValue, Members, null, bool, number, string, array, object, no_values, value, no_members,
  member, add_value, set_value, get_value, clone, before,
}
use selfserv.Json.Floats.{Floats}
use selfserv.Json.Print.{to_string, members_text, string_text}
use selfserv.Json.Parser.{
  ok, failed, out_of_fuel, expected, trailing_comma_array, control_character, parse_string_literal,
}
use selfserv.Json.Number.{number_text}
use selfserv.Json.Document.{parse, error_position}
use selfserv.Json.Numeral.{IsNumeral}
use selfserv.Json.Numeral.Sound.{number_text_iff}
use selfserv.Json.Literal.{
  all_text, string_text-reads_back_iff, parse_string_literal-non_ascii, is_text, is_plain,
}
use selfserv.Json.Objects.{set_value_comm, get_value-set_value}
use selfserv.Json.Ordered.{IsOrdered}
use selfserv.Json.Writable.{IsExact}
use selfserv.Json.Fuel.{parse-ne-out_of_fuel}
use selfserv.Json.RoundTrip.{parse-to_string}
use selfserv.Json.ParsedOrder.{parse-IsOrdered, clone-parse}
use selfserv.Json.Keys.{parse-key_with_quote}

-- Doubles that stand for their text.
abbrev texts : Floats Bytes
texts = record { strtod = λ s. (s, length s); show = λ s. s }

abbrev input : Bytes
input = codes "{\"b\": [1, -2.5e+3, true], \"a\" : \"x\\ny\"}"

abbrev tree : JsonValue Bytes
tree = object (
    member (codes "a") (string (codes "x\ny")) (
      member (codes "b")
        (array (
          value (number (codes "1"))
            (value (number (codes "-2.5e+3")) (value (bool true) no_values))))
        no_members))

parse-input : parse texts input ≡ ok tree
unfolding parse set_value add_value
parse-input = refl

parse-trailing_comma : parse texts (codes "[1, ]") ≡ failed trailing_comma_array (codes "]")
unfolding parse add_value
parse-trailing_comma = refl

trailing_comma_position : error_position (codes "[1, ]") (codes "]") ≡ 4
unfolding error_position
trailing_comma_position = refl

to_string-tree : to_string texts tree ≡ codes "{\"a\": \"x\\ny\", \"b\": [1, -2.5e+3, true]}"
unfolding to_string
to_string-tree = refl

one-IsExact : IsExact texts (codes "1")
one-IsExact = record {
  numeral = record {
    minus = [];
    whole = codes "1";
    fraction = [];
    exponent = [];
    parts = refl;
    minus_form = tt;
    whole_form = refl;
    fraction_form = tt;
    exponent_form = tt;
  };
  reads = refl;
}

long-IsNumeral : IsNumeral (codes "-2.5e+3")
long-IsNumeral = record {
  minus = codes "-";
  whole = codes "2";
  fraction = codes ".5";
  exponent = codes "e+3";
  parts = refl;
  minus_form = refl;
  whole_form = refl;
  fraction_form = (refl, (refl, refl));
  exponent_form = (refl, inr (refl, (refl, refl)));
}

parse-to_string_example : parse texts (to_string texts tree) ≡ ok tree
unfolding is_text is_plain before
parse-to_string_example = parse-to_string texts tree (
  (refl, tt),
  (
    refl,
    refl,
    (refl, (one-IsExact, (record { numeral = long-IsNumeral; reads = refl }, (tt, tt))), tt),
  ),
)

parse-ne-out_of_fuel_example : parse texts (codes "[[[[") ≢ out_of_fuel
parse-ne-out_of_fuel_example = parse-ne-out_of_fuel texts (codes "[[[[")

parse-IsOrdered_example : IsOrdered tree
parse-IsOrdered_example = parse-IsOrdered texts input parse-input

clone-parse_run : clone tree ≡ tree
clone-parse_run = clone-parse texts input parse-input

string_text-reads_back_iff_example :
    (parse_string_literal (string_text (codes "a\"\n") ++ codes ", 1")
      ≡ ok (codes "a\"\n", codes ", 1"))
    ↔ (all_text (codes "a\"\n") ≡ true)
string_text-reads_back_iff_example = string_text-reads_back_iff (codes "a\"\n") (codes ", 1")

number_text_iff_example :
    (number_text (codes "-2.5e+3") ≡ ok (codes "-2.5e+3", [])) ↔ IsNumeral (codes "-2.5e+3")
number_text_iff_example = number_text_iff (codes "-2.5e+3")

parse_string_literal-non_ascii_run :
    parse_string_literal (b'"' ∷ (codes "caf" ++ 195 ∷ 169 ∷ codes "\""))
    ≡ failed control_character (169 ∷ codes "\"")
unfolding is_plain
parse_string_literal-non_ascii_run =
    parse_string_literal-non_ascii (codes "caf") 195 (169 ∷ codes "\"") refl (omega arith)

parse-key_with_quote_run :
    parse texts (to_string texts (object (member (codes "k" ++ b'"' ∷ []) null no_members)))
    ≡ failed
        (expected b':' b'"')
        (b':' ∷ b' ' ∷ (to_string texts null ++ (members_text texts false no_members ++ b'}' ∷ [])))
unfolding is_plain
parse-key_with_quote_run = parse-key_with_quote texts (codes "k") null no_members refl

abbrev one_member : Members Bytes
one_member = member (codes "m") null no_members

set_value_comm_run :
    set_value (codes "a") (bool true) (set_value (codes "z") null one_member)
    ≡ set_value (codes "z") null (set_value (codes "a") (bool true) one_member)
set_value_comm_run =
    set_value_comm (codes "a") (codes "z") (bool true) null one_member tt (ground arith)

get_value-set_value_run :
    get_value (codes "m") (set_value (codes "m") (bool true) one_member)
    ≡ (if equal (codes "m") (codes "m") then some (bool true) else get_value (codes "m") one_member)
get_value-set_value_run = get_value-set_value (codes "m") (codes "m") (bool true) one_member
