-- ===== src/Dump/Tests.antt =====
-- Runs of the program of docs/parse_and_dump.cpp, and its properties at concrete inputs.
use selfserv.Base.{◌≡◌, refl, true, none, some, [], ◌∷◌, Bytes, codes, length, equal, if◌then◌else◌}
use selfserv.Json.Value.{
  JsonValue, bool, array, object, no_values, value, no_members, member, set_value, add_value,
}
use selfserv.Json.Floats.{Floats}
use selfserv.Json.Literal.{is_plain}
use selfserv.Json.Print.{to_string}
use selfserv.Json.Parser.{ok}
use selfserv.Json.Document.{parse}
use selfserv.Dump.Comments.{remove_comments}
use selfserv.Dump.Comments.Again.{remove_comments-remove_comments}
use selfserv.Dump.Comments.Pieces.{
  quoted, line, block, other, text_of, left_of, remove_comments-text_of,
}
use selfserv.Dump.Main.{Files, with_file, main}
use selfserv.Dump.Runs.{IsRun, main-IsRun, main-main}

-- Doubles that stand for their text.
abbrev texts : Floats Bytes
texts = record { strtod = λ s. (s, length s); show = λ s. s }

abbrev source : Bytes
source = codes "{/* x */\"a//b\": [true] // c\n}"

remove_comments-source : remove_comments source ≡ codes "{\"a//b\": [true] \n}"
unfolding remove_comments
remove_comments-source = refl

-- A comment that ends in the middle of a mark leaves a lone slash.
remove_comments-marks : remove_comments (codes "/**//**/1/") ≡ codes "1/"
unfolding remove_comments
remove_comments-marks = refl

remove_comments-remove_comments_example :
    remove_comments (remove_comments source) ≡ remove_comments source
remove_comments-remove_comments_example = remove_comments-remove_comments source

remove_comments-text_of_example :
    remove_comments (
      text_of
        (quoted (codes "a//\\\"") ∷ block (codes " * ") ∷ line (codes "/*") 10 ∷ other 49 ∷ []))
    ≡ left_of
        (quoted (codes "a//\\\"") ∷ block (codes " * ") ∷ line (codes "/*") 10 ∷ other 49 ∷ [])
unfolding text_of
remove_comments-text_of_example =
    remove_comments-text_of
      (quoted (codes "a//\\\"") ∷ block (codes " * ") ∷ line (codes "/*") 10 ∷ other 49 ∷ [])
      (refl, (refl, (refl, refl, (refl, refl, tt))))

abbrev files : Files
files = record {
  content = λ name. if equal name (codes "in") then some source else none;
  can_create = λ name. true;
}

abbrev tree : JsonValue Bytes
tree = object (member (codes "a//b") (array (value (bool true) no_values)) no_members)

parse-source : parse texts (remove_comments source) ≡ ok tree
unfolding parse remove_comments set_value add_value
parse-source = refl

main-main_example :
    main texts
      (main texts files (codes "p" ∷ codes "in" ∷ codes "out" ∷ [])).0
      (codes "p" ∷ codes "out" ∷ codes "again" ∷ [])
    ≡ (
      with_file
          (with_file files (codes "out") (to_string texts tree))
          (codes "again")
          (to_string texts tree),
      0,
    )
unfolding equal is_plain
main-main_example =
    main-main texts files (codes "p") (codes "in") (codes "out") (codes "again") source tree refl
      parse-source (tt, (refl, (tt, tt), tt)) refl refl

main-IsRun_example :
    IsRun texts files (codes "p" ∷ codes "in" ∷ []) (main texts files (codes "p" ∷ codes "in" ∷ []))
main-IsRun_example = main-IsRun texts files (codes "p" ∷ codes "in" ∷ [])

to_string-tree : to_string texts tree ≡ codes "{\"a//b\": [true]}"
unfolding to_string
to_string-tree = refl
