-- ===== src/Dump/Runs.antt =====
-- Runs of main of docs/parse_and_dump.cpp.
use selfserv.Base.{ℕ, ◌≡◌, arith, refl, ◌⊎◌, inl, inr, true, some, List, [], ◌∷◌, Bytes, equal_refl}
use selfserv.Json.Floats.{Floats}
use selfserv.Json.Value.{JsonValue}
use selfserv.Json.Print.{to_string}
use selfserv.Json.Parser.{Result, ok, failed, out_of_fuel}
use selfserv.Json.Document.{parse}
use selfserv.Json.Writable.{IsWritable}
use selfserv.Json.RoundTrip.{parse-to_string}
use selfserv.Dump.Comments.{remove_comments}
use selfserv.Dump.Comments.Written.{remove_comments-to_string}
use selfserv.Dump.Main.{
  Files, Attempt, done, ◌>>=◌, raised, read_file, write_text, with_file, attempt, convert, exit_of,
  main,
}

bind-done :
    {A B : Type 0} (a : Attempt A) (f : A → Attempt B) {x : B}
    → (a >>= f) ≡ done x
    → (y : A) × (a ≡ done y) × (f y ≡ done x)
bind-done (done y) f h = (y, refl, h)
bind-done (raised e) f h = cc h

read_file-done :
    (files : Files) (name text : Bytes)
    → read_file files name ≡ done text
    → files.content name ≡ some text
unfolding read_file
read_file-done files name text h = ground arith

read_file-content :
    (files : Files) (name text : Bytes)
    → files.content name ≡ some text
    → read_file files name ≡ done text
unfolding read_file
read_file-content files name text h = ground arith

write_text-can_create :
    (files : Files) (name text : Bytes)
    → files.can_create name ≡ true
    → write_text files name text ≡ done (with_file files name text)
unfolding write_text
write_text-can_create files name text h = ground arith

attempt-done : {A : Type 0} (r : Result A) (a : A) → attempt r ≡ done a → r ≡ ok a
attempt-done (ok b) a h = ground arith
attempt-done (failed m u) a h = cc h
attempt-done out_of_fuel a h = cc h

write_text-done :
    (files : Files) (name text : Bytes) (left : Files)
    → write_text files name text ≡ done left
    → (files.can_create name ≡ true) × (left ≡ with_file files name text)
unfolding write_text
write_text-done files name text left h = ground arith

module _ {D : Type 0} (F : Floats D) where
  -- The conversion was made: the input could be opened, its text without comments is JSON, the
  -- output could be created, and holds what ToString writes of the value.
  abbrev pub IsConverted : Files → Bytes → Bytes → Files → Type 0
  IsConverted files input output left =
      (text : Bytes) × (v : JsonValue D) × (files.content input ≡ some text)
      × (parse F (remove_comments text) ≡ ok v)
      × (files.can_create output ≡ true)
      × (left ≡ with_file files output (to_string F v))

  abbrev pub IsRun : Files → List Bytes → Files × ℕ → Type 0
  IsRun files argv (left, status) =
      ((status ≡ 1) × (left ≡ files))
      ⊎ ((status ≡ 0)
          × ((program : Bytes) × (input : Bytes) × (output : Bytes) × (argv
                ≡ program ∷ input ∷ output ∷ [])
              × IsConverted files input output left))

  convert_lem :
      (files : Files) (input output text : Bytes) (v : JsonValue D)
      → files.content input ≡ some text
      → parse F (remove_comments text) ≡ ok v
      → files.can_create output ≡ true
      → convert F files input output ≡ done (with_file files output (to_string F v))
  unfolding convert
  convert_lem files input output text v e p h =
      rw (read_file-content files input text e, p)
        (write_text-can_create files output (to_string F v) h)

  -- main on a text whose comments leave what ToString wrote of a writable value, and on its own
  -- output
  pub main-main :
      (files : Files) (program input output again text : Bytes) (v : JsonValue D)
      → files.content input ≡ some text
      → parse F (remove_comments text) ≡ ok v
      → IsWritable F v
      → files.can_create output ≡ true
      → files.can_create again ≡ true
      → let left = (main F files (program ∷ input ∷ output ∷ [])).0 in
        main F left (program ∷ output ∷ again ∷ [])
        ≡ (with_file (with_file files output (to_string F v)) again (to_string F v), 0)
  unfolding main
  main-main files program input output again text v e p w h k =
      let left : Files = with_file files output (to_string F v) in
      let first = convert_lem files input output text v e p h in
      let there : left.content output ≡ some (to_string F v) = rw (equal_refl output) refl in
      let reads : parse F (remove_comments (to_string F v)) ≡ ok v =
        rw (remove_comments-to_string F v w) (parse-to_string F v w) in
      rw (first, convert_lem left output again (to_string F v) v there reads k) refl

  exit-IsRun :
      (files : Files) (program input output : Bytes) (a : Attempt Files)
      → ((left : Files) → a ≡ done left → IsConverted files input output left)
      → IsRun files (program ∷ input ∷ output ∷ []) (exit_of F files a)
  exit-IsRun files program input output (raised e) h = inl (refl, refl)
  exit-IsRun files program input output (done left) h =
      inr (refl, (program, input, output, refl, h left refl))

  convert-IsConverted :
      (files : Files) (input output : Bytes) (left : Files)
      → convert F files input output ≡ done left
      → IsConverted files input output left
  unfolding convert
  convert-IsConverted files input output left h =
      let (text, opened, behind) = bind-done (read_file files input) _ h in
      let (v, parsed, last) = bind-done (attempt (parse F (remove_comments text))) _ behind in
      let (created, held) = write_text-done files output (to_string F v) left last in
      (
        text,
        v,
        read_file-done files input text opened,
        attempt-done (parse F (remove_comments text)) v parsed,
        created,
        held,
      )

  -- However main is called, it either exits with 1 and leaves the files as they were, or it exits
  -- with 0, and then it was given two file names, of which the first could be opened, held a text
  -- that is JSON without its comments, and the second could be created and now holds what ToString
  -- writes of the value, all other files being as they were.
  pub main-IsRun : (files : Files) (argv : List Bytes) → IsRun files argv (main F files argv)
  unfolding main
  main-IsRun files [] = inl (refl, refl)
  main-IsRun files (p ∷ []) = inl (refl, refl)
  main-IsRun files (p ∷ i ∷ []) = inl (refl, refl)
  main-IsRun files (p ∷ i ∷ o ∷ []) =
      exit-IsRun files p i o (convert F files i o) (convert-IsConverted files i o)
  main-IsRun files (p ∷ i ∷ o ∷ x ∷ xs) = inl (refl, refl)
