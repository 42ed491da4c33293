-- ===== src/Dump/Main.antt =====
-- ReadFile, WriteFile and main of docs/parse_and_dump.cpp. The file system is a parameter: which
-- files can be opened, with what content, and which can be created. What main prints is left out.
use selfserv.Base.{ℕ, Bool, Option, none, some, List, [], ◌∷◌, if◌then◌else◌, Bytes, equal}
use selfserv.Json.Floats.{Floats}
use selfserv.Json.Print.{to_string}
use selfserv.Json.Parser.{Message, Result, ok, failed, out_of_fuel}
use selfserv.Json.Document.{parse}
use selfserv.Dump.Comments.{remove_comments}

pub record Files : Type 0 where
  pub content : Bytes → Option Bytes
  pub can_create : Bytes → Bool

-- The std::runtime_error of the two functions, and that of JsonParser; `exhausted` has no
-- counterpart in the program.
pub data Failure : Type 0 where
  could_not_open could_not_create : Bytes → Failure
  not_json : Message → Failure
  exhausted : Failure

pub data Attempt (A : Type 0) : Type 0 where
  done : A → Attempt A
  raised : Failure → Attempt A

infixl 5 ◌>>=◌
abbrev pub ◌>>=◌ : {A B : Type 0} → Attempt A → (A → Attempt B) → Attempt B
done a >>= f = f a
raised e >>= f = raised e

-- ReadFile
unfoldable pub read_file : Files → Bytes → Attempt Bytes
read_file files name = elim (files.content name) [
  | none ↦ raised (could_not_open name)
  | some text ↦ done text
]

-- The files once `name` holds `text`.
abbrev pub with_file : Files → Bytes → Bytes → Files
with_file files name text = record files {
  content = λ n. if equal name n then some text else files.content n;
}

-- WriteFile
unfoldable pub write_text : Files → Bytes → Bytes → Attempt Files
write_text files name text =
    if files.can_create name
    then done (with_file files name text)
    else raised (could_not_create name)

-- What the `try` of main sees of Parse.
abbrev pub attempt : {A : Type 0} → Result A → Attempt A
attempt (ok a) = done a
attempt (failed m unread) = raised (not_json m)
attempt out_of_fuel = raised exhausted

module _ {D : Type 0} (F : Floats D) where
  -- The body of the `try` in main.
  unfoldable pub convert : Files → Bytes → Bytes → Attempt Files
  unfolding read_file write_text
  convert files input output = do
    content ← read_file files input
    root ← attempt (parse F (remove_comments content))
    write_text files output (to_string F root)

  -- What main leaves of the files, and its exit status.
  abbrev pub exit_of : Files → Attempt Files → Files × ℕ
  exit_of files (done left) = (left, 0)
  exit_of files (raised e) = (files, 1)

  -- main, from the arguments with the program's name ahead of them
  unfoldable pub main : Files → List Bytes → Files × ℕ
  unfolding convert
  main files (program ∷ input ∷ output ∷ []) = exit_of files (convert files input output)
  main files _ = (files, 1)
