-- ===== src/Dump/Comments.antt =====
-- RemoveComments of docs/parse_and_dump.cpp.
pub mod States
pub mod Again
pub mod Written
pub mod Pieces
use selfserv.Base.{ℕ, Bool, true, false, ◌&&◌, ◌||◌, [], ◌∷◌, ◌==◌, if◌then◌else◌, Bytes}

-- The local flags of the loop.
pub record Scanner : Type 0 where
  pub in_string : Bool
  pub in_single_line_comment : Bool
  pub in_multi_line_comment : Bool
  pub escaped : Bool

-- What one turn of the loop does: the flags it leaves, whether it appends the character, and
-- whether it moves past the next one.
pub record Turn : Type 0 where
  pub scanner : Scanner
  pub keeps : Bool
  pub skips : Bool

abbrev pub start : Scanner
start = record {
  in_string = false;
  in_single_line_comment = false;
  in_multi_line_comment = false;
  escaped = false;
}

abbrev pub keep : Scanner → Turn
keep s = record { scanner = s; keeps = true; skips = false }

abbrev pub pass : Scanner → Turn
pass s = record { scanner = s; keeps = false; skips = false }

abbrev pub skip : Scanner → Turn
skip s = record { scanner = s; keeps = false; skips = true }

-- The branch of a character in a string.
unfoldable pub turn_in_string : Scanner → ℕ → Turn
turn_in_string s c =
    if s.escaped
    then keep (record s { escaped = false })
    else if c == b'\\'
    then keep (record s { escaped = true })
    else if c == b'"'
    then keep (record s { in_string = false })
    else keep s

-- The branch of a character outside of strings and comments.
unfoldable pub turn_outside : Scanner → ℕ → ℕ → Turn
turn_outside s c next =
    if c == b'"'
    then keep (record s { in_string = true })
    else if c == b'/' && next == b'/'
    then skip (record s { in_single_line_comment = true })
    else if c == b'/' && next == b'*'
    then skip (record s { in_multi_line_comment = true })
    else keep s

-- The body of the loop.
unfoldable pub turn : Scanner → ℕ → ℕ → Turn
unfolding turn_in_string turn_outside
turn s c next =
    if s.in_single_line_comment
    then if c == b'\n' || c == b'\r'
      then keep (record s { in_single_line_comment = false })
      else pass s
    else if s.in_multi_line_comment
    then if c == b'*' && next == b'/'
      then skip (record s { in_multi_line_comment = false })
      else pass s
    else if s.in_string
    then turn_in_string s c
    else turn_outside s c next

-- The character behind the one at hand, or 0 at the end.
abbrev pub next_of : Bytes → ℕ
next_of [] = 0
next_of (c ∷ cs) = c

-- The loop, where the flag says that the turn before moved past this character.
unfoldable pub scan : Bool → Scanner → Bytes → Bytes
unfolding turn
scan skipped s [] = []
scan true s (c ∷ cs) = scan false s cs
scan false s (c ∷ cs) =
    let t = turn s c (next_of cs) in
    let rest = scan t.skips t.scanner cs in if t.keeps then c ∷ rest else rest

unfoldable pub remove_comments : Bytes → Bytes
unfolding scan
remove_comments text = scan false start text
