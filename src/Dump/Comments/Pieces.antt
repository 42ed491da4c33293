-- ===== src/Dump/Comments/Pieces.antt =====
-- Texts of JSON with comments as pieces, and RemoveComments of docs/parse_and_dump.cpp on them.
use selfserv.Base.{
  ℕ, ◌≡◌, refl, ap, ◌∙◌, Bool, true, false, not, ◌&&◌, ◌||◌, List, [], ◌∷◌, ◌++◌, ◌==◌, Bytes,
  arith, if◌then◌else◌, inl, inr, Bool-cases, ==_iff,
}
use selfserv.Dump.Comments.{start, next_of, scan, remove_comments}
use selfserv.Dump.Comments.States.{
  string_state, single_state, multi_state, comments, scan-string_end, scan-escaped, scan-backslash,
  scan-string, scan-quote, scan-outside, scan-single_end, scan-single, scan-multi_end, scan-multi,
}

-- A string without its quotes; a comment up to the end of its line, with the character that ends
-- it; a comment between its marks; a character of its own.
pub data Piece : Type 0 where
  quoted : Bytes → Piece
  line : Bytes → ℕ → Piece
  block : Bytes → Piece
  other : ℕ → Piece

-- The text of the pieces, and what is to be left of it.
unfoldable pub text_of : List Piece → Bytes
text_of [] = []
text_of (quoted s ∷ ps) = b'"' ∷ (s ++ b'"' ∷ text_of ps)
text_of (line s c ∷ ps) = b'/' ∷ b'/' ∷ (s ++ c ∷ text_of ps)
text_of (block s ∷ ps) = b'/' ∷ b'*' ∷ (s ++ b'*' ∷ b'/' ∷ text_of ps)
text_of (other c ∷ ps) = c ∷ text_of ps

unfoldable pub left_of : List Piece → Bytes
left_of [] = []
left_of (quoted s ∷ ps) = b'"' ∷ (s ++ b'"' ∷ left_of ps)
left_of (line s c ∷ ps) = c ∷ left_of ps
left_of (block s ∷ ps) = left_of ps
left_of (other c ∷ ps) = c ∷ left_of ps

-- The characters of a string, where the flag says that a backslash stands ahead of them: every
-- quote is escaped, and the end is not.
abbrev pub is_body : Bool → Bytes → Bool
is_body escaped [] = not escaped
is_body true (c ∷ cs) = is_body false cs
is_body false (c ∷ cs) =
    let inside = is_body false cs in
    let behind = is_body true cs in if c == b'\\' then behind else not (c == b'"') && inside

abbrev pub is_newline : ℕ → Bool
is_newline c = c == b'\n' || c == b'\r'

abbrev pub no_newline : Bytes → Bool
no_newline [] = true
no_newline (c ∷ cs) = not (is_newline c) && no_newline cs

-- Nowhere in it does a comment end.
abbrev pub no_end : Bytes → Bool
no_end [] = true
no_end (c ∷ cs) = not (c == b'*' && next_of cs == b'/') && no_end cs

-- A character of its own opens neither a string nor, with what follows, a comment.
abbrev pub ArePieces : List Piece → Type 0
ArePieces [] = Unit
ArePieces (quoted s ∷ ps) = (is_body false s ≡ true) × ArePieces ps
ArePieces (line s c ∷ ps) = (no_newline s ≡ true) × (is_newline c ≡ true) × ArePieces ps
ArePieces (block s ∷ ps) = (no_end s ≡ true) × ArePieces ps
ArePieces (other c ∷ ps) =
    ((c == b'"') ≡ false) × (comments c (next_of (text_of ps)) ≡ false) × ArePieces ps

scan-body :
    (e : Bool) (s rest : Bytes)
    → is_body e s ≡ true
    → scan false (string_state e) (s ++ b'"' ∷ rest) ≡ s ++ b'"' ∷ scan false start rest
scan-body true [] rest h = cc h
scan-body false [] rest h = scan-string_end rest
scan-body true (c ∷ cs) rest h =
    scan-escaped c (cs ++ b'"' ∷ rest) ∙ ap (◌∷◌ c) (scan-body false cs rest h)
scan-body false (c ∷ cs) rest h = elim (Bool-cases (c == b'\\')) [
  | inl slash ↦
      let e : c ≡ b'\\' = (==_iff c b'\\').0 slash in
      let inside : is_body true cs ≡ true = ground arith in
      rw (e, scan-backslash) (ap (◌∷◌ b'\\') (scan-body true cs rest inside))
  | inr plain ↦
      let quote : (c == b'"') ≡ false = ground arith in
      let inside : is_body false cs ≡ true = ground arith in
      rw (scan-string c (cs ++ b'"' ∷ rest) plain quote)
        (ap (◌∷◌ c) (scan-body false cs rest inside))
]

scan-no_newline :
    (s : Bytes) (c : ℕ) (rest : Bytes)
    → no_newline s ≡ true
    → is_newline c ≡ true
    → scan false single_state (s ++ c ∷ rest) ≡ c ∷ scan false start rest
scan-no_newline [] c rest h k = scan-single_end c rest k
scan-no_newline (x ∷ xs) c rest h k =
    scan-single x (xs ++ c ∷ rest) (ground arith) ∙ scan-no_newline xs c rest (ground arith) k

next_of-append :
    (s rest : Bytes) (c : ℕ)
    → (c == b'*' && next_of s == b'/') ≡ false
    → (c == b'*' && next_of (s ++ b'*' ∷ rest) == b'/') ≡ false
next_of-append [] rest c h = ground arith
next_of-append (x ∷ xs) rest c h = h

scan-skipped : (rest : Bytes) → scan true start (b'/' ∷ rest) ≡ scan false start rest
unfolding scan
scan-skipped rest = refl

scan-no_end :
    (s rest : Bytes)
    → no_end s ≡ true
    → scan false multi_state (s ++ b'*' ∷ b'/' ∷ rest) ≡ scan false start rest
scan-no_end [] rest h = scan-multi_end b'*' (b'/' ∷ rest) refl ∙ scan-skipped rest
scan-no_end (c ∷ cs) rest h =
    scan-multi c (cs ++ b'*' ∷ b'/' ∷ rest) (next_of-append cs (b'/' ∷ rest) c (ground arith))
    ∙ scan-no_end cs rest (ground arith)

scan-line_mark :
    (rest : Bytes) → scan false start (b'/' ∷ b'/' ∷ rest) ≡ scan false single_state rest
unfolding scan
scan-line_mark rest = refl

scan-block_mark :
    (rest : Bytes) → scan false start (b'/' ∷ b'*' ∷ rest) ≡ scan false multi_state rest
unfolding scan
scan-block_mark rest = refl

scan-text_of : (ps : List Piece) → ArePieces ps → scan false start (text_of ps) ≡ left_of ps
unfolding text_of left_of
scan-text_of [] h = unfold scan in refl
scan-text_of (quoted s ∷ ps) h =
    rw (scan-quote, scan-body false s (text_of ps) h.0, scan-text_of ps h.1) refl
scan-text_of (line s c ∷ ps) h =
    rw (scan-line_mark, scan-no_newline s c (text_of ps) h.0 h.1, scan-text_of ps h.2) refl
scan-text_of (block s ∷ ps) h =
    rw (scan-block_mark, scan-no_end s (text_of ps) h.0) (scan-text_of ps h.1)
scan-text_of (other c ∷ ps) h =
    rw (scan-outside c (text_of ps) h.0 h.1) (ap (◌∷◌ c) (scan-text_of ps h.2))

-- Of a text made of strings, comments of both kinds and other characters, RemoveComments leaves the
-- strings whole, with what looks like a comment in them, the line ends behind the comments that go
-- up to one, and the other characters, in their order, and nothing else.
pub remove_comments-text_of :
    (ps : List Piece) → ArePieces ps → remove_comments (text_of ps) ≡ left_of ps
unfolding remove_comments
remove_comments-text_of ps h = scan-text_of ps h
