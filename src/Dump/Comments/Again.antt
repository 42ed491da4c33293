-- ===== src/Dump/Comments/Again.antt =====
-- RemoveComments of docs/parse_and_dump.cpp on a text that it has left.
use selfserv.Base.{
  ℕ, ◌≡◌, refl, ap, Bool, true, false, ◌&&◌, ◌||◌, [], ◌∷◌, ◌==◌, Bytes, arith, Bool-cases, inl,
  inr, ==_iff, &&-split,
}
use selfserv.Dump.Comments.{Scanner, start, next_of, scan, remove_comments}
use selfserv.Dump.Comments.States.{
  string_state, single_state, multi_state, comments, scan-string_end, scan-escaped, scan-backslash,
  scan-string, scan-quote, scan-outside, scan-line, scan-block, scan-single_end, scan-single,
  scan-multi_end, scan-multi,
}

-- A character that begins no comment stays the first.
next_of-scan :
    (cs : Bytes) → (next_of cs == b'/') ≡ false → next_of (scan false start cs) ≡ next_of cs
next_of-scan [] h = unfold scan in refl
next_of-scan (c ∷ cs) h = elim (Bool-cases (c == b'"')) [
  | inl quote ↦ let e : c ≡ b'"' = (==_iff c b'"').0 quote in rw (e, scan-quote cs)
  | inr plain ↦ rw (scan-outside c cs plain (rw h))
]

comments-scan :
    (c : ℕ) (cs : Bytes)
    → comments c (next_of cs) ≡ false
    → comments c (next_of (scan false start cs)) ≡ false
comments-scan c cs h = elim (Bool-cases (next_of cs == b'/')) [
  | inl slash ↦ ground arith
  | inr plain ↦ rw (next_of-scan cs plain) h
]

data Mode : Type 0 where
  outside single multi : Mode
  in_string : Bool → Mode

abbrev state_of : Mode → Scanner
state_of outside = start
state_of single = single_state
state_of multi = multi_state
state_of (in_string e) = string_state e

-- The state in which the text is read that is left from here on.
abbrev again_in : Mode → Scanner
again_in (in_string e) = string_state e
again_in _ = start

-- The text that is left is read again without a change: what has to be shown of a mode.
abbrev IsStable : Mode → Bool → Bytes → Type 0
IsStable m k cs = scan false (again_in m) (scan k (state_of m) cs) ≡ scan k (state_of m) cs

outside-IsStable :
    (c : ℕ) (cs : Bytes)
    → IsStable (in_string false) false cs
    → IsStable outside false cs
    → IsStable single true cs
    → IsStable multi true cs
    → IsStable outside false (c ∷ cs)
outside-IsStable c cs string kept line block = elim (Bool-cases (c == b'"')) [
  | inl quote ↦
      let e : c ≡ b'"' = (==_iff c b'"').0 quote in
      rw (e, scan-quote cs, scan-quote (scan false (string_state false) cs)) (ap (◌∷◌ b'"') string)
  | inr plain ↦ elim (Bool-cases (comments c (next_of cs))) [
    | inr none ↦
        rw
          (
            scan-outside c cs plain none,
            scan-outside c (scan false start cs) plain (comments-scan c cs none),
          )
          (ap (◌∷◌ c) kept)
    | inl some ↦
        let (slash, behind) =
          &&-split (c == b'/') (next_of cs == b'/' || next_of cs == b'*') some in
        elim (Bool-cases (next_of cs == b'/')) [
          | inl double ↦ rw (scan-line c cs slash double) line
          | inr other ↦ rw (scan-block c cs slash (rw other at behind)) block
        ]
  ]
]

in_string-IsStable :
    (c : ℕ) (cs : Bytes)
    → IsStable (in_string false) false cs
    → IsStable (in_string true) false cs
    → IsStable outside false cs
    → IsStable (in_string false) false (c ∷ cs)
in_string-IsStable c cs string escape kept = elim (Bool-cases (c == b'\\')) [
  | inl slash ↦
      let e : c ≡ b'\\' = (==_iff c b'\\').0 slash in
      rw (e, scan-backslash cs, scan-backslash (scan false (string_state true) cs))
        (ap (◌∷◌ b'\\') escape)
  | inr plain ↦ elim (Bool-cases (c == b'"')) [
    | inl quote ↦
        let e : c ≡ b'"' = (==_iff c b'"').0 quote in
        rw (e, scan-string_end cs, scan-string_end (scan false start cs)) (ap (◌∷◌ b'"') kept)
    | inr other ↦
        rw
          (
            scan-string c cs plain other,
            scan-string c (scan false (string_state false) cs) plain other,
          )
          (ap (◌∷◌ c) string)
  ]
]

single-IsStable :
    (c : ℕ) (cs : Bytes)
    → IsStable single false cs
    → IsStable outside false cs
    → IsStable single false (c ∷ cs)
single-IsStable c cs inside kept = elim (Bool-cases (c == b'\n' || c == b'\r')) [
  | inl newline ↦
      let plain : (c == b'"') ≡ false = ground arith in
      let none : comments c (next_of (scan false start cs)) ≡ false = ground arith in
      rw (scan-single_end c cs newline, scan-outside c (scan false start cs) plain none)
        (ap (◌∷◌ c) kept)
  | inr other ↦ rw (scan-single c cs other) inside
]

multi-IsStable :
    (c : ℕ) (cs : Bytes)
    → IsStable multi false cs
    → IsStable outside true cs
    → IsStable multi false (c ∷ cs)
multi-IsStable c cs inside behind = elim (Bool-cases (c == b'*' && next_of cs == b'/')) [
  | inl ended ↦ rw (scan-multi_end c cs ended) behind
  | inr other ↦ rw (scan-multi c cs other) inside
]

skipped-IsStable : (m : Mode) (c : ℕ) (cs : Bytes) → IsStable m false cs → IsStable m true (c ∷ cs)
unfolding scan
skipped-IsStable m c cs h = h

scan-IsStable : (m : Mode) (k : Bool) (cs : Bytes) → IsStable m k cs
scan-IsStable m true [] = unfold scan in refl
scan-IsStable m false [] = unfold scan in refl
scan-IsStable m true (c ∷ cs) = skipped-IsStable m c cs (scan-IsStable m false cs)
scan-IsStable outside false (c ∷ cs) =
    outside-IsStable c cs (scan-IsStable (in_string false) false cs)
      (scan-IsStable outside false cs) (scan-IsStable single true cs) (scan-IsStable multi true cs)
scan-IsStable single false (c ∷ cs) =
    single-IsStable c cs (scan-IsStable single false cs) (scan-IsStable outside false cs)
scan-IsStable multi false (c ∷ cs) =
    multi-IsStable c cs (scan-IsStable multi false cs) (scan-IsStable outside true cs)
scan-IsStable (in_string false) false (c ∷ cs) =
    in_string-IsStable c cs (scan-IsStable (in_string false) false cs)
      (scan-IsStable (in_string true) false cs) (scan-IsStable outside false cs)
scan-IsStable (in_string true) false (c ∷ cs) =
    rw (scan-escaped c cs, scan-escaped c (scan false (string_state false) cs))
      (ap (◌∷◌ c) (scan-IsStable (in_string false) false cs))

-- RemoveComments finds no comment in a text that it has left: on every text, one more call changes
-- nothing.
pub remove_comments-remove_comments :
    (text : Bytes) → remove_comments (remove_comments text) ≡ remove_comments text
unfolding remove_comments
remove_comments-remove_comments text = scan-IsStable outside false text
