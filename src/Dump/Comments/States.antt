-- ===== src/Dump/Comments/States.antt =====
-- The turns of RemoveComments of docs/parse_and_dump.cpp, in each of the states it comes to.
use selfserv.Base.{ℕ, ◌≡◌, refl, Bool, true, false, ◌&&◌, ◌||◌, ◌∷◌, ◌==◌, Bytes, arith}
use selfserv.Dump.Comments.{Scanner, start, next_of, scan}

-- The states that the loop comes to.
abbrev pub string_state : Bool → Scanner
string_state e = record start { in_string = true; escaped = e }

abbrev pub single_state : Scanner
single_state = record start { in_single_line_comment = true }

abbrev pub multi_state : Scanner
multi_state = record start { in_multi_line_comment = true }

-- Does a comment begin at a character that is followed by `next`?
abbrev pub comments : ℕ → ℕ → Bool
comments c next = c == b'/' && (next == b'/' || next == b'*')

pub scan-string_end :
    (cs : Bytes) → scan false (string_state false) (b'"' ∷ cs) ≡ b'"' ∷ scan false start cs
unfolding scan
scan-string_end cs = refl

pub scan-escaped :
    (c : ℕ) (cs : Bytes)
    → scan false (string_state true) (c ∷ cs) ≡ c ∷ scan false (string_state false) cs
unfolding scan
scan-escaped c cs = refl

pub scan-backslash :
    (cs : Bytes)
    → scan false (string_state false) (b'\\' ∷ cs) ≡ b'\\' ∷ scan false (string_state true) cs
unfolding scan
scan-backslash cs = refl

pub scan-string :
    (c : ℕ) (cs : Bytes)
    → (c == b'\\') ≡ false
    → (c == b'"') ≡ false
    → scan false (string_state false) (c ∷ cs) ≡ c ∷ scan false (string_state false) cs
unfolding scan
scan-string c cs h k = rw (h, k) refl

pub scan-quote :
    (cs : Bytes) → scan false start (b'"' ∷ cs) ≡ b'"' ∷ scan false (string_state false) cs
unfolding scan
scan-quote cs = refl

pub scan-outside :
    (c : ℕ) (cs : Bytes)
    → (c == b'"') ≡ false
    → comments c (next_of cs) ≡ false
    → scan false start (c ∷ cs) ≡ c ∷ scan false start cs
unfolding scan
scan-outside c cs h k = ground arith

pub scan-line :
    (c : ℕ) (cs : Bytes)
    → (c == b'/') ≡ true
    → (next_of cs == b'/') ≡ true
    → scan false start (c ∷ cs) ≡ scan true single_state cs
unfolding scan
scan-line c cs h k = ground arith

pub scan-block :
    (c : ℕ) (cs : Bytes)
    → (c == b'/') ≡ true
    → (next_of cs == b'*') ≡ true
    → scan false start (c ∷ cs) ≡ scan true multi_state cs
unfolding scan
scan-block c cs h k = ground arith

pub scan-single_end :
    (c : ℕ) (cs : Bytes)
    → (c == b'\n' || c == b'\r') ≡ true
    → scan false single_state (c ∷ cs) ≡ c ∷ scan false start cs
unfolding scan
scan-single_end c cs h = rw h refl

pub scan-single :
    (c : ℕ) (cs : Bytes)
    → (c == b'\n' || c == b'\r') ≡ false
    → scan false single_state (c ∷ cs) ≡ scan false single_state cs
unfolding scan
scan-single c cs h = rw h refl

pub scan-multi_end :
    (c : ℕ) (cs : Bytes)
    → (c == b'*' && next_of cs == b'/') ≡ true
    → scan false multi_state (c ∷ cs) ≡ scan true start cs
unfolding scan
scan-multi_end c cs h = rw h refl

pub scan-multi :
    (c : ℕ) (cs : Bytes)
    → (c == b'*' && next_of cs == b'/') ≡ false
    → scan false multi_state (c ∷ cs) ≡ scan false multi_state cs
unfolding scan
scan-multi c cs h = rw h refl
