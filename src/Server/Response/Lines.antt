-- ===== src/Server/Response/Lines.antt =====
-- Texts of four lines: where the blank line behind them is, and how they are read.
use selfserv.Base.{
  ℕ, suc, ◌+◌, ◌≡◌, refl, ap, ◌∙◌, Bool, true, false, not, ◌&&◌, &&-split, some, [], ◌∷◌, ◌++◌,
  ◌==◌, Bytes, crlf, find, starts_with, length, all_digits, is_digit, arith, append_assoc,
  length-append,
}
use selfserv.Http.Head.{header_lines}
use selfserv.Http.Parser.{blank_line}

-- A text with no carriage return.
abbrev pub no_cr : Bytes → Bool
no_cr [] = true
no_cr (c ∷ cs) = not (c == 13) && no_cr cs

pub no_cr-append : (a b : Bytes) → no_cr a ≡ true → no_cr b ≡ true → no_cr (a ++ b) ≡ true
no_cr-append [] b ha hb = hb
no_cr-append (c ∷ a) b ha hb =
    let (first, others) = &&-split (not (c == 13)) (no_cr a) ha in
    rw (first, no_cr-append a b others hb) refl

pub no_cr_of_digits : (s : Bytes) → all_digits s ≡ true → no_cr s ≡ true
no_cr_of_digits [] h = refl
no_cr_of_digits (c ∷ s) h =
    let (first, others) = &&-split (is_digit c) (all_digits s) h in
    let plain : (c == 13) ≡ false = ground arith in rw (plain, no_cr_of_digits s others) refl

-- The search for the blank line passes over a text with no carriage return.
find-line :
    (l s : Bytes) {i : ℕ}
    → no_cr l ≡ true
    → find blank_line s ≡ some i
    → find blank_line (l ++ s) ≡ some (length l + i)
unfolding find starts_with
find-line [] s h e = e ∙ ap some (omega arith)
find-line (c ∷ l) s h e =
    let (first, others) = &&-split (not (c == 13)) (no_cr l) h in
    let other : (13 == c) ≡ false = ground arith in
    rw (other, find-line l s others e) (ap some (omega arith))

header_lines-line :
    (l rest : Bytes) → no_cr l ≡ true → header_lines (l ++ (crlf ++ rest)) ≡ l ∷ header_lines rest
unfolding header_lines
header_lines-line [] rest h = refl
header_lines-line (c ∷ []) rest h = let plain : (c == 13) ≡ false = ground arith in rw plain
header_lines-line (c ∷ d ∷ l) rest h =
    let (first, others) = &&-split (not (c == 13)) (no_cr (d ∷ l)) h in
    let plain : (c == 13) ≡ false = ground arith in
    rw (plain, header_lines-line (d ∷ l) rest others)

header_lines-last : (c : ℕ) (l : Bytes) → no_cr (c ∷ l) ≡ true → header_lines (c ∷ l) ≡ (c ∷ l) ∷ []
unfolding header_lines
header_lines-last c [] h = refl
header_lines-last c (d ∷ l) h =
    let (first, others) = &&-split (not (c == 13)) (no_cr (d ∷ l)) h in
    let plain : (c == 13) ≡ false = ground arith in rw (plain, header_lines-last d l others)

-- A line end in front of a line is passed over, too.
find-step :
    (c : ℕ) (s : Bytes) {i : ℕ}
    → starts_with blank_line (c ∷ s) ≡ false
    → find blank_line s ≡ some i
    → find blank_line (c ∷ s) ≡ some (suc i)
unfolding find
find-step c s h e = rw (h, e)

find-line_end :
    (c : ℕ) (s : Bytes) {i : ℕ}
    → (c == 13) ≡ false
    → find blank_line (c ∷ s) ≡ some i
    → find blank_line (crlf ++ c ∷ s) ≡ some (suc (suc i))
unfolding starts_with
find-line_end c s h e =
    let other : (13 == c) ≡ false = ground arith in
    find-step 13 (10 ∷ c ∷ s) (rw other) (find-step 10 (c ∷ s) refl e)

-- A line in front of a text whose first line is not empty.
find-before :
    (l : Bytes) (c : ℕ) (s : Bytes) {i : ℕ}
    → no_cr l ≡ true
    → (c == 13) ≡ false
    → find blank_line (c ∷ s) ≡ some i
    → find blank_line (l ++ (crlf ++ c ∷ s)) ≡ some (length l + suc (suc i))
find-before l c s h k e = find-line l (crlf ++ c ∷ s) h (find-line_end c s k e)

find-here : (s : Bytes) → find blank_line (blank_line ++ s) ≡ some 0
unfolding find starts_with
find-here s = refl

length-line : (a s : Bytes) → length (a ++ (crlf ++ s)) ≡ length a + suc (suc (length s))
length-line a s = omega (arith, length-append a (crlf ++ s))

-- Four lines with line ends between them.
abbrev four_lines : Bytes → Bytes → Bytes → Bytes → Bytes
four_lines a b c d = a ++ (crlf ++ (b ++ (crlf ++ (c ++ (crlf ++ d)))))

pub four_lines-append :
    (a b c d s : Bytes)
    → four_lines a b c d ++ s ≡ a ++ (crlf ++ (b ++ (crlf ++ (c ++ (crlf ++ (d ++ s))))))
four_lines-append a b c d s = simp append_assoc

abbrev pub is_line : Bytes → Bool
is_line [] = false
is_line (c ∷ cs) = no_cr (c ∷ cs)

pub find-four_lines :
    (a : Bytes) (b : Bytes) (c : Bytes) (d s : Bytes)
    → no_cr a ≡ true
    → is_line b ≡ true
    → is_line c ≡ true
    → is_line d ≡ true
    → find blank_line (four_lines a b c d ++ (blank_line ++ s)) ≡ some (length (four_lines a b c d))
find-four_lines a [] c d s ha hb hc hd = cc
find-four_lines a (x ∷ b) [] d s ha hb hc hd = cc
find-four_lines a (x ∷ b) (y ∷ c) [] s ha hb hc hd = cc
find-four_lines a (x ∷ b) (y ∷ c) (z ∷ d) s ha hb hc hd =
    let px : (x == 13) ≡ false = ground arith in
    let py : (y == 13) ≡ false = ground arith in
    let pz : (z == 13) ≡ false = ground arith in
    ap (find blank_line) (four_lines-append a (x ∷ b) (y ∷ c) (z ∷ d) (blank_line ++ s))
    ∙ find-before a x _ ha px (
        find-before (x ∷ b) y _ hb py
          (find-before (y ∷ c) z _ hc pz (find-line (z ∷ d) (blank_line ++ s) hd (find-here s))))
    ∙ ap some (
        omega (
          arith,
          length-line a ((x ∷ b) ++ (crlf ++ ((y ∷ c) ++ (crlf ++ z ∷ d)))),
          length-line b ((y ∷ c) ++ (crlf ++ z ∷ d)),
          length-line c (z ∷ d),
        ))

pub header_lines-four_lines :
    (a b c d : Bytes)
    → no_cr a ≡ true
    → no_cr b ≡ true
    → no_cr c ≡ true
    → is_line d ≡ true
    → header_lines (four_lines a b c d) ≡ a ∷ b ∷ c ∷ d ∷ []
header_lines-four_lines a b c [] ha hb hc hd = cc
header_lines-four_lines a b c (z ∷ d) ha hb hc hd =
    header_lines-line a _ ha
    ∙ ap (◌∷◌ a) (
        header_lines-line b _ hb
        ∙ ap (◌∷◌ b) (header_lines-line c (z ∷ d) hc ∙ ap (◌∷◌ c) (header_lines-last z d hd)))
