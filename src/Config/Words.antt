-- ===== src/Config/Words.antt =====
-- The tokens of a line: the first loop of ConfigParser::ParseLine in docs/config/ConfigParser.cpp.
use selfserv.Base.{
  onto_first, ℕ, Bool, true, false, ◌||◌, not, List, [], ◌∷◌, ◌++◌, ◌==◌, ◌&&◌, if◌then◌else◌,
  Bytes, ◌≡◌, refl, ap, ◌∙◌, &&-split, append-nil, ◌≢◌,
}

abbrev pub is_separator : ℕ → Bool
is_separator c = c == b' ' || c == b'\t' || c == b'\n'

-- A byte of a word in front of `rest`, whose tokens are `others`.
abbrev onto_word : ℕ → Bytes → List Bytes → List Bytes
onto_word c [] others = (c ∷ []) ∷ others
onto_word c (d ∷ ds) others = if is_separator d then (c ∷ []) ∷ others else onto_first c others

unfoldable pub tokens : Bytes → List Bytes
tokens [] = []
tokens (c ∷ cs) = let others = tokens cs in if is_separator c then others else onto_word c cs others

-- A word has a byte, and no separator.
abbrev pub no_separator : Bytes → Bool
no_separator [] = true
no_separator (c ∷ cs) = not (is_separator c) && no_separator cs

abbrev pub is_word : Bytes → Bool
is_word [] = false
is_word (c ∷ cs) = no_separator (c ∷ cs)

abbrev pub all_separators : Bytes → Bool
all_separators [] = true
all_separators (c ∷ cs) = is_separator c && all_separators cs

-- A word, and the separators behind it.
abbrev pub Spaced : Type 0
Spaced = Bytes × Bytes

abbrev pub words_of : List Spaced → List Bytes
words_of [] = []
words_of ((w, gap) ∷ ws) = w ∷ words_of ws

abbrev pub line_of : List Spaced → Bytes
line_of [] = []
line_of ((w, gap) ∷ ws) = w ++ (gap ++ line_of ws)

-- There are any separators between two words, one at least; behind the last one there may be none.
abbrev pub AreSpaced : List Spaced → Type 0
AreSpaced [] = Unit
AreSpaced ((w, gap) ∷ []) = (is_word w ≡ true) × (all_separators gap ≡ true)
AreSpaced ((w, gap) ∷ next ∷ ws) =
    (is_word w ≡ true) × (all_separators gap ≡ true) × (gap ≢ []) × AreSpaced (next ∷ ws)

tokens-separators :
    (pad rest : Bytes) → all_separators pad ≡ true → tokens (pad ++ rest) ≡ tokens rest
unfolding tokens
tokens-separators [] rest h = refl
tokens-separators (c ∷ pad) rest h =
    let (sep, seps) = &&-split (is_separator c) (all_separators pad) h in
    rw sep (tokens-separators pad rest seps)

false_of_not : (b : Bool) → not b ≡ true → b ≡ false
false_of_not true h = cc
false_of_not false h = refl

tokens-inside :
    (c e : ℕ) (s : Bytes)
    → is_separator c ≡ false
    → is_separator e ≡ false
    → tokens (c ∷ e ∷ s) ≡ onto_first c (tokens (e ∷ s))
unfolding tokens
tokens-inside c e s hc he = rw (hc, he)

tokens-last :
    (c d : ℕ) (s : Bytes)
    → is_separator c ≡ false
    → is_separator d ≡ true
    → tokens (c ∷ d ∷ s) ≡ (c ∷ []) ∷ tokens s
unfolding tokens
tokens-last c d s hc hd = rw (hc, hd)

tokens-word :
    (w : Bytes) (d : ℕ) (rest : Bytes)
    → is_word w ≡ true
    → is_separator d ≡ true
    → tokens (w ++ d ∷ rest) ≡ w ∷ tokens rest
tokens-word [] d rest h k = cc
tokens-word (c ∷ []) d rest h k =
    tokens-last c d rest (false_of_not (is_separator c) (&&-split (not (is_separator c)) true h).0)
      k
tokens-word (c ∷ e ∷ w) d rest h k =
    let (first, others) = &&-split (not (is_separator c)) (no_separator (e ∷ w)) h in
    let second = (&&-split (not (is_separator e)) (no_separator w) others).0 in
    tokens-inside c e (w ++ d ∷ rest) (false_of_not (is_separator c) first)
      (false_of_not (is_separator e) second)
    ∙ ap (onto_first c) (tokens-word (e ∷ w) d rest others k)

tokens-pad : (pad : Bytes) → all_separators pad ≡ true → tokens pad ≡ []
unfolding tokens
tokens-pad [] h = refl
tokens-pad (c ∷ pad) h =
    let (sep, seps) = &&-split (is_separator c) (all_separators pad) h in
    rw sep (tokens-pad pad seps)

-- A word at the end of the line.
tokens-word_end : (w : Bytes) → is_word w ≡ true → tokens w ≡ w ∷ []
unfolding tokens
tokens-word_end [] h = cc
tokens-word_end (c ∷ []) h =
    rw (false_of_not (is_separator c) (&&-split (not (is_separator c)) true h).0) refl
tokens-word_end (c ∷ e ∷ w) h =
    let (first, others) = &&-split (not (is_separator c)) (no_separator (e ∷ w)) h in
    let second = (&&-split (not (is_separator e)) (no_separator w) others).0 in
    tokens-inside c e w (false_of_not (is_separator c) first) (false_of_not (is_separator e) second)
    ∙ ap (onto_first c) (tokens-word_end (e ∷ w) others)

tokens-gap :
    (w gap rest : Bytes)
    → is_word w ≡ true
    → all_separators gap ≡ true
    → gap ≢ []
    → tokens (w ++ (gap ++ rest)) ≡ w ∷ tokens rest
tokens-gap w [] rest h k some_gap = absurd (some_gap refl)
tokens-gap w (d ∷ gap) rest h k some_gap =
    let (first, others) = &&-split (is_separator d) (all_separators gap) k in
    tokens-word w d (gap ++ rest) h first ∙ ap (◌∷◌ w) (tokens-separators gap rest others)

tokens-last_word :
    (w gap : Bytes)
    → is_word w ≡ true
    → all_separators gap ≡ true
    → tokens (w ++ (gap ++ [])) ≡ w ∷ []
tokens-last_word w [] h k = ap tokens (append-nil w) ∙ tokens-word_end w h
tokens-last_word w (d ∷ gap) h k =
    tokens-gap w (d ∷ gap) [] h k (λ e. cc e) ∙ ap (◌∷◌ w) (tokens-pad [] refl)

tokens-line_of : (ws : List Spaced) → AreSpaced ws → tokens (line_of ws) ≡ words_of ws
tokens-line_of [] h = tokens-pad [] refl
tokens-line_of ((w, gap) ∷ []) h = tokens-last_word w gap h.0 h.1
tokens-line_of ((w, gap) ∷ next ∷ ws) h =
    tokens-gap w gap (line_of (next ∷ ws)) h.0 h.1 h.2 ∙ ap (◌∷◌ w) (tokens-line_of (next ∷ ws) h.3)

-- The tokens of words with any separators between them, one at least between two, are the words,
-- whether or not there are separators in front of them and behind them.
pub tokens-padded :
    (pad : Bytes) (ws : List Spaced)
    → all_separators pad ≡ true
    → AreSpaced ws
    → tokens (pad ++ line_of ws) ≡ words_of ws
tokens-padded pad ws p h = tokens-separators pad (line_of ws) p ∙ tokens-line_of ws h
