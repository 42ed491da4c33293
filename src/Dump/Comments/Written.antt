-- ===== src/Dump/Comments/Written.antt =====
-- RemoveComments of docs/parse_and_dump.cpp on the texts that ToString writes.
use selfserv.Base.{
  ℕ, ◌≡◌, refl, ap, ◌∙◌, Bool, true, false, not, ◌&&◌, [], ◌∷◌, ◌++◌, ◌==◌, Bytes, arith,
  append-nil, append_assoc, inl, inr, codes, all_digits,
}
use selfserv.Json.Value.{
  JsonValue, Values, Members, null, bool, number, string, array, object, no_values, value,
  no_members, member,
}
use selfserv.Json.Floats.{Floats}
use selfserv.Json.Print.{
  escape_byte, escape, string_text, separator, to_string, values_text, members_text,
}
use selfserv.Json.Numeral.{IsNumeral, IsMinus, IsWhole, IsFraction, IsDigits, IsSigned, IsExponent}
use selfserv.Json.Literal.{is_plain, all_plain}
use selfserv.Json.Writable.{IsWritable, AreWritable, MembersWritable}
use selfserv.Dump.Comments.{start, next_of, scan, remove_comments}
use selfserv.Dump.Comments.States.{
  string_state, comments, scan-string_end, scan-string, scan-quote, scan-outside,
}

-- A text that is kept whole, whatever follows it, and that leaves the loop outside of strings.
abbrev pub IsKept : Bytes → Type 0
IsKept s = (rest : Bytes) → scan false start (s ++ rest) ≡ s ++ scan false start rest

IsKept-append : (s t : Bytes) → IsKept s → IsKept t → IsKept (s ++ t)
IsKept-append s t h k rest = rw (append_assoc, append_assoc, h, k)

abbrev is_bare : ℕ → Bool
is_bare c = not (c == b'"') && not (c == b'/')

abbrev all_bare : Bytes → Bool
all_bare [] = true
all_bare (c ∷ cs) = is_bare c && all_bare cs

bare-IsKept : (s : Bytes) → all_bare s ≡ true → IsKept s
bare-IsKept [] h rest = refl
bare-IsKept (c ∷ cs) h rest =
    let plain : (c == b'"') ≡ false = ground arith in
    let none : comments c (next_of (cs ++ rest)) ≡ false = ground arith in
    scan-outside c (cs ++ rest) plain none ∙ ap (◌∷◌ c) (bare-IsKept cs (ground arith) rest)

all_bare-append : (s t : Bytes) → all_bare s ≡ true → all_bare t ≡ true → all_bare (s ++ t) ≡ true
all_bare-append [] t h k = k
all_bare-append (c ∷ cs) t h k = ground (arith, all_bare-append cs t)

all_digits-bare : (s : Bytes) → all_digits s ≡ true → all_bare s ≡ true
all_digits-bare [] h = refl
all_digits-bare (c ∷ cs) h = ground (arith, all_digits-bare cs)

digits-bare : (s : Bytes) → IsDigits s → all_bare s ≡ true
digits-bare [] h = absurd h
digits-bare (c ∷ cs) h = ground (arith, all_digits-bare cs)

minus-bare : (s : Bytes) → IsMinus s → all_bare s ≡ true
minus-bare [] h = refl
minus-bare (c ∷ []) h = rw h refl
minus-bare (c ∷ d ∷ cs) h = absurd h

whole-bare : (s : Bytes) → IsWhole s → all_bare s ≡ true
whole-bare [] h = absurd h
whole-bare (c ∷ []) h = ground arith
whole-bare (c ∷ d ∷ cs) h = all_digits-bare (c ∷ d ∷ cs) h.1

fraction-bare : (s : Bytes) → IsFraction s → all_bare s ≡ true
fraction-bare [] h = refl
fraction-bare (c ∷ cs) h = rw (h.0, digits-bare cs h.1) refl

signed-bare : (s : Bytes) → IsSigned s → all_bare s ≡ true
signed-bare [] h = absurd h
signed-bare (c ∷ cs) (inl h) = digits-bare (c ∷ cs) h
signed-bare (c ∷ cs) (inr (h, k)) = ground (arith, digits-bare cs k)

exponent-bare : (s : Bytes) → IsExponent s → all_bare s ≡ true
exponent-bare [] h = refl
exponent-bare (c ∷ cs) h = ground (arith, signed-bare cs h.1)

numeral-bare : {s : Bytes} → IsNumeral s → all_bare s ≡ true
numeral-bare n = rw n.parts (
    all_bare-append n.minus _ (minus-bare n.minus n.minus_form) (
      all_bare-append n.whole _ (whole-bare n.whole n.whole_form) (
        all_bare-append n.fraction n.exponent (fraction-bare n.fraction n.fraction_form)
          (exponent-bare n.exponent n.exponent_form))))

scan-escape_byte :
    (c : ℕ) (rest : Bytes)
    → scan false (string_state false) (escape_byte c ++ rest)
      ≡ escape_byte c ++ scan false (string_state false) rest
unfolding escape_byte scan
scan-escape_byte c rest = ground arith

scan-escape :
    (s rest : Bytes)
    → scan false (string_state false) (escape s ++ rest)
      ≡ escape s ++ scan false (string_state false) rest
unfolding escape
scan-escape [] rest = refl
scan-escape (c ∷ cs) rest =
    rw (append_assoc, scan-escape_byte c (escape cs ++ rest), scan-escape cs rest, append_assoc)

string_text-IsKept : (s : Bytes) → IsKept (string_text s)
unfolding string_text
string_text-IsKept s rest =
    rw (append_assoc, scan-quote, scan-escape, scan-string_end rest, append_assoc)

scan-plain :
    (s rest : Bytes)
    → all_plain s ≡ true
    → scan false (string_state false) (s ++ rest) ≡ s ++ scan false (string_state false) rest
unfolding is_plain
scan-plain [] rest h = refl
scan-plain (c ∷ cs) rest h =
    let slash : (c == b'\\') ≡ false = ground arith in
    let quote : (c == b'"') ≡ false = ground arith in
    scan-string c (cs ++ rest) slash quote ∙ ap (◌∷◌ c) (scan-plain cs rest (ground arith))

key-IsKept :
    (k s : Bytes) → all_plain k ≡ true → IsKept s → IsKept (b'"' ∷ (k ++ b'"' ∷ b':' ∷ b' ' ∷ s))
key-IsKept k s plain kept rest =
    let behind : IsKept (b':' ∷ b' ' ∷ s) =
      IsKept-append (codes ": ") s (bare-IsKept (codes ": ") refl) kept in
    rw (
      append_assoc,
      scan-quote,
      scan-plain k (b'"' ∷ b':' ∷ b' ' ∷ (s ++ rest)) plain,
      scan-string_end (b':' ∷ b' ' ∷ (s ++ rest)),
      behind rest,
      append_assoc,
    )

separator-IsKept : (first : Bool) → IsKept (separator first)
separator-IsKept true = bare-IsKept [] refl
separator-IsKept false = bare-IsKept (codes ", ") refl

module _ {D : Type 0} (F : Floats D) where
  open F use {show}

  mutual
    unfolding to_string

    to_string-IsKept : (v : JsonValue D) → IsWritable F v → IsKept (to_string F v)
    to_string-IsKept null w = bare-IsKept (codes "null") refl
    to_string-IsKept (bool true) w = bare-IsKept (codes "true") refl
    to_string-IsKept (bool false) w = bare-IsKept (codes "false") refl
    to_string-IsKept (number d) w = bare-IsKept (show d) (numeral-bare w.numeral)
    to_string-IsKept (string s) w = string_text-IsKept s
    to_string-IsKept (array vs) w =
        IsKept-append (codes "[") (values_text F true vs ++ codes "]")
          (bare-IsKept (codes "[") refl)
          (IsKept-append (values_text F true vs) (codes "]") (values_text-IsKept true vs w)
            (bare-IsKept (codes "]") refl))
    to_string-IsKept (object ms) w =
        IsKept-append (codes "{") (members_text F true ms ++ codes "}")
          (bare-IsKept (codes "{") refl)
          (IsKept-append (members_text F true ms) (codes "}") (members_text-IsKept true ms w.1)
            (bare-IsKept (codes "}") refl))

    values_text-IsKept :
        (first : Bool) (vs : Values D) → AreWritable F vs → IsKept (values_text F first vs)
    values_text-IsKept first no_values w = bare-IsKept [] refl
    values_text-IsKept first (value v vs) w =
        IsKept-append (separator first) (to_string F v ++ values_text F false vs)
          (separator-IsKept first)
          (IsKept-append (to_string F v) (values_text F false vs) (to_string-IsKept v w.0)
            (values_text-IsKept false vs w.1))

    members_text-IsKept :
        (first : Bool) (ms : Members D) → MembersWritable F ms → IsKept (members_text F first ms)
    members_text-IsKept first no_members w = bare-IsKept [] refl
    members_text-IsKept first (member k v ms) w =
        IsKept-append (separator first)
          (b'"' ∷ (k ++ b'"' ∷ b':' ∷ b' ' ∷ (to_string F v ++ members_text F false ms)))
          (separator-IsKept first)
          (key-IsKept k (to_string F v ++ members_text F false ms) w.0 (
            IsKept-append (to_string F v) (members_text F false ms) (to_string-IsKept v w.1)
              (members_text-IsKept false ms w.2)))

  -- What ToString writes of a writable value, RemoveComments leaves as it is.
  pub remove_comments-to_string :
      (v : JsonValue D) → IsWritable F v → remove_comments (to_string F v) ≡ to_string F v
  unfolding remove_comments
  remove_comments-to_string v w = rw append-nil at (to_string-IsKept v w [])
