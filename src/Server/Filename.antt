-- ===== src/Server/Filename.antt =====
-- sanitizeFilename of docs/server/Server.cpp: the name under which an upload is stored.
use selfserv.Base.{
  ℕ, Bool, true, false, ◌||◌, ◌&&◌, not, [], ◌∷◌, ◌++◌, ◌==◌, ltb, if◌then◌else◌, Bytes, codes, ◌≡◌,
  refl, inl, inr, Bool-cases, &&-split,
}

abbrev pub is_slash : ℕ → Bool
is_slash c = c == b'/' || c == b'\\'

-- in.substr(start), where `start` is behind the last slash; `name` is what has been read since then.
unfoldable pub behind_slash : Bytes → Bytes → Bytes
behind_slash name [] = name
behind_slash name (c ∷ cs) = behind_slash (if is_slash c then [] else name ++ c ∷ []) cs

-- The bytes that the second loop leaves out.
abbrev pub is_dropped : ℕ → Bool
is_dropped c = c == b'\r' || c == b'\n' || ltb c 32 || c == b'"'

unfoldable pub clean_of : Bytes → Bytes
clean_of [] = []
clean_of (c ∷ cs) = let others = clean_of cs in if is_dropped c then others else c ∷ others

abbrev or_default : Bytes → Bytes
or_default [] = codes "upload.bin"
or_default (c ∷ cs) = c ∷ cs

unfoldable pub sanitize_filename : Bytes → Bytes
unfolding behind_slash clean_of
sanitize_filename input = or_default (clean_of (behind_slash [] input))

abbrev pub is_safe : ℕ → Bool
is_safe c = not (is_slash c) && not (is_dropped c)

abbrev pub all_safe : Bytes → Bool
all_safe [] = true
all_safe (c ∷ cs) = is_safe c && all_safe cs

abbrev is_name : Bytes → Bool
is_name [] = true
is_name (c ∷ cs) = not (is_slash c) && is_name cs

-- A stored name: at least one byte, all of them safe.
abbrev pub is_safe_name : Bytes → Bool
is_safe_name [] = false
is_safe_name (c ∷ cs) = all_safe (c ∷ cs)

is_name-append :
    (a : Bytes) (c : ℕ) → is_name a ≡ true → is_slash c ≡ false → is_name (a ++ c ∷ []) ≡ true
is_name-append [] c h k = rw k refl
is_name-append (x ∷ a) c h k =
    let (first, others) = &&-split (not (is_slash x)) (is_name a) h in
    rw (first, is_name-append a c others k) refl

is_name-behind_slash : (name s : Bytes) → is_name name ≡ true → is_name (behind_slash name s) ≡ true
unfolding behind_slash
is_name-behind_slash name [] h = h
is_name-behind_slash name (c ∷ cs) h = elim (Bool-cases (is_slash c)) [
  | inl slash ↦ rw slash (is_name-behind_slash [] cs refl)
  | inr plain ↦ rw plain (is_name-behind_slash (name ++ c ∷ []) cs (is_name-append name c h plain))
]

all_safe-clean_of : (s : Bytes) → is_name s ≡ true → all_safe (clean_of s) ≡ true
unfolding clean_of
all_safe-clean_of [] h = refl
all_safe-clean_of (c ∷ cs) h =
    let (first, others) = &&-split (not (is_slash c)) (is_name cs) h in
    elim (Bool-cases (is_dropped c)) [
      | inl out ↦ rw out (all_safe-clean_of cs others)
      | inr kept ↦ rw kept (rw (first, kept, all_safe-clean_of cs others) refl)
    ]

or_default-safe : (s : Bytes) → all_safe s ≡ true → is_safe_name (or_default s) ≡ true
or_default-safe [] h = refl
or_default-safe (c ∷ cs) h = h

-- The stored name is never empty, and has no slash or backslash, no quotation mark and no byte
-- below 32.
pub sanitize_filename-safe : (s : Bytes) → is_safe_name (sanitize_filename s) ≡ true
unfolding sanitize_filename
sanitize_filename-safe s =
    or_default-safe (clean_of (behind_slash [] s))
      (all_safe-clean_of (behind_slash [] s) (is_name-behind_slash [] s refl))
