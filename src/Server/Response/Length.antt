-- ===== src/Server/Response/Length.antt =====
-- The Content-Length of a response, read as HttpRequestParser reads one.
use selfserv.Base.{
  is_space, ℕ, ◌<◌, ◌^◌, ◌≡◌, refl, ap, ◌∙◌, true, false, &&-split, some, [], ◌∷◌, ◌++◌, ◌==◌,
  Bytes, codes, equal, find_char, length, all_digits, is_digit, arith, leb,
}
use selfserv.Base.Int.{
  long_limit, pos, atoi, signed_value, to_int, skip_blank, digits_value, to_size,
}
use selfserv.Base.Decimal.{to_int-pos, to_decimal, all_digits-to_decimal, digits_value-to_decimal}
use selfserv.Http.Request.{HttpHeader, HttpRequest, HttpRequestParser}
use selfserv.Http.Head.{
  trim, trim_start, trim_end, read_header, take_header, note_header, split_at, is_blank,
}
use selfserv.Server.Response.{length_line}

trim_end-digits : (s : Bytes) → all_digits s ≡ true → trim_end s ≡ s
unfolding trim_end
trim_end-digits [] h = refl
trim_end-digits (c ∷ []) h = let plain : is_blank c ≡ false = ground arith in rw plain
trim_end-digits (c ∷ d ∷ s) h =
    let (first, others) = &&-split (is_digit c) (all_digits (d ∷ s)) h in
    rw (trim_end-digits (d ∷ s) others)

trim_start-digits : (s : Bytes) → all_digits s ≡ true → trim_start s ≡ s
unfolding trim_start
trim_start-digits [] h = refl
trim_start-digits (c ∷ s) h = let plain : is_blank c ≡ false = ground arith in rw plain

trim-digits : (s : Bytes) → all_digits s ≡ true → trim (32 ∷ s) ≡ s
unfolding trim
trim-digits s h = ap trim_end (unfold trim_start in trim_start-digits s h) ∙ trim_end-digits s h

signed_value-digits :
    (c : ℕ) (s : Bytes)
    → is_digit c ≡ true
    → digits_value 0 (c ∷ s) < 2 ^ 31
    → signed_value (c ∷ s) ≡ pos (digits_value 0 (c ∷ s))
unfolding signed_value
signed_value-digits c s h l =
    let minus : (c == b'-') ≡ false = ground arith in
    let plus : (c == b'+') ≡ false = ground arith in
    let fits : leb long_limit (digits_value 0 (c ∷ s)) ≡ false = ground arith in
    rw (minus, plus, fits)

skip_blank-digit : (c : ℕ) (s : Bytes) → is_digit c ≡ true → skip_blank (c ∷ s) ≡ c ∷ s
unfolding skip_blank
skip_blank-digit c s h = let plain : is_space c ≡ false = ground arith in rw plain

-- A number below 2 ^ 31 is read by atoi from its digits.
atoi-digits :
    (s : Bytes) → all_digits s ≡ true → digits_value 0 s < 2 ^ 31 → atoi s ≡ pos (digits_value 0 s)
unfolding atoi
atoi-digits [] h l =
    unfold skip_blank in unfold signed_value in unfold digits_value in to_int-pos 0 (omega arith)
atoi-digits (c ∷ s) h l =
    let digit = (&&-split (is_digit c) (all_digits s) h).0 in
    ap (λ t. to_int (signed_value t)) (skip_blank-digit c s digit)
    ∙ ap to_int (signed_value-digits c s digit l)
    ∙ to_int-pos (digits_value 0 (c ∷ s)) l

abbrev length_header : Bytes → HttpHeader
length_header body = record { name = codes "Content-Length"; value = to_decimal (length body) }

split_at-length_line :
    (body : Bytes)
    → split_at b':' (length_line body)
      ≡ some (codes "Content-Length", 32 ∷ to_decimal (length body))
unfolding split_at find_char length_line
split_at-length_line body = refl

note_header-length :
    (body : Bytes) (p : HttpRequestParser)
    → length body < 2 ^ 31
    → note_header (length_header body) p ≡ record p { content_length = length body }
unfolding note_header equal to_size
note_header-length body p h =
    let value = digits_value-to_decimal (length body) in
    let read =
      atoi-digits (to_decimal (length body)) (all_digits-to_decimal (length body))
        (omega (arith, value)) in
    ap (λ n. record p { content_length = to_size n }) (read ∙ ap pos value)

-- HttpRequestParser's reading of the Content-Length line of a response: where the body has fewer than
-- 2 ^ 31 bytes, the length that it notes is the body's.
pub read_header-length_line :
    (body : Bytes) (p : HttpRequestParser) (req : HttpRequest)
    → length body < 2 ^ 31
    → read_header (length_line body) (p, req) ≡ (
      record p { content_length = length body },
      record req { headers = req.headers ++ length_header body ∷ [] },
    )
unfolding read_header take_header
read_header-length_line body p req h =
    ap (λ o. take_header o (p, req)) (split_at-length_line body)
    ∙ ap (λ v. take_value v)
        (trim-digits (to_decimal (length body)) (all_digits-to_decimal (length body)))
    ∙ ap (λ q. (q, record req { headers = req.headers ++ length_header body ∷ [] }))
        (note_header-length body p h)
  where
    take_value : Bytes → HttpRequestParser × HttpRequest
    take_value v =
        let header : HttpHeader = record { name = codes "Content-Length"; value = v } in
        (note_header header p, record req { headers = req.headers ++ header ∷ [] })
