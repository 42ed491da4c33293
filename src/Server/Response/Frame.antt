-- ===== src/Server/Response/Frame.antt =====
-- How a response is framed: where its head ends, and what the headers say of the body.
use selfserv.Base.{
  ℕ, ◌+◌, ◌≡◌, refl, sym, ap, ◌∙◌, Bool, true, false, some, [], ◌∷◌, ◌++◌, if◌then◌else◌, Bytes,
  crlf, find, length, take, drop, take-append_self, drop-append_self,
}
use selfserv.Base.Decimal.{to_decimal, all_digits-to_decimal}
use selfserv.Http.Head.{header_lines}
use selfserv.Http.Parser.{blank_line}
use selfserv.Server.Response.{connection_line, status_line, length_line, type_line, build_response}
use selfserv.Server.Response.Lines.{
  no_cr, no_cr-append, no_cr_of_digits, four_lines-append, is_line, find-four_lines,
  header_lines-four_lines,
}

-- The head of a response: its four lines, with line ends between them.
abbrev pub head_of : ℕ → Bytes → Bytes → Bytes → Bool → Bytes
head_of code reason body ctype keep_alive =
    status_line code reason
    ++ (crlf
        ++ (length_line body
            ++ (crlf ++ (type_line ctype ++ (crlf ++ connection_line keep_alive)))))

status_line-no_cr :
    (code : ℕ) (reason : Bytes) → no_cr reason ≡ true → no_cr (status_line code reason) ≡ true
unfolding status_line
status_line-no_cr code reason h =
    no_cr-append (to_decimal code) (32 ∷ reason)
      (no_cr_of_digits (to_decimal code) (all_digits-to_decimal code)) h

length_line-no_cr : (body : Bytes) → no_cr (length_line body) ≡ true
unfolding length_line
length_line-no_cr body = no_cr_of_digits (to_decimal n) (all_digits-to_decimal n)
  where
    n : ℕ
    n = length body

length_line-is_line : (body : Bytes) → is_line (length_line body) ≡ true
unfolding length_line
length_line-is_line body = no_cr_of_digits (to_decimal n) (all_digits-to_decimal n)
  where
    n : ℕ
    n = length body

response-four_lines :
    (code : ℕ) (reason body ctype : Bytes) (keep_alive head_only : Bool)
    → build_response code reason body ctype keep_alive head_only
      ≡ head_of code reason body ctype keep_alive
        ++ (blank_line ++ (if head_only then [] else body))
unfolding build_response
response-four_lines code reason body ctype keep_alive head_only = sym (
    four_lines-append (status_line code reason) (length_line body) (type_line ctype)
      (connection_line keep_alive) (blank_line ++ (if head_only then [] else body)))

connection_line-is_line : (keep : Bool) → is_line (connection_line keep) ≡ true
connection_line-is_line true = refl
connection_line-is_line false = refl

-- Where the reason and the type have no carriage return: the first blank line of a response is the
-- end of its head, behind it there is the body (nothing for HEAD), and the head is read as four lines.
pub response-frame :
    (code : ℕ) (reason body ctype : Bytes) (keep_alive head_only : Bool)
    → no_cr reason ≡ true
    → no_cr ctype ≡ true
    → (end : ℕ) × (find blank_line (build_response code reason body ctype keep_alive head_only)
        ≡ some end)
      × (drop (end + 4) (build_response code reason body ctype keep_alive head_only)
          ≡ (if head_only then [] else body))
      × (header_lines (take end (build_response code reason body ctype keep_alive head_only))
          ≡ status_line code reason
            ∷ length_line body
            ∷ type_line ctype
            ∷ connection_line keep_alive
            ∷ [])
response-frame code reason body ctype keep_alive head_only hr ht =
    let a = status_line code reason in
    let b = length_line body in
    let d = connection_line keep_alive in
    let head = head_of code reason body ctype keep_alive in
    let rest : Bytes = if head_only then [] else body in
    let whole = response-four_lines code reason body ctype keep_alive head_only in
    let ha = status_line-no_cr code reason hr in
    let hb = length_line-no_cr body in
    let hd = connection_line-is_line keep_alive in
    (
      length head,
      ap (find blank_line) whole
          ∙ find-four_lines a b (type_line ctype) d rest ha (length_line-is_line body) ht hd,
      ap (drop (length head + 4)) whole ∙ drop-append_self 4 head (blank_line ++ rest),
      ap (λ s. header_lines (take (length head) s)) whole
          ∙ ap header_lines (take-append_self head (blank_line ++ rest))
          ∙ header_lines-four_lines a b (type_line ctype) d ha hb ht hd,
    )
