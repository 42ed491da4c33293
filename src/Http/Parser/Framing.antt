-- ===== src/Http/Parser/Framing.antt =====
-- A body that is framed by its Content-Length.
use selfserv.Base.{
  ℕ, ◌+◌, ◌-◌, ◌%◌, ◌≤◌, ◌<◌, ◌≡◌, ◌⊎◌, inl, inr, true, false, Bool-cases, leb→le, leb, ltb, Bytes,
  length, take, drop, arith,
}
use selfserv.Base.Int.{size_mod}
use selfserv.Http.Request.{HttpRequest, HttpRequestParser, done}
use selfserv.Http.Parser.{returned, sub_size, length_body}

mod-add : (a b : ℕ) → b ≤ a → a < size_mod → (a + size_mod - b) % size_mod ≡ a - b
mod-add a b h l = let e : a + size_mod - b ≡ a - b + size_mod = omega arith in rw e (omega arith)

-- In a call the difference of two lengths does not wrap.
pub sub_size-le : (a b : ℕ) → b ≤ a → a < size_mod → sub_size a b ≡ a - b
sub_size-le a b h l = ground (arith, mod-add a b h l)

pub le-or-lt : (a b : ℕ) → (a ≤ b) ⊎ (b < a)
le-or-lt a b = elim (Bool-cases (leb a b)) [
  | inl le ↦ inl (leb→le a b le)
  | inr gt ↦ inr (ground arith)
]

-- Where all the bytes of the body are there, the call is complete.
pub length_body-fits :
    (input : Bytes) (p : HttpRequestParser) (req : HttpRequest)
    → length input < size_mod
    → p.header_end_offset ≤ length input
    → p.content_length ≤ length input - p.header_end_offset
    → length_body input p req
      ≡ returned
          (record p { consumed = p.header_end_offset + p.content_length; state = done })
          (record req {
            body = take p.content_length (drop p.header_end_offset input);
            complete = true;
          })
          true
unfolding length_body
length_body-fits input p req l h fits =
    let reads : leb p.content_length (sub_size (length input) p.header_end_offset) ≡ true =
      ground (arith, sub_size-le (length input) p.header_end_offset h l) in
    let within : ltb (length input) p.header_end_offset ≡ false = ground arith in rw (reads, within)

-- Where one is missing, nothing changes.
pub length_body-waits :
    (input : Bytes) (p : HttpRequestParser) (req : HttpRequest)
    → length input < size_mod
    → p.header_end_offset ≤ length input
    → length input - p.header_end_offset < p.content_length
    → length_body input p req ≡ returned p req req.complete
unfolding length_body
length_body-waits input p req l h waits =
    let stays : leb p.content_length (sub_size (length input) p.header_end_offset) ≡ false =
      ground (arith, sub_size-le (length input) p.header_end_offset h l) in
    rw stays
