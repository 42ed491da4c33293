-- ===== src/Http/Chunks/Progress.antt =====
-- The chunk loop: what each round keeps, and that the loop ends.
use selfserv.Base.{
  ℕ, zero, suc, ◌+◌, ◌-◌, ◌≤◌, ◌<◌, ◌≡◌, refl, sym, ◌∙◌, inl, inr, Bool, true, false, Option, none,
  some, [], ◌∷◌, ◌==◌, ◌&&◌, if◌then◌else◌, Bytes, crlf, find, length, take, drop, length-drop,
  drop-drop, arith, Bool-cases,
}
use selfserv.Base.Find.{find-le}
use selfserv.Http.Request.{
  ChunkState, chunk_size, chunk_data, chunk_crlf, chunk_trailer, chunk_done, error, body,
}
use selfserv.Http.Chunks.{
  Cursor, Round, again, left, failed, hex_value, size_line, size_at, size_round, end_of_chunk,
  next_round, data_round, to_take, round_at, one_round, Loop, finished, stopped, out_of_fuel,
  chunk_loop,
}

-- The states between two rounds: kChunkCRLF is never assigned, and kChunkDone only behind the loop.
abbrev pub IsOpen : ChunkState → Type 0
IsOpen chunk_crlf = ⊥
IsOpen chunk_done = ⊥
IsOpen _ = Unit

-- The cursor is at its position in the input, and that is what has been consumed.
pub record IsAt (input : Bytes) (s : Cursor) : Type 0 where
  pub rest_is : s.rest ≡ drop s.p input
  pub consumed_is : s.parser.consumed ≡ s.p
  pub within : s.p ≤ length input
  pub in_body :
      (s.parser.state ≡ body) × (s.parser.chunked ≡ true) × (4 ≤ s.parser.header_end_offset)
  pub head_le : s.parser.header_end_offset ≤ s.p
  pub state_is : IsOpen s.parser.chunk_state
  pub read_le : s.parser.current_chunk_read ≤ s.parser.current_chunk_size

pub length-rest : (input : Bytes) (s : Cursor) → IsAt input s → length s.rest ≡ length input - s.p
length-rest input s h = rw h.rest_is (length-drop s.p input)

-- A round that goes on leaves fewer bytes.
abbrev pub RoundIsAt : Bytes → Cursor → Round → Type 0
RoundIsAt input s (again t) = IsAt input t × (length t.rest < length s.rest)
RoundIsAt input s (left t) = IsAt input t
RoundIsAt input s (failed t) = t.parser.state ≡ error

-- A cursor moved on by `n` bytes.
IsAt-advance :
    (input : Bytes) (s : Cursor) (n : ℕ) (t : Cursor)
    → IsAt input s
    → n ≤ length s.rest
    → t.p ≡ s.p + n
    → t.rest ≡ drop n s.rest
    → t.parser.consumed ≡ s.p + n
    → (t.parser.state ≡ body) × (t.parser.chunked ≡ true) × (4 ≤ t.parser.header_end_offset)
    → t.parser.header_end_offset ≡ s.parser.header_end_offset
    → IsOpen t.parser.chunk_state
    → t.parser.current_chunk_read ≤ t.parser.current_chunk_size
    → IsAt input t
IsAt-advance input s n t h l ep er ec in_body head state le = record {
  rest_is = rw (er, ep, h.rest_is) (drop-drop s.p n input);
  consumed_is = ec ∙ sym ep;
  within = omega (arith, length-rest input s h);
  in_body = in_body;
  head_le = omega (arith, h.head_le);
  state_is = state;
  read_le = le;
}

if-IsOpen : (b : Bool) → IsOpen (if b then chunk_trailer else chunk_data)
if-IsOpen true = tt
if-IsOpen false = tt

size_line-IsAt :
    (input : Bytes) (i : ℕ) (val : Option ℕ) (s : Cursor)
    → IsAt input s
    → i + 2 ≤ length s.rest
    → RoundIsAt input s (size_line i val s)
unfolding size_line
size_line-IsAt input i none s h l = refl
size_line-IsAt input i (some val) s h l = (
  IsAt-advance input s (i + 2) _ h l refl refl refl h.in_body refl (if-IsOpen (val == 0))
      (omega arith),
  omega (arith, length-drop (i + 2) s.rest),
)

size_at-IsAt :
    (input : Bytes) (found : Option ℕ) (s : Cursor)
    → IsAt input s
    → find crlf s.rest ≡ found
    → RoundIsAt input s (size_at found s)
size_at-IsAt input none s h e = h
size_at-IsAt input (some i) s h e =
    size_line-IsAt input i (hex_value 0 (take i s.rest)) s h (find-le crlf s.rest e)

end_of_chunk-IsAt :
    (input rest : Bytes) (s t : Cursor)
    → IsAt input s
    → s.rest ≡ rest
    → length rest ≤ length t.rest
    → RoundIsAt input t (end_of_chunk rest s)
unfolding end_of_chunk
end_of_chunk-IsAt input [] s t h e l = h
end_of_chunk-IsAt input (c ∷ []) s t h e l = h
end_of_chunk-IsAt input (c ∷ d ∷ cs) s t h e l = elim (Bool-cases (c == 13 && d == 10)) [
  | inl ends ↦ rw ends (
    IsAt-advance input s 2 _ h (rw e (omega arith)) refl (rw e refl) refl h.in_body refl tt
        h.read_le,
    omega arith,
  )
  | inr wrong ↦ rw wrong refl
]

data_round-IsAt :
    (input : Bytes) (n : ℕ) (s : Cursor)
    → IsAt input s
    → n ≤ length s.rest
    → s.parser.current_chunk_read + n ≤ s.parser.current_chunk_size
    → RoundIsAt input s (data_round n s)
unfolding data_round
data_round-IsAt input n s h l k =
    elim (Bool-cases (s.parser.current_chunk_read + n == s.parser.current_chunk_size)) [
      | inl full ↦ rw full (
          end_of_chunk-IsAt input (drop n s.rest) _ s
            (IsAt-advance input s n _ h l refl refl refl h.in_body refl h.state_is k) refl
            (omega (arith, length-drop n s.rest)))
      | inr part ↦ rw part (IsAt-advance input s n _ h l refl refl refl h.in_body refl h.state_is k)
    ]

pub to_take_bounds :
    (s : Cursor)
    → s.parser.current_chunk_read ≤ s.parser.current_chunk_size
    → (to_take s ≤ length s.rest)
      × (s.parser.current_chunk_read + to_take s ≤ s.parser.current_chunk_size)
to_take_bounds s h = ground arith

round_at-IsAt :
    (input : Bytes) (state : ChunkState) (s : Cursor)
    → IsAt input s
    → IsOpen state
    → RoundIsAt input s (round_at state s)
unfolding round_at size_round
round_at-IsAt input chunk_size s h n = size_at-IsAt input (find crlf s.rest) s h refl
round_at-IsAt input chunk_data s h n =
    let (fits, needed) = to_take_bounds s h.read_le in
    data_round-IsAt input (to_take s) s h fits needed
round_at-IsAt input chunk_crlf s h n = absurd n
round_at-IsAt input chunk_trailer s h n = h
round_at-IsAt input chunk_done s h n = h

pub one_round-IsAt :
    (input : Bytes) (s : Cursor) → IsAt input s → RoundIsAt input s (one_round s.rest s)
one_round-IsAt input s h = go s.rest
  where
    go : (r : Bytes) → RoundIsAt input s (one_round r s)
    go [] = unfold one_round in h
    go (c ∷ cs) = unfold one_round in round_at-IsAt input s.parser.chunk_state s h h.state_is

abbrev pub LoopIsAt : Bytes → Loop → Type 0
LoopIsAt input (finished t) = IsAt input t
LoopIsAt input (stopped t) = t.parser.state ≡ error
LoopIsAt input out_of_fuel = ⊥

next_round-IsAt :
    (input : Bytes) (s : Cursor) (loop : Cursor → Loop) (r : Round)
    → ((t : Cursor) → IsAt input t → length t.rest < length s.rest → LoopIsAt input (loop t))
    → RoundIsAt input s r
    → LoopIsAt input (next_round loop r)
next_round-IsAt input s loop (again t) k h = k t h.0 h.1
next_round-IsAt input s loop (left t) k h = h
next_round-IsAt input s loop (failed t) k h = h

-- The loop ends within as many rounds as there are bytes, and one more.
pub chunk_loop-IsAt :
    (f : ℕ) (input : Bytes) (s : Cursor)
    → IsAt input s
    → length s.rest < f
    → LoopIsAt input (chunk_loop f s)
unfolding chunk_loop
chunk_loop-IsAt zero input s h l = absurd (omega arith)
chunk_loop-IsAt (suc f) input s h l =
    next_round-IsAt input s (chunk_loop f) (one_round s.rest s)
      (λ t ht lt. chunk_loop-IsAt f input t ht (omega arith)) (one_round-IsAt input s h)
