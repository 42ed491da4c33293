-- ===== src/Http/Chunks/Resume.antt =====
-- A round of the chunk loop when more of the body has arrived: it is the round over the longer
-- input, so that the loop can be left and taken up again.
use selfserv.Base.{
  ℕ, ◌+◌, ◌≤◌, ◌≡◌, refl, sym, ap, ◌∙◌, inl, inr, true, ◌&&◌, Option, none, some, [], ◌∷◌, ◌++◌,
  ◌==◌, Bytes, crlf, find, length, take, drop, length-drop, arith, Bool-cases, length-append,
  drop-append_of_le, take-append_of_le, drop-drop-append, take-take-append, append_assoc,
  append-nil,
}
use native.Mathlib.Nat.{add_assoc}
use selfserv.Base.Find.{find-le, find-append}
use selfserv.Http.Request.{
  ChunkState, chunk_size, chunk_data, chunk_crlf, chunk_trailer, chunk_done,
}
use selfserv.Http.Chunks.{
  Cursor, Round, again, left, failed, hex_value, size_line, size_at, size_round, end_of_chunk,
  advance, after_data, data_round, to_take, is_full, round_at, one_round,
}
use selfserv.Http.Chunks.Progress.{IsAt, to_take_bounds}

-- The cursor with more bytes behind its input.
abbrev pub extend : Bytes → Cursor → Cursor
extend m s = record s { rest = s.rest ++ m }

abbrev pub round : Cursor → Round
round s = one_round s.rest s

-- The round over the longer input goes the same way; where it was left, it is taken up.
abbrev pub Extends : Bytes → Cursor → Round → Type 0
Extends m s (again t) = round (extend m s) ≡ again (extend m t)
Extends m s (left t) = round (extend m t) ≡ round (extend m s)
Extends m s (failed t) = round (extend m s) ≡ failed (extend m t)

advance-extend :
    (m : Bytes) (n k : ℕ) (s : Cursor)
    → n ≤ length s.rest
    → advance k (extend m (advance n s)) ≡ advance (n + k) (extend m s)
advance-extend m n k s h = rw (
  add_assoc s.p n k,
  add_assoc s.parser.current_chunk_read n k,
  drop-drop-append n k s.rest m h,
  append_assoc,
  take-take-append n k s.rest m h,
)

to_take-extend :
    (m : Bytes) (s : Cursor)
    → s.parser.current_chunk_read ≤ s.parser.current_chunk_size
    → to_take (extend m s) ≡ to_take s + to_take (extend m (advance (to_take s) s))
to_take-extend m s h = ground (
  arith,
  length-append s.rest m,
  length-append (drop (to_take s) s.rest) m,
  length-drop (to_take s) s.rest,
)

pub IsAt-extend : (input m : Bytes) (s : Cursor) → IsAt input s → IsAt (input ++ m) (extend m s)
IsAt-extend input m s h = record {
  rest_is = rw (h.rest_is, drop-append_of_le s.p input m h.within);
  consumed_is = h.consumed_is;
  within = omega (arith, length-append input m, h.within);
  in_body = h.in_body;
  head_le = h.head_le;
  state_is = h.state_is;
  read_le = h.read_le;
}

-- Nothing taken, nothing changed.
advance-zero : (s : Cursor) → s.parser.consumed ≡ s.p → advance 0 s ≡ s
advance-zero s h =
    let p0 : s.p + 0 ≡ s.p = omega arith in
    let r0 : s.parser.current_chunk_read + 0 ≡ s.parser.current_chunk_read = omega arith in
    rw (p0, r0, append-nil s.request.body, ← h)

after_no_data : (s : Cursor) → s.rest ≡ [] → after_data s ≡ left s
unfolding end_of_chunk
after_no_data s none_left = elim (Bool-cases (is_full s)) [
  | inl full ↦ rw (full, none_left)
  | inr part ↦ rw part
]

-- In a chunk, a round is the step over the data even where no byte is left.
one_round_data :
    (r : Bytes) (s : Cursor)
    → s.rest ≡ r
    → s.parser.chunk_state ≡ chunk_data
    → s.parser.consumed ≡ s.p
    → one_round r s ≡ data_round (to_take s) s
unfolding one_round data_round
one_round_data [] s e state at =
    let n0 : to_take s ≡ 0 = rw e (ground arith) in
    sym (ap (λ n. data_round n s) n0 ∙ ap after_data (advance-zero s at) ∙ after_no_data s e)
one_round_data (c ∷ cs) s e state at = unfold round_at in rw state

-- The data that is taken before more arrives, and the data that is taken after.
data_round-extend :
    (m : Bytes) (s : Cursor)
    → s.parser.chunk_state ≡ chunk_data
    → s.parser.current_chunk_read ≤ s.parser.current_chunk_size
    → s.parser.consumed ≡ s.p
    → round (extend m (advance (to_take s) s)) ≡ round (extend m s)
unfolding data_round
data_round-extend m s state le at =
    let n = to_take s in
    let t = extend m (advance n s) in
    let fits = (to_take_bounds s le).0 in
    one_round_data t.rest t refl state refl
    ∙ ap after_data (advance-extend m n (to_take t) s fits)
    ∙ ap (λ k. data_round k (extend m s)) (sym (to_take-extend m s le))
    ∙ sym (one_round_data (s.rest ++ m) (extend m s) refl state at)

end_of_chunk-Extends :
    (m rest : Bytes) (s t : Cursor)
    → round (extend m t) ≡ round (extend m s)
    → round (extend m t) ≡ end_of_chunk (rest ++ m) (extend m t)
    → Extends m s (end_of_chunk rest t)
unfolding end_of_chunk
end_of_chunk-Extends m [] s t h k = h
end_of_chunk-Extends m (c ∷ []) s t h k = h
end_of_chunk-Extends m (c ∷ d ∷ cs) s t h k = elim (Bool-cases (c == 13 && d == 10)) [
  | inl ends ↦ rw ends (sym h ∙ k ∙ rw ends refl)
  | inr wrong ↦ rw wrong (sym h ∙ k ∙ rw wrong refl)
]

-- Where the chunk is full, no more data is taken.
round-full :
    (s : Cursor)
    → s.parser.chunk_state ≡ chunk_data
    → s.parser.consumed ≡ s.p
    → is_full s ≡ true
    → round s ≡ end_of_chunk s.rest s
unfolding data_round
round-full s state at full =
    let n0 : to_take s ≡ 0 = ground arith in
    one_round_data s.rest s refl state at
    ∙ ap (λ n. data_round n s) n0
    ∙ ap after_data (advance-zero s at)
    ∙ rw full refl

after_data-Extends :
    (m : Bytes) (s t : Cursor)
    → t.parser.chunk_state ≡ chunk_data
    → t.parser.consumed ≡ t.p
    → round (extend m t) ≡ round (extend m s)
    → Extends m s (after_data t)
after_data-Extends m s t state at h = elim (Bool-cases (is_full t)) [
  | inl full ↦ rw full (end_of_chunk-Extends m t.rest s t h (round-full (extend m t) state at full))
  | inr part ↦ rw part h
]

size_line-Extends :
    (m : Bytes) (i : ℕ) (val : Option ℕ) (s : Cursor)
    → i + 2 ≤ length s.rest
    → round (extend m s) ≡ size_line i val (extend m s)
    → Extends m s (size_line i val s)
unfolding size_line
size_line-Extends m i none s l h = h
size_line-Extends m i (some val) s l h = h ∙ rw (drop-append_of_le (i + 2) s.rest m l) refl

size_at-Extends :
    (m : Bytes) (found : Option ℕ) (s : Cursor)
    → find crlf s.rest ≡ found
    → round (extend m s) ≡ size_round (extend m s)
    → Extends m s (size_at found s)
unfolding size_round
size_at-Extends m none s e h = refl
size_at-Extends m (some i) s e h =
    let within = find-le crlf s.rest e in
    size_line-Extends m i (hex_value 0 (take i s.rest)) s within (
      h
      ∙ rw (find-append crlf s.rest m e, take-append_of_le i s.rest m (omega (arith, within))) refl)

round_at-Extends :
    (m : Bytes) (state : ChunkState) (s : Cursor)
    → s.parser.chunk_state ≡ state
    → s.parser.current_chunk_read ≤ s.parser.current_chunk_size
    → s.parser.consumed ≡ s.p
    → round (extend m s) ≡ round_at state (extend m s)
    → Extends m s (round_at state s)
unfolding round_at size_round data_round
round_at-Extends m chunk_size s e le at h = size_at-Extends m (find crlf s.rest) s refl h
round_at-Extends m chunk_data s e le at h =
    after_data-Extends m s (advance (to_take s) s) e refl (data_round-extend m s e le at)
round_at-Extends m chunk_crlf s e le at h = h
round_at-Extends m chunk_trailer s e le at h = refl
round_at-Extends m chunk_done s e le at h = refl

one_round-Extends :
    (m r : Bytes) (s : Cursor)
    → s.rest ≡ r
    → s.parser.current_chunk_read ≤ s.parser.current_chunk_size
    → s.parser.consumed ≡ s.p
    → Extends m s (one_round r s)
unfolding one_round
one_round-Extends m [] s e le at = refl
one_round-Extends m (c ∷ cs) s e le at =
    round_at-Extends m s.parser.chunk_state s refl le at
      (ap (λ r. one_round (r ++ m) (extend m s)) e)

pub round-Extends : (input m : Bytes) (s : Cursor) → IsAt input s → Extends m s (round s)
round-Extends input m s h = one_round-Extends m s.rest s refl h.read_le h.consumed_is
