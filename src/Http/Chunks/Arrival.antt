-- ===== src/Http/Chunks/Arrival.antt =====
-- The chunk loop over a body that arrives in pieces: left at the end of one piece and taken up
-- again with the next, it comes to what it does over both together.
use selfserv.Base.{
  ℕ, zero, suc, ◌+◌, ◌<◌, ◌≡◌, refl, sym, ap, subst, ◌∙◌, ◌++◌, Bytes, length, arith, length-append,
}
use selfserv.Http.Chunks.{
  Cursor, Round, again, left, failed, next_round, one_round, Loop, finished, stopped, out_of_fuel,
  chunk_loop,
}
use selfserv.Http.Chunks.Progress.{IsAt, RoundIsAt, one_round-IsAt}
use selfserv.Http.Chunks.Resume.{extend, round, Extends, IsAt-extend, round-Extends}

next_round-fuel :
    (input : Bytes) (n : ℕ) (loop other : Cursor → Loop) (s : Cursor) (r : Round)
    → ((t : Cursor) → IsAt input t → length t.rest < length s.rest → loop t ≡ other t)
    → RoundIsAt input s r
    → next_round loop r ≡ next_round other r
next_round-fuel input n loop other s (again t) k h = k t h.0 h.1
next_round-fuel input n loop other s (left t) k h = refl
next_round-fuel input n loop other s (failed t) k h = refl

-- More fuel than enough changes nothing.
pub chunk_loop-fuel :
    (f g : ℕ) (input : Bytes) (s : Cursor)
    → IsAt input s
    → length s.rest < f
    → length s.rest < g
    → chunk_loop f s ≡ chunk_loop g s
unfolding chunk_loop
chunk_loop-fuel zero g input s h l k = absurd (omega arith)
chunk_loop-fuel (suc f) zero input s h l k = absurd (omega arith)
chunk_loop-fuel (suc f) (suc g) input s h l k =
    next_round-fuel input f (chunk_loop f) (chunk_loop g) s (one_round s.rest s)
      (λ t at lt. chunk_loop-fuel f g input t at (omega arith) (omega arith))
      (one_round-IsAt input s h)

-- Two cursors with the same round.
same_round :
    (f g : ℕ) (input : Bytes) (s t : Cursor)
    → IsAt input s
    → IsAt input t
    → round s ≡ round t
    → length s.rest < f
    → length t.rest < g
    → chunk_loop f s ≡ chunk_loop g t
unfolding chunk_loop
same_round f g input s t hs ht e l k =
    chunk_loop-fuel f (suc (f + g)) input s hs l (omega arith)
    ∙ ap (next_round (chunk_loop (f + g))) e
    ∙ chunk_loop-fuel (suc (f + g)) g input t ht (omega arith) k

-- The loop over all the bytes of a cursor.
abbrev pub run : Cursor → Loop
run s = chunk_loop (length s.rest + 1) s

abbrev pub ResumesAs : Bytes → Loop → Loop → Type 0
ResumesAs m whole (finished t) = run (extend m t) ≡ whole
ResumesAs m whole (stopped t) = whole ≡ stopped (extend m t)
ResumesAs m whole out_of_fuel = Unit

next_round-ResumesAs :
    (g : ℕ) (loop : Cursor → Loop) (input m : Bytes) (s : Cursor) (r : Round)
    → IsAt input s
    → length (s.rest ++ m) < g
    → ((t : Cursor)
        → IsAt input t
        → length t.rest < length s.rest
        → ResumesAs m (run (extend m t)) (loop t))
    → RoundIsAt input s r
    → Extends m s r
    → ResumesAs m (chunk_loop g (extend m s)) (next_round loop r)
next_round-ResumesAs zero loop input m s r hs l k h e = absurd (omega arith)
next_round-ResumesAs (suc g) loop input m s (again t) hs l k h e =
    let same : run (extend m t) ≡ chunk_loop (suc g) (extend m s) =
      unfold chunk_loop in
      chunk_loop-fuel (length (t.rest ++ m) + 1) g (input ++ m) (extend m t)
        (IsAt-extend input m t h.0) (omega arith)
        (omega (arith, length-append t.rest m, length-append s.rest m, h.1, l))
      ∙ sym (ap (next_round (chunk_loop g)) e) in
    subst (λ whole. ResumesAs m whole (loop t)) same (k t h.0 h.1)
next_round-ResumesAs (suc g) loop input m s (left t) hs l k h e =
    same_round (length (t.rest ++ m) + 1) (suc g) (input ++ m) (extend m t) (extend m s)
      (IsAt-extend input m t h) (IsAt-extend input m s hs) e (omega arith) l
next_round-ResumesAs (suc g) loop input m s (failed t) hs l k h e =
    unfold chunk_loop in ap (next_round (chunk_loop g)) e

-- The loop left at the end of the input and taken up with more of it comes to the loop over all.
pub loop-ResumesAs :
    (f : ℕ) (input m : Bytes) (s : Cursor)
    → IsAt input s
    → length s.rest < f
    → ResumesAs m (run (extend m s)) (chunk_loop f s)
unfolding chunk_loop
loop-ResumesAs zero input m s h l = absurd (omega arith)
loop-ResumesAs (suc f) input m s h l =
    next_round-ResumesAs (length (s.rest ++ m) + 1) (chunk_loop f) input m s (one_round s.rest s) h
      (omega arith) (λ t at lt. loop-ResumesAs f input m t at (omega arith))
      (one_round-IsAt input s h) (round-Extends input m s h)
