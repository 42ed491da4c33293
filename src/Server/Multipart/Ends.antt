-- ===== src/Server/Multipart/Ends.antt =====
-- The loop of parseMultipartFormData in docs/server/Server.cpp.
use selfserv.Base.{
  ℕ, zero, suc, ◌+◌, ◌≤◌, ◌<◌, ◌≡◌, ◌≢◌, refl, inl, inr, Bool-cases, Option-cases, none, some, List,
  [], ◌++◌, ltb, Bytes, codes, crlf, starts_with, find, length, drop, length-drop, arith,
}
use selfserv.Base.Find.{find-le, starts_with-length}
use selfserv.Http.Parser.{blank_line}
use selfserv.Server.System.{System, World}
use selfserv.Server.Multipart.{
  SavedFile, Round, stop, again, find_from, at_data, at_headers, at_boundary, multipart_round,
  multipart_loop, parse_multipart_form_data,
}

-- What is found from a place on lies behind it, within the text.
find_from-le :
    (p : Bytes) (from : ℕ) (s : Bytes) {i : ℕ}
    → from ≤ length s
    → find_from p from s ≡ some i
    → (from ≤ i) × (i + length p ≤ length s)
unfolding find_from
find_from-le p from s {i} l e = elim (Option-cases (find p (drop from s))) [
  | inl missing ↦ absurd (none-ne-some (rw missing at e))
  | inr (j, found) ↦
      let same : some (from + j) ≡ some i = rw found at e in
      let fits = find-le p (drop from s) found in
      let left = length-drop from s in (ground (arith, same), ground (arith, same, fits, left))
]
  where
    none-ne-some : none ≢ some i
    none-ne-some h = cc h

module _ (sys : System) (upload_path : Bytes) (body : Bytes) where
  -- A round that goes on does so from a place further on, within the body.
  abbrev IsOnward : ℕ → Round → Type 0
  IsOnward cursor (stop acc) = Unit
  IsOnward cursor (again next acc) = (cursor < next) × (next ≤ length body)

  at_data-IsOnward :
      (marker : Bytes) (cursor start end : ℕ) (acc : World × List SavedFile)
      → cursor < end
      → end + 4 ≤ length body
      → IsOnward cursor
          (at_data sys upload_path body start end (find_from marker (end + 4) body) acc)
  at_data-IsOnward marker cursor start end acc h l =
      elim (Option-cases (find_from marker (end + 4) body)) [
        | inl missing ↦ rw missing tt
        | inr (next, found) ↦
            let (low, high) = find_from-le marker (end + 4) body l found in
            rw found (omega arith, omega arith)
      ]

  at_headers-IsOnward :
      (marker : Bytes) (cursor start : ℕ) (acc : World × List SavedFile)
      → cursor < start
      → start ≤ length body
      → IsOnward cursor
          (at_headers sys upload_path body marker start (find_from blank_line start body) acc)
  at_headers-IsOnward marker cursor start acc h l =
      elim (Option-cases (find_from blank_line start body)) [
        | inl missing ↦ rw missing tt
        | inr (end, found) ↦
            let (low, high) = find_from-le blank_line start body l found in
            rw found (at_data-IsOnward marker cursor start end acc (omega arith) (omega arith))
      ]

  at_boundary-IsOnward :
      (marker : Bytes) (cursor : ℕ) (acc : World × List SavedFile)
      → 0 < length marker
      → cursor ≤ length body
      → IsOnward cursor (at_boundary sys upload_path body marker (find_from marker cursor body) acc)
  at_boundary-IsOnward marker cursor acc h l = elim (Option-cases (find_from marker cursor body)) [
    | inl missing ↦ rw missing tt
    | inr (i, found) ↦ rw found (behind i (find_from-le marker cursor body l found))
  ]
    where
      behind :
          (i : ℕ)
          → (cursor ≤ i) × (i + length marker ≤ length body)
          → IsOnward cursor (at_boundary sys upload_path body marker (some i) acc)
      behind i (low, high) =
          let b = i + length marker in
          elim (Bool-cases (starts_with (codes "--") (drop b body))) [
            | inl last ↦ rw last tt
            | inr more ↦ rw more (elim (Bool-cases (starts_with crlf (drop b body))) [
              | inr skipped ↦ rw skipped (omega arith, high)
              | inl ended ↦
                  let room = starts_with-length crlf (drop b body) ended in
                  let left = length-drop b body in
                  rw ended (
                    at_headers-IsOnward marker cursor (b + 2) acc (omega arith)
                      (omega (arith, room, left)))
            ])
          ]

  multipart_round-IsOnward :
      (marker : Bytes) (cursor : ℕ) (acc : World × List SavedFile)
      → 0 < length marker
      → IsOnward cursor (multipart_round sys upload_path body marker cursor acc)
  unfolding multipart_round
  multipart_round-IsOnward marker cursor acc h = elim (Bool-cases (ltb cursor (length body))) [
    | inl within ↦ rw within (at_boundary-IsOnward marker cursor acc h (ground arith))
    | inr past ↦ rw past tt
  ]

  -- With a round for every byte that is left, and one more, the loop ends.
  multipart_loop-ends :
      (marker : Bytes) (fuel cursor : ℕ) (acc : World × List SavedFile)
      → 0 < length marker
      → length body < fuel + cursor
      → 0 < fuel
      → (out : World × List SavedFile) × (multipart_loop sys upload_path body marker fuel cursor acc
          ≡ some out)
  unfolding multipart_loop
  multipart_loop-ends marker zero cursor acc h l p = absurd (omega arith)
  multipart_loop-ends marker (suc fuel) cursor acc h l p =
      go (λ next acc' m q. multipart_loop-ends marker fuel next acc' h m q)
        (multipart_round sys upload_path body marker cursor acc)
        (multipart_round-IsOnward marker cursor acc h)
    where
      go :
          ((next : ℕ) (acc' : World × List SavedFile)
            → length body < fuel + next
            → 0 < fuel
            → (out : World × List SavedFile) × (multipart_loop sys upload_path body marker fuel next
                  acc'
                ≡ some out))
          → (r : Round) → IsOnward cursor r
          → (out : World × List SavedFile) × (elim r [
            | stop acc' ↦ some acc'
            | again cursor' acc' ↦ multipart_loop sys upload_path body marker fuel cursor' acc'
          ]
              ≡ some out)
      go rest (stop acc') t = (acc', refl)
      go rest (again next acc') (more, within) = rest next acc' (omega arith) (omega arith)

  -- parseMultipartFormData returns, for every body and boundary: the fuel, one more than the bytes of
  -- the body, is enough.
  pub parse_multipart_form_data-ends :
      (boundary : Bytes) (w : World)
      → (out : World × List SavedFile) × (parse_multipart_form_data sys upload_path body boundary w
          ≡ some out)
  unfolding parse_multipart_form_data
  parse_multipart_form_data-ends boundary w =
      multipart_loop-ends (codes "--" ++ boundary) (suc (length body)) 0 (w, []) (omega arith)
        (omega arith) (omega arith)
