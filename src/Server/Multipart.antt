-- ===== src/Server/Multipart.antt =====
-- parseContentDisposition and parseMultipartFormData of docs/server/Server.cpp: the files of a form.
pub mod Ends
use selfserv.Base.{
  ℕ, zero, suc, ◌+◌, ◌-◌, Bool, true, false, not, ◌&&◌, ◌||◌, Option, none, some, List, [], ◌∷◌,
  ◌++◌, ltb, leb, ◌==◌, if◌then◌else◌, Bytes, codes, crlf, equal, starts_with, find, to_lower,
  length, take, drop, map,
}
use selfserv.Http.Head.{split_at, header_lines}
use selfserv.Http.Parser.{blank_line, sub_size}
use selfserv.Server.Connection.{is_empty}
use selfserv.Server.Filename.{sanitize_filename}
use selfserv.Server.System.{System, World, last_byte, with_slash, ensure_dir, write_file}

-- MultipartSavedFile
pub record SavedFile : Type 0 where
  pub field : Bytes
  pub filename : Bytes
  pub size : ℕ

abbrev pub is_gap : ℕ → Bool
is_gap c = c == b' ' || c == b'\t'

unfoldable pub skip_gaps : Bytes → Bytes
skip_gaps [] = []
skip_gaps (c ∷ cs) = if is_gap c then skip_gaps cs else c ∷ cs

abbrev keep_gap : ℕ → Bytes → Bytes
keep_gap c [] = if is_gap c then [] else c ∷ []
keep_gap c (d ∷ ds) = c ∷ d ∷ ds

unfoldable pub drop_gaps : Bytes → Bytes
drop_gaps [] = []
drop_gaps (c ∷ cs) = keep_gap c (drop_gaps cs)

-- The text between the semicolons. Behind a semicolon at the end the loop has no further round; the
-- empty piece there has no `=`, and does nothing.
unfoldable pub pieces : Bytes → Bytes → List Bytes
pieces piece [] = piece ∷ []
pieces piece (c ∷ cs) = elim (c == b';') [
  | true ↦ piece ∷ pieces [] cs
  | false ↦ pieces (piece ++ c ∷ []) cs
]

unfoldable pub unquoted : Bytes → Bytes
unfolding last_byte
unquoted v =
    if leb 2 (length v) && starts_with (codes "\"") v && last_byte 0 v == b'"'
    then take (length v - 2) (drop 1 v)
    else v

-- `name` and `filename` behind a piece.
abbrev pub note_pair : Option (Bytes × Bytes) → Bytes × Bytes → Bytes × Bytes
note_pair none names = names
note_pair (some (k, v)) (name, filename) =
    let key = drop_gaps (skip_gaps k) in
    let value = unquoted v in
    if equal key (codes "name")
    then (value, filename)
    else if equal key (codes "filename")
    then (name, value)
    else (name, filename)

unfoldable pub note_pieces : List Bytes → Bytes × Bytes → Bytes × Bytes
unfolding split_at
note_pieces [] names = names
note_pieces (piece ∷ ps) names = note_pieces ps (note_pair (split_at b'=' (skip_gaps piece)) names)

abbrev pub behind_colon : Option (Bytes × Bytes) → Bytes × Bytes → Bytes × Bytes
behind_colon none names = names
behind_colon (some (_, after)) names = note_pieces (pieces [] after) names

-- parseContentDisposition; what it returns is not used.
unfoldable pub parse_content_disposition : Bytes → Bytes × Bytes → Bytes × Bytes
unfolding split_at pieces note_pieces
parse_content_disposition line names = behind_colon (split_at b':' line) names

unfoldable pub part_names : List Bytes → Bytes × Bytes → Bytes × Bytes
unfolding parse_content_disposition to_lower
part_names [] names = names
part_names (line ∷ lines) names = part_names lines (
    if starts_with (codes "content-disposition:") (map to_lower line)
    then parse_content_disposition line names
    else names)

abbrev pub moved_by : ℕ → Option ℕ → Option ℕ
moved_by from none = none
moved_by from (some i) = some (from + i)

-- s.find(pattern, from)
unfoldable pub find_from : Bytes → ℕ → Bytes → Option ℕ
unfolding find
find_from pattern from s = moved_by from (find pattern (drop from s))

-- What a round of the loop leaves behind, and whether there is another one, from where.
pub data Round : Type 0 where
  stop : World × List SavedFile → Round
  again : ℕ → World × List SavedFile → Round

module _ (sys : System) (upload_path : Bytes) (body : Bytes) where
  -- full
  unfoldable pub stored_path : Bytes → Bytes
  unfolding with_slash sanitize_filename
  stored_path filename = with_slash sys.stray upload_path ++ sanitize_filename filename

  -- What fwrite is given; `end` may be less than `start`.
  unfoldable pub part_data : ℕ → ℕ → Bytes
  part_data start end = if ltb start end then take (end - start) (drop start body) else []

  unfoldable pub store_part :
      Bytes × Bytes → ℕ → ℕ → World × List SavedFile → World × List SavedFile
  store_part (field, filename) start end (w, saved) =
      let full = stored_path filename in
      let made = ensure_dir sys upload_path w in
      if is_empty filename
      then (w, saved)
      else if sys.opens full
      then (
        write_file full (part_data start end) made,
        saved ++ (record { field = field; filename = full; size = sub_size end start }) ∷ [],
      )
      else (made, saved)

  -- Without the CR LF in front of the next boundary.
  unfoldable pub data_end : ℕ → ℕ
  data_end next = if leb 2 next && starts_with crlf (drop (next - 2) body) then next - 2 else next

  abbrev pub at_data : ℕ → ℕ → Option ℕ → World × List SavedFile → Round
  at_data start end none acc = stop acc
  at_data start end (some next) acc =
      let names = part_names (header_lines (take (end - start) (drop start body))) ([], []) in
      again next (store_part names (end + 4) (data_end next) acc)

  abbrev pub at_headers : Bytes → ℕ → Option ℕ → World × List SavedFile → Round
  at_headers marker start none acc = stop acc
  at_headers marker start (some end) acc = at_data start end (find_from marker (end + 4) body) acc

  abbrev pub at_boundary : Bytes → Option ℕ → World × List SavedFile → Round
  at_boundary marker none acc = stop acc
  at_boundary marker (some i) acc =
      let b = i + length marker in
      if starts_with (codes "--") (drop b body)
      then stop acc
      else if not (starts_with crlf (drop b body))
      then again b acc
      else at_headers marker (b + 2) (find_from blank_line (b + 2) body) acc

  unfoldable pub multipart_round : Bytes → ℕ → World × List SavedFile → Round
  multipart_round marker cursor acc =
      if ltb cursor (length body)
      then at_boundary marker (find_from marker cursor body) acc
      else stop acc

  -- `none`: out of fuel.
  unfoldable pub multipart_loop :
      Bytes → ℕ → ℕ → World × List SavedFile → Option (World × List SavedFile)
  multipart_loop marker zero cursor acc = none
  multipart_loop marker (suc fuel) cursor acc = elim (multipart_round marker cursor acc) [
    | stop acc' ↦ some acc'
    | again cursor' acc' ↦ multipart_loop marker fuel cursor' acc'
  ]

  -- parseMultipartFormData, whose result is whether the list of files is not empty.
  unfoldable pub parse_multipart_form_data : Bytes → World → Option (World × List SavedFile)
  parse_multipart_form_data boundary w =
      multipart_loop (codes "--" ++ boundary) (suc (length body)) 0 (w, [])
