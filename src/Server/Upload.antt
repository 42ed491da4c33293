-- ===== src/Server/Upload.antt =====
-- Where HandleReadable of docs/server/Server.cpp stores the body of a POST.
pub mod Confined
use selfserv.Base.{
  ℕ, suc, ◌+◌, ◌-◌, ◌%◌, Bool, true, false, not, ◌&&◌, ◌||◌, Option, none, some, List, [], ◌∷◌,
  ◌++◌, ltb, leb, ◌==◌, if◌then◌else◌, Bytes, codes, equal, length, take, drop, find, find_char,
}
use selfserv.Base.Decimal.{to_decimal}
use selfserv.Base.Int.{size_mod}
use selfserv.Config.Data.{RouteConfig, ServerConfig}
use selfserv.Http.Request.{HttpRequest}
use selfserv.Server.Route.{match_route, select_server, has_header, has_name}
use selfserv.Server.Response.{build_response, build_redirect, guess_type}
use selfserv.Server.Connection.{
  ClientConnection, Phase, accepted, headers, handle, respond, is_accepted, is_empty,
}
use selfserv.Server.Connection.Timeout.{server_of}
use selfserv.Server.System.{
  System, World, contains, with_slash, error_page, list_dir, ensure_dir, write_file,
}
use selfserv.Server.Multipart.{SavedFile, parse_multipart_form_data}
use selfserv.Server.Cgi.{Started, maybe_start_cgi}

-- boundary[0] == '"'
unfoldable pub unquoted_boundary : Bytes → Bytes
unfolding find_char
unquoted_boundary [] = []
unquoted_boundary (c ∷ cs) = elim (c == b'"') [
  | false ↦ c ∷ cs
  | true ↦ elim (find_char b'"' cs) [ none ↦ c ∷ cs | some i ↦ take i cs ]
]

-- boundary; empty where the type has none
unfoldable pub boundary_of : Bytes → Bytes
unfolding find unquoted_boundary
boundary_of ctype = elim (find (codes "boundary=") ctype) [
  | none ↦ []
  | some i ↦ unquoted_boundary (drop (i + 9) ctype)
]

-- "Received POST (", the size, " bytes)\n"
unfoldable pub received : Bytes → Bytes
received body = codes "Received POST (" ++ (to_decimal (length body) ++ codes " bytes)\n")

unfoldable pub saved_lines : List SavedFile → Bytes
saved_lines [] = []
saved_lines (f ∷ fs) =
    codes "Saved field='"
    ++ (f.field
        ++ (codes "' -> "
            ++ (f.filename
                ++ (codes " (" ++ (to_decimal f.size ++ (codes ")\n" ++ saved_lines fs))))))

abbrev pub form_text : List SavedFile → Bytes
form_text [] = codes "Multipart parse error\n"
form_text (f ∷ fs) = saved_lines (f ∷ fs)

abbrev pub value_or_empty : Option Bytes → Bytes
value_or_empty none = []
value_or_empty (some v) = v

-- destDir
unfoldable pub upload_dir : RouteConfig → Bytes
upload_dir route = if is_empty route.upload_path then route.root else route.upload_path

-- upload_%lu with a file extension
unfoldable pub upload_name : ℕ → Bytes → Bytes
upload_name n dot = codes "upload_" ++ (to_decimal n ++ dot)

module _ (sys : System) where
  -- The upload of a form: the text for the response. `none` is the loop's end of fuel.
  abbrev pub form_result : Bytes → Option (World × List SavedFile) → World → Bytes × World
  form_result text none w = (text, w)
  form_result text (some (v, saved)) w = (text ++ form_text saved, v)

  -- The upload of a body as it is.
  unfoldable pub store_raw : RouteConfig → Bytes → World → Bytes × World
  store_raw route body w =
      let n = (w.bin_count + 1) % size_mod in
      let v = record w { bin_count = n } in
      let full = with_slash sys.stray (upload_dir route) ++ upload_name n (codes ".bin") in
      if sys.opens full
      then (
        received body ++ (codes "Stored raw body as " ++ (full ++ codes "\n")),
        write_file full body v,
      )
      else (received body, v)

  unfoldable pub store_upload : RouteConfig → Bytes → Bytes → World → Bytes × World
  store_upload route ctype body w =
      if contains (codes "multipart/form-data") ctype
      then (if is_empty (boundary_of ctype)
          then (received body ++ codes "Missing boundary parameter\n", w)
          else form_result (received body)
              (parse_multipart_form_data sys (upload_dir route) body (boundary_of ctype) w) w)
      else store_raw route body w

  -- The upload behind readFile, to the directory of the route.
  unfoldable pub store_dat : RouteConfig → Bytes → World → Bytes × World
  store_dat route body w =
      let n = (w.dat_count + 1) % size_mod in
      let v = record w { dat_count = n } in
      let name = upload_name n (codes ".dat") in
      let full = with_slash b'/' route.upload_path ++ name in
      if route.uploads_enabled && not (is_empty route.upload_path)
      then (if sys.opens full
          then (
            received body ++ (codes "Stored as " ++ (name ++ codes "\n")),
            write_file full body v,
          )
          else (
            received body ++ (codes "Upload save failed errno=" ++ (sys.error_text ++ codes "\n")),
            v,
          ))
      else (received body, w)
