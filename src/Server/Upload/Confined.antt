-- ===== src/Server/Upload/Confined.antt =====
-- Where an upload is stored.
use selfserv.Base.{
  ℕ, zero, suc, ◌+◌, ◌%◌, ◌≡◌, refl, ap, subst, true, false, not, ◌&&◌, &&-split, if-both, if-when,
  Option, none, some, List, [], ◌∷◌, ◌++◌, ltb, Bytes, codes, is_digit, all_digits, crlf,
  starts_with, drop, length, arith,
}
use selfserv.Base.Decimal.{to_decimal, all_digits-to_decimal}
use selfserv.Base.Int.{size_mod}
use selfserv.Config.Data.{RouteConfig}
use selfserv.Server.Connection.{is_empty}
use selfserv.Server.Filename.{
  sanitize_filename, sanitize_filename-safe, is_safe, all_safe, is_safe_name,
}
use selfserv.Server.System.{System, World, contains, with_slash}
use selfserv.Server.Multipart.{
  SavedFile, Round, stop, again, part_data, stored_path, store_part, at_data, at_headers,
  at_boundary, multipart_round, multipart_loop, parse_multipart_form_data,
}
use selfserv.Server.Upload.{
  received, boundary_of, upload_dir, upload_name, form_result, store_raw, store_upload, store_dat,
}
use selfserv.Server.System.Confined.{
  IsStored, IsConfined, write_file-IsConfined, ensure_dir-IsConfined,
}

all_safe-append : (a b : Bytes) → all_safe a ≡ true → all_safe b ≡ true → all_safe (a ++ b) ≡ true
all_safe-append [] b ha hb = hb
all_safe-append (c ∷ a) b ha hb =
    let (first, others) = &&-split (is_safe c) (all_safe a) ha in
    rw (first, all_safe-append a b others hb) refl

all_safe_of_digits : (s : Bytes) → all_digits s ≡ true → all_safe s ≡ true
all_safe_of_digits [] h = refl
all_safe_of_digits (c ∷ s) h =
    let (first, others) = &&-split (is_digit c) (all_digits s) h in
    let safe : is_safe c ≡ true = ground arith in rw (safe, all_safe_of_digits s others) refl

upload_name-safe :
    (n : ℕ) (dot : Bytes) → all_safe dot ≡ true → is_safe_name (upload_name n dot) ≡ true
unfolding upload_name
upload_name-safe n dot h = all_safe-append (codes "upload_") (to_decimal n ++ dot) refl (
    all_safe-append (to_decimal n) dot (all_safe_of_digits (to_decimal n) (all_digits-to_decimal n))
      h)

module _ (K : RouteConfig → Type 0) where
  module _ (sys : System) (route : RouteConfig) (k : K route) where
    path-IsStored :
        (d : ℕ) (name : Bytes)
        → is_safe_name name ≡ true
        → IsStored K (with_slash d (upload_dir route) ++ name)
    path-IsStored d name safe = (route, k, d, name, refl, safe)

    unfoldable HasConfined : {A : Type 0} → World × A → Type 0
    HasConfined acc = IsConfined K acc.0

    module _ (body : Bytes) where
      abbrev Acc : Type 0
      Acc = World × List SavedFile

      store_part-IsConfined :
          (names : Bytes × Bytes) (start end : ℕ) (acc : Acc)
          → HasConfined acc
          → HasConfined (store_part sys (upload_dir route) body names start end acc)
      unfolding store_part stored_path HasConfined
      store_part-IsConfined (field, filename) start end (w, saved) h =
          let full = stored_path sys (upload_dir route) body filename in
          let made = ensure_dir-IsConfined K sys (upload_dir route) w h in
          if-both {A = Acc} (λ acc. IsConfined K acc.0) (is_empty filename) h
            (if-both {A = Acc} (λ acc. IsConfined K acc.0) (sys.opens full)
              (write_file-IsConfined K full (part_data sys (upload_dir route) body start end) _ made
                (path-IsStored sys.stray (sanitize_filename filename)
                  (sanitize_filename-safe filename)))
              made)

      abbrev Leaves : Round → Type 0
      Leaves (stop acc) = HasConfined acc
      Leaves (again next acc) = HasConfined acc

      at_data-Leaves :
          (start end : ℕ) (next : Option ℕ) (acc : Acc)
          → HasConfined acc
          → Leaves (at_data sys (upload_dir route) body start end next acc)
      at_data-Leaves start end none acc h = h
      at_data-Leaves start end (some next) acc h = store_part-IsConfined _ (end + 4) _ acc h

      at_headers-Leaves :
          (marker : Bytes) (start : ℕ) (end : Option ℕ) (acc : Acc)
          → HasConfined acc
          → Leaves (at_headers sys (upload_dir route) body marker start end acc)
      at_headers-Leaves marker start none acc h = h
      at_headers-Leaves marker start (some end) acc h = at_data-Leaves start end _ acc h

      at_boundary-Leaves :
          (marker : Bytes) (i : Option ℕ) (acc : Acc)
          → HasConfined acc
          → Leaves (at_boundary sys (upload_dir route) body marker i acc)
      at_boundary-Leaves marker none acc h = h
      at_boundary-Leaves marker (some i) acc h =
          let b = i + length marker in
          if-both Leaves (starts_with (codes "--") (drop b body)) h (
            if-both Leaves (not (starts_with crlf (drop b body))) h
              (at_headers-Leaves marker (b + 2) _ acc h))

      multipart_round-Leaves :
          (marker : Bytes) (cursor : ℕ) (acc : Acc)
          → HasConfined acc
          → Leaves (multipart_round sys (upload_dir route) body marker cursor acc)
      unfolding multipart_round
      multipart_round-Leaves marker cursor acc h =
          if-both Leaves (ltb cursor (length body)) (at_boundary-Leaves marker _ acc h) h

      multipart_loop-IsConfined :
          (marker : Bytes) (fuel cursor : ℕ) (acc : Acc) {out : Acc}
          → HasConfined acc
          → multipart_loop sys (upload_dir route) body marker fuel cursor acc ≡ some out
          → HasConfined out
      unfolding multipart_loop
      multipart_loop-IsConfined marker zero cursor acc h e = cc e
      multipart_loop-IsConfined marker (suc fuel) cursor acc {out} h e =
          go (λ next acc' h' e'. multipart_loop-IsConfined marker fuel next acc' h' e')
            (multipart_round sys (upload_dir route) body marker cursor acc)
            (multipart_round-Leaves marker cursor acc h) e
        where
          go :
              ((next : ℕ) (acc' : Acc)
                → HasConfined acc'
                → multipart_loop sys (upload_dir route) body marker fuel next acc' ≡ some out
                → HasConfined out)
              → (r : Round) → Leaves r
              → elim r [
                | stop acc' ↦ some acc'
                | again next acc' ↦ multipart_loop sys (upload_dir route) body marker fuel next acc'
              ]
                ≡ some out
              → HasConfined out
          go rest (stop acc') h' e' =
              subst HasConfined (ap (λ o. elim o [ none ↦ acc' | some x ↦ x ]) e') h'
          go rest (again next acc') h' e' = rest next acc' h' e'

    parse_form-IsConfined :
        (body boundary : Bytes) (w : World) {out : World × List SavedFile}
        → IsConfined K w
        → parse_multipart_form_data sys (upload_dir route) body boundary w ≡ some out
        → HasConfined out
    unfolding parse_multipart_form_data HasConfined
    parse_form-IsConfined body boundary w h e =
        multipart_loop-IsConfined body (codes "--" ++ boundary) (suc (length body)) 0 (w, []) h e

    upload_dir-set : is_empty route.upload_path ≡ false → upload_dir route ≡ route.upload_path
    unfolding upload_dir
    upload_dir-set e = rw e

    form_result-IsConfined :
        (text : Bytes) (o : Option (World × List SavedFile)) (w : World)
        → IsConfined K w
        → ((out : World × List SavedFile) → o ≡ some out → HasConfined out)
        → IsConfined K (form_result sys text o w).1
    unfolding HasConfined
    form_result-IsConfined text none w h f = h
    form_result-IsConfined text (some out) w h f = f out refl

    store_raw-IsConfined :
        (body : Bytes) (w : World) → IsConfined K w → IsConfined K (store_raw sys route body w).1
    unfolding store_raw
    store_raw-IsConfined body w h =
        let n = (w.bin_count + 1) % size_mod in
        let name = upload_name n (codes ".bin") in
        let counted : IsConfined K (record w { bin_count = n }) = record {
          stored = h.stored;
          served = h.served;
        } in
        if-both {A = Bytes × World} (λ r. IsConfined K r.1)
          (sys.opens (with_slash sys.stray (upload_dir route) ++ name))
          (write_file-IsConfined K _ body _ counted
            (path-IsStored sys.stray name (upload_name-safe n (codes ".bin") refl)))
          counted

    pub store_dat-IsConfined :
        (body : Bytes) (w : World) → IsConfined K w → IsConfined K (store_dat sys route body w).1
    unfolding store_dat
    store_dat-IsConfined body w h =
        if-when {A = Bytes × World} (λ r. IsConfined K r.1)
          (route.uploads_enabled && not (is_empty route.upload_path))
          (λ wanted.
            let (on, set) =
              &&-split route.uploads_enabled (not (is_empty route.upload_path)) wanted in
            let same = upload_dir-set (ground (arith, set)) in
            if-both {A = Bytes × World} (λ r. IsConfined K r.1)
              (sys.opens (with_slash b'/' route.upload_path ++ name))
              (write_file-IsConfined K _ body _ counted (
                subst (λ dir. IsStored K (with_slash b'/' dir ++ name)) same
                  (path-IsStored b'/' name (upload_name-safe n (codes ".dat") refl))))
              counted)
          (λ unwanted. h)
      where
        n : ℕ
        n = (w.dat_count + 1) % size_mod

        name : Bytes
        name = upload_name n (codes ".dat")

        counted : IsConfined K (record w { dat_count = n })
        counted = record { stored = h.stored; served = h.served }

    pub store_upload-IsConfined :
        (ctype body : Bytes) (w : World)
        → IsConfined K w
        → IsConfined K (store_upload sys route ctype body w).1
    unfolding store_upload
    store_upload-IsConfined ctype body w h =
        if-both {A = Bytes × World} (λ r. IsConfined K r.1)
          (contains (codes "multipart/form-data") ctype)
          (if-both {A = Bytes × World} (λ r. IsConfined K r.1) (is_empty (boundary_of ctype)) h
            (form_result-IsConfined (received body) _ w h
              (λ out e. parse_form-IsConfined body (boundary_of ctype) w h e)))
          (store_raw-IsConfined body w h)
