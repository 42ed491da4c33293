-- ===== src/Server/System/Confined.antt =====
-- Where files are written and removed.
use selfserv.Base.{
  ℕ, ◌≡◌, sym, ap, subst, ◌⊎◌, inl, inr, refl, ◌∙◌, true, false, not, ◌&&◌, ◌||◌, if-both, Bool,
  Bool-cases, Option-cases, find, starts_with, ◌==◌, arith, &&-split, List, [], ◌∷◌, ◌++◌, Bytes,
  codes,
}
use mathlib.Core.List.{Memᴰ}
use mathlib.Core.List.Memᴰ.{head, tail}
use selfserv.Config.Data.{RouteConfig}
use selfserv.Server.Connection.{is_empty}
use selfserv.Server.Filename.{is_safe_name}
use selfserv.Server.System.{System, World, contains, with_slash, ensure_dir, write_file}
use selfserv.Server.Upload.{upload_dir}

Memᴰ-snoc {ℓ} : {A : Type ℓ} {x y : A} (xs : List A) → Memᴰ x (xs ++ y ∷ []) → Memᴰ x xs ⊎ (x ≡ y)
Memᴰ-snoc [] (head e) = inr e
Memᴰ-snoc [] (tail m) = elim m [ ]
Memᴰ-snoc (z ∷ xs) (head e) = inl (head e)
Memᴰ-snoc (z ∷ xs) (tail m) = elim (Memᴰ-snoc xs m) [
  | inl before ↦ inl (tail before)
  | inr e ↦ inr e
]

-- A text that ends in a slash, with no "..".
abbrev pub is_directory : Bytes → Bool
is_directory [] = false
is_directory (c ∷ []) = c == b'/'
is_directory (c ∷ d ∷ s) = not (c == b'.' && d == b'.') && is_directory (d ∷ s)

contains-cons : (p s : Bytes) (c : ℕ) → contains p (c ∷ s) ≡ (starts_with p (c ∷ s) || contains p s)
unfolding contains find
contains-cons p s c = elim (Option-cases (find p s)) [
  | inl missing ↦ ground (arith, missing)
  | inr (j, found) ↦ ground (arith, found)
]

contains-directory :
    (root rel : Bytes)
    → is_directory root ≡ true
    → contains (codes "..") rel ≡ false
    → contains (codes "..") (root ++ rel) ≡ false
unfolding starts_with
contains-directory [] rel h k = cc
contains-directory (c ∷ []) rel h k =
    let slash : starts_with (codes "..") (c ∷ rel) ≡ false = ground arith in
    contains-cons (codes "..") rel c ∙ rw (slash, k) refl
contains-directory (c ∷ d ∷ s) rel h k =
    let (apart, others) = &&-split (not (c == b'.' && d == b'.')) (is_directory (d ∷ s)) h in
    let here : starts_with (codes "..") (c ∷ d ∷ s ++ rel) ≡ false = ground arith in
    contains-cons (codes "..") (d ∷ s ++ rel) c
    ∙ rw (here, contains-directory (d ∷ s) rel others k) refl

pub fenced :
    (root rel : Bytes)
    → contains (codes "..") rel ≡ false
    → (is_directory root && contains (codes "..") (root ++ rel)) ≡ false
fenced root rel k = elim (Bool-cases (is_directory root)) [
  | inl d ↦ rw (d, contains-directory root rel d k) refl
  | inr other ↦ rw other refl
]

-- `K` says which routes are configured.
module _ (K : RouteConfig → Type 0) where
  -- A file of an upload: in the directory of a route, under a name with no slash in it. (`d` is of
  -- account where the directory is empty: then the byte in front of it may be a slash.)
  abbrev pub IsStored : Bytes → Type 0
  IsStored path =
      (route : RouteConfig) × K route
      × (d : ℕ) × (name : Bytes) × (path ≡ with_slash d (upload_dir route) ++ name)
      × (is_safe_name name ≡ true)

  -- A file of a route: its path is the root and behind it a text with no ".."; where the root ends in
  -- a slash and has no ".." itself, the whole path has none.
  abbrev pub IsServed : Bytes → Type 0
  IsServed path =
      (route : RouteConfig) × K route
      × (rel : Bytes) × (path ≡ route.root ++ rel)
      × (contains (codes "..") rel ≡ false)
      × ((is_directory route.root && contains (codes "..") path) ≡ false)

  -- The files that have been written are uploads, and those removed are the routes' files.
  pub record IsConfined (w : World) : Type 0 where
    pub stored : (path contents : Bytes) → Memᴰ (path, contents) w.written → IsStored path
    pub served : (path : Bytes) → Memᴰ path w.removed → IsServed path

  pub write_file-IsConfined :
      (path contents : Bytes) (w : World)
      → IsConfined w
      → IsStored path
      → IsConfined (write_file path contents w)
  unfolding write_file
  write_file-IsConfined path contents w h k = record { stored = go; served = h.served }
    where
      go : (p c : Bytes) → Memᴰ (p, c) (w.written ++ (path, contents) ∷ []) → IsStored p
      go p c m = elim (Memᴰ-snoc w.written m) [
        | inl before ↦ h.stored p c before
        | inr same ↦ subst IsStored (sym (ap (λ q. q.0) same)) k
      ]

  pub remove-IsConfined :
      (path : Bytes) (w : World)
      → IsConfined w
      → IsServed path
      → IsConfined (record w { removed = w.removed ++ path ∷ [] })
  remove-IsConfined path w h k = record { stored = h.stored; served = go }
    where
      go : (p : Bytes) → Memᴰ p (w.removed ++ path ∷ []) → IsServed p
      go p m = elim (Memᴰ-snoc w.removed m) [
        | inl before ↦ h.served p before
        | inr same ↦ subst IsServed (sym same) k
      ]

  pub ensure_dir-IsConfined :
      (sys : System) (path : Bytes) (w : World) → IsConfined w → IsConfined (ensure_dir sys path w)
  unfolding ensure_dir
  ensure_dir-IsConfined sys path w h =
      if-both IsConfined (is_empty path || sys.exists path) h
        (record { stored = h.stored; served = h.served })
