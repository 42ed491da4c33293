-- ===== src/Server/System.antt =====
-- What the handlers of docs/server/Server.cpp ask of the operating system, and what they do to it.
pub mod Confined
use selfserv.Base.{
  ℕ, Bool, true, false, Option, none, some, List, [], ◌∷◌, ◌++◌, ◌||◌, ◌==◌, if◌then◌else◌, Bytes,
  codes, equal, find,
}
use selfserv.Base.Decimal.{to_decimal}
use selfserv.Config.Data.{ServerConfig}
use selfserv.Server.Connection.{is_empty}

-- The answers of the system during one call of a handler. `stray` is the byte in front of an empty
-- text, which path[path.size() - 1] reads.
pub record System : Type 0 where
  -- stat
  pub exists : Bytes → Bool
  pub is_dir : Bytes → Bool
  pub is_regular : Bytes → Bool
  -- what an ifstream reads; `none` where it does not open
  pub file_text : Bytes → Option Bytes
  -- opendir and readdir
  pub entries : Bytes → Option (List Bytes)
  -- whether fopen and unlink succeed
  pub opens : Bytes → Bool
  pub unlinks : Bytes → Bool
  -- strerror(errno)
  pub error_text : Bytes
  pub stray : ℕ
  -- the two calls of pipe, each with the end to read and the end to write, and fork
  pub pipe_in : Option (ℕ × ℕ)
  pub pipe_out : Option (ℕ × ℕ)
  pub fork : Option ℕ
  -- time, in milliseconds
  pub time : ℕ

-- What a child process of the server runs: the directory that it changes to, and its arguments.
pub record Program : Type 0 where
  pub directory : Option Bytes
  pub arguments : List Bytes

-- The two counters of uploads, m_cgiFdToClient, and what the handlers have done to the system: the
-- directories made, the files written with what is in them, the files removed, the programs started,
-- and the descriptors closed.
pub record World : Type 0 where
  pub bin_count : ℕ
  pub dat_count : ℕ
  pub cgi_clients : List (ℕ × Option ℕ)
  pub made : List Bytes
  pub written : List (Bytes × Bytes)
  pub removed : List Bytes
  pub started : List Program
  pub closed_fds : List ℕ

abbrev is_some : Option ℕ → Bool
is_some none = false
is_some (some n) = true

-- s.find(pattern) != npos
unfoldable pub contains : Bytes → Bytes → Bool
unfolding find
contains pattern s = is_some (find pattern s)

-- s[s.size() - 1], or `d` for an empty text
unfoldable pub last_byte : ℕ → Bytes → ℕ
last_byte d [] = d
last_byte d (c ∷ cs) = last_byte c cs

unfoldable pub with_slash : ℕ → Bytes → Bytes
unfolding last_byte
with_slash d path = if last_byte d path == b'/' then path else path ++ b'/' ∷ []

abbrev text_or : Option Bytes → Bytes → Bytes
text_or none fallback = fallback
text_or (some []) fallback = fallback
text_or (some (c ∷ cs)) fallback = c ∷ cs

-- loadErrorPageBody
unfoldable pub error_page : System → ServerConfig → ℕ → Bytes → Bytes
unfolding with_slash
error_page sys sc code fallback =
    if is_empty sc.error_page_root
    then fallback
    else text_or
        (sys.file_text (with_slash b'/' sc.error_page_root ++ (to_decimal code ++ codes ".html")))
        fallback

abbrev pub is_dots : Bytes → Bool
is_dots name = equal name (codes ".") || equal name (codes "..")

unfoldable pub list_items : List Bytes → Bytes
list_items [] = []
list_items (name ∷ names) =
    let others = list_items names in
    if is_dots name
    then others
    else codes "<li><a href=\""
      ++ (name ++ (codes "\">" ++ (name ++ (codes "</a></li>" ++ others))))

abbrev pub page_of : Bytes → Option (List Bytes) → Option Bytes
page_of path none = none
page_of path (some names) = some (
    codes "<html><body><h1>Index of "
    ++ (path ++ (codes "</h1><ul>" ++ (list_items names ++ codes "</ul></body></html>"))))

-- listDir
unfoldable pub list_dir : System → Bytes → Option Bytes
unfolding list_items
list_dir sys path = page_of path (sys.entries path)

-- ensureDir
unfoldable pub ensure_dir : System → Bytes → World → World
ensure_dir sys path w =
    if is_empty path || sys.exists path then w else record w { made = w.made ++ path ∷ [] }

-- fopen, fwrite and fclose, where fopen succeeds
unfoldable pub write_file : Bytes → Bytes → World → World
write_file path contents w = record w { written = w.written ++ (path, contents) ∷ [] }
