-- ===== src/Server/Response.antt =====
-- buildResponse, buildRedirect and guessType of docs/server/Server.cpp.
pub mod Lines
pub mod Frame
pub mod Length
use selfserv.Base.{
  ℕ, Bool, true, false, ◌||◌, Option, none, some, [], ◌∷◌, ◌++◌, ◌==◌, if◌then◌else◌, Bytes, codes,
  crlf, equal, length,
}
use selfserv.Base.Decimal.{to_decimal}

abbrev pub connection : Bool → Bytes
connection keep_alive = if keep_alive then codes "keep-alive" else codes "close"

-- The four lines of a response's head, with no line end behind the last.
unfoldable pub status_line : ℕ → Bytes → Bytes
unfolding to_decimal
status_line code reason = codes "HTTP/1.1 " ++ (to_decimal code ++ 32 ∷ reason)

unfoldable pub length_line : Bytes → Bytes
unfolding to_decimal
length_line body = codes "Content-Length: " ++ to_decimal (length body)

abbrev pub type_line : Bytes → Bytes
type_line ctype = codes "Content-Type: " ++ ctype

abbrev pub connection_line : Bool → Bytes
connection_line keep_alive = codes "Connection: " ++ connection keep_alive

unfoldable pub build_response : ℕ → Bytes → Bytes → Bytes → Bool → Bool → Bytes
build_response code reason body ctype keep_alive head_only =
    status_line code reason
    ++ (crlf
        ++ (length_line body
            ++ (crlf
                ++ (type_line ctype
                    ++ (crlf
                        ++ (connection_line keep_alive
                            ++ (crlf ++ (crlf ++ (if head_only then [] else body)))))))))

abbrev pub redirect_page : Bytes → Bytes → Bytes
redirect_page reason location =
    codes "<html><body><h1>"
    ++ (reason
        ++ (codes "</h1><a href='"
            ++ (location ++ (codes "'>" ++ (location ++ codes "</a></body></html>")))))

unfoldable pub build_redirect : ℕ → Bytes → Bytes → Bool → Bytes
build_redirect code reason location keep_alive =
    let body = redirect_page reason location in
    status_line code reason
    ++ (crlf
        ++ (codes "Location: "
            ++ (location
                ++ (crlf
                    ++ (length_line body
                        ++ (crlf
                            ++ (type_line (codes "text/html")
                                ++ (crlf
                                    ++ (connection_line keep_alive
                                        ++ (crlf ++ (crlf ++ body)))))))))))

-- The text from the last dot on; `none` where a slash or a backslash comes behind the last dot, or
-- where there is no dot.
unfoldable pub extension : Bytes → Option Bytes
extension path = last_of path none
  where
    last_of : Bytes → Option Bytes → Option Bytes
    last_of [] found = found
    last_of (c ∷ cs) found =
        last_of cs
          (if c == b'.' then some (c ∷ cs) else if c == b'/' || c == b'\\' then none else found)

unfoldable pub type_of : Bytes → Bytes
unfolding equal
type_of dot =
    if equal dot (codes ".html") || equal dot (codes ".htm")
    then codes "text/html"
    else if equal dot (codes ".css")
    then codes "text/css"
    else if equal dot (codes ".js")
    then codes "application/javascript"
    else if equal dot (codes ".png")
    then codes "image/png"
    else if equal dot (codes ".jpg") || equal dot (codes ".jpeg")
    then codes "image/jpeg"
    else if equal dot (codes ".gif")
    then codes "image/gif"
    else codes "text/plain"

abbrev type_or_plain : Option Bytes → Bytes
type_or_plain none = codes "text/plain"
type_or_plain (some dot) = type_of dot

-- guessType
unfoldable pub guess_type : Bytes → Bytes
unfolding extension type_of
guess_type path = type_or_plain (extension path)
