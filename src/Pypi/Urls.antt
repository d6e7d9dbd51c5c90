-- ===== src/Pypi/Urls.antt =====
-- What internal/pypiproxy/proxy.go uses of net/url and of path. The functions of net/url are
-- parameters; url.Values are entries like those of a header, under keys that are compared as they are.
use n0ding.Prelude.{
  Option, List, [], ◌∷◌, Text, codes, eq_text, if◌then◌else◌, ◌==◌, contains_text, trim_right,
}
use n0ding.Http.{Url, Header, lookup, delete}

abbrev pub Query : Type 0
Query = Header

-- Parse, String, ResolveReference (the page first), EscapedPath, PathEscape, PathUnescape, ParseQuery,
-- the result of URL.Query for a raw query, which forgets an error, and Values.Encode.
pub record Urls : Type 0 where
  pub parse : Text → Option Url
  pub show : Url → Text
  pub resolve : Url → Url → Url
  pub escaped_path : Url → Text
  pub path_escape : Text → Text
  pub path_unescape : Text → Option Text
  pub parse_query : Text → Option Query
  pub query_of : Text → Query
  pub encode_query : Query → Text

abbrev first_value : List Text → Text
first_value [] = []
first_value (v ∷ vs) = v

-- Values.Get
unfoldable pub query_get : Query → Text → Text
unfolding lookup
query_get q key = first_value (lookup key q)

-- Values.Set
unfoldable pub query_set : Text → Text → Query → Query
unfolding delete
query_set key v q = (key, v ∷ []) ∷ delete key q

-- What stands behind the last slash.
unfoldable pub last_element : Text → Text
last_element [] = []
last_element (c ∷ s) =
    let rest = last_element s in
    if contains_text s (codes "/") then rest else if c == b'/' then s else c ∷ s

-- path.Base
unfoldable pub path_base : Text → Text
unfolding last_element trim_right
path_base path =
    let name = last_element (trim_right (λ c. c == b'/') path) in
    if eq_text path [] then codes "." else if eq_text name [] then codes "/" else name
