-- ===== src/Pypi/Names.antt =====
-- internal/pypiproxy/proxy.go: the names of projects and of distribution files. Texts are ASCII.
use n0ding.Prelude.{
  ℕ, Bool, true, false, not, ◌||◌, Option, none, some, [], ◌∷◌, ◌++◌, Text, codes, eq_text,
  if◌then◌else◌, ◌==◌, is_lower, is_digit, to_lower, trim_space, has_prefix, has_suffix,
}

abbrev pub is_separator : ℕ → Bool
is_separator c = c == b'-' || (c == b'_' || c == b'.')

abbrev cons_option : ℕ → Option Text → Option Text
cons_option c none = none
cons_option c (some t) = some (c ∷ t)

-- The loop of normalizeProjectName: whether something has been written, and whether a separator is
-- due. `none` stands for its early return of an empty text.
unfoldable pub normalize_from : Bool → Bool → Text → Option Text
normalize_from started separator [] = some []
normalize_from started separator (c ∷ s) =
    let skipped = normalize_from started started s in
    let written = cons_option c (normalize_from true false s) in
    if is_separator c
    then skipped
    else if not (is_lower c || is_digit c)
    then none
    else if separator
    then cons_option b'-' written
    else written

abbrev pub or_empty : Option Text → Text
or_empty none = []
or_empty (some t) = t

unfoldable pub normalize_project_name : Text → Text
unfolding normalize_from
normalize_project_name name = or_empty (normalize_from false false (trim_space (to_lower name)))

-- strings.ContainsAny(filename, `/\\`)
unfoldable pub has_slash : Text → Bool
has_slash [] = false
has_slash (c ∷ s) = c == b'/' || (c == 92 || has_slash s)

unfoldable pub safe_distribution_filename : Text → Bool
unfolding has_slash
safe_distribution_filename filename =
    if eq_text filename [] || (has_slash filename || has_prefix filename (codes "."))
    then false
    else has_suffix filename (codes ".whl")
      || (has_suffix filename (codes ".tar.gz") || has_suffix filename (codes ".zip"))

abbrev escaped : ℕ → Text
escaped c =
    if c == b'&'
    then codes "&amp;"
    else if c == 34
    then codes "&#34;"
    else if c == 39
    then codes "&#39;"
    else if c == b'<'
    then codes "&lt;"
    else if c == b'>'
    then codes "&gt;"
    else c ∷ []

unfoldable pub html_escape : Text → Text
html_escape [] = []
html_escape (c ∷ s) = escaped c ++ html_escape s

unfoldable pub ensure_trailing_slash : Text → Text
ensure_trailing_slash path =
    if eq_text path []
    then codes "/"
    else if not (has_suffix path (codes "/"))
    then path ++ codes "/"
    else path
