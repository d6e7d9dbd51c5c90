-- ===== src/Config.antt =====
-- internal/config/config.go: the checks on the repositories in Validate, and the small parsers.
mod Tests
pub mod Routes
pub mod Settings
pub mod Parse
use n0ding.Prelude.{
  ℕ, ◌+◌, ℤ, pos, leb_ℤ, Bool, true, false, not, ◌&&◌, ◌||◌, Option, none, some, List, [], ◌∷◌,
  ◌++◌, Text, codes, eq_text, mem_text, has_prefix, has_suffix, trim_suffix, trim_space, split,
  if◌then◌else◌, length, ltb, leb, ◌==◌, is_lower, is_digit,
}

-- What url.Parse gives.
pub record ParsedUrl : Type 0 where
  pub scheme : Text
  pub host : Text
  pub has_user : Bool
  pub path : Text
  pub raw_query : Text
  pub fragment : Text

pub record Repository : Type 0 where
  pub name : Text
  pub kind : Text
  pub path : Text
  pub upstream : Text
  pub ttl : ℤ
  pub forward_authorization : Bool
  pub publish_token_file : Text
  pub allowed_file_origins : List Text

-- The test of validRepositoryName on a character, given whether it is the first.
abbrev name_character : Bool → ℕ → Bool
name_character first c =
    is_lower c || (is_digit c || (not first && (c == b'.' || (c == b'_' || c == b'-'))))

unfoldable pub name_characters : Bool → Text → Bool
name_characters first [] = true
name_characters first (c ∷ s) = name_character first c && name_characters false s

unfoldable pub valid_repository_name : Text → Bool
unfolding name_characters
valid_repository_name name =
    if length name == 0
      || (ltb 63 (length name) || (eq_text name (codes ".") || eq_text name (codes "..")))
    then false
    else name_characters true name

abbrev keep_item : Text → List Text → List Text
keep_item item items = if not (eq_text item []) then item ∷ items else items

abbrev trimmed_items : List Text → List Text
trimmed_items [] = []
trimmed_items (item ∷ items) = keep_item (trim_space item) (trimmed_items items)

unfoldable pub split_csv : Text → List Text
split_csv value = trimmed_items (split b',' value)

-- The loop of stripComment: `quoted`, `escaped`, and the rest of the line.
unfoldable pub strip_from : Bool → Bool → Text → Text
strip_from quoted escaped [] = []
strip_from quoted true (c ∷ s) = c ∷ strip_from quoted false s
strip_from quoted false (c ∷ s) =
    let in_escape = strip_from quoted true s in
    let toggled = strip_from (not quoted) false s in
    let plain = strip_from quoted false s in
    if c == 92 && quoted
    then c ∷ in_escape
    else if c == 34
    then c ∷ toggled
    else if c == b'#' && not quoted
    then []
    else c ∷ plain

unfoldable pub strip_comment : Text → Text
unfolding strip_from
strip_comment line = strip_from false false line

abbrev is_http : Text → Bool
is_http scheme = eq_text scheme (codes "http") || eq_text scheme (codes "https")

abbrev is_upstream : Option ParsedUrl → Bool
is_upstream none = false
is_upstream (some u) = not (eq_text u.scheme [] || eq_text u.host []) && is_http u.scheme

abbrev is_origin : Option ParsedUrl → Bool
is_origin none = false
is_origin (some u) =
    not (eq_text u.scheme [] || eq_text u.host [])
    && (is_http u.scheme
        && not (
            u.has_user
            || (not (eq_text u.raw_query [])
                || (not (eq_text u.fragment [])
                    || (not (eq_text u.path []) && not (eq_text u.path (codes "/")))))))

unfoldable pub all_origins : (Text → Option ParsedUrl) → List Text → Bool
all_origins parse [] = true
all_origins parse (origin ∷ origins) = is_origin (parse origin) && all_origins parse origins

abbrev pub is_pypi : Repository → Bool
is_pypi r = eq_text r.kind (codes "pypi")

abbrev pub file_path : Repository → Text
file_path r = trim_suffix r.path (codes "simple/") ++ codes "files/"

-- The routes that a repository registers, in front of those before.
abbrev pub with_routes : Repository → List Text → List Text
with_routes r paths = if is_pypi r then file_path r ∷ r.path ∷ paths else r.path ∷ paths

-- The tests on the name, the type and the form of the path.
unfoldable pub valid_form : Repository → Bool
valid_form r =
    (eq_text r.kind (codes "npm") || (eq_text r.kind (codes "oci") || is_pypi r))
    && (not (eq_text r.kind (codes "oci") && not (eq_text r.path (codes "/v2/")))
        && (not (not (eq_text r.publish_token_file []) && not (is_pypi r))
            && (not (is_pypi r && not (has_suffix r.path (codes "/simple/")))
                && (has_prefix r.path (codes "/") && has_suffix r.path (codes "/")))))

-- One turn of the loop: no error.
unfoldable pub valid_repository :
    (Text → Option ParsedUrl) → List Text → List Text → Repository → Bool
unfolding valid_repository_name valid_form all_origins
valid_repository parse names paths r =
    valid_repository_name r.name
    && (not (mem_text r.name names)
        && (valid_form r
            && (not (mem_text r.path paths)
                && (not (is_pypi r && mem_text (file_path r) (r.path ∷ paths))
                    && (is_upstream (parse r.upstream)
                        && (not (leb_ℤ r.ttl (pos 0))
                            && all_origins parse r.allowed_file_origins))))))

unfoldable pub valid_repositories :
    (Text → Option ParsedUrl) → List Text → List Text → List Repository → Bool
unfolding valid_repository
valid_repositories parse names paths [] = true
valid_repositories parse names paths (r ∷ rs) =
    valid_repository parse names paths r
    && valid_repositories parse (r.name ∷ names) (with_routes r paths) rs
