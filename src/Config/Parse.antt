-- ===== src/Config/Parse.antt =====
-- internal/config/config.go: Parse, its loop over the lines, and Load.
use n0ding.Prelude.{
  ℕ, ◌*◌, ◌^◌, ℤ, pos, Bool, true, false, not, ◌&&◌, Option, none, some, List, [], ◌∷◌, ◌++◌, Text,
  codes, eq_text, mem_text, if◌then◌else◌, cut, has_prefix, has_suffix, trim_prefix, trim_suffix,
  trim_space,
}
use n0ding.Cache.Put.{parse_int}
use n0ding.Config.{ParsedUrl, Repository, split_csv, strip_comment}
use n0ding.Config.Settings.{Server, Float, finite, Storage, Config, valid_config}

-- url.Parse, strconv.Unquote, os.ExpandEnv, time.ParseDuration and strconv.ParseFloat.
pub record Parsers : Type 0 where
  pub parse_url : Text → Option ParsedUrl
  pub unquote : Text → Option Text
  pub expand_env : Text → Text
  pub parse_duration : Text → Option ℤ
  pub parse_float : Text → Option Float

abbrev pub hour : ℕ
hour = 3600000000000

-- The floats nearest to 0.90 and 0.75.
unfoldable pub defaults : Config
defaults = record {
  server = record {
    listen = codes ":8080";
    public_base_url = codes "http://localhost:8080";
    log = codes "info";
  };
  storage = record {
    path = codes "./data";
    max_age = pos (720 * hour);
    gc_interval = pos hour;
    stale_temp_age = pos hour;
    max_bytes = pos 0;
    high_watermark = finite (pos (8106479329266893 * 2 ^ 1021));
    low_watermark = finite (pos (3 * 2 ^ 1072));
    min_free_bytes = pos 0;
  };
  operator_token_file = [];
  repositories = [];
}

-- strconv.ParseBool
unfoldable pub parse_bool : Text → Option Bool
unfolding mem_text
parse_bool s =
    if mem_text s
      (codes "1" ∷ codes "t" ∷ codes "T" ∷ codes "TRUE" ∷ codes "true" ∷ codes "True" ∷ [])
    then some true
    else if mem_text s
        (codes "0" ∷ codes "f" ∷ codes "F" ∷ codes "FALSE" ∷ codes "false" ∷ codes "False" ∷ [])
    then some false
    else none

unfoldable pub parse_value : Parsers → Text → Option Text
parse_value parsers raw =
    if eq_text raw []
    then none
    else if has_prefix raw (codes "\"")
    then parsers.unquote raw
    else some raw

-- A value that is written where it could be read.
abbrev change : {A B : Type 0} → (A → B) → Option A → Option B
change f none = none
change f (some a) = some (f a)

unfoldable pub set_server : Text → Text → Server → Option Server
unfolding eq_text
set_server key value s =
    if eq_text key (codes "listen")
    then some (record s { listen = value })
    else if eq_text key (codes "public_base_url")
    then some (record s { public_base_url = value })
    else if eq_text key (codes "log_level")
    then some (record s { log = value })
    else none

unfoldable pub set_storage : Parsers → Text → Text → Storage → Option Storage
unfolding eq_text parse_int
set_storage parsers key value s =
    if eq_text key (codes "path")
    then some (record s { path = value })
    else if eq_text key (codes "max_age")
    then change (λ (d : ℤ). record s { max_age = d }) (parsers.parse_duration value)
    else if eq_text key (codes "gc_interval")
    then change (λ (d : ℤ). record s { gc_interval = d }) (parsers.parse_duration value)
    else if eq_text key (codes "stale_temp_age")
    then change (λ (d : ℤ). record s { stale_temp_age = d }) (parsers.parse_duration value)
    else if eq_text key (codes "max_bytes")
    then change (λ (n : ℤ). record s { max_bytes = n }) (parse_int value)
    else if eq_text key (codes "high_watermark")
    then change (λ (x : Float). record s { high_watermark = x }) (parsers.parse_float value)
    else if eq_text key (codes "low_watermark")
    then change (λ (x : Float). record s { low_watermark = x }) (parsers.parse_float value)
    else if eq_text key (codes "min_free_bytes")
    then change (λ (n : ℤ). record s { min_free_bytes = n }) (parse_int value)
    else none

unfoldable pub set_repository : Parsers → Text → Text → Repository → Option Repository
unfolding eq_text parse_bool split_csv
set_repository parsers key value r =
    if eq_text key (codes "type")
    then some (record r { kind = value })
    else if eq_text key (codes "path")
    then some (record r { path = value })
    else if eq_text key (codes "upstream")
    then some (record r { upstream = value })
    else if eq_text key (codes "ttl")
    then change (λ (d : ℤ). record r { ttl = d }) (parsers.parse_duration value)
    else if eq_text key (codes "forward_authorization")
    then change (λ (b : Bool). record r { forward_authorization = b }) (parse_bool value)
    else if eq_text key (codes "publish_token_file")
    then some (record r { publish_token_file = value })
    else if eq_text key (codes "allowed_file_origins")
    then some (record r { allowed_file_origins = split_csv value })
    else none

-- The pointer `current` leads to the last repository, so that a write through it changes that one.
unfoldable pub set_last : Parsers → Text → Text → List Repository → Option (List Repository)
unfolding set_repository
set_last parsers key value [] = none
set_last parsers key value (r ∷ []) =
    change (λ (r : Repository). r ∷ []) (set_repository parsers key value r)
set_last parsers key value (r ∷ q ∷ rs) =
    change (λ (rs : List Repository). r ∷ rs) (set_last parsers key value (q ∷ rs))

-- What the loop carries from line to line; `current` says whether the pointer is not nil.
pub record Progress : Type 0 where
  pub config : Config
  pub section : Text
  pub current : Bool

abbrev new_repository : Text → Repository
new_repository name = record {
  name = name;
  kind = name;
  path = codes "/" ++ (name ++ codes "/");
  upstream = [];
  ttl = pos (24 * hour);
  forward_authorization = false;
  publish_token_file = [];
  allowed_file_origins = [];
}

unfoldable pub open_section : Text → Progress → Option Progress
open_section section p =
    let name = trim_space (trim_prefix section (codes "repository.")) in
    if has_prefix section (codes "repository.")
    then (if eq_text name []
        then none
        else some (record {
          config = record p.config {
            repositories = p.config.repositories ++ new_repository name ∷ [];
          };
          section = section;
          current = true;
        }))
    else some (record { config = p.config; section = section; current = false })

unfoldable pub assign : Parsers → Text → Text → Progress → Option Progress
unfolding set_server set_storage set_last
assign parsers key value p =
    let c = p.config in
    if eq_text p.section (codes "server")
    then change (λ (s : Server). record p { config = record c { server = s } })
        (set_server key value c.server)
    else if eq_text p.section (codes "storage")
    then change (λ (s : Storage). record p { config = record c { storage = s } })
        (set_storage parsers key value c.storage)
    else if eq_text p.section (codes "operator")
    then (if eq_text key (codes "token_file")
        then some (record p { config = record c { operator_token_file = value } })
        else none)
    else if p.current
    then change (λ (rs : List Repository). record p { config = record c { repositories = rs } })
        (set_last parsers key value c.repositories)
    else none

abbrev with_value : Parsers → Text → Progress → Option Text → Option Progress
with_value parsers key p none = none
with_value parsers key p (some value) = assign parsers key (parsers.expand_env value) p

abbrev with_pair : Parsers → Progress → Option (Text × Text) → Option Progress
with_pair parsers p none = none
with_pair parsers p (some (key, raw)) =
    with_value parsers (trim_space key) p (parse_value parsers (trim_space raw))

-- One turn of the loop: `none` for an error.
unfoldable pub parse_line : Parsers → Text → Progress → Option Progress
unfolding open_section assign parse_value strip_comment
parse_line parsers raw p =
    let line = trim_space (strip_comment raw) in
    let section = trim_space (trim_suffix (trim_prefix line (codes "[")) (codes "]")) in
    if eq_text line []
    then some p
    else if has_prefix line (codes "[") && has_suffix line (codes "]")
    then open_section section p
    else with_pair parsers p (cut b'=' line)

unfoldable pub parse_lines : Parsers → List Text → Progress → Option Progress
unfolding parse_line
parse_lines parsers [] p = some p
parse_lines parsers (line ∷ lines) p = elim (parse_line parsers line p) [
  | none ↦ none
  | some p' ↦ parse_lines parsers lines p'
]

abbrev checked : Parsers → Bool → Option Progress → Option Config
checked parsers scan_fails none = none
checked parsers scan_fails (some p) =
    if scan_fails
    then none
    else if valid_config parsers.parse_url p.config
    then some p.config
    else none

-- Parse, given the lines of the scanner and whether it ends in an error.
unfoldable pub parse_config : Parsers → List Text → Bool → Option Config
unfolding parse_lines defaults valid_config
parse_config parsers lines scan_fails =
    checked parsers scan_fails
      (parse_lines parsers lines (record { config = defaults; section = []; current = false }))

-- filepath.IsAbs, and filepath.Clean of a path that filepath.Join puts behind the directory of the file.
pub record Paths : Type 0 where
  pub is_abs : Text → Bool
  pub beside_file : Text → Text

abbrev placed_path : Paths → Text → Text
placed_path paths path = if not (paths.is_abs path) then paths.beside_file path else path

abbrev placed_token : Paths → Text → Text
placed_token paths path =
    if not (eq_text path []) && not (paths.is_abs path) then paths.beside_file path else path

unfoldable pub placed_repositories : Paths → List Repository → List Repository
placed_repositories paths [] = []
placed_repositories paths (r ∷ rs) =
    record r { publish_token_file = placed_token paths r.publish_token_file }
    ∷ placed_repositories paths rs

abbrev placed : Paths → Option Config → Option Config
placed paths none = none
placed paths (some c) = some (record c {
  storage = record c.storage { path = placed_path paths c.storage.path };
  operator_token_file = placed_token paths c.operator_token_file;
  repositories = placed_repositories paths c.repositories;
})

-- Load, given the lines of the file, `none` if it cannot be opened.
unfoldable pub load : Parsers → Paths → Option (List Text) → Bool → Option Config
unfolding parse_config placed_repositories
load parsers paths none scan_fails = none
load parsers paths (some lines) scan_fails = placed paths (parse_config parsers lines scan_fails)
