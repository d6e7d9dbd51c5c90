-- ===== src/Cache/Naming.antt =====
-- internal/cache/store.go: the names of an entry's files, and the metadata.
use n0ding.Prelude.{
  ℕ, ℤ, Bool, true, not, ◌&&◌, ◌||◌, Option, none, some, List, [], ◌∷◌, ◌++◌, Text, codes, eq_text,
  if◌then◌else◌, ◌==◌, leb, ltb, length, take, is_digit, has_prefix, has_suffix, trim_suffix,
  contains_text,
}
use n0ding.Http.{Header}
use n0ding.Cache.Files.{FilePath, Files, File, Op, read}

pub record Metadata : Type 0 where
  pub status : ℤ
  pub header : Header
  pub stored_at : ℤ
  pub content_bytes : ℤ
  pub content_digest : Text
  pub body_file : Text

-- What the store calls and does not implement: the JSON codec of Metadata, the hexadecimal SHA-256
-- of a text, and the calls that fail.
pub record Platform : Type 0 where
  pub marshal : Metadata → List ℕ
  pub unmarshal : List ℕ → Option Metadata
  pub hash : Text → Text
  pub fails : Op → FilePath → Bool

abbrev pub is_hex : ℕ → Bool
is_hex c = is_digit c || ((leb b'a' c && leb c b'f') || (leb b'A' c && leb c b'F'))

unfoldable pub all_hex : Text → Bool
all_hex [] = true
all_hex (c ∷ s) = is_hex c && all_hex s

-- filepath.Base of a directory: what stands behind the last slash.
unfoldable pub base : Text → Text
base [] = []
base (c ∷ s) =
    let rest = base s in
    if contains_text s (codes "/") then rest else if c == b'/' then s else c ∷ s

abbrev pub json : Text
json = codes ".json"

abbrev pub body : Text
body = codes ".body"

-- (*Store).paths: the body and the metadata path of a key.
unfoldable pub paths : Platform → Text → Text → FilePath × FilePath
paths platform root key =
    let hash = platform.hash key in
    let dir = root ++ (codes "/" ++ take 2 hash) in
    (record { dir = dir; name = hash ++ body }, record { dir = dir; name = hash ++ json })

unfoldable pub body_path_for_metadata : FilePath → Option FilePath
body_path_for_metadata path =
    let hash = trim_suffix path.name json in
    if not (has_suffix path.name json)
    then none
    else if not (length hash == 64) || not (eq_text (base path.dir) (take 2 hash))
    then none
    else if not (all_hex hash)
    then none
    else some (record { dir = path.dir; name = hash ++ body })

-- filepath.Base(f) == f for a name f that is not empty.
abbrev pub is_base : Text → Bool
is_base f = eq_text f (codes "/") || not (contains_text f (codes "/"))

-- `none` stands for the error "invalid cache body file".
unfoldable pub body_path_for_entry : FilePath → FilePath → Metadata → Option FilePath
body_path_for_entry metadata_path legacy metadata =
    let stem = trim_suffix metadata_path.name json in
    if eq_text metadata.body_file []
    then some legacy
    else if not (is_base metadata.body_file)
        || not (has_prefix metadata.body_file (stem ++ codes ".body."))
    then none
    else some (record { dir = metadata_path.dir; name = metadata.body_file })

unfoldable pub is_temp_name : Text → Bool
is_temp_name name = has_prefix name (codes ".body-") || has_prefix name (codes ".metadata-")

abbrev pub max_metadata_bytes : ℕ
max_metadata_bytes = 1048576

-- The result of readMetadata: the file does not exist, another error, or a value.
pub data Reading : Type 0 where
  missing broken : Reading
  found : Metadata → Reading

abbrev decoded : Option Metadata → Reading
decoded none = broken
decoded (some m) = found m

abbrev read_file : Platform → FilePath → Option File → Reading
read_file platform path none = missing
read_file platform path (some file) =
    if platform.fails Op.open_file path
    then broken
    else if ltb max_metadata_bytes (length file.content)
    then broken
    else decoded (platform.unmarshal file.content)

unfoldable pub read_metadata : Platform → Files → FilePath → Reading
read_metadata platform files path = read_file platform path (read path files)
