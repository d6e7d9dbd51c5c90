-- ===== src/Pypi/Disk.antt =====
-- internal/pypiproxy/proxy.go: the files of the private index, written by storeLocalPackage.
use n0ding.Prelude.{
  ℕ, ℤ, pos, Bool, true, not, ◌||◌, Option, none, some, is_some, List, [], ◌++◌, Text, codes,
  eq_text, if◌then◌else◌, length,
}
use n0ding.Hex.{encode_hex}
use n0ding.Cache.Files.{FilePath, File, Files, Op, read, write, erase}
use n0ding.Pypi.Names.{normalize_project_name, safe_distribution_filename}

pub record LocalPackage : Type 0 where
  pub filename : Text
  pub hash : Text
  pub size : ℤ
  pub requires_python : Text
  pub uploaded_at : ℤ

-- The calls of os that Cache.Files does not name.
pub data Call : Type 0 where
  cached : Op → Call
  chmod link read_dir : Call

-- What the private index meets: the calls that fail, the clock, the name that os.CreateTemp invents,
-- SHA-256, the JSON codec, what an external writer does between the test for the file and the link,
-- and what a write that fails leaves behind.
pub record Disk : Type 0 where
  pub fails : Call → FilePath → Bool
  pub now : ℤ
  pub suffix : Text
  pub sum : List ℕ → List ℕ
  pub marshal : LocalPackage → Option (List ℕ)
  pub unmarshal : List ℕ → Option LocalPackage
  pub others : Files → Files
  pub leftover : List ℕ

-- The uploaded file: what io.Copy takes of it, and whether the copy ends in an error.
pub record Upload : Type 0 where
  pub content : List ℕ
  pub fails : Bool

-- The result of storeLocalPackage; `existing` is an error that wraps os.ErrExist.
pub data Stored : Type 0 where
  existing refused : Stored
  stored : LocalPackage → Stored

unfoldable pub local_project_path : Text → Text → Text
local_project_path local_path project = local_path ++ (codes "/" ++ project)

abbrev pub file_at : Text → Text → FilePath
file_at dir name = record { dir = dir; name = name }

abbrev pub new_file : Disk → List ℕ → File
new_file disk content = record { content = content; mod_time = disk.now; regular = true }

-- `_ = os.Remove(path)`
unfoldable pub discard : Disk → FilePath → Files → Files
discard disk path files = if disk.fails (cached Op.remove) path then files else erase path files

-- The paths of one upload.
pub record Places : Type 0 where
  pub target : FilePath
  pub temp : FilePath
  pub description : FilePath

abbrev pub places : Disk → Text → Text → Text → Places
places disk local_path project filename =
    let dir = local_project_path local_path project in
    record {
      target = file_at dir filename;
      temp = file_at dir (codes ".upload-" ++ disk.suffix);
      description = file_at dir (filename ++ codes ".json");
    }

abbrev pub package_of : Disk → Text → Text → Upload → LocalPackage
package_of disk filename requires_python upload = record {
  filename = filename;
  hash = encode_hex (disk.sum upload.content);
  size = pos (length upload.content);
  requires_python = requires_python;
  uploaded_at = disk.now;
}

-- json.Marshal and os.WriteFile of the description.
abbrev pub describe : Disk → Places → LocalPackage → Files → Option (List ℕ) → Files × Stored
describe disk p pkg files none = (files, refused)
describe disk p pkg files (some text) =
    if disk.fails (cached Op.write_file) p.description
    then (discard disk p.target (write p.description (new_file disk disk.leftover) files), refused)
    else (write p.description (new_file disk text) files, stored pkg)

-- The temporary file is removed behind the link; if that fails, the deferred os.Remove fails too.
abbrev pub linked : Disk → Places → LocalPackage → Files → Files × Stored
linked disk p pkg files =
    if disk.fails (cached Op.remove) p.temp
    then (discard disk p.target files, refused)
    else describe disk p pkg (erase p.temp files) (disk.marshal pkg)

-- os.Link, which does not replace a file.
abbrev pub link_found : Disk → Places → LocalPackage → Files → Option File → Files × Stored
link_found disk p pkg files none = (discard disk p.temp files, refused)
link_found disk p pkg files (some file) = linked disk p pkg (write p.target file files)

abbrev pub link_temp : Disk → Places → LocalPackage → Files → Files × Stored
link_temp disk p pkg files =
    if is_some (read p.target files)
    then (discard disk p.temp files, existing)
    else if disk.fails link p.target
    then (discard disk p.temp files, refused)
    else link_found disk p pkg files (read p.temp files)

-- io.Copy, Sync, Close and Chmod of the temporary file, and the link.
abbrev pub fill_temp : Disk → Places → LocalPackage → Upload → Files → Files × Stored
fill_temp disk p pkg upload files =
    let begun = write p.temp (new_file disk upload.content) files in
    if upload.fails
    then (discard disk p.temp begun, refused)
    else if disk.fails (cached Op.sync) p.temp || disk.fails (cached Op.close_file) p.temp
    then (discard disk p.temp begun, refused)
    else if disk.fails chmod p.temp
    then (discard disk p.temp begun, refused)
    else link_temp disk p pkg (disk.others begun)

abbrev pub store_at : Disk → Places → LocalPackage → Upload → Files → Files × Stored
store_at disk p pkg upload files =
    if disk.fails (cached Op.mkdir) p.target
    then (files, refused)
    else if disk.fails (cached Op.stat) p.target
    then (files, refused)
    else if is_some (read p.target files)
    then (files, existing)
    else if disk.fails (cached Op.create) p.temp
    then (files, refused)
    else fill_temp disk p pkg upload files

-- storeLocalPackage
unfoldable pub store_local_package :
    Disk → Text → Text → Text → Text → Upload → Files → Files × Stored
unfolding local_project_path discard
store_local_package disk local_path project filename requires_python upload files =
    if eq_text project []
      || (not (eq_text (normalize_project_name project) project)
          || not (safe_distribution_filename filename))
    then (files, refused)
    else store_at disk (places disk local_path project filename)
        (package_of disk filename requires_python upload) upload files
