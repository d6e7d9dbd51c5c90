-- ===== src/Pypi/Private.antt =====
-- internal/pypiproxy/proxy.go: the index of the private packages and their files. Directories are no
-- files of the model: one that is missing is one with no file in it.
use n0ding.Prelude.{
  ℕ, ℤ, pos, ◌+ℤ◌, ◌-ℤ◌, ltb_ℤ, int64, max_int64, Bool, true, false, not, ◌&&◌, ◌||◌, Option, none,
  some, List, [], ◌∷◌, ◌++◌, Text, codes, eq_text, if◌then◌else◌, length, ltb, ◌==◌, cut,
  contains_text, has_suffix, trim_prefix, trim,
}
use n0ding.Hex.{encode_hex}
use n0ding.Http.{get, set}
use n0ding.Cache.Files.{FilePath, File, Files, Op, read}
use n0ding.Exchange.{Request, Env, Response, http_error, sent}
use n0ding.Pypi.Names.{normalize_project_name, safe_distribution_filename, html_escape}
use n0ding.Pypi.Urls.{Urls}
use n0ding.Pypi.Proxy.{Proxy, count_hit}
use n0ding.Pypi.Documents.{Json, Items, Members, Codecs}
use n0ding.Pypi.Disk.{LocalPackage, Disk, cached, read_dir, local_project_path, file_at}

-- simpleProject: the empty text if the path names no project.
abbrev unescaped_project : Option Text → Text
unescaped_project none = []
unescaped_project (some decoded) = normalize_project_name decoded

unfoldable pub simple_project : Urls → Proxy → Text → Text
simple_project urls p path =
    let relative = trim (λ c. c == b'/') (trim_prefix path p.path) in
    if eq_text relative [] || contains_text relative (codes "/")
    then []
    else unescaped_project (urls.path_unescape relative)

-- The names in a directory.
unfoldable pub entries : Text → Files → List Text
entries dir [] = []
entries dir ((x, f) ∷ fs) =
    let rest = entries dir fs in if eq_text x.dir dir then x.name ∷ rest else rest

-- The description that is missing is made from the file.
abbrev hashed : Disk → Text → FilePath → Option File → Option LocalPackage
hashed disk name path none = none
hashed disk name path (some f) =
    if disk.fails (cached Op.open_file) path
    then none
    else some (record {
      filename = name;
      hash = encode_hex (disk.sum f.content);
      size = pos (length f.content);
      requires_python = [];
      uploaded_at = pos 0;
    })

abbrev described : Disk → Text → Text → Files → Option File → Option LocalPackage
described disk dir name files none =
    hashed disk name (file_at dir name) (read (file_at dir name) files)
described disk dir name files (some f) =
    if disk.fails (cached Op.open_file) (file_at dir (name ++ codes ".json"))
    then none
    else disk.unmarshal f.content

abbrev cons_package : Option LocalPackage → Option (List LocalPackage) → Option (List LocalPackage)
cons_package (some pkg) (some pkgs) = some (pkg ∷ pkgs)
cons_package _ _ = none

-- The loop of localPackages.
unfoldable pub collect_packages : Disk → Text → Files → List Text → Option (List LocalPackage)
collect_packages disk dir files [] = some []
collect_packages disk dir files (name ∷ names) =
    let rest = collect_packages disk dir files names in
    let pkg = described disk dir name files (read (file_at dir (name ++ codes ".json")) files) in
    if has_suffix name (codes ".json") || not (safe_distribution_filename name)
    then rest
    else cons_package pkg rest

unfoldable pub less_text : Text → Text → Bool
less_text s [] = false
less_text [] (d ∷ t) = true
less_text (c ∷ s) (d ∷ t) = let rest = less_text s t in ltb c d || (c == d && rest)

-- sort.Slice by file name.
unfoldable pub insert_package : LocalPackage → List LocalPackage → List LocalPackage
unfolding less_text
insert_package pkg [] = pkg ∷ []
insert_package pkg (q ∷ qs) =
    let rest = insert_package pkg qs in
    if less_text q.filename pkg.filename then q ∷ rest else pkg ∷ q ∷ qs

unfoldable pub sort_packages : List LocalPackage → List LocalPackage
unfolding insert_package
sort_packages [] = []
sort_packages (pkg ∷ pkgs) = insert_package pkg (sort_packages pkgs)

abbrev sorted : Option (List LocalPackage) → Option (List LocalPackage)
sorted none = none
sorted (some pkgs) = some (sort_packages pkgs)

-- localPackages: `none` for an error.
unfoldable pub local_packages : Disk → Proxy → Text → Option (List LocalPackage)
unfolding collect_packages entries sort_packages local_project_path
local_packages disk p project =
    let dir = local_project_path p.local_path project in
    if disk.fails read_dir (file_at dir [])
    then none
    else sorted (collect_packages disk dir p.disk (entries dir p.disk))

unfoldable pub local_package_url : Urls → Proxy → Text → LocalPackage → Text
local_package_url urls p project pkg =
    p.proxy_package_base_url
    ++ (codes "/"
        ++ (urls.path_escape project
            ++ (codes "/" ++ (urls.path_escape pkg.filename ++ (codes "#sha256=" ++ pkg.hash)))))

-- One entry of the JSON index.
abbrev json_file : Urls → Proxy → Text → LocalPackage → Json
json_file urls p project pkg = Json.object (
    Members.member (codes "filename") (Json.text pkg.filename) (
      Members.member (codes "hashes")
        (Json.object (Members.member (codes "sha256") (Json.text pkg.hash) Members.no_members))
        (let url =
            Members.member (codes "url") (Json.text (local_package_url urls p project pkg))
              Members.no_members in
          if eq_text pkg.requires_python []
          then url
          else Members.member (codes "requires-python") (Json.text pkg.requires_python) url)))

unfoldable pub json_files : Urls → Proxy → Text → List LocalPackage → Items
json_files urls p project [] = Items.no_items
json_files urls p project (pkg ∷ pkgs) =
    Items.item (json_file urls p project pkg) (json_files urls p project pkgs)

abbrev json_index : Urls → Proxy → Text → List LocalPackage → Json
json_index urls p project pkgs = Json.object (
    Members.member (codes "files") (Json.array (json_files urls p project pkgs)) (
      Members.member (codes "meta")
        (Json.object
          (Members.member (codes "api-version") (Json.text (codes "1.0")) Members.no_members))
        (Members.member (codes "name") (Json.text project) Members.no_members)))

abbrev html_line : Urls → Proxy → Text → LocalPackage → Text
html_line urls p project pkg =
    let requires =
      codes " data-requires-python=\"" ++ (html_escape pkg.requires_python ++ codes "\"") in
    codes "<a href=\""
    ++ (html_escape (local_package_url urls p project pkg)
        ++ (codes "\""
            ++ ((if eq_text pkg.requires_python [] then [] else requires)
                ++ (codes ">" ++ (html_escape pkg.filename ++ codes "</a>\n")))))

unfoldable pub html_lines : Urls → Proxy → Text → List LocalPackage → Text
html_lines urls p project [] = []
html_lines urls p project (pkg ∷ pkgs) =
    html_line urls p project pkg ++ html_lines urls p project pkgs

abbrev encoded : Option (List ℕ) → List ℕ
encoded none = []
encoded (some text) = text ++ codes "\n"

abbrev with_type : Text → Response → Response
with_type content_type w = record w { header = set (codes "Content-Type") content_type w.header }

abbrev with_body : Env → Request → List ℕ → Response → Response
with_body env q content w =
    if eq_text q.method (codes "HEAD") then w else record w { body = sent env content }

-- serveLocalProject
unfoldable pub serve_local_project :
    Env → Urls → Codecs → Request → Proxy → Text → List LocalPackage → Response → Response
unfolding json_files html_lines local_package_url
serve_local_project env urls codecs q p project pkgs w =
    let w' = record w {
      header =
          set (codes "X-N0ding-Cache") (codes "LOCAL")
            (set (codes "Cache-Control") (codes "no-store") w.header);
    } in
    let page =
      codes "<!doctype html><html><body>\n"
      ++ (html_lines urls p project pkgs ++ codes "</body></html>\n") in
    if contains_text (get q.header (codes "Accept")) (codes "application/vnd.pypi.simple.v1+json")
    then with_body env q (encoded (codecs.marshal_json (json_index urls p project pkgs)))
        (with_type (codes "application/vnd.pypi.simple.v1+json") w')
    else with_body env q page
        (with_type (codes "application/vnd.pypi.simple.v1+html; charset=utf-8") w')

abbrev pub not_found : Response → Response
not_found w = http_error (pos 404) (codes "404 page not found") w

abbrev pub serve_file_found :
    Codecs → Disk → Request → Proxy → FilePath → Response → Option File → Proxy × Response
serve_file_found codecs disk q p path w none = (p, not_found w)
serve_file_found codecs disk q p path w (some f) =
    if disk.fails (cached Op.open_file) path
    then (p, not_found w)
    else if disk.fails (cached Op.stat) path || not f.regular
    then (p, not_found w)
    else (
      count_hit p,
      codecs.serve_content q path.name f.mod_time f.content (record w {
        header =
            set (codes "X-N0ding-Cache") (codes "LOCAL")
              (set (codes "Content-Type") (codes "application/octet-stream") w.header);
      }),
    )

abbrev pub serve_named :
    Codecs → Disk → Request → Proxy → Response → Option Text → Option Text → Proxy × Response
serve_named codecs disk q p w (some project) (some filename) =
    let path = file_at (local_project_path p.local_path project) filename in
    if not (eq_text (normalize_project_name project) project)
      || not (safe_distribution_filename filename)
    then (p, not_found w)
    else serve_file_found codecs disk q p path w (read path p.disk)
serve_named codecs disk q p w _ _ = (p, not_found w)

abbrev pub serve_parts :
    Urls → Codecs → Disk → Request → Proxy → Response → Option (Text × Text) → Proxy × Response
serve_parts urls codecs disk q p w none = (p, not_found w)
serve_parts urls codecs disk q p w (some (project, filename)) =
    if contains_text filename (codes "/")
    then (p, not_found w)
    else serve_named codecs disk q p w (urls.path_unescape project) (urls.path_unescape filename)

-- serveLocalFile
unfoldable pub serve_local_file :
    Urls → Codecs → Disk → Request → Proxy → Response → Proxy × Response
serve_local_file urls codecs disk q p w =
    if not (eq_text q.method (codes "GET")) && not (eq_text q.method (codes "HEAD"))
    then (
      p,
      http_error (pos 405) (codes "method not allowed")
          (record w { header = set (codes "Allow") (codes "GET, HEAD") w.header }),
    )
    else serve_parts urls codecs disk q p w (cut b'/' (trim_prefix q.url_path p.package_path))

-- The walk of PrivateSize: `none` for an error.
unfoldable pub size_from : Disk → ℤ → Files → Option ℤ
size_from disk total [] = some total
size_from disk total ((x, f) ∷ fs) =
    let size = pos (length f.content) in
    let skipped = size_from disk total fs in
    let counted = size_from disk (int64 (total +ℤ size)) fs in
    if disk.fails (cached Op.walk) x
    then none
    else if has_suffix x.name (codes ".json")
    then skipped
    else if disk.fails (cached Op.info) x
    then none
    else if not f.regular
    then skipped
    else if ltb_ℤ (pos 0) size && ltb_ℤ (int64 (pos max_int64 -ℤ size)) total
    then none
    else counted

unfoldable pub private_size : Disk → Proxy → Option ℤ
unfolding size_from
private_size disk p = size_from disk (pos 0) p.disk
