-- ===== src/Pypi/Publish.antt =====
-- internal/pypiproxy/proxy.go: authorizedUpload and serveUpload, with the budget that the private index
-- shares with the cache.
use n0ding.Prelude.{
  ℕ, ℤ, pos, Bool, true, false, not, ◌&&◌, ◌||◌, Option, none, some, [], ◌++◌, Text, codes, eq_text,
  if◌then◌else◌, length, ◌==◌, cut, to_lower,
}
use n0ding.Http.{get, set}
use n0ding.Storage
use n0ding.Storage.{Controller, Reservation}
use n0ding.Cache.Files.{Files}
use n0ding.Exchange.{Request, Env, Response, http_error}
use n0ding.Pypi.Names.{normalize_project_name}
use n0ding.Pypi.Proxy.{Proxy, fail}
use n0ding.Pypi.Documents.{Codecs}
use n0ding.Pypi.Disk.{
  LocalPackage, Disk, Upload, Stored, existing, refused, stored, places, discard,
  store_local_package,
}

-- The result of ParseMultipartForm: two values, and the file of the field "content" with its name.
pub record Form : Type 0 where
  pub name : Text
  pub requires_python : Text
  pub content : Option (Text × Upload)

-- A posted body: its declared length, and the form in it under a limit on its bytes, which is `none`
-- for an error.
pub record Posted : Type 0 where
  pub content_length : ℤ
  pub parse_form : ℕ → Option Form

abbrev pub max_upload_bytes : ℕ
max_upload_bytes = 536870912

abbrev pub second_part : Option (Text × Text) → Option Text
second_part none = none
second_part (some (user, password)) = some password

abbrev pub password : Option Text → Option Text
password none = none
password (some decoded) = second_part (cut b':' decoded)

-- The length is compared first, then the bytes in constant time.
abbrev pub matches : Text → Option Text → Bool
matches token none = false
matches token (some provided) = length provided == length token && eq_text provided token

abbrev pub credentials_match : (Text → Option Text) → Text → Option (Text × Text) → Bool
credentials_match decode token none = false
credentials_match decode token (some (scheme, credentials)) =
    if eq_text (to_lower scheme) (codes "bearer")
    then matches token (some credentials)
    else if eq_text (to_lower scheme) (codes "basic")
    then matches token (password (decode credentials))
    else false

-- authorizedUpload, given base64.StdEncoding.DecodeString.
unfoldable pub authorized_upload : (Text → Option Text) → Text → Text → Bool
authorized_upload decode token header =
    if eq_text token [] || eq_text header []
    then false
    else credentials_match decode token (cut 32 header)

abbrev with_disk : Proxy → Files → Proxy
with_disk p files = record p { disk = files }

abbrev with_controller : Proxy → Option Controller → Proxy
with_controller p c = record p { session = record p.session { controller = c } }

-- The result of the reservation, closed or not, beside the answer.
abbrev Reserved : Type 0
Reserved = Proxy × Option Reservation

abbrev created : LocalPackage → Response → Response
created pkg w = record w {
  header = set (codes "Content-Type") (codes "text/plain; charset=utf-8") w.header;
  status = some (pos 201);
  body = codes "stored " ++ (pkg.filename ++ (codes " sha256:" ++ (pkg.hash ++ codes "\n")));
}

-- reservation.Commit(pkg.Size, 0): the proxy, and whether to go on.
abbrev commit_upload :
    LocalPackage
    → Proxy
    → Option Controller
    → Option Reservation
    → Proxy × Option Reservation × Bool
commit_upload pkg p (some c) (some r) =
    let (c', r', done) = Storage.commit pkg.size (pos 0) c r in
    (with_controller p (some c'), some r', done)
commit_upload pkg p (some c) none = (p, none, true)
commit_upload pkg p none r = (p, r, true)

abbrev withdraw : Disk → Proxy → Text → LocalPackage → Proxy
withdraw disk p project pkg =
    let at = places disk p.local_path project pkg.filename in
    with_disk p (discard disk at.description (discard disk at.target p.disk))

abbrev refuse : Env → ℤ → Text → Option Reservation → Proxy → Response → Reserved × Response
refuse env status message r p w = let (p', w') = fail env status message p w in ((p', r), w')

abbrev after_commit :
    Env
    → Disk
    → Text
    → LocalPackage
    → Response
    → Proxy × Option Reservation × Bool
    → Reserved × Response
after_commit env disk project pkg w (p, r, true) = ((p, r), created pkg w)
after_commit env disk project pkg w (p, r, false) =
    refuse env (pos 507) (codes "could not commit PyPI storage reservation") r
      (withdraw disk p project pkg) w

abbrev after_store :
    Env → Disk → Text → Option Reservation → Proxy → Response → Files × Stored → Reserved × Response
after_store env disk project r p w (files, existing) =
    refuse env (pos 409) (codes "could not store PyPI package") r (with_disk p files) w
after_store env disk project r p w (files, refused) =
    refuse env (pos 400) (codes "could not store PyPI package") r (with_disk p files) w
after_store env disk project r p w (files, stored pkg) =
    after_commit env disk project pkg w
      (commit_upload pkg (with_disk p files) p.session.controller r)

abbrev with_content :
    Env
    → Disk
    → Text
    → Text
    → Option Reservation
    → Proxy
    → Response
    → Option (Text × Upload)
    → Reserved × Response
with_content env disk project requires_python r p w none =
    refuse env (pos 400) (codes "PyPI upload is missing distribution content") r p w
with_content env disk project requires_python r p w (some (filename, upload)) =
    after_store env disk project r p w
      (store_local_package disk p.local_path project filename requires_python upload p.disk)

abbrev with_form :
    Env → Disk → Option Reservation → Proxy → Response → Option Form → Reserved × Response
with_form env disk r p w none = refuse env (pos 400) (codes "invalid PyPI upload") r p w
with_form env disk r p w (some form) =
    let project = normalize_project_name form.name in
    if eq_text project []
    then refuse env (pos 400) (codes "PyPI upload is missing package name") r p w
    else with_content env disk project form.requires_python r p w form.content

-- The deferred Release.
abbrev release_upload : Proxy → Option Controller → Option Reservation → Proxy
release_upload p (some c) (some r) = with_controller p (some (Storage.release c r).0)
release_upload p (some c) none = p
release_upload p none r = p

abbrev closed : Reserved × Response → Proxy × Response
closed ((p, r), w) = (release_upload p p.session.controller r, w)

abbrev reserved :
    Env → Disk → Posted → Proxy → Response → Controller × Option Reservation → Proxy × Response
reserved env disk posted p w (c, none) = (
  with_controller p (some c),
  http_error (pos 507) (codes "insufficient storage for PyPI upload") w,
)
reserved env disk posted p w (c, some r) = closed (
    with_form env disk (some r) (with_controller p (some c)) w (posted.parse_form max_upload_bytes))

abbrev with_free : Env → Disk → Posted → Controller → Proxy → Response → Option ℤ → Proxy × Response
with_free env disk posted c p w none =
    fail env (pos 507) (codes "could not verify PyPI storage capacity") p w
with_free env disk posted c p w (some free) =
    reserved env disk posted p w (Storage.reserve posted.content_length free c)

-- The part of serveUpload behind the two tests on the request.
unfoldable pub accept_upload :
    Env → Disk → Posted → Proxy → Response → Option Controller → Proxy × Response
unfolding fail store_local_package normalize_project_name
accept_upload env disk posted p w (some c) = with_free env disk posted c p w env.free_bytes
accept_upload env disk posted p w none =
    closed (with_form env disk none p w (posted.parse_form max_upload_bytes))

unfoldable pub serve_upload :
    Env → Codecs → Disk → Posted → Request → Proxy → Response → Proxy × Response
unfolding authorized_upload accept_upload
serve_upload env codecs disk posted q p w =
    if not (eq_text q.method (codes "POST"))
    then (
      p,
      http_error (pos 405) (codes "method not allowed")
          (record w { header = set (codes "Allow") (codes "POST") w.header }),
    )
    else if not (
        authorized_upload codecs.decode_base64 p.publish_token
          (get q.header (codes "Authorization")))
    then (
      p,
      http_error (pos 401) (codes "upload authorization required") (record w {
        header = set (codes "WWW-Authenticate") (codes "Basic realm=\"n0ding-pypi\"") w.header;
      }),
    )
    else accept_upload env disk posted p w p.session.controller
