-- ===== src/Pypi/Handler.antt =====
-- internal/pypiproxy/proxy.go: ServeHTTP, which tells the private index, the pages and the files apart,
-- and serveCached, which both kinds of cached requests go through.
use n0ding.Prelude.{
  pos, Bool, true, false, not, ◌&&◌, ◌||◌, Option, none, some, List, [], ◌∷◌, Text, codes, eq_text,
  if◌then◌else◌, has_prefix,
}
use n0ding.Http.{Url, get, set}
use n0ding.HttpPolicy.Directives.{request_bypasses_cache}
use n0ding.Cache.Store.{Entry}
use n0ding.Exchange.{Request, Env, Response, http_error}
use n0ding.Pypi.Proxy.{Proxy, fail, count_request, count_hit, count_miss, count_range}
use n0ding.Pypi.Links.{simple_target_url, file_target_url}
use n0ding.Pypi.Disk.{LocalPackage}
use n0ding.Pypi.Private.{
  simple_project, local_packages, serve_local_project, serve_local_file, not_found,
}
use n0ding.Pypi.Publish.{serve_upload}
use n0ding.Pypi.Serve.{
  World, lookup, serve_hit, cache_key, with_session, serve_simple_miss, serve_file_miss,
}

-- serveMiss, with the target that it closes over.
abbrev pub Miss : Type 0
Miss = Text → Bool → Proxy → Response → Proxy × Response

-- What other requests do while this one waits for the lock of its key.
abbrev pub wait : Env → Proxy → Proxy
wait env p = with_session p (env.meanwhile p.session)

abbrev pub on_second :
    Env → Request → Text → Miss → Response → Proxy × Option Entry → Proxy × Response
on_second env q key miss w (p, some entry) = serve_hit q env entry (count_hit p) w
on_second env q key miss w (p, none) = miss key true (count_miss p) w

abbrev pub on_first :
    Env → Request → Text → Miss → Response → Proxy × Option Entry → Proxy × Response
on_first env q key miss w (p, some entry) = serve_hit q env entry (count_hit p) w
on_first env q key miss w (p, none) = on_second env q key miss w (lookup env key (wait env p))

unfoldable pub serve_cached :
    Env → Request → Text → Bool → Miss → Proxy → Response → Proxy × Response
unfolding lookup serve_hit
serve_cached env q key cacheable miss p w =
    if cacheable
    then on_first env q key miss w (lookup env key p)
    else miss key false (count_miss (wait env p)) w

abbrev pub is_cacheable : Proxy → Request → Bool
is_cacheable p q =
    eq_text (get q.header (codes "Range")) []
    && (not (request_bypasses_cache q.header)
        && (not p.forward_authorization || eq_text (get q.header (codes "Authorization")) []))

abbrev pub on_simple_target : World → Request → Proxy → Response → Option Url → Proxy × Response
on_simple_target world q p w none = fail world.env (pos 400) (codes "invalid upstream URL") p w
on_simple_target world q p w (some target) =
    let key =
      cache_key p.name (codes "simple") (world.urls.show target) (get q.header (codes "Accept"))
        [] in
    serve_cached world.env q key (is_cacheable p q) (serve_simple_miss world q target) p w

abbrev pub remote_project : World → Request → Proxy → Response → Proxy × Response
remote_project world q p w = on_simple_target world q p w (simple_target_url world.urls p q)

abbrev pub on_packages :
    World → Request → Text → Proxy → Response → Option (List LocalPackage) → Proxy × Response
on_packages world q project p w none =
    fail world.env (pos 500) (codes "read private PyPI package index") p w
on_packages world q project p w (some []) = remote_project world q p w
on_packages world q project p w (some (pkg ∷ pkgs)) =
    (p, serve_local_project world.env world.urls world.codecs q p project (pkg ∷ pkgs) w)

unfoldable pub serve_simple : World → Request → Proxy → Response → Proxy × Response
unfolding serve_cached serve_simple_miss
serve_simple world q p w =
    let project = simple_project world.urls p q.url_path in
    let remote = remote_project world q p w in
    let local = on_packages world q project p w (local_packages world.disk p project) in
    if not (eq_text project []) && not (eq_text p.local_path []) then local else remote

abbrev pub on_file_target :
    World → Request → Proxy → Response → Option (Url × Text) → Proxy × Response
on_file_target world q p w none = fail world.env (pos 400) (codes "invalid PyPI file URL") p w
on_file_target world q p w (some (target, sha)) =
    let key =
      cache_key p.name (codes "file") (world.urls.show target) (get q.header (codes "Accept"))
        sha in
    serve_cached world.env q key (is_cacheable p q)
      (λ key cacheable. serve_file_miss world q target key sha cacheable) p w

unfoldable pub serve_file : World → Request → Proxy → Response → Proxy × Response
unfolding serve_cached serve_file_miss
serve_file world q p w = on_file_target world q p w (file_target_url world.urls p q)

abbrev pub counted_range : Request → Proxy → Proxy
counted_range q p = if not (eq_text (get q.header (codes "Range")) []) then count_range p else p

unfoldable pub serve_http : World → Request → Proxy → Response → Proxy × Response
unfolding serve_simple serve_file
serve_http world q p w =
    let p' = count_request p in
    let p'' = counted_range q p' in
    if eq_text q.url_path p.upload_path
    then serve_upload world.env world.codecs world.disk world.posted q p' w
    else if has_prefix q.url_path p.package_path
    then serve_local_file world.urls world.codecs world.disk q p' w
    else if not (eq_text q.method (codes "GET")) && not (eq_text q.method (codes "HEAD"))
    then (
      p',
      http_error (pos 405) (codes "method not allowed")
          (record w { header = set (codes "Allow") (codes "GET, HEAD") w.header }),
    )
    else if has_prefix q.url_path p.path
    then serve_simple world q p'' w
    else if has_prefix q.url_path p.file_path
    then serve_file world q p'' w
    else (p'', not_found w)
