-- ===== src/Pypi/Access.antt =====
-- internal/pypiproxy/proxy.go: who may change the private index.
use n0ding.Prelude.{
  ℤ, pos, Bool, true, false, not, ◌&&◌, ◌||◌, Option, none, some, List, [], ◌∷◌, Text, codes,
  eq_text, length, leb, cut, contains_text, ◌≡◌, inl, inr, refl, ◌∙◌, Bool-cases, Option-cases,
  trim_prefix, ℕ,
}
use n0ding.Http.{Header, Url, get}
use n0ding.Cache.Files.{File, FilePath, Op}
use n0ding.Cache.Commit.{Put, stored, bypassed, failed}
use n0ding.Cache.Store.{Entry}
use n0ding.Exchange.{
  Request, Incoming, Reply, not_created, no_response, answered, Env, Response, put_entry,
  new_metadata, read_body,
}
use n0ding.Pypi.Urls.{Urls}
use n0ding.Pypi.Proxy.{Proxy, fail, record_stream_error, count_miss}
use n0ding.Pypi.Links.{simple_target_url, file_target_url}
use n0ding.Pypi.Documents.{Codecs, is_json, is_html}
use n0ding.Pypi.Disk.{LocalPackage, Disk, cached}
use n0ding.Pypi.Names.{normalize_project_name, safe_distribution_filename}
use n0ding.Pypi.Private.{
  serve_local_file, serve_parts, serve_named, serve_file_found, local_packages, simple_project,
}
use n0ding.Pypi.Serve.{
  World, lookup, serve_hit, stream_response, after_stream, page_rewritten, page_read,
  max_simple_bytes, simple_response, serve_simple_miss, file_response, serve_file_miss,
  proxy_failure, do_upstream,
}
use n0ding.Pypi.Handler.{
  Miss, wait, on_second, on_first, serve_cached, is_cacheable, remote_project, on_packages,
  serve_simple, serve_file,
}

fail-disk :
    (env : Env) (status : ℤ) (m : Text) (p : Proxy) (w : Response)
    → (fail env status m p w).0.disk ≡ p.disk
unfolding fail
fail-disk env status m p w = elim (Bool-cases env.canceled) [
  | inl c ↦ rw c refl
  | inr c ↦ rw c refl
]

after_stream-disk : (env : Env) (p : Proxy) (put : Put) → (after_stream env p put).disk ≡ p.disk
unfolding record_stream_error
after_stream-disk env p stored = refl
after_stream-disk env p bypassed = refl
after_stream-disk env p failed = elim (Bool-cases env.canceled) [
  | inl c ↦ rw c refl
  | inr c ↦ rw c refl
]

stream_response-disk :
    (env : Env) (q : Request) (r : Incoming) (h c : Header) (key : Text) (cacheable : Bool)
    (digest : Text) (verify : Option (ℤ → List ℕ → Bool)) (p : Proxy) (w : Response)
    → (stream_response env q r h c key cacheable digest verify p w).0.disk ≡ p.disk
unfolding stream_response
stream_response-disk env q r h c key cacheable digest verify p w =
    elim (Bool-cases (eq_text q.method (codes "HEAD"))) [
      | inl e ↦ rw e refl
      | inr e ↦ elim (Bool-cases cacheable) [
        | inr no_cache ↦ rw (e, no_cache) refl
        | inl use_cache ↦
            rw (e, use_cache)
              (after_stream-disk env _
                (put_entry env key (new_metadata r.status c digest) r.body verify p.session).put)
      ]
    ]

page_rewritten-disk :
    (env : Env) (q : Request) (r : Incoming) (h c : Header) (key : Text) (cacheable : Bool)
    (p : Proxy) (w : Response) (o : Option (List ℕ))
    → (page_rewritten env q r h c key cacheable p w o).0.disk ≡ p.disk
page_rewritten-disk env q r h c key cacheable p w none = fail-disk env (pos 502) _ p w
page_rewritten-disk env q r h c key cacheable p w (some content) = elim (Bool-cases cacheable) [
  | inl e ↦ rw e refl
  | inr e ↦ rw e refl
]

page_read-disk :
    (world : World) (q : Request) (target : Url) (r : Incoming) (h c : Header) (key : Text)
    (cacheable : Bool) (p : Proxy) (w : Response) (o : Option (List ℕ))
    → (page_read world q target r h c key cacheable p w o).0.disk ≡ p.disk
page_read-disk world q target r h c key cacheable p w none = fail-disk world.env (pos 502) _ p w
page_read-disk world q target r h c key cacheable p w (some content) =
    elim (Bool-cases (leb (length content) max_simple_bytes)) [
      | inl e ↦ rw e (page_rewritten-disk world.env q r h c key cacheable p w _)
      | inr e ↦ rw e refl
    ]

proxy_failure-disk :
    (env : Env) (p : Proxy) (w : Response) → (proxy_failure env p w).0.disk ≡ p.disk
unfolding proxy_failure
proxy_failure-disk env p w = fail-disk env _ _ p w

simple_response-disk :
    (world : World) (q : Request) (target : Url) (key : Text) (cacheable : Bool) (p : Proxy)
    (w : Response) (reply : Reply)
    → (simple_response world q target key cacheable p w reply).0.disk ≡ p.disk
unfolding simple_response
simple_response-disk world q target key cacheable p w not_created = proxy_failure-disk world.env p w
simple_response-disk world q target key cacheable p w no_response = proxy_failure-disk world.env p w
simple_response-disk world q target key cacheable p w (answered r) =
    elim (Bool-cases (
      not (is_html world.env (get r.header (codes "Content-Type")))
      && not (is_json world.env (get r.header (codes "Content-Type"))))) [
        | inl e ↦ rw e (stream_response-disk world.env q r _ _ key _ [] none p w)
        | inr e ↦
            rw e (page_read-disk world q target r _ _ key _ p w (read_body max_simple_bytes r.body))
      ]

file_response-disk :
    (world : World) (q : Request) (key sha : Text) (cacheable : Bool) (p : Proxy) (w : Response)
    (reply : Reply)
    → (file_response world q key sha cacheable p w reply).0.disk ≡ p.disk
unfolding file_response
file_response-disk world q key sha cacheable p w not_created = proxy_failure-disk world.env p w
file_response-disk world q key sha cacheable p w no_response = proxy_failure-disk world.env p w
file_response-disk world q key sha cacheable p w (answered r) =
    stream_response-disk world.env q r _ _ key _ _ _ p w

serve_hit-disk :
    (q : Request) (env : Env) (entry : Entry) (p : Proxy) (w : Response)
    → (serve_hit q env entry p w).0.disk ≡ p.disk
unfolding serve_hit
serve_hit-disk q env entry p w = elim (Bool-cases (eq_text q.method (codes "HEAD"))) [
  | inl e ↦ rw e refl
  | inr e ↦ rw e refl
]

-- A miss that keeps the private files makes serveCached keep them.
KeepsDisk : Miss → Type 0
KeepsDisk miss =
    (key : Text) (cacheable : Bool) (p : Proxy) (w : Response)
    → (miss key cacheable p w).0.disk ≡ p.disk

on_second-disk :
    (env : Env) (q : Request) (key : Text) (miss : Miss) (w : Response) (x : Proxy × Option Entry)
    → KeepsDisk miss
    → (on_second env q key miss w x).0.disk ≡ x.0.disk
unfolding KeepsDisk
on_second-disk env q key miss w (p, none) h = h key true (count_miss p) w
on_second-disk env q key miss w (p, some entry) h = serve_hit-disk q env entry _ w

lookup-disk : (env : Env) (key : Text) (p : Proxy) → (lookup env key p).0.disk ≡ p.disk
unfolding lookup
lookup-disk env key p = refl

on_first-disk :
    (env : Env) (q : Request) (key : Text) (miss : Miss) (w : Response) (x : Proxy × Option Entry)
    → KeepsDisk miss
    → (on_first env q key miss w x).0.disk ≡ x.0.disk
on_first-disk env q key miss w (p, none) h =
    on_second-disk env q key miss w (lookup env key (wait env p)) h
    ∙ lookup-disk env key (wait env p)
on_first-disk env q key miss w (p, some entry) h = serve_hit-disk q env entry _ w

serve_cached-disk :
    (env : Env) (q : Request) (key : Text) (cacheable : Bool) (miss : Miss) (p : Proxy)
    (w : Response)
    → KeepsDisk miss
    → (serve_cached env q key cacheable miss p w).0.disk ≡ p.disk
unfolding serve_cached KeepsDisk
serve_cached-disk env q key cacheable miss p w h = elim (Bool-cases cacheable) [
  | inl e ↦ rw e (on_first-disk env q key miss w (lookup env key p) h ∙ lookup-disk env key p)
  | inr e ↦ rw e (h key false _ w)
]

remote_project-disk :
    (world : World) (q : Request) (p : Proxy) (w : Response)
    → (remote_project world q p w).0.disk ≡ p.disk
unfolding serve_simple_miss KeepsDisk
remote_project-disk world q p w = elim (Option-cases (simple_target_url world.urls p q)) [
  | inl e ↦ rw e (fail-disk world.env (pos 400) _ p w)
  | inr (target, e) ↦ rw e (
      serve_cached-disk world.env q _ (is_cacheable p q) (serve_simple_miss world q target) p w
        (λ key cacheable p w.
          simple_response-disk world q target key cacheable p w (do_upstream world q target p)))
]

on_packages-disk :
    (world : World) (q : Request) (project : Text) (p : Proxy) (w : Response)
    (o : Option (List LocalPackage))
    → (on_packages world q project p w o).0.disk ≡ p.disk
on_packages-disk world q project p w none = fail-disk world.env (pos 500) _ p w
on_packages-disk world q project p w (some []) = remote_project-disk world q p w
on_packages-disk world q project p w (some (pkg ∷ pkgs)) = refl

pub serve_simple-disk :
    (world : World) (q : Request) (p : Proxy) (w : Response)
    → (serve_simple world q p w).0.disk ≡ p.disk
unfolding serve_simple
serve_simple-disk world q p w =
    elim (Bool-cases (
      not (eq_text (simple_project world.urls p q.url_path) []) && not (eq_text p.local_path []))) [
        | inl e ↦ rw e (on_packages-disk world q _ p w (local_packages world.disk p _))
        | inr e ↦ rw e (remote_project-disk world q p w)
      ]

pub serve_file-disk :
    (world : World) (q : Request) (p : Proxy) (w : Response)
    → (serve_file world q p w).0.disk ≡ p.disk
unfolding serve_file serve_file_miss KeepsDisk
serve_file-disk world q p w = elim (Option-cases (file_target_url world.urls p q)) [
  | inl e ↦ rw e (fail-disk world.env (pos 400) _ p w)
  | inr ((target, sha), e) ↦ rw e (
      serve_cached-disk world.env q _ (is_cacheable p q)
        (λ key cacheable. serve_file_miss world q target key sha cacheable) p w
        (λ key cacheable p w.
          file_response-disk world q key sha cacheable p w (do_upstream world q target p)))
]

serve_file_found-disk :
    (codecs : Codecs) (disk : Disk) (q : Request) (p : Proxy) (path : FilePath) (w : Response)
    (o : Option File)
    → (serve_file_found codecs disk q p path w o).0.disk ≡ p.disk
serve_file_found-disk codecs disk q p path w none = refl
serve_file_found-disk codecs disk q p path w (some f) =
    elim (Bool-cases (disk.fails (cached Op.open_file) path)) [
      | inl e ↦ rw e refl
      | inr e ↦ elim (Bool-cases (disk.fails (cached Op.stat) path || not f.regular)) [
        | inl e' ↦ rw (e, e') refl
        | inr e' ↦ rw (e, e') refl
      ]
    ]

serve_named-disk :
    (codecs : Codecs) (disk : Disk) (q : Request) (p : Proxy) (w : Response) (a b : Option Text)
    → (serve_named codecs disk q p w a b).0.disk ≡ p.disk
serve_named-disk codecs disk q p w none b = refl
serve_named-disk codecs disk q p w (some project) none = refl
serve_named-disk codecs disk q p w (some project) (some filename) =
    elim (Bool-cases (
      not (eq_text (normalize_project_name project) project)
      || not (safe_distribution_filename filename))) [
        | inl e ↦ rw e refl
        | inr e ↦ rw e (serve_file_found-disk codecs disk q p _ w _)
      ]

pub serve_local_file-disk :
    (urls : Urls) (codecs : Codecs) (disk : Disk) (q : Request) (p : Proxy) (w : Response)
    → (serve_local_file urls codecs disk q p w).0.disk ≡ p.disk
unfolding serve_local_file
serve_local_file-disk urls codecs disk q p w =
    elim (Bool-cases
      (not (eq_text q.method (codes "GET")) && not (eq_text q.method (codes "HEAD")))) [
        | inl e ↦ rw e refl
        | inr e ↦ rw e (parts (cut b'/' (trim_prefix q.url_path p.package_path)))
      ]
  where
    parts : (o : Option (Text × Text)) → (serve_parts urls codecs disk q p w o).0.disk ≡ p.disk
    parts none = refl
    parts (some (project, filename)) = elim (Bool-cases (contains_text filename (codes "/"))) [
      | inl e ↦ rw e refl
      | inr e ↦ rw e (
          serve_named-disk codecs disk q p w (urls.path_unescape project)
            (urls.path_unescape filename))
    ]
