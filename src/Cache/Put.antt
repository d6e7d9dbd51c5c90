-- ===== src/Cache/Put.antt =====
-- internal/cache/store.go: PutStreamVerified up to its last critical section, with its deferred
-- clean-up. The names that os.CreateTemp invents, the chunks of the source and the verifier are
-- arguments.
use n0ding.Prelude.{
  ℕ, suc, ◌+◌, ◌-◌, ◌*◌, ℤ, pos, negsuc, sub_ℕ, leb, max_int64, Bool, true, false, not, ◌||◌,
  Option, none, some, List, [], ◌∷◌, ◌++◌, Text, codes, if◌then◌else◌, is_digit, ◌==◌, eq_text,
}
use n0ding.Storage
use n0ding.Storage.{Controller, Reservation}
use n0ding.Http.{Header, get}
use n0ding.HttpPolicy.{cache_metadata_headers}
use n0ding.Cache.Files.{FilePath, Op, write, eq_path}
use n0ding.Cache.Naming.{Metadata, Platform, paths}
use n0ding.Cache.Store.{Store}
use n0ding.Cache.Writer.{Source, Sink, sink, copy}
use n0ding.Cache.Commit.{Session, Places, Put, bypassed, failed, try_remove, commit_entry}

-- strconv.ParseInt(s, 10, 64) on digits: the value, if there is a digit and nothing else.
abbrev pub digits_from : ℕ → Text → Option ℕ
digits_from n [] = some n
digits_from n (c ∷ s) =
    let rest = digits_from (n * 10 + (c - b'0')) s in if is_digit c then rest else none

abbrev pub digits : Text → Option ℕ
digits [] = none
digits (c ∷ s) = digits_from 0 (c ∷ s)

abbrev pub signed : Bool → Option ℕ → Option ℤ
signed minus none = none
signed true (some n) = if leb n (max_int64 + 1) then some (sub_ℕ 0 n) else none
signed false (some n) = if leb n max_int64 then some (pos n) else none

unfoldable pub parse_int : Text → Option ℤ
parse_int [] = none
parse_int (c ∷ s) =
    if c == b'-'
    then signed true (digits s)
    else if c == b'+'
    then signed false (digits s)
    else signed false (digits (c ∷ s))

abbrev pub positive : Option ℤ → Option ℤ
positive none = none
positive (some (pos (suc n))) = some (pos (suc n))
positive (some z) = none

-- contentLength: the size, if it is known.
unfoldable pub content_length : Header → Option ℤ
unfolding parse_int get
content_length header =
    let raw = get header (codes "Content-Length") in
    if eq_text raw [] then none else positive (parse_int raw)

-- The arguments of PutStreamVerified, and what the call meets: the free bytes that the filesystem
-- reports (`none` on an error), the two names of temporary files, and the clock.
pub record Request : Type 0 where
  pub key : Text
  pub metadata : Metadata
  pub source : Source
  pub verify : Option (ℤ → List ℕ → Bool)
  pub free_bytes : Option ℤ
  pub body_suffix : Text
  pub metadata_suffix : Text

-- What the client has received, and how the call ended.
pub record Answer : Type 0 where
  pub session : Session
  pub downstream : List ℕ
  pub put : Put

abbrev copy_result : Option ℤ → Put
copy_result none = failed
copy_result (some n) = bypassed

-- io.Copy(downstream, source)
abbrev pub pass_through : Source → Session → Answer
pass_through source s =
    let (w, n) = copy source (sink (negsuc 0) false) in
    record { session = s; downstream = w.downstream; put = copy_result n }

unfoldable pub drop_path : FilePath → List FilePath → List FilePath
drop_path p [] = []
drop_path p (q ∷ qs) = let rest = drop_path p qs in if eq_path q p then rest else q ∷ rest

-- The deferred calls of one temporary file: it is removed unless it has been renamed, and forgotten.
abbrev forget : Platform → FilePath → Store → Store
forget platform path s = record s {
  files = try_remove platform path s.files;
  active_temps = drop_path path s.active_temps;
}

abbrev release_open : Option Controller → Option Reservation → Option Controller
release_open (some c) (some r) = some (Storage.release c r).0
release_open none r = none
release_open (some c) none = some c

-- reservation.Release(), which does nothing behind a Commit.
abbrev close : Session → Session
close s = record s { controller = release_open s.controller s.reservation }

abbrev pub create_temp : FilePath → Store → Store
create_temp path s = record s {
  files = write path (record { content = []; mod_time = s.now; regular = true }) s.files;
  active_temps = path ∷ s.active_temps;
}

abbrev pub fill : FilePath → List ℕ → Store → Store
fill path content s = record s {
  files = write path (record { content = content; mod_time = s.now; regular = true }) s.files;
}

abbrev pub places : Platform → Store → Request → Places
places platform s q =
    let (body, meta) = paths platform s.root q.key in
    record {
      legacy = body;
      metadata_path = meta;
      body_temp = record { dir = body.dir; name = codes ".body-" ++ q.body_suffix };
      metadata_temp = record { dir = body.dir; name = codes ".metadata-" ++ q.metadata_suffix };
      generation = record { dir = body.dir; name = body.name ++ (codes "." ++ q.body_suffix) };
    }

-- The metadata that is written.
abbrev pub final_metadata : Store → Places → ℤ → Metadata → Metadata
final_metadata s p written m = record m {
  stored_at = s.now;
  content_bytes = written;
  body_file = p.generation.name;
  header = cache_metadata_headers m.header;
}

-- The metadata file, and the last section.
unfoldable pub put_metadata : Platform → Places → ℤ → Metadata → Session → Session × Put
put_metadata platform p written m s =
    let content = platform.marshal (final_metadata s.store p written m) in
    let begun = create_temp p.metadata_temp s.store in
    let (s', put) =
      commit_entry platform p written s.store.now
        (record s { store = fill p.metadata_temp content begun }) in
    if platform.fails Op.marshal_json p.metadata_path || platform.fails Op.create p.metadata_temp
    then (s, failed)
    else if platform.fails Op.write_file p.metadata_temp
        || (platform.fails Op.sync p.metadata_temp || platform.fails Op.close_file p.metadata_temp)
    then (record s { store = forget platform p.metadata_temp begun }, failed)
    else (record s' { store = forget platform p.metadata_temp s'.store }, put)

abbrev pub verified : Option (ℤ → List ℕ → Bool) → ℤ → List ℕ → Bool
verified none written body = true
verified (some check) written body = check written body

abbrev record_overflow : ℤ → Session → Session
record_overflow written s = record s {
  controller = elim s.controller [ none ↦ none | some c ↦ some (Storage.record_bypass written c) ];
}

-- What follows the copy into the body file. The verifier closes over a digest of what has been read
-- from the source, which behind a copy with no error is what the client took.
unfoldable pub after_copy : Platform → Places → Request → Session → Sink → Option ℤ → Session × Put
after_copy platform p q s w none = (s, failed)
after_copy platform p q s w (some written) =
    if platform.fails Op.sync p.body_temp || platform.fails Op.close_file p.body_temp
    then (s, failed)
    else if not (verified q.verify written (w.downstream))
    then (s, failed)
    else if w.overflow
    then (record_overflow written s, bypassed)
    else put_metadata platform p written q.metadata s

-- With a reservation, or with no controller.
unfoldable pub put_body : Platform → Places → Request → ℤ → Session → Answer
put_body platform p q limit s =
    let (w, written) = copy q.source (sink limit true) in
    let begun = create_temp p.body_temp s.store in
    let (s', put) =
      after_copy platform p q (record s { store = fill p.body_temp w.cache begun }) w written in
    if platform.fails Op.mkdir p.body_temp || platform.fails Op.create p.body_temp
    then record { session = close s; downstream = []; put = failed }
    else record {
      session = close (record s' { store = forget platform p.body_temp s'.store });
      downstream = w.downstream;
      put = put;
    }

abbrev pub put_reserved :
    Platform → Places → Request → ℤ → Store → Controller × Option Reservation → Answer
put_reserved platform p q expected s (c, none) =
    pass_through q.source (record { store = s; controller = some c; reservation = none })
put_reserved platform p q expected s (c, some r) =
    put_body platform p q expected (record { store = s; controller = some c; reservation = some r })

abbrev pub put_sized : Platform → Places → Request → Store → Controller → ℤ → Option ℤ → Answer
put_sized platform p q s c free none =
    pass_through q.source (record {
      store = s;
      controller = some (Storage.record_bypass (pos 0) c);
      reservation = none;
    })
put_sized platform p q s c free (some expected) =
    put_reserved platform p q expected s (Storage.reserve expected free c)

abbrev pub put_controlled : Platform → Places → Request → Store → Controller → Option ℤ → Answer
put_controlled platform p q s c none = record {
  session = record { store = s; controller = some c; reservation = none };
  downstream = [];
  put = failed;
}
put_controlled platform p q s c (some free) =
    put_sized platform p q s c free (content_length q.metadata.header)

unfoldable pub put_stream_verified : Platform → Request → Store → Option Controller → Answer
put_stream_verified platform q s none =
    put_body platform (places platform s q) q (negsuc 0)
      (record { store = s; controller = none; reservation = none })
put_stream_verified platform q s (some c) =
    put_controlled platform (places platform s q) q s c q.free_bytes
