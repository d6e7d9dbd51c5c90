-- ===== src/Cache/Tests.antt =====
-- Runs of a store: a body that is copied, and stored behind a verifier, a clean-up and an eviction.
use n0ding.Prelude.{
  has_prefix, has_suffix, trim_suffix, contains_text, Text, ◌++◌, ℕ, ◌≤◌, int64, ◌-ℤ◌, ◌+ℤ◌, pos,
  pos_part, leb_ℤ, ltb, true, false, ◌&&◌, none, some, List, [], ◌∷◌, codes, eq_text, length, ◌≡◌,
  refl, ◌⊎◌, arith,
}
use n0ding.Cache.Files.{FilePath, read, erase, eq_path}
use n0ding.Cache.Naming.{
  is_temp_name, body_path_for_metadata, base, all_hex, body_path_for_entry, Platform, read_metadata,
}
use n0ding.Cache.Store.{Candidate, remove_candidate, Store, remove_file}
use n0ding.Cache.Writer.{Chunk, Source, sink, write_chunk, copy_from, copy, bytes_of}
use n0ding.Cache.Bounds.{copy_bounded}
use n0ding.Cache.Put.{Request}
use n0ding.Cache.Sweep.{is_active, cleanup_stale_temps}
use n0ding.Cache.Keeping.{is_protected, cleanup_keeps_entries}
use n0ding.Cache.Removing.{IsExact, is_gone, remove_candidate-IsExact}

abbrev chunk : List ℕ → Chunk
chunk content = record {
  data_bytes = content;
  taken = length content;
  downstream_fails = false;
  cache_fails = false;
}

abbrev source : Source
source = record { chunks = chunk (1 ∷ 2 ∷ []) ∷ chunk (3 ∷ 4 ∷ []) ∷ []; fails = false }

copied : (copy source (sink (pos 3) true)).1 ≡ some (pos 4)
unfolding copy copy_from write_chunk int64 ◌-ℤ◌ ◌+ℤ◌
copied = refl

copy_bounded_example :
    ((copy source (sink (pos 3) true)).0.downstream ≡ bytes_of source.chunks)
    × (pos 4 ≡ pos (length (bytes_of source.chunks)))
    × ((copy source (sink (pos 3) true)).0.overflow
        ≡ (leb_ℤ (pos 0) (pos 3) && ltb (pos_part (pos 3)) (length (bytes_of source.chunks))))
    × (((copy source (sink (pos 3) true)).0.overflow ≡ true)
        ⊎ ((copy source (sink (pos 3) true)).0.cache ≡ bytes_of source.chunks))
    × ((leb_ℤ (pos 0) (pos 3) ≡ false)
        ⊎ (length (copy source (sink (pos 3) true)).0.cache ≤ pos_part (pos 3)))
copy_bounded_example = copy_bounded (pos 3) (pos 4) source (omega arith) (omega arith) copied

abbrev platform : Platform
platform = record {
  marshal = λ m. codes "{}";
  unmarshal = λ c. none;
  hash = λ k. codes "ab";
  fails = λ op path. false;
}

abbrev request : Request
request = record {
  key = codes "left-pad";
  metadata = record {
    status = pos 200;
    header = [];
    stored_at = pos 0;
    content_bytes = pos 0;
    content_digest = [];
    body_file = [];
  };
  source = source;
  verify = some (λ n content. eq_text content (1 ∷ 2 ∷ 3 ∷ 4 ∷ []));
  free_bytes = none;
  body_suffix = codes "7";
  metadata_suffix = codes "8";
}

abbrev empty_store : Store
empty_store = record {
  root = codes "/cache";
  files = [];
  now = pos 10;
  bytes = pos 0;
  objects = pos 0;
  active_temps = [];
}

-- A directory with two temporary files, one of them in use.
abbrev old_temp : FilePath
old_temp = record { dir = codes "/cache/ab"; name = codes ".body-1" }

abbrev used_temp : FilePath
used_temp = record { dir = codes "/cache/ab"; name = codes ".body-2" }

abbrev littered : Store
littered = record empty_store {
  files =
      (old_temp, record { content = []; mod_time = pos 1; regular = true })
      ∷ (used_temp, record { content = []; mod_time = pos 1; regular = true })
      ∷ [];
  active_temps = used_temp ∷ [];
}

in_use : is_protected used_temp littered ≡ true
unfolding is_active is_temp_name eq_path eq_text has_prefix
in_use = refl

cleanup_keeps_entries_example :
    (read used_temp (cleanup_stale_temps platform (pos 5) littered).0.files
      ≡ read used_temp littered.files)
    × ((cleanup_stale_temps platform (pos 5) littered).0.bytes ≡ littered.bytes)
    × ((cleanup_stale_temps platform (pos 5) littered).0.objects ≡ littered.objects)
    × ((cleanup_stale_temps platform (pos 5) littered).0.active_temps ≡ littered.active_temps)
cleanup_keeps_entries_example = cleanup_keeps_entries platform (pos 5) used_temp littered in_use

-- An entry of three bytes as a candidate for eviction, beside the two.
abbrev hash : Text
hash = codes "ab00000000000000000000000000000000000000000000000000000000000000"

abbrev reading_platform : Platform
reading_platform = record platform {
  unmarshal = λ c. some (record request.metadata { content_bytes = pos 3 });
}

abbrev old_entry : Candidate
old_entry = record {
  metadata_path = record { dir = codes "/cache/ab"; name = hash ++ codes ".json" };
  body_path = record { dir = codes "/cache/ab"; name = hash ++ codes ".body" };
  bytes = pos 3;
  last_used = pos 1;
}

abbrev with_entry : Store
with_entry = record littered {
  files =
      (old_entry.metadata_path, record { content = codes "{}"; mod_time = pos 1; regular = true })
      ∷ (old_entry.body_path, record { content = 1 ∷ 2 ∷ 3 ∷ []; mod_time = pos 1; regular = true })
      ∷ littered.files;
  bytes = pos 3;
  objects = pos 1;
}

other_body : eq_path old_entry.body_path used_temp ≡ false
unfolding eq_path eq_text
other_body = refl

other_metadata : eq_path old_entry.metadata_path used_temp ≡ false
unfolding eq_path eq_text
other_metadata = refl

-- The body has been there, and has been removed.
evicted : is_gone (remove_candidate reading_platform old_entry with_entry).1 ≡ true
unfolding remove_candidate body_path_for_metadata has_suffix trim_suffix eq_text base contains_text
    all_hex read_metadata read eq_path body_path_for_entry remove_file erase
evicted = refl

remove_candidate-IsExact_example :
    IsExact reading_platform old_entry used_temp with_entry
      (remove_candidate reading_platform old_entry with_entry)
remove_candidate-IsExact_example =
    remove_candidate-IsExact reading_platform old_entry used_temp with_entry other_body
      other_metadata
