-- ===== src/Cache/Writer.antt =====
-- internal/cache/store.go: boundedCacheWriter under io.Copy. A chunk of the source comes with what
-- the downstream writer answers to it: how many bytes it took, and whether it failed.
use n0ding.Prelude.{
  ℕ, ℤ, pos, ◌+ℤ◌, ◌-ℤ◌, int64, leb_ℤ, ltb_ℤ, ltb, Bool, true, false, not, ◌&&◌, ◌||◌, Option, none,
  some, List, [], ◌∷◌, ◌++◌, if◌then◌else◌, length, take,
}

pub record Chunk : Type 0 where
  pub data_bytes : List ℕ
  pub taken : ℕ
  pub downstream_fails : Bool
  pub cache_fails : Bool

-- The source: its chunks, and whether it ends in an error in place of io.EOF.
pub record Source : Type 0 where
  pub chunks : List Chunk
  pub fails : Bool

-- `cache` and `downstream` are what has been written to the two.
pub record Sink : Type 0 where
  pub cache : List ℕ
  pub downstream : List ℕ
  pub limit : ℤ
  pub written : ℤ
  pub enabled : Bool
  pub overflow : Bool

-- A new boundedCacheWriter.
abbrev pub sink : ℤ → Bool → Sink
sink limit enabled = record {
  cache = [];
  downstream = [];
  limit = limit;
  written = pos 0;
  enabled = enabled;
  overflow = false;
}

-- The part of Write behind the write to the client, given the bytes that the client took, and
-- whether it returns the error of the cache file.
abbrev to_cache : Chunk → List ℕ → Sink → Sink × Bool
to_cache c part w =
    let n = pos (length part) in
    if leb_ℤ (pos 0) w.limit && ltb_ℤ (int64 (w.limit -ℤ w.written)) n
    then (record w { overflow = true; written = int64 (w.written +ℤ n) }, false)
    else if c.cache_fails
    then (w, true)
    else (record w { cache = w.cache ++ part; written = int64 (w.written +ℤ n) }, false)

-- Write: the new sink and whether there is an error.
unfoldable pub write_chunk : Chunk → Sink → Sink × Bool
write_chunk c w =
    let part = take c.taken c.data_bytes in
    let w' = record w { downstream = w.downstream ++ part } in
    if ltb 0 (length part) && (w.enabled && not w.overflow)
    then (let (w'', e) = to_cache c part w' in (w'', e || c.downstream_fails))
    else (w', c.downstream_fails)

-- The result of io.Copy: the sink, and the number of bytes if there was no error. A short write is an
-- error.
unfoldable pub copy_from : List Chunk → Bool → ℤ → Sink → Sink × Option ℤ
copy_from [] true n w = (w, none)
copy_from [] false n w = (w, some n)
copy_from (c ∷ cs) fails n w =
    let (w', e) = write_chunk c w in
    let rest = copy_from cs fails (int64 (n +ℤ pos (length c.data_bytes))) w' in
    if e || ltb c.taken (length c.data_bytes) then (w', none) else rest

unfoldable pub copy : Source → Sink → Sink × Option ℤ
unfolding copy_from write_chunk
copy source w = copy_from source.chunks source.fails (pos 0) w

-- All bytes of the source.
abbrev pub bytes_of : List Chunk → List ℕ
bytes_of [] = []
bytes_of (c ∷ cs) = c.data_bytes ++ bytes_of cs
