-- ===== src/Cache/Bounds.antt =====
-- The body file never holds more than was reserved, and holds all that the client got or is given up.
use mathlib.Core.List.{append_assoc, append-nil}
use n0ding.Prelude.{
  int64-sub, ℕ, zero, suc, ◌+◌, ◌≤◌, ◌<◌, ℤ, pos, pos_part, negsuc, ◌+ℤ◌, ◌-ℤ◌, int64, int64-pos,
  +ℤ-pos, leb_ℤ, ltb_ℤ, ltb, max_int64, Bool, true, false, not, ◌&&◌, ◌||◌, some, List, [], ◌∷◌,
  ◌++◌, if◌then◌else◌, length, length-append, take, ◌≡◌, refl, ap, arith, Bool-cases, inl, inr, ◌⊎◌,
}
use n0ding.Cache.Writer.{Chunk, Source, Sink, sink, write_chunk, copy_from, copy, bytes_of}

-- What holds of a sink that has been offered the bytes `d`.
record IsTracking (limit : ℤ) (d : List ℕ) (w : Sink) : Type 0 where
  sent : w.downstream ≡ d
  limited : w.limit ≡ limit
  on : w.enabled ≡ true
  whole : w.overflow ≡ false → (w.cache ≡ d) × (w.written ≡ pos (length d))
  fits_limit : leb_ℤ (pos 0) limit ≡ true → length w.cache ≤ pos_part limit
  too_long : w.overflow ≡ true → (leb_ℤ (pos 0) limit ≡ true) × (pos_part limit < length d)

take_all : (n : ℕ) (xs : List ℕ) → ltb n (length xs) ≡ false → take n xs ≡ xs
take_all zero [] h = refl
take_all (suc n) [] h = refl
take_all zero (x ∷ xs) h = absurd (ground arith)
take_all (suc n) (x ∷ xs) h = ap (λ (l : List ℕ). x ∷ l) (take_all n xs (ground arith))

-- Write for a chunk that the client takes whole, with no error.
abbrev whole_write : List ℕ → Sink → Sink
whole_write x w =
    let n = pos (length x) in
    let w' = record w { downstream = w.downstream ++ x } in
    if ltb 0 (length x) && (w.enabled && not w.overflow)
    then (if leb_ℤ (pos 0) w.limit && ltb_ℤ (int64 (w.limit -ℤ w.written)) n
        then record w' { overflow = true; written = int64 (w.written +ℤ n) }
        else record w' { cache = w.cache ++ x; written = int64 (w.written +ℤ n) })
    else w'

write_chunk-whole :
    (c : Chunk) (w : Sink)
    → (write_chunk c w).1 ≡ false
    → ltb c.taken (length c.data_bytes) ≡ false
    → (write_chunk c w).0 ≡ whole_write c.data_bytes w
unfolding write_chunk
write_chunk-whole c w e full = ground (arith, take_all c.taken c.data_bytes full)

empty_of_length : (x : List ℕ) → ltb 0 (length x) ≡ false → x ≡ []
empty_of_length [] h = refl
empty_of_length (y ∷ x) h = absurd (ground arith)

never : (a b : Bool) → (a && (b && not true)) ≡ false
never a b = ground arith

negative : (l : ℕ) → leb_ℤ (pos 0) (negsuc l) ≡ false
negative l = ground arith

-- The test of Write on plain numbers.
room_test :
    (limit written : ℤ) (n k : ℕ)
    → written ≡ pos n
    → pos_part limit ≤ max_int64
    → (leb_ℤ (pos 0) limit ≡ true → n ≤ pos_part limit)
    → (leb_ℤ (pos 0) limit && ltb_ℤ (int64 (limit -ℤ written)) (pos k))
      ≡ (leb_ℤ (pos 0) limit && ltb (pos_part limit) (n + k))
room_test (negsuc l) written n k e h r = rw (negative l) refl
room_test (pos l) written n k e h r = rw (e, int64-sub l n (r (ground arith)) h) (ground arith)

module _ (limit : ℤ) (x d : List ℕ) (w : Sink) (t : IsTracking limit d w) where
  overflown : w.overflow ≡ true → IsTracking limit (d ++ x) (whole_write x w)
  overflown o =
      rw (o, never (ltb 0 (length x)) w.enabled)
        (record {
          sent = ap (λ (l : List ℕ). l ++ x) t.sent;
          limited = t.limited;
          on = t.on;
          whole = λ e. absurd (ground arith);
          fits_limit = t.fits_limit;
          too_long =
              λ e. ((t.too_long o).0, omega (arith, (t.too_long o).1, length-append {0} d x));
        })

  empty :
      w.overflow ≡ false → ltb 0 (length x) ≡ false → IsTracking limit (d ++ x) (whole_write x w)
  empty o z = rw z (record {
    sent = ap (λ (l : List ℕ). l ++ x) t.sent;
    limited = t.limited;
    on = t.on;
    whole = λ e. rw (empty_of_length x z, append-nil d) (t.whole o);
    fits_limit = t.fits_limit;
    too_long = λ e. absurd (cc);
  })

  module _ (o : w.overflow ≡ false) (some_bytes : ltb 0 (length x) ≡ true)
      (short : length d + length x ≤ max_int64) where
    counted : int64 (w.written +ℤ pos (length x)) ≡ pos (length (d ++ x))
    counted = rw ((t.whole o).1, +ℤ-pos, length-append {0} d x) (int64-pos _ short)

    room :
        pos_part limit ≤ max_int64
        → (leb_ℤ (pos 0) w.limit && ltb_ℤ (int64 (w.limit -ℤ w.written)) (pos (length x)))
          ≡ (leb_ℤ (pos 0) limit && ltb (pos_part limit) (length d + length x))
    room bound = rw t.limited (
        room_test limit w.written (length d) (length x) (t.whole o).1 bound
          (λ p. rw (← (t.whole o).0) (t.fits_limit p)))

    overflows :
        (leb_ℤ (pos 0) w.limit && ltb_ℤ (int64 (w.limit -ℤ w.written)) (pos (length x))) ≡ true
        → pos_part limit ≤ max_int64
        → IsTracking limit (d ++ x) (whole_write x w)
    overflows test bound =
        rw (some_bytes, t.on, o, test)
          (record {
            sent = ap (λ (l : List ℕ). l ++ x) t.sent;
            limited = t.limited;
            on = refl;
            whole = λ e. absurd (cc);
            fits_limit = t.fits_limit;
            too_long = λ e. ground (arith, room bound, length-append {0} d x);
          })

    fits :
        (leb_ℤ (pos 0) w.limit && ltb_ℤ (int64 (w.limit -ℤ w.written)) (pos (length x))) ≡ false
        → pos_part limit ≤ max_int64
        → IsTracking limit (d ++ x) (whole_write x w)
    fits test bound =
        rw (some_bytes, t.on, o, test)
          (record {
            sent = ap (λ (l : List ℕ). l ++ x) t.sent;
            limited = t.limited;
            on = refl;
            whole = λ e. (ap (λ (l : List ℕ). l ++ x) (t.whole o).0, counted);
            fits_limit = λ p. ground (
              arith,
              room bound,
              length-append {0} w.cache x,
              ap (λ (l : List ℕ). length l) (t.whole o).0,
            );
            too_long = λ e. absurd (cc);
          })

whole_write-IsTracking :
    (limit : ℤ) (x d : List ℕ) (w : Sink)
    → pos_part limit ≤ max_int64
    → length d + length x ≤ max_int64
    → IsTracking limit d w
    → IsTracking limit (d ++ x) (whole_write x w)
whole_write-IsTracking limit x d w bound short t = elim (Bool-cases w.overflow) [
  | inl o ↦ overflown limit x d w t o
  | inr o ↦ elim (Bool-cases (ltb 0 (length x))) [
    | inr z ↦ empty limit x d w t o z
    | inl n ↦
        elim (Bool-cases
          (leb_ℤ (pos 0) w.limit && ltb_ℤ (int64 (w.limit -ℤ w.written)) (pos (length x)))) [
            | inl test ↦ overflows limit x d w t o n short test bound
            | inr test ↦ fits limit x d w t o n short test bound
          ]
  ]
]

-- A copy that ends with no error has given every chunk whole to the client.
copy_from-IsTracking :
    (limit : ℤ) (cs : List Chunk) (n k : ℤ) (d : List ℕ) (fails : Bool) (w : Sink)
    → pos_part limit ≤ max_int64
    → length d + length (bytes_of cs) ≤ max_int64
    → IsTracking limit d w
    → (copy_from cs fails n w).1 ≡ some k
    → IsTracking limit (d ++ bytes_of cs) (copy_from cs fails n w).0
unfolding copy_from
copy_from-IsTracking limit [] n k d true w bound short t e = absurd (cc)
copy_from-IsTracking limit [] n k d false w bound short t e = rw (append-nil d) t
copy_from-IsTracking limit (c ∷ cs) n k d fails w bound short t e =
    let all = length-append {0} c.data_bytes (bytes_of cs) in
    let grown = length-append {0} d c.data_bytes in
    elim (Bool-cases ((write_chunk c w).1 || ltb c.taken (length c.data_bytes))) [
      | inl bad ↦ absurd (ground (arith, bad))
      | inr good ↦
          (let here = write_chunk-whole c w (ground arith) (ground arith) in
            let next =
              whole_write-IsTracking limit c.data_bytes d w bound (omega (arith, all, short)) t in
            rw (good, ← append_assoc d c.data_bytes (bytes_of cs))
              (copy_from-IsTracking limit cs _ k (d ++ c.data_bytes) fails (write_chunk c w).0 bound
                (omega (arith, all, grown, short)) (rw here next) (ground (arith, good, e))))
    ]

-- io.Copy counts the bytes of the source.
copy_from-count :
    (cs : List Chunk) (n k : ℤ) (m : ℕ) (fails : Bool) (w : Sink)
    → m + length (bytes_of cs) ≤ max_int64
    → n ≡ pos m
    → (copy_from cs fails n w).1 ≡ some k
    → k ≡ pos (m + length (bytes_of cs))
unfolding copy_from
copy_from-count [] n k m true w short u e = absurd (cc)
copy_from-count [] n k m false w short u e = ground (arith, u, e)
copy_from-count (c ∷ cs) n k m fails w short u e =
    let all = length-append {0} c.data_bytes (bytes_of cs) in
    let here = int64-pos (m + length c.data_bytes) (omega (arith, all, short)) in
    elim (Bool-cases ((write_chunk c w).1 || ltb c.taken (length c.data_bytes))) [
      | inl bad ↦ absurd (ground (arith, bad, e))
      | inr good ↦ ground (
        arith,
        all,
        copy_from-count cs (int64 (n +ℤ pos (length c.data_bytes))) k (m + length c.data_bytes)
            fails (write_chunk c w).0 (omega (arith, all, short)) (rw (u, +ℤ-pos) here)
            (ground (arith, good, e)),
      )
    ]

module _ {limit : ℤ} {d : List ℕ} {w : Sink} (t : IsTracking limit d w) where
  overflow_iff : w.overflow ≡ (leb_ℤ (pos 0) limit && ltb (pos_part limit) (length d))
  overflow_iff = elim (Bool-cases w.overflow) [
    | inl o ↦ ground (arith, o, t.too_long o)
    | inr o ↦ ground (arith, o, t.fits_limit, ap (λ (l : List ℕ). length l) (t.whole o).0)
  ]

  whole_or_over : (w.overflow ≡ true) ⊎ (w.cache ≡ d)
  whole_or_over = elim (Bool-cases w.overflow) [ inl o ↦ inl o | inr o ↦ inr (t.whole o).0 ]

  within : (leb_ℤ (pos 0) limit ≡ false) ⊎ (length w.cache ≤ pos_part limit)
  within = elim (Bool-cases (leb_ℤ (pos 0) limit)) [ inl p ↦ inr (t.fits_limit p) | inr p ↦ inl p ]

-- Let the limit, and the length of a source, be at most the largest int64. If io.Copy from that source
-- to a new enabled boundedCacheWriter ends with no error, then the client has got the bytes of the
-- source, the count that io.Copy returns is their number, the writer is marked overflown exactly where
-- the limit is not negative and smaller than that number, the body file holds the bytes of the source
-- unless the writer is overflown, and it is no longer than a limit that is not negative.
pub copy_bounded :
    (limit k : ℤ) (source : Source)
    → pos_part limit ≤ max_int64
    → length (bytes_of source.chunks) ≤ max_int64
    → (copy source (sink limit true)).1 ≡ some k
    → ((copy source (sink limit true)).0.downstream ≡ bytes_of source.chunks)
      × (k ≡ pos (length (bytes_of source.chunks)))
      × ((copy source (sink limit true)).0.overflow
          ≡ (leb_ℤ (pos 0) limit && ltb (pos_part limit) (length (bytes_of source.chunks))))
      × (((copy source (sink limit true)).0.overflow ≡ true)
          ⊎ ((copy source (sink limit true)).0.cache ≡ bytes_of source.chunks))
      × ((leb_ℤ (pos 0) limit ≡ false)
          ⊎ (length (copy source (sink limit true)).0.cache ≤ pos_part limit))
unfolding copy
copy_bounded limit k source bound short e =
    let begun : IsTracking limit [] (sink limit true) = record {
      sent = refl;
      limited = refl;
      on = refl;
      whole = λ o. (refl, refl);
      fits_limit = λ p. ground arith;
      too_long = λ o. absurd (cc);
    } in
    let done =
      copy_from-IsTracking limit source.chunks (pos 0) k [] source.fails (sink limit true) bound
        (ground arith) begun e in
    let same =
      copy_from-count source.chunks (pos 0) k 0 source.fails (sink limit true) (ground arith) refl
        e in
    (done.sent, ground (arith, same), overflow_iff done, whole_or_over done, within done)
