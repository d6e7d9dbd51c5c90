-- ===== src/Locker/Invariant.antt =====
-- What holds of the locker between two steps.
use n0ding.Prelude.{
  ℕ, ◌-◌, ◌≤◌, ◌<◌, ◌≡◌, refl, ap, Bool, true, false, not, Option, none, some, List, [], ◌∷◌, Text,
  eq_text, eq_text_iff, ◌==◌, get_elem?, set, remove_at, if◌then◌else◌, ◌&&◌, All, All-set,
  All-remove_at, All-map, All-get_elem?, All_none_pass, count_if, count_if-set, count_if-remove_at,
  arith, Option-cases, Bool-cases, inl, inr,
}
use n0ding.Locker.{put, enter, set_held, leave, Phase, waiting, holding, leaving, Caller, System}

abbrev pub uses : ℕ → Caller → Bool
uses a c = c.item == a

abbrev pub is_holding : Phase → Bool
is_holding holding = true
is_holding _ = false

abbrev pub holds : ℕ → Caller → Bool
holds a c = is_holding c.phase && c.item == a

-- The map leads a caller's key to the caller's item.
abbrev pub IsMapped : (Text → Option ℕ) → Caller → Type 0
IsMapped items c = items c.key ≡ some c.item

pub record IsConsistent (s : System) : Type 0 where
  pub mapped : All (IsMapped s.locker.items) s.callers
  pub counted : (a : ℕ) → (s.locker.heap a).refs ≡ count_if (uses a) s.callers
  pub held : (a : ℕ) → count_if (holds a) s.callers ≡ (if (s.locker.heap a).held then 1 else 0)
  pub live : (k : Text) (a : ℕ) → s.locker.items k ≡ some a → 0 < (s.locker.heap a).refs
  pub owned : (k j : Text) (a : ℕ) → s.locker.items k ≡ some a → s.locker.items j ≡ some a → k ≡ j
  pub unused : (a : ℕ) → s.locker.fresh ≤ a → (s.locker.heap a).refs ≡ 0

holds-le-uses : (a : ℕ) (cs : List Caller) → count_if (holds a) cs ≤ count_if (uses a) cs
holds-le-uses a [] = omega arith
holds-le-uses a (c ∷ cs) = ground (arith, holds-le-uses a cs)

-- A caller keeps its item when an entry of another key is written.
other_key :
    (key : Text) (v : Option ℕ) (items : Text → Option ℕ)
    → items key ≡ none
    → (c : Caller) → IsMapped items c
    → IsMapped (put key v items) c
other_key key v items e c m = elim (Bool-cases (eq_text c.key key)) [
  | inl same ↦ absurd (ground (arith, ap items ((eq_text_iff c.key key).0 same)))
  | inr other ↦ rw other m
]

module _ (s : System) (h : IsConsistent s) where
  enter_new :
      (key : Text)
      → s.locker.items key ≡ none
      → IsConsistent (record {
        locker = (enter key s.locker).0;
        callers = record { key = key; item = (enter key s.locker).1; phase = waiting } ∷ s.callers;
      })
  unfolding enter
  enter_new key e =
      rw (e, enter)
        (record {
          mapped = (
            rw (eq_text_iff key key).1 refl,
            All-map (IsMapped s.locker.items) _ s.callers (other_key key _ s.locker.items e)
                h.mapped,
          );
          counted =
              λ a. ground (arith, h.counted a, h.counted s.locker.fresh, h.unused s.locker.fresh);
          held = λ a. ground (
            arith,
            h.held a,
            h.counted s.locker.fresh,
            h.unused s.locker.fresh,
            holds-le-uses s.locker.fresh s.callers,
          );
          live = λ k a m. ground (arith, h.live k a);
          owned = λ k j a m n. ground (
            arith,
            h.owned k j a,
            eq_text_iff k key,
            eq_text_iff j key,
            h.live k a,
            h.live j a,
            h.unused a,
          );
          unused = λ a m. ground (arith, h.unused a);
        })

  enter_old :
      (key : Text) (b : ℕ)
      → s.locker.items key ≡ some b
      → IsConsistent (record {
        locker = (enter key s.locker).0;
        callers = record { key = key; item = (enter key s.locker).1; phase = waiting } ∷ s.callers;
      })
  unfolding enter
  enter_old key b e =
      rw (e, enter)
        (record {
          mapped = (e, h.mapped);
          counted = λ a. ground (arith, h.counted a, h.counted b);
          held = λ a. ground (arith, h.held a);
          live = λ k a m. ground (arith, h.live k a);
          owned = h.owned;
          unused = λ a m. ground (arith, h.unused a, h.live key b);
        })

  pub enters-IsConsistent :
      (key : Text)
      → IsConsistent (record {
        locker = (enter key s.locker).0;
        callers = record { key = key; item = (enter key s.locker).1; phase = waiting } ∷ s.callers;
      })
  enters-IsConsistent key = elim (Option-cases (s.locker.items key)) [
    | inl e ↦ enter_new key e
    | inr (b, e) ↦ enter_old key b e
  ]

  -- Taking a free mutex, or giving up a held one.
  pub phase-IsConsistent :
      (i : ℕ) (c : Caller) (b : Bool) (p : Phase)
      → get_elem? s.callers i ≡ some c
      → (s.locker.heap c.item).held ≡ not b
      → is_holding c.phase ≡ not b
      → is_holding p ≡ b
      → IsConsistent (record {
        locker = set_held b c.item s.locker;
        callers = set s.callers i (record c { phase = p });
      })
  unfolding set_held
  phase-IsConsistent i c b p e was q r = record {
    mapped =
        All-set (IsMapped s.locker.items) s.callers i _ h.mapped
          (All-get_elem? (IsMapped s.locker.items) s.callers i c h.mapped e);
    counted = λ a.
        ground (arith, h.counted a, count_if-set (uses a) s.callers i c (record c { phase = p }) e);
    held = λ a.
        ground (arith, h.held a, count_if-set (holds a) s.callers i c (record c { phase = p }) e);
    live = λ k a m. ground (arith, h.live k a);
    owned = h.owned;
    unused = λ a m. ground (arith, h.unused a);
  }

  -- The caller that leaves has its item in the map.
  leaver_mapped :
      (i : ℕ) (c : Caller) → get_elem? s.callers i ≡ some c → s.locker.items c.key ≡ some c.item
  leaver_mapped i c e = All-get_elem? (IsMapped s.locker.items) s.callers i c h.mapped e

  -- A caller of another item keeps it when the entry is deleted.
  deleted_entry :
      (c d : Caller)
      → s.locker.items c.key ≡ some c.item
      → uses c.item d ≡ false
      → IsMapped s.locker.items d
      → IsMapped (put c.key none s.locker.items) d
  deleted_entry c d m u n = elim (Bool-cases (eq_text d.key c.key)) [
    | inl same ↦ absurd (ground (arith, ap s.locker.items ((eq_text_iff d.key c.key).0 same)))
    | inr other ↦ rw other n
  ]

  last_leaves :
      (i : ℕ) (c : Caller)
      → get_elem? s.callers i ≡ some c
      → c.phase ≡ leaving
      → (s.locker.heap c.item).refs ≡ 1
      → IsConsistent
          (record { locker = leave c.key c.item s.locker; callers = remove_at s.callers i })
  unfolding leave
  last_leaves i c e p one = rw one (record {
    mapped =
        All_none_pass (uses c.item) (IsMapped s.locker.items) _ (remove_at s.callers i)
          (λ d u n. deleted_entry c d (leaver_mapped i c e) u n)
          (ground (arith, h.counted c.item, count_if-remove_at (uses c.item) s.callers i c e))
          (All-remove_at (IsMapped s.locker.items) s.callers i h.mapped);
    counted = λ a. ground (arith, h.counted a, count_if-remove_at (uses a) s.callers i c e);
    held = λ a. ground (arith, h.held a, count_if-remove_at (holds a) s.callers i c e);
    live = λ k a m.
        ground (arith, h.live k a, h.owned k c.key a, leaver_mapped i c e, eq_text_iff k c.key);
    owned = λ k j a m n. ground (arith, h.owned k j a);
    unused = λ a m. ground (arith, h.unused a);
  })

  other_leaves :
      (i : ℕ) (c : Caller)
      → get_elem? s.callers i ≡ some c
      → c.phase ≡ leaving
      → ((s.locker.heap c.item).refs - 1 == 0) ≡ false
      → IsConsistent
          (record { locker = leave c.key c.item s.locker; callers = remove_at s.callers i })
  unfolding leave
  other_leaves i c e p more =
      rw (more, leave)
        (record {
          mapped = All-remove_at (IsMapped s.locker.items) s.callers i h.mapped;
          counted = λ a. ground (arith, h.counted a, count_if-remove_at (uses a) s.callers i c e);
          held = λ a. ground (arith, h.held a, count_if-remove_at (holds a) s.callers i c e);
          live = λ k a m. ground (arith, h.live k a);
          owned = h.owned;
          unused = λ a m. ground (arith, h.unused a);
        })

  pub leaves-IsConsistent :
      (i : ℕ) (c : Caller)
      → get_elem? s.callers i ≡ some c
      → c.phase ≡ leaving
      → IsConsistent
          (record { locker = leave c.key c.item s.locker; callers = remove_at s.callers i })
  leaves-IsConsistent i c e p = elim (Bool-cases ((s.locker.heap c.item).refs - 1 == 0)) [
    | inl last ↦ last_leaves i c e p (ground (arith, h.live c.key c.item, leaver_mapped i c e))
    | inr more ↦ other_leaves i c e p more
  ]
