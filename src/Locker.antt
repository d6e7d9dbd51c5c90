-- ===== src/Locker.antt =====
-- keyedLocker of internal/npmproxy/proxy.go (the proxies for OCI and PyPI have the same text): a mutex
-- for each key, made on demand and dropped with its last user. A *lockRef is an address in a heap, a
-- Go map is a function into Option. `lock` is two steps (the section under locker.mu, then
-- item.mu.Lock) and so is the function that it returns (item.mu.Unlock, then the second section).
pub mod Invariant
pub mod Exclusion
pub mod Mutex
mod Tests
use n0ding.Prelude.{
  ℕ, ◌+◌, ◌-◌, ◌≡◌, Bool, true, false, Option, none, some, List, [], ◌∷◌, Text, eq_text, ◌==◌,
  get_elem?, set, remove_at, if◌then◌else◌, ◌&&◌,
}

-- The counter `refs` and whether the mutex is held.
pub record LockRef : Type 0 where
  pub refs : ℕ
  pub held : Bool

pub record Locker : Type 0 where
  pub items : Text → Option ℕ
  pub heap : ℕ → LockRef
  pub fresh : ℕ

unfoldable pub new_locker : Locker
new_locker = record { items = λ k. none; heap = λ a. record { refs = 0; held = false }; fresh = 0 }

-- Go's m[k] = v, delete(m, k) and a write through a pointer.
abbrev pub put : Text → Option ℕ → (Text → Option ℕ) → Text → Option ℕ
put k v m j = if eq_text j k then v else m j

abbrev pub store : ℕ → LockRef → (ℕ → LockRef) → ℕ → LockRef
store a r heap b = if b == a then r else heap b

-- The first section of `lock`: the item that the caller goes on to lock.
unfoldable pub enter : Text → Locker → Locker × ℕ
enter key l = elim (l.items key) [
  | none ↦ (
    record {
      items = put key (some l.fresh) l.items;
      heap = store l.fresh (record { refs = 1; held = false }) l.heap;
      fresh = l.fresh + 1;
    },
    l.fresh,
  )
  | some a ↦ (
    record l {
      heap = store a (record { refs = (l.heap a).refs + 1; held = (l.heap a).held }) l.heap;
    },
    a,
  )
]

-- item.mu.Lock and item.mu.Unlock
unfoldable pub set_held : Bool → ℕ → Locker → Locker
set_held b a l = record l { heap = store a (record { refs = (l.heap a).refs; held = b }) l.heap }

-- The last section: the counter is not 0 here, since the caller is counted.
unfoldable pub leave : Text → ℕ → Locker → Locker
leave key a l =
    let refs = (l.heap a).refs - 1 in
    record l {
      heap = store a (record { refs = refs; held = (l.heap a).held }) l.heap;
      items = if refs == 0 then put key none l.items else l.items;
    }

pub data Phase : Type 0 where
  waiting holding leaving : Phase

-- A call of `lock`, until the function that it returned has returned.
pub record Caller : Type 0 where
  pub key : Text
  pub item : ℕ
  pub phase : Phase

pub record System : Type 0 where
  pub locker : Locker
  pub callers : List Caller

-- One step of some goroutine, chosen by the scheduler. A mutex is taken only when it is free.
pub data Step (s : System) : System → Type 0 where
  enters :
      (key : Text)
      → Step s (record {
        locker = (enter key s.locker).0;
        callers = record { key = key; item = (enter key s.locker).1; phase = waiting } ∷ s.callers;
      })
  acquires :
      (i : ℕ) (c : Caller)
      → get_elem? s.callers i ≡ some c
      → c.phase ≡ waiting
      → (s.locker.heap c.item).held ≡ false
      → Step s (record {
        locker = set_held true c.item s.locker;
        callers = set s.callers i (record c { phase = holding });
      })
  unlocks :
      (i : ℕ) (c : Caller)
      → get_elem? s.callers i ≡ some c
      → c.phase ≡ holding
      → Step s (record {
        locker = set_held false c.item s.locker;
        callers = set s.callers i (record c { phase = leaving });
      })
  leaves :
      (i : ℕ) (c : Caller)
      → get_elem? s.callers i ≡ some c
      → c.phase ≡ leaving
      → Step s (record { locker = leave c.key c.item s.locker; callers = remove_at s.callers i })

pub data Reach (s : System) : System → Type 0 where
  here : Reach s s
  next_step : {t u : System} → Reach s t → Step t u → Reach s u

abbrev pub start : System
start = record { locker = new_locker; callers = [] }
