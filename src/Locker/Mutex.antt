-- ===== src/Locker/Mutex.antt =====
-- What keyedLocker promises: a mutex for each key, with no map, counters or heap. It is refined by the
-- steps of the code, and the code takes every step that it allows.
use mathlib.Core.Path.{subst}
use n0ding.Prelude.{
  ℕ, zero, suc, ◌≡◌, ◌≢◌, refl, sym, ap, ◌∙◌, false, some, List, [], ◌∷◌, Text, map, get_elem?, set,
  remove_at, arith, All-get_elem?,
}
use n0ding.Locker.{
  Phase, waiting, holding, leaving, Caller, System, Step, enters, acquires, unlocks, leaves, Reach,
  start,
}
use n0ding.Locker.Invariant.{IsConsistent, IsMapped}
use n0ding.Locker.Exclusion.{Reach-IsConsistent, start-IsConsistent, holder_held, waiter_proceeds}

-- A call as its caller sees it.
pub record Client : Type 0 where
  pub key : Text
  pub phase : Phase

-- The phase of the i-th call is `phase` from now on.
abbrev pub moved : List Client → ℕ → Client → Phase → List Client
moved cs i c phase = set cs i (record c { phase = phase })

-- Some call begins, takes the mutex of its key while no other call holds it, gives it back, or ends.
pub data MutexStep (cs : List Client) : List Client → Type 0 where
  begins : (key : Text) → MutexStep cs (record { key = key; phase = waiting } ∷ cs)
  takes :
      (i : ℕ) (c : Client)
      → get_elem? cs i ≡ some c
      → c.phase ≡ waiting
      → ((j : ℕ) (d : Client) → get_elem? cs j ≡ some d → d.phase ≡ holding → c.key ≢ d.key)
      → MutexStep cs (moved cs i c holding)
  gives :
      (i : ℕ) (c : Client)
      → get_elem? cs i ≡ some c
      → c.phase ≡ holding
      → MutexStep cs (moved cs i c leaving)
  ends :
      (i : ℕ) (c : Client)
      → get_elem? cs i ≡ some c
      → c.phase ≡ leaving
      → MutexStep cs (remove_at cs i)

abbrev pub client : Caller → Client
client c = record { key = c.key; phase = c.phase }

abbrev pub clients : System → List Client
clients s = map client s.callers

clients_at :
    (cs : List Caller) (i : ℕ) (c : Caller)
    → get_elem? cs i ≡ some c
    → get_elem? (map client cs) i ≡ some (client c)
clients_at [] i c e = absurd (cc)
clients_at (d ∷ cs) zero c e = cc
clients_at (d ∷ cs) (suc i) c e = clients_at cs i c e

caller_at :
    (cs : List Caller) (i : ℕ) (k : Client)
    → get_elem? (map client cs) i ≡ some k
    → (c : Caller) × (get_elem? cs i ≡ some c) × (client c ≡ k)
caller_at [] i k e = absurd (cc)
caller_at (d ∷ cs) zero k e = (d, refl, cc)
caller_at (d ∷ cs) (suc i) k e = caller_at cs i k e

map-set :
    (cs : List Caller) (i : ℕ) (c : Caller)
    → map client (set cs i c) ≡ set (map client cs) i (client c)
map-set [] i c = refl
map-set (d ∷ cs) zero c = refl
map-set (d ∷ cs) (suc i) c = ap (λ ks. client d ∷ ks) (map-set cs i c)

map-remove_at :
    (cs : List Caller) (i : ℕ) → map client (remove_at cs i) ≡ remove_at (map client cs) i
map-remove_at [] i = refl
map-remove_at (d ∷ cs) zero = refl
map-remove_at (d ∷ cs) (suc i) = ap (λ ks. client d ∷ ks) (map-remove_at cs i)

-- A mutex that is free has no holder of any of its keys.
free_unheld :
    (s : System) (h : IsConsistent s) (i : ℕ) (c : Caller)
    → get_elem? s.callers i ≡ some c
    → (s.locker.heap c.item).held ≡ false
    → (j : ℕ) (k : Client) → get_elem? (clients s) j ≡ some k
    → k.phase ≡ holding
    → c.key ≢ k.key
free_unheld s h i c e free j k ek pk same =
    let (d, ed, image) = caller_at s.callers j k ek in
    let mc = All-get_elem? (IsMapped s.locker.items) s.callers i c h.mapped e in
    let md = All-get_elem? (IsMapped s.locker.items) s.callers j d h.mapped ed in
    let held = holder_held s h j d ed (ap (λ (k : Client). k.phase) image ∙ pk) in
    let keys : c.key ≡ d.key = same ∙ sym (ap (λ (k : Client). k.key) image) in
    let item : d.item ≡ c.item = ground (arith, ap s.locker.items keys) in
    absurd (cc ((ap s.locker.heap item)))

retyped : {cs ds es : List Client} → ds ≡ es → MutexStep cs ds → MutexStep cs es
retyped {cs} e st = subst (λ ds. MutexStep cs ds) e st

-- The steps of the code are steps of the mutexes.
forth : (s t : System) → IsConsistent s → Step s t → MutexStep (clients s) (clients t)
forth s _ h (enters key) = begins key
forth s _ h (acquires i c e p free) =
    retyped (sym (map-set s.callers i (record c { phase = holding })))
      (takes i (client c) (clients_at s.callers i c e) p (free_unheld s h i c e free))
forth s _ h (unlocks i c e p) =
    retyped (sym (map-set s.callers i (record c { phase = leaving })))
      (gives i (client c) (clients_at s.callers i c e) p)
forth s _ h (leaves i c e p) =
    retyped (sym (map-remove_at s.callers i)) (ends i (client c) (clients_at s.callers i c e) p)

-- A step of the system whose calls are then `ks`.
Answered : System → List Client → Type 0
Answered s ks = (t : System) × Step s t × (clients t ≡ ks)

-- A step of the mutexes is a step of the code.
back : (s : System) (ks : List Client) → Reach start s → MutexStep (clients s) ks → Answered s ks
unfolding Answered
back s _ r (begins key) = (_, enters key, refl)
back s _ r (takes i k e p free) =
    let (c, ec, image) = caller_at s.callers i k e in
    let unheld =
      waiter_proceeds s r i c ec (ap (λ (k : Client). k.phase) image ∙ p) (λ j d ed pd same.
        free j (client d) (clients_at s.callers j d ed) pd
          (sym (ap (λ (k : Client). k.key) image) ∙ same)) in
    (
      _,
      acquires i c ec (ap (λ (k : Client). k.phase) image ∙ p) unheld,
      map-set s.callers i (record c { phase = holding })
          ∙ ap (λ k. moved (clients s) i k holding) image,
    )
back s _ r (gives i k e p) =
    let (c, ec, image) = caller_at s.callers i k e in
    (
      _,
      unlocks i c ec (ap (λ (k : Client). k.phase) image ∙ p),
      map-set s.callers i (record c { phase = leaving })
          ∙ ap (λ k. moved (clients s) i k leaving) image,
    )
back s _ r (ends i k e p) =
    let (c, ec, image) = caller_at s.callers i k e in
    (_, leaves i c ec (ap (λ (k : Client). k.phase) image ∙ p), map-remove_at s.callers i)

-- Let a state be reachable. Then each step of the code is one that mutexes for each key could take, and
-- each step of such mutexes is one that the code can take with the same outcome for its callers.
pub locker_refines_mutexes :
    (s t : System) (ks : List Client)
    → Reach start s
    → Step s t
    → MutexStep (clients s) ks
    → MutexStep (clients s) (clients t) × ((u : System) × Step s u × (clients u ≡ ks))
unfolding Answered
locker_refines_mutexes s t ks r st ms =
    (forth s t (Reach-IsConsistent r start-IsConsistent) st, back s ks r ms)
