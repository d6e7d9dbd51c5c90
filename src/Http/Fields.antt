-- ===== src/Http/Fields.antt =====
-- What the header operations leave under each key.
use n0ding.Prelude.{
  false, List, [], ◌∷◌, ◌++◌, Text, eq_text, eq_text_iff, if◌then◌else◌, ◌≡◌, arith, Bool-cases,
  inl, inr,
}
use mathlib.Core.List.{append_assoc, append-nil}
use n0ding.Http.{Header, lookup, is_present, delete, append_value, canonical, add, set, add_all}
use n0ding.Http.Canonical.{canonical_idempotent}

pub lookup-delete :
    (key j : Text) (h : Header)
    → lookup j (delete key h) ≡ (if eq_text key j then [] else lookup j h)
unfolding lookup delete
lookup-delete key j [] = ground arith
lookup-delete key j ((k, vs) ∷ h) =
    ground (arith, lookup-delete key j h, eq_text_iff key j, eq_text_iff k key, eq_text_iff k j)

pub lookup-append_value :
    (key v j : Text) (h : Header)
    → lookup j (append_value key v h) ≡ (if eq_text key j then lookup j h ++ v ∷ [] else lookup j h)
unfolding lookup append_value
lookup-append_value key v j [] = ground arith
lookup-append_value key v j ((k, vs) ∷ h) =
    ground
      (arith, lookup-append_value key v j h, eq_text_iff key j, eq_text_iff k key, eq_text_iff k j)

pub lookup-set :
    (name v j : Text) (h : Header)
    → lookup j (set name v h) ≡ (if eq_text (canonical name) j then v ∷ [] else lookup j h)
unfolding set lookup
lookup-set name v j h = ground (arith, lookup-delete (canonical name) j h)

-- Adding values under a canonical name puts them behind those that are there.
pub lookup-add_all :
    (name : Text) (vs : List Text) (j : Text) (h : Header)
    → lookup j (add_all (canonical name) vs h)
      ≡ (if eq_text (canonical name) j then lookup j h ++ vs else lookup j h)
unfolding add_all add
lookup-add_all name [] j h = ground (arith, append-nil (lookup j h))
lookup-add_all name (v ∷ vs) j h =
    rw
      (
        canonical_idempotent name,
        lookup-add_all name vs j (append_value (canonical name) v h),
        lookup-append_value (canonical name) v j h,
      )
      (elim (Bool-cases (eq_text (canonical name) j)) [
        | inl e ↦ rw e (append_assoc (lookup j h) (v ∷ []) vs)
        | inr e ↦ rw e
      ])

pub is_present-delete :
    (key j : Text) (h : Header)
    → is_present j (delete key h) ≡ (if eq_text key j then false else is_present j h)
unfolding is_present delete
is_present-delete key j [] = ground arith
is_present-delete key j ((k, vs) ∷ h) =
    ground (arith, is_present-delete key j h, eq_text_iff key j, eq_text_iff k key, eq_text_iff k j)
