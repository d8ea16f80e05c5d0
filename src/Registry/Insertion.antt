-- ===== src/Registry/Insertion.antt =====
-- What registering records leaves in a registry.
use research_lab.Prelude.{
  true, false, ◌&&◌, Option, none, some, List, [], ◌∷◌, ◌++◌, any, All, All-append, find, find-none,
  find-append, ◌≡◌, inl, inr, refl, subst, arith, Option-cases, Bool-cases,
}
use research_lab.Prelude.Text.{Text, text_eq, text_eq_refl}
use research_lab.Prelude.Outcome.{RlabResult, ok, err, bind-eq-ok, check_all}
use research_lab.Prelude.Assoc.{Assoc}
use research_lab.Json.{Value}
use research_lab.Json.Equality.{value_eq_refl}
use research_lab.Registry.{
  Registry, RegistryKind, RegistryRecord, empty, insert, insert_checked, insert_validated, find_ref,
  has_identity, record_eq, texts_eq, metadata_eq, validate, validate_no_conflicts, no_conflicts,
  validate_registry_record, registry_schema_version,
}

texts_eq_refl : (ts : List Text) → texts_eq ts ts ≡ true
unfolding texts_eq
texts_eq_refl [] = refl
texts_eq_refl (t ∷ ts) = rw (text_eq_refl t) (texts_eq_refl ts)

metadata_eq_refl : (m : Assoc Value) → metadata_eq m m ≡ true
unfolding metadata_eq
metadata_eq_refl [] = refl
metadata_eq_refl ((k, v) ∷ m) = ground (arith, text_eq_refl k, value_eq_refl v, metadata_eq_refl m)

pub record_eq_refl : (r : RegistryRecord) → record_eq r r ≡ true
unfolding record_eq
record_eq_refl r = ground (
  arith,
  text_eq_refl r.kind,
  text_eq_refl r.name,
  text_eq_refl r.version,
  text_eq_refl r.module_name,
  text_eq_refl r.qualname,
  texts_eq_refl r.source,
  texts_eq_refl r.tags,
  text_eq_refl r.description,
  metadata_eq_refl r.metadata,
)

has_identity_refl : (r : RegistryRecord) → has_identity r.kind r.name r ≡ true
unfolding has_identity
has_identity_refl r = rw (text_eq_refl r.kind) (text_eq_refl r.name)

-- No two records of a list have the same kind and name.
abbrev pub IsUnique : List RegistryRecord → Type 0
IsUnique [] = Unit
IsUnique (r ∷ rs) = All (λ s. has_identity s.kind s.name r ≡ false) rs × IsUnique rs

IsUnique-snoc :
    (rs : List RegistryRecord) (r : RegistryRecord)
    → IsUnique rs
    → All (λ s. has_identity r.kind r.name s ≡ false) rs
    → IsUnique (rs ++ r ∷ [])
IsUnique-snoc [] r u h = (tt, tt)
IsUnique-snoc (s ∷ rs) r u h = (
  All-append (λ t. has_identity t.kind t.name s ≡ false) rs (r ∷ []) u.0 (h.0, tt),
  IsUnique-snoc rs r u.1 h.1,
)

-- The keys seen so far are those of none of the records.
abbrev Fresh : List (Text × Text) → RegistryRecord → Type 0
Fresh seen r = any (λ key. text_eq key.0 r.kind && text_eq key.1 r.name) seen ≡ false

Fresh-cons :
    (seen : List (Text × Text)) (r : RegistryRecord) (rs : List RegistryRecord)
    → All (Fresh seen) rs
    → All (λ s. has_identity s.kind s.name r ≡ false) rs
    → All (Fresh ((r.kind, r.name) ∷ seen)) rs
unfolding has_identity
Fresh-cons seen r [] f h = tt
Fresh-cons seen r (s ∷ rs) f h = (ground arith, Fresh-cons seen r rs f.1 h.1)

no_conflicts-eq-ok :
    (seen : List (Text × Text)) (rs : List RegistryRecord)
    → All (Fresh seen) rs
    → IsUnique rs
    → no_conflicts seen rs ≡ ok tt
unfolding no_conflicts
no_conflicts-eq-ok seen [] f u = refl
no_conflicts-eq-ok seen (r ∷ rs) f u =
    rw f.0 (no_conflicts-eq-ok ((r.kind, r.name) ∷ seen) rs (Fresh-cons seen r rs f.1 u.0) u.1)

check_all-snoc :
    {A : Type 0} (check : A → RlabResult (Unit {0})) (xs : List A) (x : A)
    → check_all check xs ≡ ok tt
    → check x ≡ ok tt
    → check_all check (xs ++ x ∷ []) ≡ ok tt
check_all-snoc check [] x h e = rw e refl
check_all-snoc check (y ∷ ys) x h e =
    let (u, here, later) = bind-eq-ok (check y) (λ _. check_all check ys) h in
    rw here (check_all-snoc check ys x later e)

pub record IsSound (g : Registry) : Type 0 where
  pub version : g.schema_version ≡ registry_schema_version
  pub valid : check_all validate_registry_record g.records ≡ ok tt
  pub unique : IsUnique g.records

insert_validated-IsSound :
    (g : Registry) (r : RegistryRecord) (found : Option RegistryRecord)
    → validate_registry_record r ≡ ok tt
    → find_ref g r.kind r.name ≡ found
    → IsSound g
    → IsSound (insert_validated g r found).1
unfolding insert_validated find_ref
insert_validated-IsSound g r none v e s = record {
  version = s.version;
  valid = check_all-snoc validate_registry_record g.records r s.valid v;
  unique = IsUnique-snoc g.records r s.unique (find-none _ g.records e);
}
insert_validated-IsSound g r (some t) v e s = elim (Bool-cases (record_eq t r)) [
  | inl q ↦ rw q s
  | inr q ↦ rw q s
]

insert_checked-IsSound :
    (g : Registry) (r : RegistryRecord) (m : RlabResult (Unit {0}))
    → validate_registry_record r ≡ m
    → IsSound g
    → IsSound (insert_checked g r m).1
unfolding insert_checked
insert_checked-IsSound g r (err e) v s = s
insert_checked-IsSound g r (ok u) v s =
    insert_validated-IsSound g r (find_ref g r.kind r.name) v refl s

-- The registries that a sequence of registrations leaves, those that fail included.
pub data Registered : Registry → Type 0 where
  start : Registered empty
  step : (g : Registry) (r : RegistryRecord) → Registered g → Registered (insert g r).1

Registered-IsSound : (g : Registry) → Registered g → IsSound g
unfolding insert
Registered-IsSound _ Registered.start = record { version = refl; valid = refl; unique = tt }
Registered-IsSound _ (Registered.step g r h) =
    insert_checked-IsSound g r _ refl (Registered-IsSound g h)

Fresh-none : (rs : List RegistryRecord) → All (Fresh []) rs
Fresh-none [] = tt
Fresh-none (r ∷ rs) = (refl, Fresh-none rs)

-- Whatever records are registered, in whatever order and with whatever failures, the registry passes
-- its own validation and the check for conflicting keys.
pub Registered-validate :
    (g : Registry) → Registered g → (validate g ≡ ok tt) × (validate_no_conflicts g ≡ ok tt)
unfolding validate validate_no_conflicts
Registered-validate g h =
    let s = Registered-IsSound g h in
    (rw s.version s.valid, no_conflicts-eq-ok [] g.records (Fresh-none g.records) s.unique)

found_elsewhere :
    (g : Registry) (r : RegistryRecord) (found : Option RegistryRecord) (kind : RegistryKind)
    (name : Text)
    → has_identity kind name r ≡ false
    → find_ref (insert_validated g r found).1 kind name ≡ find_ref g kind name
unfolding insert_validated find_ref
found_elsewhere g r none kind name n =
    elim (Option-cases (find (has_identity kind name) g.records)) [
      | inl e ↦ rw (find-append (has_identity kind name) g.records (r ∷ []), e, n) refl
      | inr (s, e) ↦ rw (find-append (has_identity kind name) g.records (r ∷ []), e) refl
    ]
found_elsewhere g r (some t) kind name n = ground arith

-- The registry that a registration leaves: on success an equal record is found under the
-- record's kind and name, on an error nothing has changed.
abbrev pub Answers : Registry → RegistryRecord → RlabResult (Unit {0}) → Registry → Type 0
Answers g r (ok u) g' =
    (s : RegistryRecord) × (find_ref g' r.kind r.name ≡ some s) × (record_eq s r ≡ true)
Answers g r (err x) g' = g' ≡ g

insert_validated-Answers :
    (g : Registry) (r : RegistryRecord) (found : Option RegistryRecord)
    → find_ref g r.kind r.name ≡ found
    → Answers g r (insert_validated g r found).0 (insert_validated g r found).1
unfolding insert_validated find_ref
insert_validated-Answers g r none e = (
  r,
  rw (find-append (has_identity r.kind r.name) g.records (r ∷ []), e, has_identity_refl r) refl,
  record_eq_refl r,
)
insert_validated-Answers g r (some t) e = elim (Bool-cases (record_eq t r)) [
  | inl q ↦ rw q (t, e, q)
  | inr q ↦ rw q refl
]

insert_checked-Answers :
    (g : Registry) (r : RegistryRecord) (m : RlabResult (Unit {0}))
    → Answers g r (insert_checked g r m).0 (insert_checked g r m).1
unfolding insert_checked
insert_checked-Answers g r (err e) = refl
insert_checked-Answers g r (ok u) = insert_validated-Answers g r (find_ref g r.kind r.name) refl

insert_checked-elsewhere :
    (g : Registry) (r : RegistryRecord) (m : RlabResult (Unit {0})) (kind : RegistryKind)
    (name : Text)
    → has_identity kind name r ≡ false
    → find_ref (insert_checked g r m).1 kind name ≡ find_ref g kind name
unfolding insert_checked
insert_checked-elsewhere g r (err e) kind name n = refl
insert_checked-elsewhere g r (ok u) kind name n =
    found_elsewhere g r (find_ref g r.kind r.name) kind name n

-- A registration that succeeds makes an equal record found under the record's kind and name, and
-- one that is refused leaves the registry as it was; what is found under another kind or name
-- stays the same in both cases.
pub insert_lem :
    (g : Registry) (r : RegistryRecord) (kind : RegistryKind) (name : Text)
    → has_identity kind name r ≡ false
    → Answers g r (insert g r).0 (insert g r).1
      × (find_ref (insert g r).1 kind name ≡ find_ref g kind name)
unfolding insert
insert_lem g r kind name other = (
  insert_checked-Answers g r (validate_registry_record r),
  insert_checked-elsewhere g r (validate_registry_record r) kind name other,
)

insert_again :
    (g : Registry) (r : RegistryRecord) (m : RlabResult (Unit {0}))
    → (insert_checked g r m).0 ≡ ok tt
    → insert_checked (insert_checked g r m).1 r m ≡ (ok tt, (insert_checked g r m).1)
unfolding insert_checked insert_validated
insert_again g r (err e) h = cc
insert_again g r (ok u) h =
    let (s, found, same) =
      subst (λ m. Answers g r m (insert_checked g r (ok u)).1) h
        (insert_checked-Answers g r (ok u)) in
    rw (found, same) refl

-- Registering a record a second time succeeds and changes nothing.
pub insert_idempotent :
    (g : Registry) (r : RegistryRecord)
    → (insert g r).0 ≡ ok tt
    → insert (insert g r).1 r ≡ (ok tt, (insert g r).1)
unfolding insert
insert_idempotent g r h = insert_again g r (validate_registry_record r) h
