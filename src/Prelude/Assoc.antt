-- ===== src/Prelude/Assoc.antt =====
-- `BTreeMap<String, V>`: the entries in the order of their keys, which is the order in which the
-- map is walked, and the methods that the program calls.
use research_lab.Prelude.Text.{
  Text, text_cmp, text_cmp_eq, text_cmp_refl, text_cmp_flip, text_lt_trans,
}
use Prim.Native.Nat.{Ordering}
use mathlib.Core.Path.{◌≡◌, refl, sym, subst}
use mathlib.Core.Logic.{◌≢◌, ◌⊎◌, inl, inr}
use mathlib.Core.Bool.{Bool, true, false}
use mathlib.Core.Option.{Option, none, some}
use mathlib.Core.List.{List, [], ◌∷◌}
use native.Mathlib.Omega.{arith}

abbrev pub Assoc {ℓ} : Type ℓ → Type ℓ
Assoc V = List (Text × V)

module _ {ℓ} {V : Type ℓ} where
  -- `map.get(key)`
  unfoldable pub get : Text → Assoc V → Option V
  get k [] = none
  get k ((j, v) ∷ m) = let rest = get k m in elim (text_cmp k j) [ Ordering.eq ↦ some v | _ ↦ rest ]

  -- `map.contains_key(key)`
  unfoldable pub contains_key : Text → Assoc V → Bool
  contains_key k [] = false
  contains_key k ((j, v) ∷ m) =
      let rest = contains_key k m in elim (text_cmp k j) [ Ordering.eq ↦ true | _ ↦ rest ]

  -- `map.insert(key, value)`
  unfoldable pub insert : Text → V → Assoc V → Assoc V
  insert k v [] = (k, v) ∷ []
  insert k v ((j, w) ∷ m) =
      let rest = insert k v m in
      elim (text_cmp k j) [
        | Ordering.lt ↦ (k, v) ∷ (j, w) ∷ m
        | Ordering.eq ↦ (k, v) ∷ m
        | Ordering.gt ↦ (j, w) ∷ rest
      ]

  -- `map.remove(key)`
  unfoldable pub remove : Text → Assoc V → Assoc V
  remove k [] = []
  remove k ((j, w) ∷ m) =
      let rest = remove k m in elim (text_cmp k j) [ Ordering.eq ↦ m | _ ↦ (j, w) ∷ rest ]

  -- `for (key, value) in overlay { base.insert(key, value); }`, and `base.extend(overlay)`
  unfoldable pub extend : Assoc V → Assoc V → Assoc V
  extend base [] = base
  extend base ((k, v) ∷ overlay) = extend (insert k v base) overlay

  unfoldable pub keys : Assoc V → List Text
  keys [] = []
  keys ((k, v) ∷ m) = k ∷ keys m

  unfoldable pub values : Assoc V → List V
  values [] = []
  values ((k, v) ∷ m) = v ∷ values m

  -- The keys stand in ascending order, without repetition.
  abbrev pub Above : Text → Assoc V → Type 0
  Above k [] = Unit
  Above k ((j, v) ∷ m) = text_cmp k j ≡ Ordering.lt

  abbrev pub IsSorted : Assoc V → Type 0
  IsSorted [] = Unit
  IsSorted ((k, v) ∷ m) = Above k m × IsSorted m

  pub get-insert :
      (j k : Text) (v : V) (m : Assoc V)
      → get j (insert k v m) ≡ elim (text_cmp j k) [ Ordering.eq ↦ some v | _ ↦ get j m ]
  unfolding get insert
  get-insert j k v [] = ground arith
  get-insert j k v ((i, w) ∷ m) = ground (
    arith,
    get-insert j k v m,
    text_cmp_eq k i,
    text_cmp_eq j i,
    text_cmp_eq j k,
    text_cmp_refl i,
  )

  pub get-insert_self : (k : Text) (v : V) (m : Assoc V) → get k (insert k v m) ≡ some v
  get-insert_self k v m = rw (get-insert k k v m, text_cmp_refl k)

  pub get-insert_ne : (j k : Text) (v : V) (m : Assoc V) → j ≢ k → get j (insert k v m) ≡ get j m
  get-insert_ne j k v m h = rw (get-insert j k v m) (ground (arith, text_cmp_eq j k))

  insert-Above :
      (i k : Text) (v : V) (m : Assoc V)
      → text_cmp i k ≡ Ordering.lt
      → Above i m
      → Above i (insert k v m)
  unfolding insert
  insert-Above i k v [] h a = h
  insert-Above i k v ((j, w) ∷ m) h a = ground arith

  pub insert-IsSorted : (k : Text) (v : V) (m : Assoc V) → IsSorted m → IsSorted (insert k v m)
  unfolding insert
  insert-IsSorted k v [] s = (tt, tt)
  insert-IsSorted k v ((j, w) ∷ m) s =
      ground
        (arith, insert-IsSorted k v m s.1, insert-Above j k v m, text_cmp_flip k j, text_cmp_eq k j)

  pub extend-IsSorted : (base over : Assoc V) → IsSorted base → IsSorted (extend base over)
  unfolding extend
  extend-IsSorted base [] s = s
  extend-IsSorted base ((k, v) ∷ over) s =
      extend-IsSorted (insert k v base) over (insert-IsSorted k v base s)

  pub get-remove_ne : (j k : Text) (m : Assoc V) → j ≢ k → get j (remove k m) ≡ get j m
  unfolding get remove
  get-remove_ne j k [] h = refl
  get-remove_ne j k ((i, w) ∷ m) h =
      ground (arith, get-remove_ne j k m h, text_cmp_eq k i, text_cmp_eq j i, text_cmp_refl i)

  -- A key below all keys of a sorted map is not in it.
  pub get-Above : (k : Text) (m : Assoc V) → Above k m → IsSorted m → get k m ≡ none
  unfolding get
  get-Above k [] a s = refl
  get-Above k ((j, w) ∷ []) a s = ground arith
  get-Above k ((j, w) ∷ (i, u) ∷ m) a s =
      ground (arith, get-Above k ((i, u) ∷ m) (text_lt_trans k j i a s.0) s.1)

  -- What extending a map leaves at a key: the overlay's value if it has one.
  pub get-extend :
      (j : Text) (base over : Assoc V)
      → IsSorted over
      → get j (extend base over) ≡ elim (get j over) [ none ↦ get j base | some v ↦ some v ]
  unfolding get extend
  get-extend j base [] s = refl
  get-extend j base ((k, v) ∷ over) s = ground (
    arith,
    get-extend j (insert k v base) over s.1,
    get-insert j k v base,
    get-Above k over s.0 s.1,
    text_cmp_eq j k,
  )

  pub get-remove_self : (k : Text) (m : Assoc V) → IsSorted m → get k (remove k m) ≡ none
  unfolding get remove
  get-remove_self k [] s = refl
  get-remove_self k ((i, w) ∷ m) s =
      ground (arith, get-remove_self k m s.1, get-Above i m s.0 s.1, text_cmp_eq k i)

  Above-lower : (i j : Text) (m : Assoc V) → text_cmp i j ≡ Ordering.lt → Above j m → Above i m
  Above-lower i j [] h a = tt
  Above-lower i j ((k, v) ∷ m) h a = text_lt_trans i j k h a

  remove-Above : (i k : Text) (m : Assoc V) → Above i m → IsSorted m → Above i (remove k m)
  unfolding remove
  remove-Above i k [] a s = tt
  remove-Above i k ((j, w) ∷ m) a s = ground (arith, Above-lower i j m a s.0)

  pub remove-IsSorted : (k : Text) (m : Assoc V) → IsSorted m → IsSorted (remove k m)
  unfolding remove
  remove-IsSorted k [] s = tt
  remove-IsSorted k ((j, w) ∷ m) s =
      ground (arith, remove-IsSorted k m s.1, remove-Above j k m s.0 s.1)

module _ {V : Type 0} where
  abbrev pub Entry : Text → V → Assoc V → Type 0
  Entry k v [] = ⊥
  Entry k v ((j, w) ∷ m) = ((k ≡ j) × (v ≡ w)) ⊎ Entry k v m

  Entry-Above :
      (j k : Text) (v : V) (m : Assoc V)
      → Above j m
      → IsSorted m
      → Entry k v m
      → text_cmp j k ≡ Ordering.lt
  Entry-Above j k v [] a s h = absurd h
  Entry-Above j k v ((i, w) ∷ m) a s (inl (e, same)) =
      subst (λ t. text_cmp j t ≡ Ordering.lt) (sym e) a
  Entry-Above j k v ((i, w) ∷ m) a s (inr h) = text_lt_trans j i k a (Entry-Above i k v m s.0 s.1 h)

  -- In a sorted map an entry is what its key is mapped to.
  pub get-Entry : (k : Text) (v : V) (m : Assoc V) → IsSorted m → Entry k v m → get k m ≡ some v
  unfolding get
  get-Entry k v [] s h = absurd h
  get-Entry k v ((j, w) ∷ m) s (inl (e, same)) = ground (arith, e, same, text_cmp_refl j)
  get-Entry k v ((j, w) ∷ m) s (inr h) =
      let below = Entry-Above j k v m s.0 s.1 h in
      ground (arith, text_cmp_flip k j, text_cmp_flip j k, get-Entry k v m s.1 h)
