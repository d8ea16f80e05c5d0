-- ===== src/Artifact/Store/Held.antt =====
-- Which objects the store holds, and what ingestion may add.
use research_lab.Prelude.{
  ◌≡◌, refl, ap, ◌∙◌, inl, inr, ℕ, true, false, Option, none, some, List, is_some, Option-cases,
  All,
}
use research_lab.Prelude.Text.{Text}
use research_lab.Prelude.Outcome.{ok}
use research_lab.Prelude.Assoc
use research_lab.Prelude.Assoc.{get-insert_self, get-insert_ne}
use research_lab.Artifact.Layout.{
  TreeEntry, Contents, File, blob, tree, Files, tree_digest, blob_path, tree_path,
}
use research_lab.Artifact.Store.{Environment, put, tree_of}

abbrev pub Has : Text → Files → Type 0
Has path f = is_some (Assoc.get path f) ≡ true

-- The object of a digest is in the store.
abbrev pub Held : Files → Text → Type 0
Held f digest = (path : Text) × (blob_path digest ≡ ok path) × Has path f

abbrev pub AllHeld : Files → List TreeEntry → Type 0
AllHeld f entries = All (λ e. Held f e.sha256) entries

-- What ingestion may write where there is no file yet.
pub data Addition (env : Environment) (f : Files) : Text → File → Type 0 where
  whole :
      {path : Text} (source : Contents)
      → blob_path (env.digest.sha256_bytes source) ≡ ok path
      → Addition env f path (blob source)
  part :
      {path : Text} (source rest : Contents) (n : ℕ)
      → blob_path (env.digest.sha256_bytes source) ≡ ok path
      → env.remains n ≡ some rest
      → Addition env f path (blob rest)
  listing :
      (entries : List TreeEntry)
      → AllHeld f entries
      → Addition env f
          (tree_path (tree_digest env.digest entries))
          (tree (tree_of entries (tree_digest env.digest entries)))

-- A predicate that additions keep.
pub record Grows (env : Environment) (I : Files → Type 0) : Type 0 where
  pub add :
      (f : Files) (path : Text) (x : File)
      → Addition env f path x
      → Assoc.get path f ≡ none
      → I f
      → I (put path x f)

pub get-put_absent :
    (f : Files) (path k : Text) (x c : File)
    → Assoc.get path f ≡ none
    → Assoc.get k f ≡ some c
    → Assoc.get k (put path x f) ≡ some c
get-put_absent f path k x c a h = get-insert_ne k path x f differ ∙ h
  where
    differ : k ≡ path → ⊥
    differ e = cc (ap (λ k. Assoc.get k f) e)

pub Has-put_absent :
    (f : Files) (path k : Text) (x : File)
    → Assoc.get path f ≡ none
    → Has k f
    → Has k (put path x f)
Has-put_absent f path k x a h = elim (Option-cases (Assoc.get k f)) [
  | inl e ↦ cc
  | inr (c, e) ↦ ap is_some (get-put_absent f path k x c a e)
]

pub Held-put_absent :
    (f : Files) (path d : Text) (x : File)
    → Assoc.get path f ≡ none
    → Held f d
    → Held (put path x f) d
Held-put_absent f path d x a (p, e, h) = (p, e, Has-put_absent f path p x a h)

pub absent : (o : Option File) → is_some o ≡ false → o ≡ none
absent none h = refl
absent (some x) h = cc

pub Grows-Held : (env : Environment) (d : Text) → Grows env (λ f. Held f d)
Grows-Held env d = record { add = λ f path x _ a h. Held-put_absent f path d x a h }

pub Grows-both :
    (env : Environment) {I J : Files → Type 0}
    → Grows env I
    → Grows env J
    → Grows env (λ f. I f × J f)
Grows-both env i j = record {
  add = λ f path x ad a (p, q). (i.add f path x ad a p, j.add f path x ad a q);
}

pub Has-put : (f : Files) (path : Text) (x : File) → Has path (put path x f)
Has-put f path x = ap is_some (get-insert_self path x f)
