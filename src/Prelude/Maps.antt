-- ===== src/Prelude/Maps.antt =====
-- Go maps keyed by strings, as association lists, and a store of objects under references.
use Prim.Native.Nat.{ℕ}
use Prim.Native.String.{String}
use text.Mathlib.Text.{◌==◌ as str_eq}
use text.Mathlib.TextEquality.{eq_iff}
use mathlib.Core.Path.{◌≡◌, refl, ap}
use mathlib.Core.Logic.{inl, inr}
use mathlib.Core.List.{List, [], ◌∷◌}
use mathlib.Core.Option.{Option, none, some}
use native.Mathlib.Omega.{arith}
use reef.Prelude.Tests.{◌==◌, if◌then◌else◌, Bool-cases}
use reef.Prelude.Lists.{In}

module _ {ℓ} {V : Type ℓ} where
  -- `m[key]`; `none` is a missing key.
  unfoldable pub lookup : String → List (String × V) → Option V
  lookup key [] = none
  lookup key (entry ∷ rest) = if str_eq entry.0 key then some entry.1 else lookup key rest

  -- `m[key] = val`: the entry of the key is replaced in its place, a new one is the last.
  unfoldable pub insert : String → V → List (String × V) → List (String × V)
  insert key val [] = (key, val) ∷ []
  insert key val (entry ∷ rest) =
      if str_eq entry.0 key then (key, val) ∷ rest else entry ∷ insert key val rest

  unfoldable pub delete : String → List (String × V) → List (String × V)
  delete key [] = []
  delete key (entry ∷ rest) =
      if str_eq entry.0 key then delete key rest else entry ∷ delete key rest

  -- How a write to one key shows when any key is read.
  pub lookup-insert :
      (key other : String) (val : V) (entries : List (String × V))
      → lookup other (insert key val entries)
        ≡ (if str_eq key other then some val else lookup other entries)
  unfolding insert lookup
  lookup-insert key other val [] = refl
  lookup-insert key other val (entry ∷ rest) =
      let later = lookup-insert key other val rest in
      ground (arith, later, eq_iff entry.0 key, eq_iff entry.0 other, eq_iff key other)

  pub lookup-delete :
      (key other : String) (entries : List (String × V))
      → lookup other (delete key entries)
        ≡ (if str_eq key other then none else lookup other entries)
  unfolding delete lookup
  lookup-delete key other [] = ground arith
  lookup-delete key other (entry ∷ rest) =
      let later = lookup-delete key other rest in
      ground (arith, later, eq_iff entry.0 key, eq_iff entry.0 other, eq_iff key other)

-- A write through a pointer; every other pointer keeps its object.
abbrev pub update {ℓ} : {A : Type ℓ} (heap : ℕ → A) (pointer : ℕ) (object : A) (read : ℕ) → A
update heap pointer object read = if pointer == read then object else heap read

module _ {V : Type 0} where
  -- No key stands twice in the list, as in a map.
  abbrev pub UniqueKeys : List (String × V) → Type 0
  UniqueKeys [] = Unit
  UniqueKeys ((k, v) ∷ m) = (lookup k m ≡ none) × UniqueKeys m

  pub insert-UniqueKeys :
      (k : String) (v : V) (m : List (String × V)) → UniqueKeys m → UniqueKeys (insert k v m)
  unfolding insert lookup
  insert-UniqueKeys k v [] h = (refl, tt)
  insert-UniqueKeys k v ((j, w) ∷ m) h =
      ground (arith, eq_iff j k, eq_iff k j, lookup-insert k j v m, insert-UniqueKeys k v m h.1)

  pub delete-UniqueKeys :
      (k : String) (m : List (String × V)) → UniqueKeys m → UniqueKeys (delete k m)
  unfolding delete
  delete-UniqueKeys k [] h = tt
  delete-UniqueKeys k ((j, w) ∷ m) h =
      ground (arith, eq_iff j k, eq_iff k j, lookup-delete k j m, delete-UniqueKeys k m h.1)

  -- The entries of such a list are the values that it is looked up for.
  pub lookup_of_In :
      (k : String) (v : V) (m : List (String × V))
      → UniqueKeys m
      → In (k, v) m
      → lookup k m ≡ some v
  unfolding lookup
  lookup_of_In k v [] u i = absurd i
  lookup_of_In k v ((j, w) ∷ m) u (inl e) =
      ground (arith, eq_iff j k, ap (λ p. p.0) e, ap (λ p. p.1) e)
  lookup_of_In k v ((j, w) ∷ m) u (inr i) = ground (arith, eq_iff j k, lookup_of_In k v m u.1 i)

  pub In_of_lookup :
      (k : String) (v : V) (m : List (String × V)) → lookup k m ≡ some v → In (k, v) m
  unfolding lookup
  In_of_lookup k v [] e = cc
  In_of_lookup k v ((j, w) ∷ m) e = elim (Bool-cases (str_eq j k)) [
    | inl s ↦ inl (ground (arith, eq_iff j k))
    | inr n ↦ inr (In_of_lookup k v m (rw n at e))
  ]
