-- ===== src/Base/Dicts.antt =====
-- A Go map with string keys as an association list; a range over the map meets its entries in the
-- list's order.
use mathlib.Core.Path.{◌≡◌, refl}
use mathlib.Core.Logic.{inl, inr}
use Prim.Native.Nat.{◌+◌, ◌≤◌}
use mathlib.Core.Bool.{Bool, true}
use mathlib.Core.Option.{Option, none, some}
use mathlib.Core.List.{List, [], ◌∷◌}
use native.Mathlib.Omega.{arith}
use saki_cli.Base.Tests.{if◌then◌else◌, Bool-cases}
use saki_cli.Base.Texts.{Text, same, same_iff}
use saki_cli.Base.Lists.{count_if}

abbrev pub Dict {ℓ} : Type ℓ → Type ℓ
Dict V = List (Text × V)

module _ {ℓ} {V : Type ℓ} where
  unfoldable pub lookup : Text → Dict V → Option V
  lookup k [] = none
  lookup k ((j, v) ∷ m) = if same j k then some v else lookup k m

  unfoldable pub insert : Text → V → Dict V → Dict V
  insert k v [] = (k, v) ∷ []
  insert k v ((j, w) ∷ m) = if same j k then (j, v) ∷ m else (j, w) ∷ insert k v m

  unfoldable pub remove : Text → Dict V → Dict V
  remove k [] = []
  remove k ((j, v) ∷ m) = let rest = remove k m in if same j k then rest else (j, v) ∷ rest

  -- m[k] = f(m[k]) where the key is present.
  unfoldable pub update : Text → (V → V) → Dict V → Dict V
  update k f [] = []
  update k f ((j, v) ∷ m) = if same j k then (j, f v) ∷ m else (j, v) ∷ update k f m

  unfoldable pub values : Dict V → List V
  values [] = []
  values ((j, v) ∷ m) = v ∷ values m

  pub lookup-insert :
      (k j : Text) (v : V) (m : Dict V)
      → lookup j (insert k v m) ≡ (if same k j then some v else lookup j m)
  unfolding lookup insert
  lookup-insert k j v [] = refl
  lookup-insert k j v ((i, w) ∷ m) =
      ground (arith, same_iff k j, same_iff i k, same_iff i j, lookup-insert k j v m)

  abbrev pub mapped : (V → V) → Option V → Option V
  mapped f none = none
  mapped f (some v) = some (f v)

  pub lookup-update :
      (k j : Text) (f : V → V) (m : Dict V)
      → lookup j (update k f m) ≡ (if same k j then mapped f (lookup j m) else lookup j m)
  unfolding lookup update
  lookup-update k j f [] = ground arith
  lookup-update k j f ((i, v) ∷ m) =
      ground (arith, same_iff k j, same_iff i k, same_iff i j, lookup-update k j f m)

  pub lookup-remove :
      (k j : Text) (m : Dict V) → lookup j (remove k m) ≡ (if same k j then none else lookup j m)
  unfolding lookup remove
  lookup-remove k j [] = ground arith
  lookup-remove k j ((i, v) ∷ m) =
      ground (arith, same_iff k j, same_iff i k, same_iff i j, lookup-remove k j m)

  -- How an operation changes the number of entries that pass a test.
  pub count_if-insert :
      (p : V → Bool) (k : Text) (v : V) (m : Dict V)
      → count_if p (values (insert k v m)) ≤ count_if p (values m) + (if p v then 1 else 0)
  unfolding values insert
  count_if-insert p k v [] = ground arith
  count_if-insert p k v ((j, w) ∷ m) = ground (arith, count_if-insert p k v m)

  pub count_if-remove :
      (p : V → Bool) (k : Text) (m : Dict V)
      → count_if p (values (remove k m)) ≤ count_if p (values m)
  unfolding values remove
  count_if-remove p k [] = ground arith
  count_if-remove p k ((j, w) ∷ m) = ground (arith, count_if-remove p k m)

  pub count_if-update :
      (p : V → Bool) (k : Text) (f : V → V) (m : Dict V)
      → ((v : V) → p (f v) ≡ true → p v ≡ true)
      → count_if p (values (update k f m)) ≤ count_if p (values m)
  unfolding values update
  count_if-update p k f [] h = ground arith
  count_if-update p k f ((j, w) ∷ m) h = ground (arith, h w, count_if-update p k f m h)

  -- f for each entry, in place.
  unfoldable pub map_values : (V → V) → Dict V → Dict V
  map_values f [] = []
  map_values f ((j, v) ∷ m) = (j, f v) ∷ map_values f m

  -- What stands at a key was made of what stood there.
  pub lookup-map_values :
      (f : V → V) (k : Text) (m : Dict V) {w : V}
      → lookup k (map_values f m) ≡ some w
      → (v : V) × (lookup k m ≡ some v) × (f v ≡ w)
  unfolding lookup map_values
  lookup-map_values f k [] e = cc
  lookup-map_values f k ((j, v) ∷ m) e = elim (Bool-cases (same j k)) [
    | inl hit ↦ (v, rw hit refl, cc (rw hit at e))
    | inr miss ↦ let (x, at, made) = lookup-map_values f k m (rw miss at e) in (x, rw miss at, made)
  ]
