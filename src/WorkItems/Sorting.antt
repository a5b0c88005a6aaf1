-- ===== src/WorkItems/Sorting.antt =====
-- sortedSlices of backend/domain/workitems.go.
use saki_cli.Base.{
  ◌≡◌, refl, inl, inr, Bool, false, ◌||◌, List, [], ◌∷◌, arith, Bool-cases, any, ltz, ltz_asym,
  ltz_trans, ltz_irrefl, ℤ,
}
use saki_cli.WorkItems.{insert_slice, insert_slices, turned, sorted_slices, Slice}

-- No slice of the list has a number below that of the slice before it, the first none below `lo`.
abbrev pub IsAscending : ℤ → List Slice → Type 0
IsAscending lo [] = Unit
IsAscending lo (s ∷ ss) = (ltz s.n lo ≡ false) × IsAscending s.n ss

-- No number above `hi`, and none above that of the slice before it.
abbrev IsDescending : ℤ → List Slice → Type 0
IsDescending hi [] = Unit
IsDescending hi (s ∷ ss) = (ltz hi s.n ≡ false) × IsDescending s.n ss

-- Which slices there are does not change.
any-insert_slice :
    (p : Slice → Bool) (s : Slice) (ts : List Slice) → any p (insert_slice s ts) ≡ (p s || any p ts)
unfolding insert_slice
any-insert_slice p s [] = refl
any-insert_slice p s (t ∷ ts) = ground (arith, any-insert_slice p s ts)

any-insert_slices :
    (p : Slice → Bool) (bs ss : List Slice) → any p (insert_slices bs ss) ≡ (any p bs || any p ss)
unfolding insert_slices
any-insert_slices p bs [] = ground arith
any-insert_slices p bs (s ∷ ss) =
    ground (arith, any-insert_slices p (insert_slice s bs) ss, any-insert_slice p s bs)

any-turned :
    (p : Slice → Bool) (ss acc : List Slice) → any p (turned ss acc) ≡ (any p ss || any p acc)
unfolding turned
any-turned p [] acc = refl
any-turned p (s ∷ ss) acc = ground (arith, any-turned p ss (s ∷ acc))

pub any-sorted_slices : (p : Slice → Bool) (ss : List Slice) → any p (sorted_slices ss) ≡ any p ss
unfolding sorted_slices
any-sorted_slices p ss =
    ground (arith, any-turned p (insert_slices [] ss) [], any-insert_slices p [] ss)

-- Each slice of the list has a number that is not below that of the slice before it.
unfoldable pub IsSorted : List Slice → Type 0
IsSorted [] = Unit
IsSorted (s ∷ ss) = IsAscending s.n ss

IsLastFirst : List Slice → Type 0
IsLastFirst [] = Unit
IsLastFirst (s ∷ ss) = IsDescending s.n ss

insert_slice-IsDescending :
    (hi : ℤ) (s : Slice) (ts : List Slice)
    → ltz hi s.n ≡ false
    → IsDescending hi ts
    → IsDescending hi (insert_slice s ts)
unfolding insert_slice
insert_slice-IsDescending hi s [] h d = (h, d)
insert_slice-IsDescending hi s (t ∷ ts) h (g, d) = elim (Bool-cases (ltz s.n t.n)) [
  | inl e ↦ rw e (g, insert_slice-IsDescending t.n s ts (ltz_asym s.n t.n e) d)
  | inr e ↦ rw e (h, (e, d))
]

insert_slice-IsLastFirst :
    (s : Slice) (ts : List Slice) → IsLastFirst ts → IsLastFirst (insert_slice s ts)
unfolding insert_slice IsLastFirst
insert_slice-IsLastFirst s [] d = d
insert_slice-IsLastFirst s (t ∷ ts) d = elim (Bool-cases (ltz s.n t.n)) [
  | inl e ↦ rw e (insert_slice-IsDescending t.n s ts (ltz_asym s.n t.n e) d)
  | inr e ↦ rw e (e, d)
]

insert_slices-IsLastFirst :
    (bs ss : List Slice) → IsLastFirst bs → IsLastFirst (insert_slices bs ss)
unfolding insert_slices
insert_slices-IsLastFirst bs [] d = d
insert_slices-IsLastFirst bs (s ∷ ss) d =
    insert_slices-IsLastFirst (insert_slice s bs) ss (insert_slice-IsLastFirst s bs d)

pub IsAscending-lower :
    (lo hi : ℤ) (ss : List Slice) → ltz hi lo ≡ false → IsAscending hi ss → IsAscending lo ss
IsAscending-lower lo hi [] h a = a
IsAscending-lower lo hi (s ∷ ss) h (g, a) = (ltz_trans lo hi s.n h g, a)

turned-IsSorted :
    (hi : ℤ) (ss acc : List Slice)
    → IsDescending hi ss
    → IsAscending hi acc
    → IsSorted (turned ss acc)
unfolding turned IsSorted
turned-IsSorted hi [] [] d a = a
turned-IsSorted hi [] (s ∷ acc) d (g, a) = a
turned-IsSorted hi (s ∷ ss) acc (g, d) a =
    turned-IsSorted s.n ss (s ∷ acc) d (ltz_irrefl s.n, IsAscending-lower s.n hi acc g a)

turned_all-IsSorted : (ss : List Slice) → IsLastFirst ss → IsSorted (turned ss [])
unfolding IsLastFirst turned IsSorted
turned_all-IsSorted [] d = d
turned_all-IsSorted (s ∷ ss) d = turned-IsSorted s.n ss (s ∷ []) d (ltz_irrefl s.n, tt)

pub sorted_slices-IsSorted : (ss : List Slice) → IsSorted (sorted_slices ss)
unfolding sorted_slices IsLastFirst
sorted_slices-IsSorted ss =
    turned_all-IsSorted (insert_slices [] ss) (insert_slices-IsLastFirst [] ss tt)
