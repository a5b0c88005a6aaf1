-- ===== src/Store/Lanes.antt =====
-- The lanes of backend/infra/memstore.go: the live runs of a lane, counted, under each operation of
-- the store.
use saki_cli.Base.{
  ℕ, ◌+◌, ◌≤◌, ◌≡◌, refl, inl, inr, true, false, none, some, List, [], ◌∷◌, arith, if◌then◌else◌,
  Bool-cases, Option-cases, Text, same, same_iff, is_empty, count_if, insert, update, values,
  count_if-insert, count_if-remove, count_if-update, ℤ,
}
use saki_cli.Run.{lane_key_of, Run, RunKind}
use saki_cli.Store.{Runs, put, delete, finalized, finalize, is_live, find_live, reserve}

-- How many live runs of a kind a lane has.
unfoldable pub live : RunKind → Text → Runs → ℕ
live kind lane m = count_if (is_live kind lane) (values m)

-- Each lane with a key has at most one live run of the kind.
abbrev pub OneLive : RunKind → Runs → Type 0
OneLive kind m = (lane : Text) → is_empty lane ≡ false → live kind lane m ≤ 1

find_live-none :
    (kind : RunKind) (lane : Text) (rs : List Run)
    → find_live kind lane rs ≡ none
    → count_if (is_live kind lane) rs ≡ 0
unfolding find_live
find_live-none kind lane [] h = refl
find_live-none kind lane (r ∷ rs) h = ground (arith, find_live-none kind lane rs)

module _ (kind : RunKind) (lane : Text) where
  -- A reserve that is refused changes nothing.
  pub reserve_refused :
      (l : Text) (run : Run) (m : Runs) {id : Text}
      → (reserve kind l run m).1 ≡ some id
      → (reserve kind l run m).0 ≡ m
  unfolding reserve
  reserve_refused l run m h = ground arith

  pub live-insert :
      (run : Run) (m : Runs)
      → live kind lane (insert run.id run m)
        ≤ live kind lane m + (if is_live kind lane run then 1 else 0)
  unfolding live
  live-insert run m = count_if-insert (is_live kind lane) run.id run m

  pub live-delete : (id : Text) (m : Runs) → live kind lane (delete id m) ≤ live kind lane m
  unfolding live delete
  live-delete id m = count_if-remove (is_live kind lane) id m

  pub live-update :
      (id : Text) (f : Run → Run) (m : Runs)
      → ((r : Run) → is_live kind lane (f r) ≡ true → is_live kind lane r ≡ true)
      → live kind lane (update id f m) ≤ live kind lane m
  unfolding live
  live-update id f m h = count_if-update (is_live kind lane) id f m h

  finalized-is_live : (code : ℤ) (r : Run) → is_live kind lane (finalized code r) ≡ false
  finalized-is_live code r = ground arith

  pub live-finalize :
      (id : Text) (code : ℤ) (m : Runs) → live kind lane (finalize id code m).0 ≤ live kind lane m
  unfolding finalize
  live-finalize id code m =
      let le = live-update id (finalized code) m (λ r e. cc (e, finalized-is_live code r)) in
      ground (arith, le)

  pub live-put :
      (run : Run) (m : Runs)
      → is_live kind lane run ≡ false
      → live kind lane (put run m) ≤ live kind lane m
  unfolding put
  live-put run m h = ground (arith, live-insert run m)

  reserve_room :
      (l : Text) (run : Run) (m : Runs)
      → find_live kind lane (values m) ≡ none
      → live kind lane (insert run.id run m) ≤ 1
  reserve_room l run m e =
      let zero_live = find_live-none kind lane (values m) e in
      unfold live in ground (arith, live-insert run m, zero_live)

  -- A run with another lane key is not live on this lane.
  other_lane :
      (run : Run) → same (lane_key_of run.meta) lane ≡ false → is_live kind lane run ≡ false
  other_lane run h = ground (arith, h)

  live-reserve_same :
      (run : Run) (m : Runs)
      → is_empty lane ≡ false
      → live kind lane m ≤ 1
      → live kind lane (reserve kind lane run m).0 ≤ 1
  unfolding reserve
  live-reserve_same run m h one = elim (Option-cases (find_live kind lane (values m))) [
    | inl e ↦ rw (h, e) (reserve_room lane run m e)
    | inr (r, e) ↦ rw (h, e) one
  ]

  live-reserve_other :
      (l : Text) (run : Run) (m : Runs)
      → is_live kind lane run ≡ false
      → live kind lane m ≤ 1
      → live kind lane (reserve kind l run m).0 ≤ 1
  unfolding reserve
  live-reserve_other l run m h one = ground (arith, live-insert run m)

-- Reserving a run under its own lane key keeps every lane to one live run.
pub reserve-OneLive :
    (kind : RunKind) (run : Run) (m : Runs)
    → OneLive kind m
    → OneLive kind (reserve kind (lane_key_of run.meta) run m).0
reserve-OneLive kind run m one lane h = elim (Bool-cases (same (lane_key_of run.meta) lane)) [
  | inl e ↦ rw ((same_iff _ lane).0 e) (live-reserve_same kind lane run m h (one lane h))
  | inr e ↦
      live-reserve_other kind lane (lane_key_of run.meta) run m (other_lane kind lane run e)
        (one lane h)
]
