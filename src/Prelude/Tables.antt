-- ===== src/Prelude/Tables.antt =====
-- A table of rows under their primary keys, as the session sees it.
use Prim.Native.Nat.{ℕ, suc, max}
use mathlib.Core.Path.{◌≡◌}
use mathlib.Core.Bool.{Bool}
use mathlib.Core.Option
use mathlib.Core.Option.{Option, none, some}
use mathlib.Core.List.{List, [], ◌∷◌}
use native.Mathlib.Omega.{arith}
use autodeploy_platform.Prelude.Tests.{◌==◌, leb, if◌then◌else◌}

abbrev pub Table {ℓ} : Type ℓ → Type ℓ
Table R = List (ℕ × R)

module _ {ℓ} {R : Type ℓ} where
  unfoldable pub find : ℕ → Table R → Option R
  find k [] = none
  find k ((i, r) ∷ t) = if i == k then some r else find k t

  -- A write to the row at a key; a key that is not there changes nothing.
  unfoldable pub modify : ℕ → (R → R) → Table R → Table R
  modify k f [] = []
  modify k f ((i, r) ∷ t) = if i == k then (i, f r) ∷ t else (i, r) ∷ modify k f t

  -- `WHERE`
  unfoldable pub where_rows : (R → Bool) → Table R → Table R
  where_rows test [] = []
  where_rows test ((i, r) ∷ t) =
      let rest = where_rows test t in if test r then (i, r) ∷ rest else rest

  unfoldable pub insert_by : (R → ℕ) → ℕ × R → Table R → Table R
  insert_by by (i, r) [] = (i, r) ∷ []
  insert_by by (i, r) ((j, s) ∷ t) =
      if leb (by r) (by s) then (i, r) ∷ (j, s) ∷ t else (j, s) ∷ insert_by by (i, r) t

  -- `ORDER BY ... ASC`; rows that tie keep the table's order.
  unfoldable pub order_by : (R → ℕ) → Table R → Table R
  unfolding insert_by
  order_by by [] = []
  order_by by (row ∷ t) = insert_by by row (order_by by t)

  -- `LIMIT 1`
  abbrev pub first : Table R → Option (ℕ × R)
  first [] = none
  first (row ∷ t) = some row

  -- A primary key above all that are in use.
  unfoldable pub fresh : Table R → ℕ
  fresh [] = 1
  fresh ((i, r) ∷ t) = max (suc i) (fresh t)

  pub find-modify :
      (j k : ℕ) (f : R → R) (t : Table R)
      → find j (modify k f t) ≡ (if k == j then Option.map f (find j t) else find j t)
  unfolding find modify
  find-modify j k f [] = ground arith
  find-modify j k f ((i, r) ∷ t) = ground (arith, find-modify j k f t)
