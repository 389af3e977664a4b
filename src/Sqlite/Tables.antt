-- ===== src/Sqlite/Tables.antt =====
-- The statements that backend/app/repositories/sqlite.py runs on a table with a key.
use vpp_wl_mobile.Prelude.{
  Bool, ℕ, true, ◌&&◌, String, ◌≡◌, refl, Option, none, some, List, [], ◌∷◌, arith, ◌==◌, eq_iff,
  if◌then◌else◌,
}
use vpp_wl_mobile.Prelude.Int.{ℤ, pos, negsuc, leb_ℤ}

abbrev pub optional : {A B : Type 0} → (A → B) → Option A → Option B
optional f none = none
optional f (some a) = some (f a)

-- The integers that the sqlite3 module binds to a statement are those of 64 bits; it raises
-- OverflowError for any other, before the statement is run.
unfoldable pub are_bound : List ℤ → Bool
are_bound [] = true
are_bound (n ∷ ns) =
    (leb_ℤ (negsuc 9_223_372_036_854_775_807) n && leb_ℤ n (pos 9_223_372_036_854_775_807))
    && are_bound ns

-- A number that may be NULL.
abbrev pub given_number : Option ℕ → List ℤ
given_number none = []
given_number (some n) = pos n ∷ []

module _ {R : Type 0} (key : R → String) where
  -- `SELECT ... WHERE key = ?`, with `fetchone`
  unfoldable pub find_by : String → List R → Option R
  find_by k [] = none
  find_by k (row ∷ rows) = if key row == k then some row else find_by k rows

  -- `INSERT ... ON CONFLICT(key) DO UPDATE SET ...`
  unfoldable pub put_by : R → List R → List R
  put_by new [] = new ∷ []
  put_by new (row ∷ rows) = if key row == key new then new ∷ rows else row ∷ put_by new rows

  -- `UPDATE ... WHERE key = ?`
  unfoldable pub update_by : String → (R → R) → List R → List R
  update_by k change [] = []
  update_by k change (row ∷ rows) =
      let rest = update_by k change rows in (if key row == k then change row else row) ∷ rest

  -- The rows that `DELETE ... WHERE key = ?` leaves.
  unfoldable pub delete_by : String → List R → List R
  delete_by k [] = []
  delete_by k (row ∷ rows) =
      let rest = delete_by k rows in if key row == k then rest else row ∷ rest

  pub find_by-put_by :
      (row : R) (rows : List R) (k : String)
      → find_by k (put_by row rows) ≡ (if key row == k then some row else find_by k rows)
  unfolding find_by put_by
  find_by-put_by row [] k = refl
  find_by-put_by row (r ∷ rows) k = ground (
    arith,
    eq_iff (key r) (key row),
    eq_iff (key row) k,
    eq_iff (key r) k,
    find_by-put_by row rows k,
  )

  pub find_by-delete_by :
      (rows : List R) (gone k : String)
      → find_by k (delete_by gone rows) ≡ (if gone == k then none else find_by k rows)
  unfolding find_by delete_by
  find_by-delete_by [] gone k = ground (arith, eq_iff gone k)
  find_by-delete_by (r ∷ rows) gone k =
      ground
        (arith, eq_iff gone k, eq_iff (key r) gone, eq_iff (key r) k, find_by-delete_by rows gone k)

  pub find_by-update_by :
      (rows : List R) (at k : String) (change : R → R)
      → ((row : R) → key (change row) ≡ key row)
      → find_by k (update_by at change rows)
        ≡ (if at == k then optional change (find_by k rows) else find_by k rows)
  unfolding find_by update_by
  find_by-update_by [] at k change same = ground (arith, eq_iff at k)
  find_by-update_by (r ∷ rows) at k change same = ground (
    arith,
    eq_iff at k,
    eq_iff (key r) at,
    eq_iff (key r) k,
    same r,
    find_by-update_by rows at k change same,
  )
