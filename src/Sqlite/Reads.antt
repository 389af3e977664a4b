-- ===== src/Sqlite/Reads.antt =====
-- A table of backend/app/repositories/sqlite.py as the dict that its rows are read as.
use vpp_wl_mobile.Prelude.{
  eq_iff, ap, inr, ◌∙◌, ◌==◌, inl, Bool-cases, List, String, ◌≡◌, refl, subst, false, Option, none,
  some, is_some,
}
use vpp_wl_mobile.Prelude.Dict
use vpp_wl_mobile.Sqlite.Tables.{
  find_by, put_by, update_by, find_by-put_by, find_by-update_by, optional,
}
use vpp_wl_mobile.Sqlite.Users.{if_found}
use vpp_wl_mobile.Errors.{Result, ok, raised}

-- What was found has a row, and the other way round.
found_lem :
    {A : Type 0} (x : Result A) (m : Option A)
    → (elim x [ ok a ↦ ok (some a) | raised e ↦ raised e ]) ≡ ok m
    → (a : A) × (x ≡ ok a) × (m ≡ some a)
found_lem (ok a) m h = (a, refl, cc)
found_lem (raised e) m h = absurd (cc)

pub if_found-is_some :
    {R A : Type 0} (read : R → Result A) (o : Option R) (m : Option A)
    → if_found read o ≡ ok m
    → is_some o ≡ is_some m
if_found-is_some read none m h =
    let same : none ≡ m = cc in subst (λ n. false ≡ is_some n) same refl
if_found-is_some read (some row) m h = rw (found_lem (read row) m h).2 refl

optional_found :
    {R A : Type 0} (read : R → Result A) (change : R → R) (s s' : A) (o : Option R)
    → ((row : R) → read row ≡ ok s → read (change row) ≡ ok s')
    → if_found read o ≡ ok (some s)
    → if_found read (optional change o) ≡ ok (some s')
optional_found read change s s' none step h = absurd (cc)
optional_found read change s s' (some row) step h =
    let (a, e, same) = found_lem (read row) (some s) h in
    let is_s : read row ≡ ok s = cc in rw (step row is_s) refl

-- The dict that the rows of a table are read as.
module _ {R A : Type 0} (key : R → String) (read : R → Result A) where
  abbrev pub Reads : List R → Dict.Dict A → Type 0
  Reads rows d = (k : String) → if_found read (find_by key k rows) ≡ ok (Dict.get k d)

  pub put_by-Reads :
      (row : R) (a : A) (rows : List R) (d : Dict.Dict A)
      → read row ≡ ok a
      → Reads rows d
      → Reads (put_by key row rows) (Dict.insert (key row) a d)
  put_by-Reads row a rows d e h k = rw (find_by-put_by key row rows k) (
      rw (Dict.get-insert (key row) k a d) (elim (Bool-cases (key row == k)) [
        | inl same ↦ rw same (rw e refl)
        | inr other ↦ rw other (h k)
      ]))

  pub update_by-Reads :
      (at : String) (change : R → R) (a a' : A) (rows : List R) (d : Dict.Dict A)
      → ((row : R) → key (change row) ≡ key row)
      → ((row : R) → read row ≡ ok a → read (change row) ≡ ok a')
      → Dict.get at d ≡ some a
      → Reads rows d
      → Reads (update_by key at change rows) (Dict.insert at a' d)
  update_by-Reads at change a a' rows d keyed step e h k =
      rw (find_by-update_by key rows at k change keyed) (
        rw (Dict.get-insert at k a' d) (elim (Bool-cases (at == k)) [
          | inl same ↦
              let found : if_found read (find_by key at rows) ≡ ok (some a) =
                h at ∙ ap (λ o. ok o) e in
              rw same (
                optional_found read change a a' (find_by key k rows) step (
                  subst (λ q. if_found read (find_by key q rows) ≡ ok (some a))
                    ((eq_iff at k).0 same) found))
          | inr other ↦ rw other (h k)
        ]))
