-- ===== src/Sqlite/Deleted.antt =====
-- What deleting a user of backend/app/repositories/sqlite.py leaves.
use vpp_wl_mobile.Prelude.{String, ◌≡◌, refl, Bool, true, false, Option, none, ◌==◌, if◌then◌else◌}
use vpp_wl_mobile.Sqlite.{Library, Database}
use vpp_wl_mobile.Sqlite.Users.{
  delete_user, get_user, find_subscription, user_id, subscriber, if_found,
}
use vpp_wl_mobile.Sqlite.Rows.{user_from_row, subscription_from_row}
use vpp_wl_mobile.Sqlite.Tables.{find_by, find_by-delete_by}
use vpp_wl_mobile.Errors.{ok, Result}

if_found-unless :
    {R A : Type 0} (read : R → Result A) (gone : Bool) (o : Option R)
    → if_found read (if gone then none else o) ≡ (if gone then ok none else if_found read o)
if_found-unless read true o = refl
if_found-unless read false o = refl

-- Deleting a user takes the row of the user and, with it, the subscription that refers to it. Every
-- other user is read as before, and so is the subscription of every other user.
delete_user-forgets :
    (lib : Library) (id k : String) (db : Database)
    → let left = (delete_user lib id db).1 in
      ((get_user lib k left).0 ≡ (if id == k then ok none else (get_user lib k db).0))
      × ((find_subscription lib k left).0
          ≡ (if id == k then ok none else (find_subscription lib k db).0))
unfolding delete_user get_user find_subscription
delete_user-forgets lib id k db = (
  rw (find_by-delete_by user_id db.users id k)
      (if_found-unless (user_from_row lib) (id == k) (find_by user_id k db.users)),
  rw (find_by-delete_by subscriber db.subscriptions id k) (
      if_found-unless (subscription_from_row lib) (id == k)
        (find_by subscriber k db.subscriptions)),
)
