-- ===== src/Json.antt =====
-- The values of `dict[str, Any]`: request payloads and sing-box configurations. A float stands as
-- its number of ten-thousandths.
use vpp_wl_mobile.Prelude.{ℕ, String, ◌≡◌, refl, Bool, List, [], ◌∷◌, map}
use vpp_wl_mobile.Prelude.Int.{ℤ, pos}
use vpp_wl_mobile.Prelude.Dict.{Dict}

mutual
  pub data Json : Type 0 where
    null : Json
    bool : Bool → Json
    int : ℤ → Json
    real : ℤ → Json
    str : String → Json
    arr : Items → Json
    obj : Fields → Json

  pub data Items : Type 0 where
    nil : Items
    cons : Json → Items → Items

  pub data Fields : Type 0 where
    end : Fields
    field : String → Json → Fields → Fields

-- A list as the elements of an array, and back.
unfoldable pub items : List Json → Items
items [] = nil
items (v ∷ vs) = cons v (items vs)

unfoldable pub elements : Items → List Json
elements nil = []
elements (cons v vs) = v ∷ elements vs

-- A dict as the fields of an object, and back.
unfoldable pub fields : Dict Json → Fields
fields [] = end
fields ((k, v) ∷ d) = field k v (fields d)

unfoldable pub entries : Fields → Dict Json
entries end = []
entries (field k v fs) = (k, v) ∷ entries fs

abbrev pub object : Dict Json → Json
object d = obj (fields d)

abbrev pub array : List Json → Json
array vs = arr (items vs)

abbrev pub texts : List String → Json
texts xs = array (map str xs)

abbrev pub nat : ℕ → Json
nat n = int (pos n)

pub elements-items : (vs : List Json) → elements (items vs) ≡ vs
unfolding elements items
elements-items [] = refl
elements-items (v ∷ vs) = rw (elements-items vs)

pub entries-fields : (d : Dict Json) → entries (fields d) ≡ d
unfolding entries fields
entries-fields [] = refl
entries-fields ((k, v) ∷ d) = rw (entries-fields d)
