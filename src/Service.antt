-- ===== src/Service.antt =====
-- backend/app/api/service.py: the state that a request works on, and what `ApiService` is made with.
pub mod Payload
pub mod Views
pub mod Receipts
pub mod Accounts
pub mod Sales
pub mod Admin
pub mod Authorization
pub mod Subscriptions
pub mod Wallets
pub mod Html
pub mod Metrics
use vpp_wl_mobile.Prelude.{
  ℕ, ◌+◌, String, Bool, not, Option, none, some, List, [], ◌∷◌, ◌==◌, if◌then◌else◌, concat,
}
use vpp_wl_mobile.Prelude.Dict
use vpp_wl_mobile.Prelude.Int.{ℤ}
use vpp_wl_mobile.Json.{Json}
use vpp_wl_mobile.Errors.{Result, ok, raised, Exec, Error}
use vpp_wl_mobile.Repository.{Repo}

-- The repository, with the clock reads and the random texts that the rest of the run will draw.
pub record World : Type 0 where
  pub repo : Repo
  pub clock : ℕ → ℕ
  pub reads : ℕ
  pub random : ℕ → String
  pub draws : ℕ

-- What the service uses of Python that is not spelled out here: `str` of a float, a list or a dict,
-- `int` and `float` of a text (a float in ten-thousandths), `str.lower`, `datetime.isoformat`, and
-- SHA-256 in hexadecimal.
pub record Python : Type 0 where
  pub repr : Json → String
  pub int_of : String → Option ℤ
  pub float_of : String → Option ℤ
  pub lower : String → String
  pub isoformat : ℕ → String
  pub sha256_hex : String → String

-- A `Tariff` of backend/app/domain/tariffs.py.
pub record Tariff : Type 0 where
  pub id : String
  pub title : String
  pub duration_days : ℕ
  pub price_rub : String
  pub badge : Option String
  pub max_devices : ℕ

-- `YooKassaPayment` of backend/app/services/yookassa.py.
pub record YooKassaPayment : Type 0 where
  pub id : String
  pub status : String
  pub paid : Bool
  pub confirmation_url : Option String

-- The attributes of `ApiService`. The payment provider is a service on the network: what it answers
-- to a call is an argument, and so is what issues an access token.
pub record Settings : Type 0 where
  pub admin_token : String
  pub public_base_url : String
  pub checkout_mode : String
  pub tariffs : List Tariff
  pub allowed_product_ids : List String
  pub create_payment : String → String → Option String → Result YooKassaPayment
  pub fetch_payment : String → Result (Dict.Dict Json)
  pub issue_token : String → ℕ → String

-- `tariffs_by_id(tariffs).get(id)`: the last tariff of an identifier counts.
unfoldable pub find_tariff : String → List Tariff → Option Tariff
find_tariff id [] = none
find_tariff id (t ∷ ts) = elim (find_tariff id ts) [
  | none ↦ if t.id == id then some t else none
  | some u ↦ some u
]

abbrev pub Action : Type 0 → Type 0
Action A = Exec World A

-- `datetime.now(timezone.utc)`
unfoldable pub now : Action ℕ
now w = (ok (w.clock w.reads), record w { reads = w.reads + 1 })

-- `uuid4().hex` and `token_urlsafe(32)`
unfoldable pub draw : Action String
draw w = (ok (w.random w.draws), record w { draws = w.draws + 1 })

-- `new_id(prefix)`
unfoldable pub new_id : String → Action String
unfolding concat
new_id prefix w =
    (ok (concat (prefix ∷ "_" ∷ w.random w.draws ∷ [])), record w { draws = w.draws + 1 })

-- A method of the repository that may raise, one that returns a result, and one that does not.
abbrev pub on_repo : {A : Type 0} → Exec Repo A → Action A
on_repo m w = let (res, r) = m w.repo in (res, record w { repo = r })

abbrev pub update_repo : {A : Type 0} → (Repo → A × Repo) → Action A
update_repo f w = let (a, r) = f w.repo in (ok a, record w { repo = r })

abbrev pub modify_repo : (Repo → Repo) → Action Unit
modify_repo f w = (ok tt, record w { repo = f w.repo })

abbrev pub read_repo : {A : Type 0} → (Repo → A) → Action A
read_repo f w = (ok (f w.repo), w)
