-- ===== src/Tests/Service.antt =====
-- The theorems at concrete inputs: the service.
use vpp_wl_mobile.Prelude.{
  refl, is_space, rstrip, lstrip, strip, ◌+◌, ◌≡◌, ◌⊎◌, true, none, [], ◌∷◌,
}
use vpp_wl_mobile.Prelude.Dict
use vpp_wl_mobile.Links.Parser.{UrlLibrary}
use vpp_wl_mobile.Models.{Platform, User, Subscription}
use vpp_wl_mobile.Repository.Nodes.Seed.{node_eu_1, new_repository}
use vpp_wl_mobile.Repository.{empty_repo}
use vpp_wl_mobile.Json.{Json, bool, object, str}
use vpp_wl_mobile.Service.Payload.{text, stripped, Payload}
use vpp_wl_mobile.Service.Sales.Opening.{checkout-Opens, Opens}
use vpp_wl_mobile.Service.Sales.{checkout, tariff_from_payload, yookassa_webhook}
use vpp_wl_mobile.Service.{find_tariff, Tariff, Python, World, Settings}
use vpp_wl_mobile.Service.Admin.Audited.{Audited}
use vpp_wl_mobile.Service.Sales.Guarded.{yookassa_webhook-Guarded, Confirmed}
use vpp_wl_mobile.Errors.{ok, value_error, raised}

abbrev python : Python
python = record {
  repr = λ v. "?";
  int_of = λ s. none;
  float_of = λ s. none;
  lower = λ s. s;
  isoformat = λ t. "?";
  sha256_hex = λ s. s;
}

abbrev settings : Settings
settings = record {
  admin_token = "secret";
  public_base_url = "https://vpn.example";
  checkout_mode = "mock";
  tariffs =
      record {
        id = "month";
        title = "Month";
        duration_days = 30;
        price_rub = "299";
        badge = none;
        max_devices = 3;
      }
      ∷ [];
  allowed_product_ids = "vpn.monthly" ∷ [];
  create_payment = λ d p u. raised (value_error "not configured");
  fetch_payment = λ id. ok (
      ("status", str "succeeded")
      ∷ ("paid", bool true)
      ∷ ("metadata", object (("device_id", str "phone") ∷ []))
      ∷ []);
  issue_token = λ s t. s;
}

abbrev world : World
world = record {
  repo = new_repository none;
  clock = λ n. n + 9;
  reads = 0;
  random = λ n. "0a1b";
  draws = 0;
}

-- A URL library that reads no URL.
abbrev no_urls : UrlLibrary
no_urls = record {
  urlparse = λ s. raised (value_error "Invalid URL");
  unquote = λ s. s;
  parse_qs = λ s. ok [];
  upper = λ s. s;
  isalnum = λ c. true;
}

abbrev notification : Payload
notification =
    ("event", str "payment.succeeded") ∷ ("object", object (("id", str "pay_1") ∷ [])) ∷ []

yookassa_webhook-Guarded_example :
    ((yookassa_webhook python settings notification world).1 ≡ world)
    ⊎ Confirmed python settings notification
yookassa_webhook-Guarded_example = yookassa_webhook-Guarded python settings notification world

abbrev month : Tariff
month = record {
  id = "month";
  title = "Month";
  duration_days = 30;
  price_rub = "299";
  badge = none;
  max_devices = 3;
}

abbrev chosen : Payload
chosen = ("tariff_id", str "month") ∷ []

chosen-known : tariff_from_payload python settings chosen ≡ ok month
unfolding tariff_from_payload find_tariff stripped text strip lstrip rstrip is_space Dict.get
chosen-known = refl

checkout-Opens_example :
    Opens settings month "0a1b" 10
      (new_repository none)
      (checkout python settings chosen world).1.repo
checkout-Opens_example = checkout-Opens python settings chosen month world chosen-known

abbrev member : User
member = record { id = "usr_1"; device_id = "phone"; created_at = 5 }

abbrev membership : Subscription
membership = record {
  user_id = "usr_1";
  platform = Platform.sandbox;
  expires_at = 100;
  product_id = "vpn.monthly";
  original_transaction_id = "sandbox:sha256:0";
}

abbrev member_world : World
member_world = record world {
  repo = record (empty_repo (("node_eu_1", node_eu_1) ∷ [])) {
    users_by_id = ("usr_1", member) ∷ [];
    users_by_device_id = ("phone", "usr_1") ∷ [];
    subscriptions_by_user_id = ("usr_1", membership) ∷ [];
  };
}
