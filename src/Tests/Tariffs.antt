-- ===== src/Tests/Tariffs.antt =====
-- The tariffs at a concrete setting.
use vpp_wl_mobile.Prelude.{
  ◌<◌, String, ◌≡◌, refl, none, some, List, [], ◌∷◌, ◌==◌, if◌then◌else◌, length, All, is_empty,
  is_space, lstrip, rstrip, strip,
}
use vpp_wl_mobile.Prelude.Int.{pos}
use vpp_wl_mobile.Errors.{ok}
use vpp_wl_mobile.Service.{Python, Tariff}
use vpp_wl_mobile.Tariffs.{
  Decimals, positive, parse_tariffs, parse_items, tariff_of, read_all, devices_of, given_devices,
  badge_of, decimal_price, csv, split,
}
use vpp_wl_mobile.Tariffs.Valid.{IsValid, parse_tariffs-IsValid}

abbrev decimals : Decimals
decimals = record { amount = λ s. some positive; two_digits = λ s. s }

abbrev python : Python
python = record {
  repr = λ v. "";
  int_of = λ s. if s == "30" then some (pos 30) else some (pos 5);
  float_of = λ s. none;
  lower = λ s. s;
  isoformat = λ t. "";
  sha256_hex = λ s. s;
}

abbrev setting : String
setting = "m:Month:30:200.00, f:Five:30:300.00:best:5"

abbrev expected : List Tariff
expected =
    record {
      id = "m";
      title = "Month";
      duration_days = 30;
      price_rub = "200.00";
      badge = none;
      max_devices = 3;
    }
    ∷ record {
      id = "f";
      title = "Five";
      duration_days = 30;
      price_rub = "300.00";
      badge = some "best";
      max_devices = 5;
    }
    ∷ []

setting_read : parse_tariffs decimals python setting [] ≡ ok expected
unfolding parse_tariffs parse_items tariff_of read_all devices_of given_devices badge_of
    decimal_price csv split strip lstrip rstrip is_space is_empty
setting_read = refl

parse_tariffs-IsValid_example : (0 < length expected) × All IsValid expected
parse_tariffs-IsValid_example =
    parse_tariffs-IsValid decimals python setting [] expected setting_read
