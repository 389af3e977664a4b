-- ===== src/Service/Accounts/Served.antt =====
-- When the method `config` answers with a configuration.
use vpp_wl_mobile.Prelude.Dict
use vpp_wl_mobile.Json.{Json}
