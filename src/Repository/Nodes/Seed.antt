-- ===== src/Repository/Nodes/Seed.antt =====
-- `_seed_nodes` of backend/app/repositories/memory.py.
use vpp_wl_mobile.Prelude.{String, Option, none, some, List, [], ◌∷◌, or_else}
use vpp_wl_mobile.Prelude.Int.{pos}
use vpp_wl_mobile.Prelude.Dict.{Dict}
use vpp_wl_mobile.Models.{VpnNode, VlessOptions, Protocol, NodeStatus, NodeHealth, NodeOptions}
use vpp_wl_mobile.Repository.{Repo, empty_repo}
use vpp_wl_mobile.Repository.Nodes.{index_nodes}

abbrev reality_options : String → String → String → String → String → VlessOptions
reality_options uuid server_name public_key short_id label = record {
  uuid = uuid;
  server_name = server_name;
  flow = none;
  transport = none;
  reality = none;
  security = "reality";
  public_key = some public_key;
  short_id = some short_id;
  fingerprint = "chrome";
  label = some label;
  raw_url = none;
  source = "manual";
  source_panel = none;
}

abbrev pub node_eu_1 : VpnNode
node_eu_1 = record {
  id = "node_eu_1";
  tag = "vless-eu-1";
  region = "eu-central";
  provider = "hetzner";
  country_code = "DE";
  host = "eu1.vpn.example.com";
  port = 443;
  protocol = Protocol.vless;
  status = NodeStatus.active;
  priority = pos 10;
  weight = 100;
  health_score = 98;
  latency_ms = some 55;
  success_rate = 9900;
  last_check_at = none;
  health = NodeHealth.healthy;
  options = NodeOptions.vless (
      reality_options "00000000-0000-4000-8000-000000000001" "cdn.example.com"
        "mvpRealityPublicKey111111111111111111111111111" "a1b2c3d4" "VPN Router 1");
}

abbrev pub node_eu_2 : VpnNode
node_eu_2 = record {
  id = "node_eu_2";
  tag = "ss-eu-2";
  region = "eu-west";
  provider = "digitalocean";
  country_code = "NL";
  host = "eu2.vpn.example.com";
  port = 8443;
  protocol = Protocol.shadowsocks;
  status = NodeStatus.active;
  priority = pos 20;
  weight = 100;
  health_score = 92;
  latency_ms = some 70;
  success_rate = 9700;
  last_check_at = none;
  health = NodeHealth.healthy;
  options = NodeOptions.shadowsocks (record {
    method = "2022-blake3-aes-128-gcm";
    password = "replace-with-user-or-node-secret";
  });
}

abbrev pub node_us_1 : VpnNode
node_us_1 = record {
  id = "node_us_1";
  tag = "vless-us-1";
  region = "us-east";
  provider = "aws";
  country_code = "US";
  host = "us1.vpn.example.com";
  port = 443;
  protocol = Protocol.vless;
  status = NodeStatus.draining;
  priority = pos 30;
  weight = 100;
  health_score = 70;
  latency_ms = some 140;
  success_rate = 9200;
  last_check_at = none;
  health = NodeHealth.healthy;
  options = NodeOptions.vless (
      reality_options "00000000-0000-4000-8000-000000000003" "assets.example.com"
        "mvpRealityPublicKey222222222222222222222222222" "b2c3d4e5" "VPN Router 2");
}

abbrev pub node_bad_1 : VpnNode
node_bad_1 = record {
  id = "node_bad_1";
  tag = "vless-disabled";
  region = "asia";
  provider = "scaleway";
  country_code = "SG";
  host = "sg1.vpn.example.com";
  port = 443;
  protocol = Protocol.vless;
  status = NodeStatus.disabled;
  priority = pos 40;
  weight = 100;
  health_score = 10;
  latency_ms = some 350;
  success_rate = 1000;
  last_check_at = none;
  health = NodeHealth.disabled;
  options = NodeOptions.vless (
      reality_options "00000000-0000-4000-8000-000000000004" "assets.example.com"
        "mvpRealityPublicKey333333333333333333333333333" "c3d4e5f6" "VPN Router disabled");
}

abbrev pub demo_nodes : List VpnNode
demo_nodes = node_eu_1 ∷ node_eu_2 ∷ node_us_1 ∷ node_bad_1 ∷ []

-- An explicit list, even an empty one, stands in place of the demo nodes.
unfoldable pub seed_nodes : Option (List VpnNode) → Dict VpnNode
unfolding index_nodes
seed_nodes nodes = index_nodes [] (or_else nodes demo_nodes)

-- `InMemoryRepository(nodes)`
unfoldable pub new_repository : Option (List VpnNode) → Repo
unfolding seed_nodes
new_repository nodes = empty_repo (seed_nodes nodes)
