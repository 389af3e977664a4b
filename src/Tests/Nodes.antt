-- ===== src/Tests/Nodes.antt =====
-- The theorems at concrete inputs: the choice of nodes and the client configuration.
use vpp_wl_mobile.Prelude.{String, Option, none, some, [], ◌∷◌}
use vpp_wl_mobile.Prelude.Dict
use vpp_wl_mobile.Prelude.Int.{pos, ℤ}
use vpp_wl_mobile.Json.{Json}
use vpp_wl_mobile.NodeConfig.{Env}
use vpp_wl_mobile.Models.{VpnNode, Protocol, NodeStatus, NodeHealth, NodeOptions}

-- The variables of one node.
abbrev environment : Env
environment =
    ("VPN_NODE_2_HOST", "vpn.example")
    ∷ ("VPN_NODE_2_UUID", "uuid")
    ∷ ("VPN_NODE_2_PUBLIC_KEY", "key")
    ∷ ("VPN_NODE_2_SHORT_ID", "sid")
    ∷ ("VPN_NODE_2_SNI", "sni.example")
    ∷ []

abbrev same : String → String
same s = s

abbrev int_of : String → Option ℤ
int_of s = some (pos 20)

abbrev environment_node : VpnNode
environment_node = record {
  id = "node_env_2";
  tag = "vless-env-2";
  region = "unknown";
  provider = "env";
  country_code = "XX";
  host = "vpn.example";
  port = 20;
  protocol = Protocol.vless;
  status = NodeStatus.active;
  priority = pos 20;
  weight = 100;
  health_score = 100;
  latency_ms = none;
  success_rate = 10_000;
  last_check_at = none;
  health = NodeHealth.healthy;
  options = NodeOptions.vless (record {
    uuid = "uuid";
    server_name = "sni.example";
    flow = some "xtls-rprx-vision";
    transport = none;
    reality = none;
    security = "reality";
    public_key = some "key";
    short_id = some "sid";
    fingerprint = "chrome";
    label = some "VPN Node 2";
    raw_url = none;
    source = "manual";
    source_panel = none;
  });
}
