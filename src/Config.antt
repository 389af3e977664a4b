-- ===== src/Config.antt =====
-- backend/app/domain/config_builder.py: the sing-box configuration of a client.
pub mod Rules
pub mod Validation
pub mod Accepted
pub mod Shape
use vpp_wl_mobile.Prelude.{
  ℕ, String, true, Option, none, some, List, [], ◌∷◌, ◌++◌, map, if◌then◌else◌, concat, is_empty,
}
use vpp_wl_mobile.Prelude.Dict.{Dict}
use vpp_wl_mobile.Json.{Json, str, bool, nat, object, obj, fields, array, texts}
use vpp_wl_mobile.Errors.{Result, ok, raised, value_error}
use vpp_wl_mobile.Errors.Chain.{◌>>=◌}
use vpp_wl_mobile.Models.{
  VpnNode, Protocol, NodeOptions, VlessOptions, ShadowsocksOptions, WireGuardOptions,
  Hysteria2Options,
}
use vpp_wl_mobile.Nodes.{sort_nodes_by_score}
use vpp_wl_mobile.Config.Rules.{RulesEngine, route_rules, dns_rules, remote_rule_sets}

-- `if value: outbound[key] = value`, at the end of the dict.
abbrev pub set_text : String → Option String → Dict Json
set_text key none = []
set_text key (some s) = if is_empty s then [] else (key, str s) ∷ []

abbrev pub set_dict : String → Option (Dict Json) → Dict Json
set_dict key none = []
set_dict key (some []) = []
set_dict key (some (e ∷ d)) = (key, object (e ∷ d)) ∷ []

abbrev pub set_numbers : String → Option (List ℕ) → Dict Json
set_numbers key none = []
set_numbers key (some []) = []
set_numbers key (some (n ∷ ns)) = (key, array (map nat (n ∷ ns))) ∷ []

-- The fields that every outbound of a node begins with.
abbrev pub outbound_head : String → VpnNode → Dict Json
outbound_head type node =
    ("type", str type)
    ∷ ("tag", str node.tag)
    ∷ ("server", str node.host)
    ∷ ("server_port", nat node.port)
    ∷ []

abbrev pub tls_fields : VlessOptions → Dict Json
tls_fields o =
    (("enabled", bool true)
      ∷ ("server_name", str o.server_name)
      ∷ ("alpn", texts ("h2" ∷ "http/1.1" ∷ []))
      ∷ [])
    ++ set_dict "reality" o.reality

abbrev pub vless_fields : VpnNode → VlessOptions → Dict Json
vless_fields node o =
    outbound_head "vless" node
    ++ (("uuid", str o.uuid)
        ∷ ("packet_encoding", str "xudp")
        ∷ ("tls", object (tls_fields o))
        ∷ [])
    ++ set_text "flow" o.flow
    ++ set_dict "transport" o.transport

abbrev pub requires : VpnNode → String → Result (Dict Json)
requires node what =
    raised (value_error (concat ("node " ∷ node.id ∷ " requires " ∷ what ∷ " options" ∷ [])))

unfoldable pub vless_outbound : VpnNode → NodeOptions → Result (Dict Json)
vless_outbound node (NodeOptions.vless o) = ok (vless_fields node o)
vless_outbound node _ = requires node "VLESS"

unfoldable pub shadowsocks_outbound : VpnNode → NodeOptions → Result (Dict Json)
shadowsocks_outbound node (NodeOptions.shadowsocks o) = ok (
    outbound_head "shadowsocks" node
    ++ ("method", str o.method) ∷ ("password", str o.password) ∷ [])
shadowsocks_outbound node _ = requires node "Shadowsocks"

unfoldable pub wireguard_outbound : VpnNode → NodeOptions → Result (Dict Json)
wireguard_outbound node (NodeOptions.wireguard o) = ok (
    outbound_head "wireguard" node
    ++ (("private_key", str o.private_key)
        ∷ ("peer_public_key", str o.peer_public_key)
        ∷ ("local_address", texts o.local_address)
        ∷ ("mtu", nat o.mtu)
        ∷ [])
    ++ set_numbers "reserved" o.reserved)
wireguard_outbound node _ = requires node "WireGuard"

unfoldable pub hysteria2_outbound : VpnNode → NodeOptions → Result (Dict Json)
hysteria2_outbound node (NodeOptions.hysteria2 o) = ok (
    outbound_head "hysteria2" node
    ++ ("password", str o.password)
      ∷ ("tls", object (("enabled", bool true) ∷ ("server_name", str o.server_name) ∷ []))
      ∷ [])
hysteria2_outbound node _ = requires node "Hysteria2"

-- `_node_to_outbound`, which hands the node's own protocol and options on.
unfoldable pub outbound_for : Protocol → NodeOptions → VpnNode → Result (Dict Json)
unfolding vless_outbound shadowsocks_outbound wireguard_outbound hysteria2_outbound concat
outbound_for Protocol.vless options node = vless_outbound node options
outbound_for Protocol.shadowsocks options node = shadowsocks_outbound node options
outbound_for Protocol.wireguard options node = wireguard_outbound node options
outbound_for Protocol.hysteria2 options node = hysteria2_outbound node options

unfoldable pub node_to_outbound : VpnNode → Result (Dict Json)
unfolding outbound_for
node_to_outbound node = outbound_for node.protocol node.options node

-- `[self._node_to_outbound(node) for node in usable_nodes]`
unfoldable pub proxy_outbounds : List VpnNode → Result (List (Dict Json))
unfolding node_to_outbound
proxy_outbounds [] = ok []
proxy_outbounds (node ∷ nodes) = do
  outbound ← node_to_outbound node
  rest ← proxy_outbounds nodes
  ok (outbound ∷ rest)

unfoldable pub dns_config : RulesEngine → Json
dns_config engine = object (
    (
      "servers",
      array (
          object (
            ("tag", str "ru-dns")
            ∷ ("address", str "https://77.88.8.8/dns-query")
            ∷ ("detour", str "direct")
            ∷ [])
          ∷ object (
              ("tag", str "remote-dns")
              ∷ ("address", str "https://1.1.1.1/dns-query")
              ∷ ("detour", str "auto")
              ∷ [])
          ∷ []),
    )
    ∷ ("rules", array (dns_rules engine "ru-dns"))
    ∷ ("final", str "remote-dns")
    ∷ ("strategy", str "prefer_ipv4")
    ∷ [])

unfoldable pub route_config : RulesEngine → Dict Json
route_config engine =
    ("rules", array (route_rules engine))
    ∷ ("rule_set", array (remote_rule_sets engine))
    ∷ ("final", str "auto")
    ∷ ("auto_detect_interface", bool true)
    ∷ []

abbrev pub tun_inbound : Json
tun_inbound = object (
    ("type", str "tun")
    ∷ ("tag", str "tun-in")
    ∷ ("interface_name", str "vpn0")
    ∷ ("address", texts ("172.19.0.1/30" ∷ "fdfe:dcba:9876::1/126" ∷ []))
    ∷ ("auto_route", bool true)
    ∷ ("strict_route", bool true)
    ∷ ("sniff", bool true)
    ∷ [])

abbrev pub auto_outbound : List String → Dict Json
auto_outbound tags =
    ("type", str "urltest")
    ∷ ("tag", str "auto")
    ∷ ("outbounds", texts tags)
    ∷ ("url", str "https://www.gstatic.com/generate_204")
    ∷ ("interval", str "1m")
    ∷ ("tolerance", nat 80)
    ∷ []

abbrev pub plain_outbound : String → Dict Json
plain_outbound name = ("type", str name) ∷ ("tag", str name) ∷ []

abbrev pub tag_of : VpnNode → String
tag_of node = node.tag

-- The outbounds; each outbound's tag is that of its node.
abbrev pub all_outbounds : List VpnNode → List (Dict Json) → List (Dict Json)
all_outbounds nodes proxies =
    auto_outbound (map tag_of nodes)
    ∷ (proxies ++ plain_outbound "direct" ∷ plain_outbound "block" ∷ [])

abbrev pub config_fields : RulesEngine → List VpnNode → List (Dict Json) → Dict Json
config_fields engine nodes proxies =
    ("log", object (("level", str "warn") ∷ ("timestamp", bool true) ∷ []))
    ∷ ("dns", dns_config engine)
    ∷ ("inbounds", array (tun_inbound ∷ []))
    ∷ ("outbounds", array (map object (all_outbounds nodes proxies)))
    ∷ ("route", object (route_config engine))
    ∷ []

abbrev pub build_for : RulesEngine → List VpnNode → Result (Dict Json)
build_for engine [] = raised (value_error "no usable VPN nodes available")
build_for engine (node ∷ nodes) = do
  proxies ← proxy_outbounds (node ∷ nodes)
  ok (config_fields engine (node ∷ nodes) proxies)

-- `ConfigBuilder(engine).build_client_config(nodes)`
unfoldable pub build_client_config : RulesEngine → List VpnNode → Result (Dict Json)
unfolding proxy_outbounds dns_config route_config
build_client_config engine nodes = build_for engine (sort_nodes_by_score nodes)
