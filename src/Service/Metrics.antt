-- ===== src/Service/Metrics.antt =====
-- `prometheus_metrics` of backend/app/api/service.py, for the repository in memory.
pub mod Total
use vpp_wl_mobile.Prelude.{
  ℕ, ◌+◌, String, Bool, ◌&&◌, List, [], ◌∷◌, ◌++◌, map, ◌==◌, eqb, if◌then◌else◌, length, keep,
  concat, decimal,
}
use vpp_wl_mobile.Prelude.Order.{ltb_text, lex}
use vpp_wl_mobile.Prelude.Sort.{sorted}
use Prim.Native.Char.{Char, code}
use vpp_wl_mobile.Links.Subscription.{lines}
use vpp_wl_mobile.Models.{VpnNode, protocol_value, status_value, health_value, is_usable}
use vpp_wl_mobile.Repository.{Repo}
use vpp_wl_mobile.Repository.Nodes.{list_nodes}
use vpp_wl_mobile.Repository.Events.{
  Counts, count_node_health_events_by_result, count_admin_audit_events,
}

-- A region, a protocol, a status and a health, with the number of the nodes that have them.
pub record Group : Type 0 where
  pub region : String
  pub protocol : String
  pub status : String
  pub health : String
  pub size : ℕ

-- The key of a node, of which there is one so far.
unfoldable pub group_of : VpnNode → Group
unfolding protocol_value status_value health_value
group_of node = record {
  region = node.region;
  protocol = protocol_value node.protocol;
  status = status_value node.status;
  health = health_value node.health;
  size = 1;
}

abbrev pub same_key : Group → Group → Bool
same_key g h =
    g.region == h.region && g.protocol == h.protocol && g.status == h.status && g.health == h.health

-- `node_groups[key] = node_groups.get(key, 0) + 1`
unfoldable pub add_group : Group → List Group → List Group
add_group g [] = g ∷ []
add_group g (h ∷ groups) =
    if same_key h g then record h { size = h.size + g.size } ∷ groups else h ∷ add_group g groups

unfoldable pub add_nodes : List VpnNode → List Group → List Group
unfolding add_group group_of
add_nodes [] groups = groups
add_nodes (node ∷ nodes) groups = add_nodes nodes (add_group (group_of node) groups)

unfoldable pub node_groups : List VpnNode → List Group
unfolding add_nodes
node_groups nodes = add_nodes nodes []

-- The order of the keys.
abbrev pub group_before : Group → Group → Bool
group_before =
    lex (λ g h. ltb_text g.region h.region)
      (lex (λ g h. ltb_text g.protocol h.protocol)
        (lex (λ g h. ltb_text g.status h.status) (λ g h. ltb_text g.health h.health)))

abbrev escaped_character : Char → String
escaped_character c =
    if eqb (code c) 92
    then "\\\\"
    else if eqb (code c) 34
    then "\\\""
    else if eqb (code c) 10
    then "\\n"
    else String.◌∷◌ c String.[]

-- `_metric_escape`
unfoldable pub metric_escape : String → String
unfolding concat
metric_escape String.[] = String.[]
metric_escape (String.◌∷◌ c s) = concat (escaped_character c ∷ metric_escape s ∷ [])

unfoldable pub group_line : Group → String
unfolding metric_escape concat decimal
group_line g = concat (
    "vpn_router_nodes_total{region=\""
    ∷ metric_escape g.region
    ∷ "\",protocol=\""
    ∷ g.protocol
    ∷ "\",status=\""
    ∷ g.status
    ∷ "\",health=\""
    ∷ g.health
    ∷ "\"} "
    ∷ decimal g.size
    ∷ [])

-- `_repository_backend_name`, for `InMemoryRepository`.
abbrev pub backend_name : String
backend_name = "memory"

unfoldable pub head_lines : List String
unfolding metric_escape concat
head_lines =
    "# HELP vpn_router_info Static VPN Router backend info."
    ∷ "# TYPE vpn_router_info gauge"
    ∷ "vpn_router_info{version=\"0.1.0\",config_format=\"sing-box\"} 1"
    ∷ "# HELP vpn_router_repository_info Repository backend type."
    ∷ "# TYPE vpn_router_repository_info gauge"
    ∷ concat ("vpn_router_repository_info{backend=\"" ∷ metric_escape backend_name ∷ "\"} 1" ∷ [])
    ∷ "# HELP vpn_router_nodes_total VPN nodes grouped by non-sensitive routing metadata."
    ∷ "# TYPE vpn_router_nodes_total gauge"
    ∷ []

-- The lines behind those of the groups.
unfoldable pub tail_lines : ℕ → Counts → ℕ → List String
unfolding concat decimal
tail_lines usable counts audited =
    "# HELP vpn_router_usable_nodes Currently usable VPN nodes."
    ∷ "# TYPE vpn_router_usable_nodes gauge"
    ∷ concat ("vpn_router_usable_nodes " ∷ decimal usable ∷ [])
    ∷ "# HELP vpn_router_node_health_events_retained Retained node health audit events grouped by probe result."
    ∷ "# TYPE vpn_router_node_health_events_retained gauge"
    ∷ concat (
        "vpn_router_node_health_events_retained{result=\"success\"} " ∷ decimal counts.success ∷ [])
    ∷ concat (
        "vpn_router_node_health_events_retained{result=\"failure\"} " ∷ decimal counts.failure ∷ [])
    ∷ "# HELP vpn_router_admin_audit_events_retained Retained admin audit events."
    ∷ "# TYPE vpn_router_admin_audit_events_retained gauge"
    ∷ concat ("vpn_router_admin_audit_events_retained " ∷ decimal audited ∷ [])
    ∷ []

-- The groups as they are shown.
unfoldable pub shown_groups : Repo → List Group
unfolding list_nodes sorted node_groups
shown_groups r = sorted group_before (node_groups (list_nodes r))

unfoldable pub prometheus_metrics : Repo → String
unfolding lines head_lines tail_lines shown_groups group_line list_nodes is_usable
    count_node_health_events_by_result count_admin_audit_events
prometheus_metrics r = lines (
    head_lines
    ++ map group_line (shown_groups r)
    ++ tail_lines (length (keep is_usable (list_nodes r))) (count_node_health_events_by_result r)
        (count_admin_audit_events r))
