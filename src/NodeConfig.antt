-- ===== src/NodeConfig.antt =====
-- backend/app/domain/node_config.py: the nodes that the environment describes. `int` of a text,
-- `str.lower` and `repr` of a text are parameters.
pub mod Servable
pub mod Raised
use vpp_wl_mobile.Prelude.{
  ℕ, ◌*◌, String, Bool, true, false, not, ◌&&◌, Option, none, some, List, [], ◌∷◌, if◌then◌else◌,
  or_else, concat, is_empty, or_text, decimal, strip,
}
use vpp_wl_mobile.Prelude.Dict
use vpp_wl_mobile.Prelude.Int.{pos_part, pos, leb_ℤ, ℤ}
use vpp_wl_mobile.Errors.{value_error, Error, ok, raised, Result}
use vpp_wl_mobile.Config.Validation.{contains}
use vpp_wl_mobile.Errors.Chain.{◌>>=◌, ◌>>◌, fail_if, or_fail}
use vpp_wl_mobile.Models.{VpnNode, NodeOptions, Protocol, NodeStatus, NodeHealth}

abbrev pub Env : Type 0
Env = Dict.Dict String

-- `VPN_NODE_{n}_` before the name of a variable.
abbrev pub variable : ℕ → String → String
variable n name = concat ("VPN_NODE_" ∷ decimal n ∷ "_" ∷ name ∷ [])

-- `env.get(f"{prefix}{name}", default).strip()`
unfoldable pub setting : Env → ℕ → String → String → String
unfolding strip concat decimal
setting env n name default = strip (or_else (Dict.get (variable n name) env) default)

abbrev pub missing : {A : Type 0} → ℕ → String → Result A
missing n name = raised (
    value_error
      (concat (variable n name ∷ " is required when " ∷ variable n "HOST" ∷ " is set" ∷ [])))

-- A text that must not be empty.
unfoldable pub required : Env → ℕ → String → Result String
unfolding setting is_empty concat decimal
required env n name =
    if is_empty (setting env n name "") then missing n name else ok (setting env n name "")

-- The truth of an `ENABLED` text.
abbrev pub enabled_of : String → Option Bool
enabled_of s =
    if contains s ("1" ∷ "true" ∷ "yes" ∷ "on" ∷ [])
    then some true
    else if contains s ("0" ∷ "false" ∷ "no" ∷ "off" ∷ [])
    then some false
    else none

-- The tag of the node of a number.
unfoldable pub env_tag : ℕ → String
unfolding concat decimal
env_tag n = concat ("vless-env-" ∷ decimal n ∷ [])

-- `range(1, _MAX_NODES + 1)`
abbrev pub node_numbers : List ℕ
node_numbers = 1 ∷ 2 ∷ 3 ∷ 4 ∷ 5 ∷ 6 ∷ 7 ∷ 8 ∷ 9 ∷ 10 ∷ []

module _ (int_of : String → Option ℤ) (lower text_repr : String → String) where
  abbrev pub wrong : ℕ → String → String → String → Error
  wrong n name rule raw =
      value_error (concat (variable n name ∷ " must be " ∷ rule ∷ ", got " ∷ text_repr raw ∷ []))

  -- The body of the loop for a number whose host is given.
  unfoldable pub node_at : Env → ℕ → String → Result VpnNode
  unfolding setting required env_tag or_text concat decimal is_empty
  node_at env n host = do
    let port_raw = setting env n "PORT" "443"
    port ← or_fail (int_of port_raw) (wrong n "PORT" "an integer" port_raw)
    fail_if (not (leb_ℤ (pos 1) port && leb_ℤ port (pos 65_535)))
        (value_error (concat (variable n "PORT" ∷ " must be between 1 and 65535" ∷ [])))
    uuid ← required env n "UUID"
    public_key ← required env n "PUBLIC_KEY"
    short_id ← required env n "SHORT_ID"
    sni ← required env n "SNI"
    let flow = setting env n "FLOW" "xtls-rprx-vision"
    let fallback_label = concat ("VPN Node " ∷ decimal n ∷ [])
    let priority_raw = setting env n "PRIORITY" (decimal (n * 10))
    priority ← or_fail (int_of priority_raw) (wrong n "PRIORITY" "an integer" priority_raw)
    let enabled_raw = lower (setting env n "ENABLED" "true")
    enabled ← or_fail (enabled_of enabled_raw) (wrong n "ENABLED" "true or false" enabled_raw)
    ok (record {
      id = concat ("node_env_" ∷ decimal n ∷ []);
      tag = env_tag n;
      region = or_text (setting env n "REGION" "unknown") "unknown";
      provider = "env";
      country_code = or_text (setting env n "COUNTRY_CODE" "XX") "XX";
      host = host;
      port = pos_part port;
      protocol = Protocol.vless;
      status = (if enabled then NodeStatus.active else NodeStatus.disabled);
      priority = priority;
      weight = 100;
      health_score = 100;
      latency_ms = none;
      success_rate = 10_000;
      last_check_at = none;
      health = (if enabled then NodeHealth.healthy else NodeHealth.disabled);
      options = NodeOptions.vless (record {
        uuid = uuid;
        server_name = sni;
        flow = (if is_empty flow then none else some flow);
        transport = none;
        reality = none;
        security = "reality";
        public_key = some public_key;
        short_id = some short_id;
        fingerprint = or_text (setting env n "FINGERPRINT" "chrome") "chrome";
        label = some (or_text (setting env n "LABEL" fallback_label) fallback_label);
        raw_url = none;
        source = "manual";
        source_panel = none;
      });
    })

  -- The loop; a number without a host is passed over.
  unfoldable pub parse_numbers : Env → List ℕ → Result (List VpnNode)
  unfolding setting node_at is_empty
  parse_numbers env [] = ok []
  parse_numbers env (n ∷ numbers) =
      let host = setting env n "HOST" "" in
      let rest = parse_numbers env numbers in
      if is_empty host
      then rest
      else (do node ← node_at env n host; nodes ← rest; ok (node ∷ nodes))

  unfoldable pub parse_nodes_from_env : Env → Result (List VpnNode)
  unfolding parse_numbers
  parse_nodes_from_env env = parse_numbers env node_numbers
