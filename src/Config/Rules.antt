-- ===== src/Config/Rules.antt =====
-- backend/app/domain/rules_engine.py
use vpp_wl_mobile.Prelude.{String, List, [], ◌∷◌, ◌++◌, map, concat}
use vpp_wl_mobile.Json.{Json, str, object, texts}

abbrev pub rule_set_version : String
rule_set_version = "v2026.06.12"

abbrev pub rule_set_base_url : String
rule_set_base_url = "https://rules.vpn.example.com/sing-box"

pub record RuleSetArtifact : Type 0 where
  pub tag : String
  pub filename : String
  pub sha256 : String
  pub version : String
  pub format : String
  pub download_detour : String
  pub update_interval : String

unfoldable pub to_remote_rule_set : RuleSetArtifact → Json
unfolding concat
to_remote_rule_set a = object (
    ("tag", str a.tag)
    ∷ ("type", str "remote")
    ∷ ("format", str a.format)
    ∷ (
      "url",
      str (
          concat
            (rule_set_base_url ∷ "/" ∷ a.version ∷ "/" ∷ a.filename ∷ "?sha256=" ∷ a.sha256 ∷ [])),
    )
    ∷ ("download_detour", str a.download_detour)
    ∷ ("update_interval", str a.update_interval)
    ∷ [])

pub record RuleCategory : Type 0 where
  pub name : String
  pub domains : List String
  pub domain_suffixes : List String
  pub rule_sets : List String
  pub outbound : String

-- `if values: rules.append({key: values, target_key: target})`
abbrev pub rule_if : String → List String → String → String → List Json
rule_if key [] target_key target = []
rule_if key (v ∷ vs) target_key target =
    object ((key, texts (v ∷ vs)) ∷ (target_key, str target) ∷ []) ∷ []

unfoldable pub to_route_rules : RuleCategory → List Json
to_route_rules c =
    rule_if "domain_suffix" c.domain_suffixes "outbound" c.outbound
    ++ (rule_if "domain" c.domains "outbound" c.outbound
        ++ rule_if "rule_set" c.rule_sets "outbound" c.outbound)

unfoldable pub to_dns_rules : RuleCategory → String → List Json
to_dns_rules c server =
    rule_if "domain_suffix" c.domain_suffixes "server" server
    ++ rule_if "domain" c.domains "server" server

pub record RulesEngine : Type 0 where
  pub direct : RuleCategory
  pub proxy : RuleCategory
  pub remote_rule_set_artifacts : List RuleSetArtifact

unfoldable pub remote_rule_sets : RulesEngine → List Json
unfolding to_remote_rule_set
remote_rule_sets engine = map to_remote_rule_set engine.remote_rule_set_artifacts

abbrev pub protocol_rule : Json
protocol_rule = object (("protocol", str "dns") ∷ ("outbound", str "direct") ∷ [])

unfoldable pub route_rules : RulesEngine → List Json
unfolding to_route_rules
route_rules engine = protocol_rule ∷ (to_route_rules engine.direct ++ to_route_rules engine.proxy)

unfoldable pub dns_rules : RulesEngine → String → List Json
unfolding to_dns_rules
dns_rules engine direct_server = to_dns_rules engine.direct direct_server

abbrev pub default_direct : RuleCategory
default_direct = record {
  name = "direct";
  domains =
      "gosuslugi.ru" ∷ "nalog.gov.ru" ∷ "cbr.ru" ∷ "mos.ru" ∷ "esia.gosuslugi.ru" ∷ "sberbank.ru"
      ∷ "sber.ru" ∷ "vtb.ru" ∷ "tbank.ru" ∷ "tinkoff.ru" ∷ "alfabank.ru" ∷ "gazprombank.ru"
      ∷ "raiffeisen.ru" ∷ "pochtabank.ru" ∷ "yandex.ru" ∷ "ya.ru" ∷ "vk.com" ∷ "vk.ru" ∷ "mail.ru"
      ∷ "ok.ru" ∷ "ozon.ru" ∷ "wildberries.ru" ∷ "wb.ru" ∷ "avito.ru" ∷ [];
  domain_suffixes = "ru" ∷ "su" ∷ "рф" ∷ "xn--p1ai" ∷ [];
  rule_sets = "geosite-ru" ∷ "geoip-ru" ∷ [];
  outbound = "direct";
}

abbrev pub default_proxy : RuleCategory
default_proxy = record {
  name = "proxy";
  domains =
      "telegram.org" ∷ "t.me" ∷ "instagram.com" ∷ "cdninstagram.com" ∷ "youtube.com" ∷ "youtu.be"
      ∷ "googlevideo.com" ∷ "openai.com" ∷ "chatgpt.com" ∷ "x.com" ∷ "twitter.com" ∷ "discord.com"
      ∷ "discord.gg" ∷ "github.com" ∷ "githubusercontent.com" ∷ [];
  domain_suffixes = [];
  rule_sets = [];
  outbound = "auto";
}

abbrev pub artifact : String → String → String → RuleSetArtifact
artifact tag filename sha256 = record {
  tag = tag;
  filename = filename;
  sha256 = sha256;
  version = rule_set_version;
  format = "binary";
  download_detour = "direct";
  update_interval = "24h";
}

abbrev pub default_remote_rule_set_artifacts : List RuleSetArtifact
default_remote_rule_set_artifacts =
    artifact "geosite-ru" "geosite-ru.srs"
      "1111111111111111111111111111111111111111111111111111111111111111"
    ∷ artifact "geoip-ru" "geoip-ru.srs"
        "2222222222222222222222222222222222222222222222222222222222222222"
    ∷ []

abbrev pub default_engine : RulesEngine
default_engine = record {
  direct = default_direct;
  proxy = default_proxy;
  remote_rule_set_artifacts = default_remote_rule_set_artifacts;
}
