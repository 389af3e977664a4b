-- ===== src/Repository.antt =====
-- `InMemoryRepository` of backend/app/repositories/memory.py: its fields. The methods and their
-- proofs stand in the children. The clock and the random identifiers are arguments.
pub mod Users
pub mod Commercial
pub mod Nodes
pub mod Events
use vpp_wl_mobile.Prelude.{ℕ, String, List, []}
use vpp_wl_mobile.Prelude.Dict.{Dict}
use vpp_wl_mobile.Models.{
  User, Subscription, CommercialSubscription, VpnNode, NodeHealthEvent, AdminAuditEvent,
}

pub record Repo : Type 0 where
  pub users_by_id : Dict User
  pub users_by_device_id : Dict String
  pub subscriptions_by_user_id : Dict Subscription
  pub commercial_subscriptions_by_token : Dict CommercialSubscription
  pub nodes_by_id : Dict VpnNode
  pub health_events_by_node_id : Dict (List NodeHealthEvent)
  pub admin_audit_events : List AdminAuditEvent

-- `__init__`, for the nodes that `_seed_nodes` has chosen.
abbrev pub empty_repo : Dict VpnNode → Repo
empty_repo nodes = record {
  users_by_id = [];
  users_by_device_id = [];
  subscriptions_by_user_id = [];
  commercial_subscriptions_by_token = [];
  nodes_by_id = nodes;
  health_events_by_node_id = [];
  admin_audit_events = [];
}

-- One day of a `timedelta`, and one minute, in microseconds.
abbrev pub day : ℕ
day = 86_400_000_000

abbrev pub minute : ℕ
minute = 60_000_000

-- A `datetime` counts from `datetime.min`. This is `datetime.max`; a sum past it raises `OverflowError`, and so does a `timedelta` of more days than
-- `timedelta.max` has.
abbrev pub max_datetime : ℕ
max_datetime = 315_537_897_599_999_999

abbrev pub max_timedelta_days : ℕ
max_timedelta_days = 999_999_999
