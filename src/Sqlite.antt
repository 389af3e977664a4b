-- ===== src/Sqlite.antt =====
-- backend/app/repositories/sqlite.py and its schema, backend/migrations/001_initial.sql: the tables
-- and how a row becomes an object. The methods and their proofs stand in the children.
pub mod Options
pub mod Rows
pub mod Tables
pub mod Users
pub mod Reads
pub mod Refined
pub mod Deleted
pub mod Events
pub mod Nodes
pub mod Stored
use vpp_wl_mobile.Prelude.{ℕ, String, Option, List}
use vpp_wl_mobile.Prelude.Int.{ℤ}
use vpp_wl_mobile.Json.{Json}
use vpp_wl_mobile.Errors.{Result, Error, Exec, raised}

-- What the repository uses of Python: `datetime.isoformat` in UTC and `datetime.fromisoformat`,
-- `json.dumps` with the separators "," and ":", the same with sorted keys, and `json.loads`.
pub record Library : Type 0 where
  pub to_text : ℕ → String
  pub from_text : String → Option ℕ
  pub dumps : Json → String
  pub dumps_sorted : Json → String
  pub loads : String → Option Json

pub record UserRow : Type 0 where
  pub id : String
  pub device_id : String
  pub created_at : String

pub record SubscriptionRow : Type 0 where
  pub user_id : String
  pub platform : String
  pub expires_at : String
  pub product_id : String
  pub original_transaction_id : String

pub record CommercialRow : Type 0 where
  pub token : String
  pub tariff_id : String
  pub status : String
  pub created_at : String
  pub updated_at : String
  pub expires_at : Option String
  pub payment_id : Option String

pub record NodeRow : Type 0 where
  pub id : String
  pub tag : String
  pub region : String
  pub provider : String
  pub country_code : String
  pub host : String
  pub port : ℕ
  pub protocol : String
  pub status : String
  pub priority : ℤ
  pub weight : ℕ
  pub health_score : ℕ
  pub latency_ms : Option ℕ
  pub success_rate : ℕ
  pub last_check_at : Option String
  pub health : String
  pub options_json : Option String

pub record EventRow : Type 0 where
  pub id : String
  pub node_id : String
  pub checked_at : String
  pub old_health : Option String
  pub new_health : String
  pub old_status : Option String
  pub new_status : String
  pub old_success_rate : Option ℕ
  pub new_success_rate : ℕ
  pub old_latency_ms : Option ℕ
  pub new_latency_ms : Option ℕ
  pub health_score : ℕ
  pub error : Option String

pub record AuditRow : Type 0 where
  pub id : String
  pub occurred_at : String
  pub action : String
  pub target_type : String
  pub target_id : String
  pub result : String
  pub details_json : String

-- The tables, each with its rows in the order in which they were inserted.
pub record Database : Type 0 where
  pub users : List UserRow
  pub subscriptions : List SubscriptionRow
  pub commercial_subscriptions : List CommercialRow
  pub nodes : List NodeRow
  pub node_health_events : List EventRow
  pub admin_audit_events : List AuditRow

abbrev pub Action : Type 0 → Type 0
Action A = Exec Database A
