-- ===== src/Links.antt =====
-- Links of the form vless://: backend/app/domain/vless_parser.py and v2ray_subscription.py.
pub mod Slug
pub mod Parser
pub mod Subscription
