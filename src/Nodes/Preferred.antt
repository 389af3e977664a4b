-- ===== src/Nodes/Preferred.antt =====
-- The nodes that a client is given are the best of the usable ones.
use vpp_wl_mobile.Prelude.{List}
