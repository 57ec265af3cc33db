-- ===== src/Http.antt =====
-- bridge/src/prom/http: the pages of the bridge.
pub mod Access
pub mod StatsJson
