-- ===== src/Indicators/Drawdown.antt =====
-- The largest drawdown of a series.
use btrader.Double.{Double}
