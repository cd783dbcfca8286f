-- ===== src/System/Invariant.antt =====
-- The list and the cache stay consistent in every interleaving, and which steps do not fault.
use ltntstools.Housekeeping.Alike.{Alike}
use ltntstools.Keys.Rows.{Rows}
use ltntstools.System.{System}
