-- ===== src/Store/History/Gapless.antt =====
-- The event numbers over whole histories.
use cloud_swe.Base.{List}
use cloud_swe.Store.Schema.{Db}
use cloud_swe.Store.Log.Sequence.{IsGapless}
use cloud_swe.Store.Log.Steps.{GapFree-Writes}
use cloud_swe.Store.Steps.Calls.{history-Keeps}
use cloud_swe.Store.History.{Call, history}

-- After any history that began with numbers that have no gap, each thread that is left has its events
-- numbered 1, 2, 3, … up to its `eventSequence`, and an id that was not given yet names no thread and
-- no event.
pub history-IsGapless : (d : Db) (cs : List Call) → IsGapless d → IsGapless (history d cs)
history-IsGapless = history-Keeps GapFree-Writes
