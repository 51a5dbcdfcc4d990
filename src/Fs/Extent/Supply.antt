-- ===== src/Fs/Extent/Supply.antt =====
-- assignment-3/fs.c: how many blocks are free.
use cs_1217_operating_system.Base.{ℕ}
use cs_1217_operating_system.Base.Counting.{tally}
use cs_1217_operating_system.Fs.{Fs}
use cs_1217_operating_system.Fs.Allocation.{is_free}

abbrev pub supply : ℕ → Fs → ℕ
supply dev s = tally (is_free s dev) s.sb.size
