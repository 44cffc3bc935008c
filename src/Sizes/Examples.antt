-- ===== src/Sizes/Examples.antt =====
-- Sizes shown.
use gokapiplus.Base.{◌≡◌, arith}
use gokapiplus.Sizes.{get_readable_size, format_stat_bytes}
use gokapiplus.Sizes.Rounds.{format_stat_bytes_same}

format_stat_bytes_same_example : format_stat_bytes 1536 ≡ get_readable_size 1536
format_stat_bytes_same_example = format_stat_bytes_same 1536 (omega arith) (omega arith)
