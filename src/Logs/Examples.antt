-- ===== src/Logs/Examples.antt =====
-- The log page at work (admin_ui_logs.js).
use gokapiplus.Base.Text.{Text, codes}
use gokapiplus.Base.{ℕ, zero, suc, ◌-◌, List, [], ◌∷◌}
use gokapiplus.Logs.Viewer.{Event, answered, failed, chosen}
use gokapiplus.Logs.Duration.{format_duration}
use gokapiplus.Logs.Duration.Nearest.{Shows, format_duration-Shows}

-- A log that gains one character in each second.
abbrev ticks : ℕ → Text
ticks zero = []
ticks (suc n) = 46 ∷ ticks n

abbrev news : ℕ → ℕ → Text
news time now = ticks (now - time)

abbrev visit : List Event
visit = answered 2 ∷ chosen (codes "all") ∷ failed ∷ answered 3 ∷ answered 5 ∷ []

format_duration-Shows_example : Shows 90061 (format_duration 90061)
format_duration-Shows_example = format_duration-Shows 90061
