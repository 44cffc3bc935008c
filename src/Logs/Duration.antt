-- ===== src/Logs/Duration.antt =====
-- How long the server has been running: `formatDuration` and `addUptime` (admin_ui_logs.js).
pub mod Nearest
use gokapiplus.Base.Text.{Text, codes, same_text}
use gokapiplus.Base.Decimal.{decimal}
use gokapiplus.Base.{
  ℕ, zero, suc, ◌+◌, ◌/◌, ◌%◌, Bool, true, false, Option, none, some, List, [], ◌∷◌, ◌++◌, leb, ltb,
  if◌then◌else◌, ◌≡◌, refl, get_elem?,
}

pub record TimeUnit : Type 0 where
  pub label : Text
  pub value : ℕ

abbrev pub unit : Text → ℕ → TimeUnit
unit label value = record { label = label; value = value }

abbrev pub units : List TimeUnit
units =
    unit (codes "y") 31536000
    ∷ unit (codes "d") 86400
    ∷ unit (codes "h") 3600
    ∷ unit (codes "m") 60
    ∷ unit (codes "s") 1
    ∷ []

-- `units.findIndex(unit => seconds >= unit.value)`, with `none` for -1.
unfoldable pub find_unit : ℕ → ℕ → List TimeUnit → Option ℕ
find_unit seconds i [] = none
find_unit seconds i (u ∷ us) =
    let rest = find_unit seconds (suc i) us in if leb u.value seconds then some i else rest

abbrev pub at_minutes : ℕ
at_minutes = 3

abbrev pub label_at : ℕ → Text
label_at i = elim (get_elem? units i) [ none ↦ [] | some u ↦ u.label ]

-- Below a minute it starts at minutes.
unfoldable pub start_index : Option ℕ → ℕ
unfolding same_text
start_index none = at_minutes
start_index (some i) = if same_text (label_at i) (codes "s") then at_minutes else i

unfoldable pub amounts : ℕ → Option TimeUnit → Option TimeUnit → Text
amounts seconds (some first) (some second) =
    decimal (seconds / first.value)
    ++ first.label
    ++ codes " "
    ++ decimal (seconds % first.value / second.value)
    ++ second.label
amounts seconds _ _ = []

unfoldable pub format_duration : ℕ → Text
unfolding find_unit start_index amounts
format_duration seconds =
    let i = start_index (find_unit seconds 0 units) in
    amounts seconds (get_elem? units i) (get_elem? units (suc i))

-- `currentUptime` and the text on the page.
pub record Uptime : Type 0 where
  pub current : ℕ
  pub shown : Text

-- What one timer of `addUptime` does: `none` is the return above an hour, which ends the chain.
unfoldable pub add_uptime : Uptime → Option Uptime
unfolding format_duration
add_uptime u =
    if ltb 3600 u.current
    then none
    else some (record { current = suc u.current; shown = format_duration (suc u.current) })

runs : format_duration 90061 ≡ codes "1d 1h"
unfolding format_duration same_text decimal
runs = refl
