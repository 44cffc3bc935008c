-- ===== src/Logs/Viewer.antt =====
-- The log and its filter: `filterLogs`, `loadLogs` and the calls that `pollInfo` makes of it
-- (admin_ui_logs.js). `allowScroll` and the scrolling are left out.
pub mod Whole
use gokapiplus.Base.Text.{Text, codes, same_text}
use gokapiplus.Base.Split.{split, join}
use gokapiplus.Base.{
  ℕ, zero, suc, Bool, true, false, ◌||◌, Option, none, some, List, [], ◌∷◌, ◌++◌, if◌then◌else◌,
  ◌==◌, ◌≡◌, refl,
}

abbrev pub newline : ℕ
newline = 10

unfoldable pub starts_with : Text → Text → Bool
starts_with s [] = true
starts_with [] (c ∷ p) = false
starts_with (a ∷ s) (c ∷ p) = if a == c then starts_with s p else false

-- `s.includes(part)`.
unfoldable pub includes : Text → Text → Bool
unfolding starts_with
includes [] part = starts_with [] part
includes (a ∷ s) part = starts_with (a ∷ s) part || includes s part

unfoldable pub lines_with : Text → List Text → List Text
unfolding includes
lines_with part [] = []
lines_with part (line ∷ lines) =
    let rest = lines_with part lines in if includes line part then line ∷ rest else rest

-- What `filterLogs` puts into the text area.
unfoldable pub filter_logs : Text → Text → Text
unfolding same_text lines_with split join
filter_logs tag content =
    if same_text tag (codes "all")
    then content
    else join newline (lines_with (codes "[" ++ tag ++ codes "]") (split newline content))

-- `lastLogUpdate`, `logContent`, the value of the text area and that of the filter.
pub record Viewer : Type 0 where
  pub last : ℕ
  pub content : Text
  pub shown : Text
  pub tag : Text

abbrev pub failure : Text
failure = codes "Impossible de charger les journaux. Voir la console pour le détail."

-- The answer to `apiLogGet`.
pub record Reply : Type 0 where
  pub timestamp : ℕ
  pub log_entries : Text

-- What is in the log from then on, for the time that was asked for and the new entries; `none` is
-- the early return.
unfoldable pub taken_over : ℕ → Text → Text → Option Text
taken_over zero content entries = some entries
taken_over (suc time) content [] = none
taken_over (suc time) content (c ∷ entries) = some (content ++ c ∷ entries)

unfoldable pub show_content : Viewer → Option Text → Viewer
unfolding filter_logs
show_content v none = v
show_content v (some content) = record v { content = content; shown = filter_logs v.tag content }

-- `loadLogs(lastLogUpdate)`; without a reply it failed.
unfoldable pub load_logs : Viewer → Option Reply → Viewer
unfolding taken_over show_content
load_logs v none = record v { last = 0; shown = failure }
load_logs v (some r) =
    show_content (record v { last = r.timestamp }) (taken_over v.last v.content r.log_entries)

-- The choice of another filter.
unfoldable pub choose_filter : Viewer → Text → Viewer
unfolding filter_logs
choose_filter v tag = record v { tag = tag; shown = filter_logs tag v.content }

-- What happens on the page: a call of `loadLogs` that the server answers at a time, one that
-- fails, and the choice of a filter.
pub data Event : Type 0 where
  answered : ℕ → Event
  failed : Event
  chosen : Text → Event

-- `reply since now` is what the server sends of its log at the time `now`.
module _ (reply : ℕ → ℕ → Text) where
  unfoldable pub step : Viewer → Event → Viewer
  unfolding load_logs choose_filter
  step v (answered now) =
      load_logs v (some (record { timestamp = now; log_entries = reply v.last now }))
  step v failed = load_logs v none
  step v (chosen tag) = choose_filter v tag

  unfoldable pub run : Viewer → List Event → Viewer
  unfolding step
  run v [] = v
  run v (e ∷ es) = run (step v e) es

abbrev pub opened : Text → Viewer
opened tag = record { last = 0; content = []; shown = []; tag = tag }
