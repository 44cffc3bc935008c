-- ===== src/Logs/Viewer/Whole.antt =====
-- The log that the page has put together from its calls (admin_ui_logs.js).
use gokapiplus.Base.Text.{Text}
use gokapiplus.Logs.Viewer.{filter_logs, Viewer, Event, answered, failed, chosen}
use gokapiplus.Base.{ℕ, ◌≤◌, ◌<◌, ◌≡◌, List, [], ◌∷◌, ◌++◌}

-- The server's log at a time: it answers with all of it, or with what came since a time.
pub record Serves (log : ℕ → Text) (reply : ℕ → ℕ → Text) : Type 0 where
  pub whole : (now : ℕ) → reply 0 now ≡ log now
  pub since : (time now : ℕ) → 0 < time → time ≤ now → log time ++ reply time now ≡ log now

-- The clock of the server starts above 0 and does not go back.
abbrev pub InOrder : ℕ → List Event → Type 0
InOrder time [] = Unit
InOrder time (answered now ∷ es) = (0 < now) × (time ≤ now) × InOrder now es
InOrder time (failed ∷ es) = InOrder time es
InOrder time (chosen tag ∷ es) = InOrder time es

module _ (log : ℕ → Text) (reply : ℕ → ℕ → Text) (serves : Serves log reply) where
  -- After an answer the page holds the server's log of that time, and shows it filtered.
  abbrev Follows : Viewer → Type 0
  Follows v = 0 < v.last → (v.content ≡ log v.last) × (v.shown ≡ filter_logs v.tag v.content)
