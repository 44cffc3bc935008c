-- ===== src/Stats/Examples.antt =====
-- A table with two rows.
use gokapiplus.Base.{◌≡◌, refl, true, none, some, List, [], ◌∷◌}
use gokapiplus.Base.Int.{pos, negsuc}
use gokapiplus.Stats.{Row, number, refresh_admin_stats}
use gokapiplus.Stats.Settled.{refresh_admin_stats_settled}

abbrev soon : Row
soon = record {
  size = some 10;
  downloads = some 1;
  expire = some 2000;
  remaining = number (pos 1);
  has_status_cell = true;
  status = none;
}

abbrev two_rows : List Row
two_rows = soon ∷ record soon { expire = none; remaining = number (negsuc 0) } ∷ []

two_rows_written : (refresh_admin_stats 1000 two_rows).writes ≡ 2
unfolding refresh_admin_stats
two_rows_written = refl

refresh_admin_stats_settled_example :
    ((refresh_admin_stats 1000 (refresh_admin_stats 1000 two_rows).rows).rows
      ≡ (refresh_admin_stats 1000 two_rows).rows)
    × ((refresh_admin_stats 1000 (refresh_admin_stats 1000 two_rows).rows).writes ≡ 0)
refresh_admin_stats_settled_example = refresh_admin_stats_settled 1000 two_rows
