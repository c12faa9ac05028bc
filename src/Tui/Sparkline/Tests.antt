-- ===== src/Tui/Sparkline/Tests.antt =====
-- Three values in two columns.
use k_watch.Prelude.{◌≡◌, refl, [], ◌∷◌}
use k_watch.Tui.Sparkline.{render_sparkline}

two_columns : render_sparkline (9 ∷ 4 ∷ 8 ∷ []) 2 ≡ "▄" ∷ "█" ∷ []
unfolding render_sparkline
two_columns = refl
