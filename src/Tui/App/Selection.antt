-- ===== src/Tui/App/Selection.antt =====
-- The row that the view `firewall` marks, and the row that the key `d` deletes.
use k_watch.Prelude.Text.{Text}
use k_watch.Bpf.UserMap.{UserMap}
use k_watch.Tui.App.{App}
