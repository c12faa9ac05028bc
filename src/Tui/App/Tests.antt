-- ===== src/Tui/App/Tests.antt =====
-- The firewall view with one row, and numbers typed in the view of the demos.
use k_watch.Prelude.{ℕ, ◌≡◌, refl, Option, none, [], ◌∷◌, ◌++◌}
use k_watch.Prelude.Text.{Text, codes}
use k_watch.Util.Numbers.{to_string}
use k_watch.Bpf.UserMap.LpmTrie.LpmList.{lpm_list}
use k_watch.Tui.App.{App, firewall, demos, FirewallRow, new}
use k_watch.Tui.App.Settings.{after_key, handle_input-settings}

abbrev no_address : Text → Option ℕ
no_address t = none

abbrev no_text : ℕ → Option Text
no_text a = none

abbrev only_row : FirewallRow
only_row = record { prefixlen = 32; ip = 5; age_s = 0; drop_count = 0 }

abbrev app : App
app = record new { current_view = firewall }

abbrev in_demos : App
in_demos = record new { current_view = demos }

handle_input-settings_example :
    (after_key lpm_list no_address b'o' (to_string 70000) [] in_demos [] ≡ in_demos)
    × (after_key lpm_list no_address b'r' (to_string 70000) [] in_demos []
        ≡ record in_demos { demo_cfg = record in_demos.demo_cfg { rate_pps = 70000 } })
    × (after_key lpm_list no_address b'd' (to_string 70000) [] in_demos []
        ≡ record in_demos { demo_cfg = record in_demos.demo_cfg { duration_s = 70000 } })
    × ((after_key lpm_list no_address b's' [] [] in_demos []).launched
        ≡ [] ++ ((codes "syn-flood", in_demos.demo_cfg) ∷ []))
handle_input-settings_example = handle_input-settings lpm_list no_address 70000 [] in_demos [] refl
