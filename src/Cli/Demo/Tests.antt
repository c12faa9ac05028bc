-- ===== src/Cli/Demo/Tests.antt =====
-- Options of `demo`, and the theorem at them.
use k_watch.Prelude.{ℕ, ◌≡◌, refl, Option, none, some, List, [], ◌∷◌, false, if◌then◌else◌, String}
use k_watch.Prelude.Text.{Text, codes}
use k_watch.Util.Numbers.{stoul}
use k_watch.Cli.Demo.{same_text, demo_config}
use k_watch.Cli.Demo.Safety.{IsSafe, overrides, demo_config-IsSafe}

-- two addresses, of which one is loopback
abbrev two_addresses : Text → Option ℕ
two_addresses s =
    if same_text s (codes "127.0.0.1")
    then some 0x0100007f
    else if same_text s (codes "10.0.0.1")
    then some 0x0100000a
    else none

abbrev options : List String
options = "--target" ∷ "127.0.0.1:8080" ∷ "--duration" ∷ "2s" ∷ "--rate" ∷ "50pps" ∷ []

demo_config_run :
    demo_config two_addresses options
    ≡ some (record {
      target_ip = codes "127.0.0.1";
      target_port = 8080;
      rate_pps = 50;
      duration_s = 2;
      override_safety = false;
    })
unfolding demo_config stoul
demo_config_run = refl

refused : demo_config two_addresses ("--target" ∷ "10.0.0.1" ∷ []) ≡ none
unfolding demo_config
refused = refl

demo_config-IsSafe_example :
    IsSafe two_addresses (overrides options) (demo_config two_addresses options)
demo_config-IsSafe_example = demo_config-IsSafe two_addresses options
