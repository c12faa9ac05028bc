-- ===== src/Tui/App/Settings.antt =====
-- The settings that are typed in the view `demos`.
use k_watch.Prelude.{
  ℕ, ◌^◌, ◌≡◌, ◌≢◌, refl, ap, Option, none, some, List, [], ◌∷◌, ◌++◌, Bool, true, false, ltb,
  if◌then◌else◌, arith, Bool-cases, inl, inr,
}
use k_watch.Prelude.Text.{Text, codes}
use k_watch.Util.Numbers.{to_string}
use k_watch.Util.Numbers.RoundTrip.{stoul-to_string, stoul-to_string_above, to_string-ne-nil}
use k_watch.Bpf.UserMap.{UserMap}
use k_watch.Cli.Blacklist.{LpmKey}
use k_watch.Cli.Demo.{DemoConfig, is_empty}
use k_watch.Tui.App.{
  App, demos, FirewallRow, char, parse_u32_input, parse_u16_input, launch_demo, if_some,
  demos_input, view_of, view_input, handle_input,
}

not_empty : (s : Text) → s ≢ [] → is_empty s ≡ false
not_empty [] h = absurd (h refl)
not_empty (c ∷ s) h = refl

is_empty-to_string : (n : ℕ) → is_empty (to_string n) ≡ false
is_empty-to_string n = not_empty (to_string n) (to_string-ne-nil n)

-- A number in decimal is taken exactly where it has 32 bits.
parse_u32_input-to_string :
    (n : ℕ) → parse_u32_input (to_string n) ≡ (if ltb n (2 ^ 32) then some n else none)
unfolding parse_u32_input
parse_u32_input-to_string n = elim (Bool-cases (ltb n (2 ^ 64))) [
  | inl h ↦
      rw (parse_u32_input, is_empty-to_string n, stoul-to_string n (ground (arith, h)))
        (ground arith)
  | inr h ↦
      rw (parse_u32_input, is_empty-to_string n, stoul-to_string_above n (ground (arith, h)))
        (ground (arith, h))
]

parse_u16_input-to_string :
    (n : ℕ) → parse_u16_input (to_string n) ≡ (if ltb n (2 ^ 16) then some n else none)
unfolding parse_u16_input
parse_u16_input-to_string n = ground (arith, parse_u32_input-to_string n)

if_some-typed :
    (set : ℕ → DemoConfig) (cfg : DemoConfig) (b : Bool) (n : ℕ)
    → if_some set cfg (if b then some n else none) ≡ (if b then set n else cfg)
if_some-typed set cfg true n = refl
if_some-typed set cfg false n = refl

module _ (u : UserMap LpmKey ℕ) (inet_pton : Text → Option ℕ) where
  -- the object behind a key of the view
  abbrev pub after_key : ℕ → Text → List FirewallRow → App → u.Map → App
  after_key ch typed rows a m = (handle_input u inet_pton (char ch) typed rows a m).0

  -- In the view of the demos: a number that is typed in decimal becomes the port exactly if it has
  -- 16 bits, and the rate or the duration exactly if it has 32 bits, and else the setting is kept,
  -- with all else of the object; and the key s launches syn-flood with exactly the settings as
  -- they are.
  pub handle_input-settings :
      (n : ℕ) (rows : List FirewallRow) (a : App) (m : u.Map)
      → a.current_view ≡ demos
      → let cfg = a.demo_cfg in
        (after_key b'o' (to_string n) rows a m
          ≡ record a { demo_cfg = if ltb n (2 ^ 16) then record cfg { target_port = n } else cfg })
        × (after_key b'r' (to_string n) rows a m
            ≡ record a { demo_cfg = if ltb n (2 ^ 32) then record cfg { rate_pps = n } else cfg })
        × (after_key b'd' (to_string n) rows a m
            ≡ record a { demo_cfg = if ltb n (2 ^ 32) then record cfg { duration_s = n } else cfg })
        × ((after_key b's' [] rows a m).launched ≡ a.launched ++ ((codes "syn-flood", cfg) ∷ []))
  unfolding handle_input view_of view_input demos_input launch_demo
  handle_input-settings n rows a m e = (
    rw (handle_input, view_of, view_input, e, parse_u16_input-to_string n)
        (ap (λ cfg. record a { current_view = demos; demo_cfg = cfg })
          (if_some-typed (λ n. record a.demo_cfg { target_port = n }) a.demo_cfg (ltb n (2 ^ 16))
            n)),
    rw (handle_input, view_of, view_input, e, parse_u32_input-to_string n)
        (ap (λ cfg. record a { current_view = demos; demo_cfg = cfg })
          (if_some-typed (λ n. record a.demo_cfg { rate_pps = n }) a.demo_cfg (ltb n (2 ^ 32)) n)),
    rw (handle_input, view_of, view_input, e, parse_u32_input-to_string n)
        (ap (λ cfg. record a { current_view = demos; demo_cfg = cfg })
          (if_some-typed (λ n. record a.demo_cfg { duration_s = n }) a.demo_cfg (ltb n (2 ^ 32))
            n)),
    rw (handle_input, view_of, view_input, e) refl,
  )
