-- ===== src/Tui/App.antt =====
-- src/tui/app.h and the input of src/tui/app.cpp: the views, the keys and the demos that they launch.
-- The keys and the texts typed at a prompt are input, and `inet_pton` is a parameter.
pub mod Render
pub mod Selection
pub mod Settings
mod Tests
use k_watch.Prelude.{
  ℕ, suc, ◌+◌, ◌-◌, ◌%◌, ◌^◌, Option, none, some, List, [], ◌∷◌, ◌++◌, Bool, true, false, not, ◌&&◌,
  ◌||◌, ltb, ◌==◌, if◌then◌else◌, length, get_elem?,
}
use k_watch.Prelude.Text.{Text, codes}
use k_watch.Util.Result.{Result, ok, err}
use k_watch.Util.Numbers.{stoul}
use k_watch.Util.Ipv4.{parse_cidr}
use k_watch.Bpf.UserMap.{UserMap}
use k_watch.Cli.Blacklist.{LpmKey}
use k_watch.Cli.Demo.{DemoConfig, is_empty}

pub data View : Type 0 where
  dashboard threats firewall demos : View

pub record ThreatRow : Type 0 where
  pub ip : ℕ
  pub syn_count : ℕ
  pub ack_count : ℕ
  pub ttl : ℕ
  pub flagged : Bool

pub record FirewallRow : Type 0 where
  pub prefixlen : ℕ
  pub ip : ℕ
  pub age_s : ℕ
  pub drop_count : ℕ

-- what `getch` returns: a character, KEY_UP, KEY_DOWN, or none of these
pub data Key : Type 0 where
  char : ℕ → Key
  key_up key_down no_key : Key

-- `launched` are the demos that were started, in order. The selected index starts at 0 and does not
-- become negative.
pub record App : Type 0 where
  pub current_view : View
  pub firewall_selected_index : ℕ
  pub running : Bool
  pub demo_cfg : DemoConfig
  pub launched : List (Text × DemoConfig)

abbrev pub new : App
new = record {
  current_view = dashboard;
  firewall_selected_index = 0;
  running = true;
  demo_cfg = record {
    target_ip = codes "127.0.0.1";
    target_port = 80;
    rate_pps = 50;
    duration_s = 5;
    override_safety = false;
  };
  launched = [];
}

abbrev pub parsed_u32 : Text → Option (ℕ × ℕ) → Option ℕ
parsed_u32 value none = none
parsed_u32 value (some (parsed, pos)) =
    if not (pos == length value) || ltb (2 ^ 32 - 1) parsed then none else some (parsed % 2 ^ 32)

-- `none` where the input is refused
unfoldable pub parse_u32_input : Text → Option ℕ
parse_u32_input value = if is_empty value then none else parsed_u32 value (stoul value)

abbrev pub narrowed : Option ℕ → Option ℕ
narrowed none = none
narrowed (some n) = if ltb (2 ^ 16 - 1) n then none else some (n % 2 ^ 16)

unfoldable pub parse_u16_input : Text → Option ℕ
unfolding parse_u32_input
parse_u16_input value = narrowed (parse_u32_input value)

abbrev pub either : ℕ → ℕ → ℕ → Bool
either c lower upper = c == lower || c == upper

abbrev pub if_some : (ℕ → DemoConfig) → DemoConfig → Option ℕ → DemoConfig
if_some set cfg none = cfg
if_some set cfg (some n) = set n

unfoldable pub launch_demo : Text → App → App
launch_demo name a = record a { launched = a.launched ++ ((name, a.demo_cfg) ∷ []) }

-- the keys of the view `demos`; `typed` is the text at the prompt
unfoldable pub demos_input : ℕ → Text → App → App
unfolding launch_demo parse_u32_input parse_u16_input
demos_input ch typed a =
    let cfg = a.demo_cfg in
    if either ch b't' b'T'
    then record a {
      demo_cfg = if not (is_empty typed) then record cfg { target_ip = typed } else cfg;
    }
    else if either ch b'o' b'O'
    then record a {
      demo_cfg = if_some (λ n. record cfg { target_port = n }) cfg (parse_u16_input typed);
    }
    else if either ch b'r' b'R'
    then record a {
      demo_cfg = if_some (λ n. record cfg { rate_pps = n }) cfg (parse_u32_input typed);
    }
    else if either ch b'd' b'D'
    then record a {
      demo_cfg = if_some (λ n. record cfg { duration_s = n }) cfg (parse_u32_input typed);
    }
    else if either ch b's' b'S'
    then record (launch_demo (codes "syn-flood") a) { current_view = threats }
    else if either ch b'p' b'P'
    then record (launch_demo (codes "ping-flood") a) { current_view = dashboard }
    else if either ch b'u' b'U'
    then record (launch_demo (codes "udp-storm") a) { current_view = dashboard }
    else a

-- the view that a digit selects
unfoldable pub view_of : ℕ → Option View
view_of ch =
    if ch == b'1'
    then some dashboard
    else if ch == b'2'
    then some threats
    else if ch == b'3'
    then some firewall
    else if ch == b'4'
    then some demos
    else none

unfoldable pub move_selection : Key → List FirewallRow → ℕ → ℕ
move_selection (char c) rows i = i
move_selection key_up rows i = i - 1
move_selection key_down rows i = if ltb (i + 1) (length rows) then i + 1 else i
move_selection no_key rows i = i

module _ (blacklist : UserMap LpmKey ℕ) (inet_pton : Text → Option ℕ) where
  -- a call whose failure is ignored
  abbrev pub or_same : blacklist.Map → Option blacklist.Map → blacklist.Map
  or_same m none = m
  or_same m (some m') = m'

  abbrev pub add_parsed : Result (ℕ × ℕ) → blacklist.Map → blacklist.Map
  add_parsed (err e) m = m
  add_parsed (ok (addr, prefix)) m = or_same m (blacklist.update m (prefix, addr) 1)

  abbrev pub delete_row : Option FirewallRow → blacklist.Map → blacklist.Map
  delete_row none m = m
  delete_row (some row) m = or_same m (blacklist.delete m (row.prefixlen, row.ip))

  unfoldable pub firewall_map : ℕ → Text → List FirewallRow → ℕ → blacklist.Map → blacklist.Map
  firewall_map ch typed rows i m =
      if either ch b'a' b'A'
      then add_parsed (parse_cidr inet_pton typed) m
      else if either ch b'd' b'D'
      then delete_row (get_elem? rows i) m
      else m

  -- a key that is no digit, and does not quit
  unfoldable pub view_input :
      Key → Text → List FirewallRow → App → blacklist.Map → App × blacklist.Map
  unfolding move_selection firewall_map demos_input
  view_input key typed rows a m = elim (a.current_view) [
    | dashboard ↦ (a, m)
    | threats ↦ (a, m)
    | firewall ↦ (
      record a { firewall_selected_index = move_selection key rows a.firewall_selected_index },
      elim key [
        | char ch ↦ firewall_map ch typed rows a.firewall_selected_index m
        | key_up ↦ m
        | key_down ↦ m
        | no_key ↦ m
      ],
    )
    | demos ↦
        (elim key [ char ch ↦ demos_input ch typed a | key_up ↦ a | key_down ↦ a | no_key ↦ a ], m)
  ]

  abbrev pub switch : Option View → App × blacklist.Map → App → blacklist.Map → App × blacklist.Map
  switch none other a m = other
  switch (some v) other a m = (record a { current_view = v }, m)

  unfoldable pub handle_input :
      Key → Text → List FirewallRow → App → blacklist.Map → App × blacklist.Map
  unfolding view_of view_input
  handle_input (char ch) typed rows a m =
      if either ch b'q' b'Q'
      then (record a { running = false }, m)
      else switch (view_of ch) (view_input (char ch) typed rows a m) a m
  handle_input key_up typed rows a m = view_input key_up typed rows a m
  handle_input key_down typed rows a m = view_input key_down typed rows a m
  handle_input no_key typed rows a m = view_input no_key typed rows a m
