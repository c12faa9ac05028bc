-- ===== src/Cli/Demo.antt =====
-- cli/commands/demo.cpp and demo/demos.h: the options of `demo` and the check of its target. What a
-- scenario returns is input, and so is `inet_pton`.
pub mod Safety
pub mod Tests
use k_watch.Prelude.{
  ℕ, zero, suc, ◌+◌, ◌-◌, ◌*◌, ◌/◌, ◌%◌, ◌^◌, Option, none, some, List, [], ◌∷◌, Bool, true, false,
  not, ◌&&◌, ◌||◌, ltb, ◌==◌, if◌then◌else◌, length, take, drop, all, String, same, bit_and,
}
use k_watch.Prelude.Text.{Text, codes}
use k_watch.Util.Result.{Result, ok, err, is_ok}
use k_watch.Util.Numbers.{stoul, is_digit}
use k_watch.Util.Ipv4.{find_char}

-- The numbers fit their fields, of 16, 32 and 32 bits, by the tests and casts of where they are read.
pub record DemoConfig : Type 0 where
  pub target_ip : Text
  pub target_port : ℕ
  pub rate_pps : ℕ
  pub duration_s : ℕ
  pub override_safety : Bool

abbrev pub default_config : DemoConfig
default_config = record {
  target_ip = codes "127.0.0.1";
  target_port = 80;
  rate_pps = 100;
  duration_s = 5;
  override_safety = false;
}

abbrev pub same_text : Text → Text → Bool
same_text [] [] = true
same_text [] (d ∷ t) = false
same_text (c ∷ s) [] = false
same_text (c ∷ s) (d ∷ t) = c == d && same_text s t

abbrev pub is_empty : Text → Bool
is_empty [] = true
is_empty (c ∷ s) = false

-- the value less its suffix; without the suffix it has digits only
unfoldable pub strip_suffix : Text → Text → Option Text
strip_suffix value suffix =
    let kept = length value - length suffix in
    if not (is_empty suffix)
      && (ltb (length suffix) (length value) && same_text (drop kept value) suffix)
    then some (take kept value)
    else if not (is_empty suffix) && not (not (is_empty value) && all is_digit value)
    then none
    else some value

unfoldable pub whole_u32 : Text → Option ℕ
whole_u32 digits = elim (stoul digits) [
  | none ↦ none
  | some (parsed, pos) ↦
      if not (pos == length digits) || ltb (2 ^ 32 - 1) parsed then none else some parsed
]

-- All its errors are one message, `Invalid value for <option>: <value>`, which `none` stands for.
unfoldable pub parse_u32_option : Text → Text → Option ℕ
unfolding strip_suffix whole_u32
parse_u32_option value suffix = elim (strip_suffix value suffix) [
  | none ↦ none
  | some digits ↦ whole_u32 digits
]

unfoldable pub parse_u16_option : Text → Option ℕ
unfolding parse_u32_option
parse_u16_option value = elim (parse_u32_option value []) [
  | none ↦ none
  | some n ↦ if ltb (2 ^ 16 - 1) n then none else some n
]

-- `rfind`
unfoldable pub rfind_char : ℕ → Text → Option ℕ
rfind_char c [] = none
rfind_char c (d ∷ s) = elim (rfind_char c s) [
  | some i ↦ some (suc i)
  | none ↦ if d == c then some 0 else none
]

abbrev pub same_place : Option ℕ → ℕ → Bool
same_place none i = false
same_place (some j) i = j == i

abbrev pub with_port : DemoConfig → Text → Option ℕ → Option DemoConfig
with_port cfg host none = none
with_port cfg host (some port) = some (record cfg { target_ip = host; target_port = port })

-- `<host>:<port>` where there is one colon
unfoldable pub parse_target_option : Text → DemoConfig → Option DemoConfig
unfolding find_char rfind_char parse_u16_option
parse_target_option value cfg = elim (rfind_char b':' value) [
  | none ↦ some (record cfg { target_ip = value })
  | some colon ↦
      if not (same_place (find_char b':' value) colon)
      then some (record cfg { target_ip = value })
      else if is_empty (take colon value) || is_empty (drop (suc colon) value)
      then none
      else with_port cfg (take colon value) (parse_u16_option (drop (suc colon) value))
]

abbrev pub with_number : (ℕ → DemoConfig) → Option ℕ → Option DemoConfig
with_number set none = none
with_number set (some n) = some (set n)

-- An option that takes a value, and what it does with it; `none` for another argument.
unfoldable pub value_option : String → Option (Text → DemoConfig → Option DemoConfig)
unfolding parse_target_option parse_u16_option parse_u32_option
value_option arg =
    if same arg "--target"
    then some parse_target_option
    else if same arg "--port"
    then some (λ v cfg. with_number (λ n. record cfg { target_port = n }) (parse_u16_option v))
    else if same arg "--duration"
    then some
        (λ v cfg. with_number (λ n. record cfg { duration_s = n }) (parse_u32_option v (codes "s")))
    else if same arg "--rate"
    then some
        (λ v cfg. with_number (λ n. record cfg { rate_pps = n }) (parse_u32_option v (codes "pps")))
    else none

-- The loop over the options behind the scenario; `none` is the exit status 64. An option that waits
-- for its value is the second argument.
unfoldable pub option_loop :
    List String → Option (Text → DemoConfig → Option DemoConfig) → DemoConfig → Option DemoConfig
unfolding value_option
option_loop [] none cfg = some cfg
option_loop [] (some use_value) cfg = none
option_loop (arg ∷ args) (some use_value) cfg = elim (use_value (codes arg) cfg) [
  | none ↦ none
  | some c ↦ option_loop args none c
]
option_loop (arg ∷ args) none cfg = elim (value_option arg) [
  | some use_value ↦ option_loop args (some use_value) cfg
  | none ↦
      let rest = option_loop args none (record cfg { override_safety = true }) in
      if same arg "--i-know-what-im-doing" then rest else none
]

-- the bytes of an address in the order of its text
abbrev pub ntohl : ℕ → ℕ
ntohl a =
    (a % 2 ^ 8) * 2 ^ 24
    + (a / 2 ^ 8 % 2 ^ 8) * 2 ^ 16
    + (a / 2 ^ 16 % 2 ^ 8) * 2 ^ 8
    + a / 2 ^ 24 % 2 ^ 8

-- `run` is what a scenario does, if its name is known: its error is one for a lack of permission
-- or another one.
pub data Ran : Type 0 where
  finished denied broken : Ran

abbrev pub status_of_run : Option Ran → ℕ
status_of_run none = 64
status_of_run (some finished) = 0
status_of_run (some denied) = 77
status_of_run (some broken) = 125

module _ (inet_pton : Text → Option ℕ) where
  abbrev pub is_loopback : Text → Bool
  is_loopback ip = elim (inet_pton ip) [
    | none ↦ false
    | some a ↦ bit_and (ntohl a) 0xff000000 == 0x7f000000
  ]

  abbrev pub is_address : Text → Bool
  is_address ip = elim (inet_pton ip) [ none ↦ false | some a ↦ true ]

  unfoldable pub validate_target : Text → Bool → Bool
  validate_target ip override_safety =
      if not (is_address ip)
      then false
      else if not (is_loopback ip) && not override_safety
      then false
      else true

  -- the checks behind the loop
  abbrev pub checked : Option DemoConfig → Option DemoConfig
  checked none = none
  checked (some cfg) =
      if cfg.rate_pps == 0 || cfg.duration_s == 0
      then none
      else if validate_target cfg.target_ip cfg.override_safety
      then some cfg
      else none

  -- the configuration that a scenario is run with
  unfoldable pub demo_config : List String → Option DemoConfig
  unfolding option_loop validate_target
  demo_config args = checked (option_loop args none default_config)

  unfoldable pub cmd_demo : (String → DemoConfig → Option Ran) → List String → ℕ
  unfolding demo_config
  cmd_demo run [] = 64
  cmd_demo run (scenario ∷ args) = elim (demo_config args) [
    | none ↦ 64
    | some cfg ↦ status_of_run (run scenario cfg)
  ]
