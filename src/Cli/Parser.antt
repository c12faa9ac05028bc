-- ===== src/Cli/Parser.antt =====
-- cli/parser.h and cli/parser.cpp: the command line. The argument texts are those after the
-- program's name. `experimental` and `tui` are the build's KWATCH_WITH_EXPERIMENTAL and
-- KWATCH_WITH_TUI.
pub mod Valid
pub mod Plain
pub mod Tests
use k_watch.Prelude.{
  ℕ, ◌+◌, ◌^◌, Option, none, some, List, [], ◌∷◌, ◌++◌, Bool, true, false, not, ◌&&◌, ◌||◌, ltb,
  ◌==◌, if◌then◌else◌, length, get_elem?, String, same, ◌-◌,
}
use k_watch.Prelude.Text.{Text, codes}
use k_watch.Util.Result.{Result, ok, err, ◌>>=◌, ◌<>◌}
use k_watch.Util.Numbers.{stoul}

-- `Command::None` is `no_command`.
pub data Command : Type 0 where
  no_command run top block unblock list stats demo detach : Command

pub record GlobalOptions : Type 0 where
  pub json : Bool
  pub verbose : ℕ
  pub xdp_mode : String
  pub syn_threshold : ℕ
  pub syn_window : ℕ
  pub auto_block : Bool
  pub auto_block_ttl : ℕ
  pub sample_n : ℕ

pub record ParsedCommand : Type 0 where
  pub cmd : Command
  pub globals : GlobalOptions
  pub args : List String

abbrev pub default_options : GlobalOptions
default_options = record {
  json = false;
  verbose = 0;
  xdp_mode = "auto";
  syn_threshold = 100;
  syn_window = 10;
  auto_block = false;
  auto_block_ttl = 300;
  sample_n = 100;
}

abbrev pub is_none : Command → Bool
is_none no_command = true
is_none run = false
is_none top = false
is_none block = false
is_none unblock = false
is_none list = false
is_none stats = false
is_none demo = false
is_none detach = false

unfoldable pub parse_subcommand : Bool → String → Command
parse_subcommand tui s =
    if same s "run"
    then run
    else if tui && same s "top"
    then top
    else if same s "block"
    then block
    else if same s "unblock"
    then unblock
    else if same s "list"
    then list
    else if same s "stats"
    then stats
    else if same s "demo"
    then demo
    else if same s "detach"
    then detach
    else no_command

abbrev pub is_valid_xdp_mode : String → Bool
is_valid_xdp_mode mode =
    same mode "auto" || (same mode "skb" || (same mode "drv" || same mode "hw"))

abbrev pub invalid_value : String → String → Result ℕ
invalid_value option value = err ("Invalid value for " <> option <> ": " <> value)

unfoldable pub parse_u32_arg : String → String → Result ℕ
parse_u32_arg option value = elim (stoul (codes value)) [
  | none ↦ invalid_value option value
  | some (parsed, pos) ↦
      if not (pos == length (codes value)) || ltb (2 ^ 32 - 1) parsed
      then invalid_value option value
      else ok parsed
]

-- What `try_parse_global_option` did with an argument: it is an option, an option that took the next
-- argument too, no option, an error, or the program has printed a text and ended with status 0.
pub data Step : Type 0 where
  flag : GlobalOptions → Step
  taken : GlobalOptions → Step
  plain : Step
  failed : String → Step
  help : Command → Step
  version : Step

abbrev pub requires_argument : String → Step
requires_argument option = failed (option <> " requires an argument")

abbrev pub xdp_mode_step : GlobalOptions → String → Step
xdp_mode_step g mode =
    if is_valid_xdp_mode mode
    then taken (record g { xdp_mode = mode })
    else failed ("Invalid value for --xdp-mode: " <> mode)

abbrev pub sample_n_step : GlobalOptions → Result ℕ → Step
sample_n_step g (err e) = failed e
sample_n_step g (ok n) =
    if n == 0
    then failed "--sample-n must be greater than zero"
    else taken (record g { sample_n = n })

-- an option with a number, which `set` writes
abbrev pub number_step : (ℕ → GlobalOptions) → Result ℕ → Step
number_step set (err e) = failed e
number_step set (ok n) = taken (set n)

-- an option with an argument: `use` is given the next one
abbrev pub with_next : String → Option String → (String → Step) → Step
with_next option none use_next = requires_argument option
with_next option (some value) use_next = use_next value

module _ (experimental : Bool) where
  -- the options of an experimental build
  unfoldable pub experimental_step : GlobalOptions → String → Option String → Option Step
  experimental_step g arg next =
      if not experimental
      then none
      else if same arg "--syn-threshold"
      then some (
          with_next arg next
            (λ v. number_step (λ n. record g { syn_threshold = n }) (parse_u32_arg arg v)))
      else if same arg "--syn-window"
      then some (
          with_next arg next
            (λ v. number_step (λ n. record g { syn_window = n }) (parse_u32_arg arg v)))
      else if same arg "--auto-block"
      then some (flag (record g { auto_block = true }))
      else if same arg "--auto-block-ttl"
      then some (
          with_next arg next
            (λ v. number_step (λ n. record g { auto_block_ttl = n }) (parse_u32_arg arg v)))
      else none

abbrev pub next_command : Bool → Option String → Command
next_command tui none = no_command
next_command tui (some s) = parse_subcommand tui s

abbrev pub starts_with_dash : Text → Bool
starts_with_dash [] = false
starts_with_dash (c ∷ s) = c == b'-'

-- How `parse_args` ends: with a command, with an error, or with the whole program.
pub data Outcome : Type 0 where
  parsed : ParsedCommand → Outcome
  error : String → Outcome
  printed_help : Command → Outcome
  printed_version : Outcome

module _ (experimental tui : Bool) where
  abbrev pub ending_step : ParsedCommand → String → Option String → Step
  ending_step p arg next =
      if same arg "--help" || same arg "-h"
      then help (if is_none p.cmd then next_command tui next else p.cmd)
      else if same arg "--version"
      then version
      else plain

  unfoldable pub try_parse_global_option : ParsedCommand → String → Option String → Step
  unfolding experimental_step
  try_parse_global_option p arg next =
      if same arg "--json"
      then flag (record p.globals { json = true })
      else if same arg "-v" || same arg "--verbose"
      then flag (record p.globals { verbose = p.globals.verbose + 1 })
      else if same arg "-vv"
      then flag (record p.globals { verbose = p.globals.verbose + 2 })
      else if same arg "--xdp-mode"
      then with_next arg next (xdp_mode_step p.globals)
      else if same arg "--sample-n"
      then with_next arg next (λ v. sample_n_step p.globals (parse_u32_arg arg v))
      else elim (experimental_step experimental p.globals arg next) [
        | some s ↦ s
        | none ↦ ending_step p arg next
      ]

  -- an argument that is no option: the command, then its arguments
  unfoldable pub positional : ParsedCommand → String → Result ParsedCommand
  positional p arg =
      if not (is_none p.cmd)
      then ok (record p { args = p.args ++ (arg ∷ []) })
      else if starts_with_dash (codes arg)
      then err ("Unknown global option: " <> arg)
      else if is_none (parse_subcommand tui arg)
      then err ("Unknown command: " <> arg)
      else ok (record p { cmd = parse_subcommand tui arg })

  abbrev pub finish : ParsedCommand → Outcome
  finish p = if is_none p.cmd then error "No command provided" else parsed p

  -- The rest of the arguments, `skip` of which an option has taken.
  unfoldable pub parse_loop : List String → Bool → ParsedCommand → Outcome
  unfolding try_parse_global_option positional
  parse_loop [] skip p = finish p
  parse_loop (arg ∷ rest) true p = parse_loop rest false p
  parse_loop (arg ∷ rest) false p = elim (try_parse_global_option p arg (get_elem? rest 0)) [
    | flag g ↦ parse_loop rest false (record p { globals = g })
    | taken g ↦ parse_loop rest true (record p { globals = g })
    | failed e ↦ error e
    | help c ↦ printed_help c
    | version ↦ printed_version
    | plain ↦ elim (positional p arg) [ err e ↦ error e | ok q ↦ parse_loop rest false q ]
  ]

  -- `argc < 2` gives the error that the loop gives for no arguments.
  unfoldable pub parse_args : List String → Outcome
  parse_args [] = error "No command provided"
  parse_args (arg ∷ rest) =
      parse_loop (arg ∷ rest) false
        (record { cmd = no_command; globals = default_options; args = [] })
