-- ===== src/Cli/Main.antt =====
-- cli/main.cpp: the exit status of the program. What the commands do is input: `commands` runs a
-- command with the log level that is set, its options and its arguments.
pub mod Tests
use k_watch.Prelude.{
  ℕ, ◌≡◌, refl, List, [], ◌∷◌, Bool, true, false, leb, ◌==◌, if◌then◌else◌, String, All, ap, ◌∙◌,
}
use k_watch.Log.{Level, info, debug, trace}
use k_watch.Cli.Parser.{
  Command, no_command, run, top, block, unblock, list, stats, demo, detach, GlobalOptions,
  default_options, is_none, parse_subcommand, Outcome, parsed, error, printed_help, printed_version,
  parse_args, ParsedCommand,
}
use k_watch.Cli.Parser.Plain.{NoDash, parse_args-plain}

unfoldable pub level_of : ℕ → Level
level_of verbose = if verbose == 1 then debug else if leb 2 verbose then trace else info

module _ (commands : Command → Level → GlobalOptions → List String → ℕ) where
  unfoldable pub dispatch : ParsedCommand → ℕ
  unfolding level_of
  dispatch p =
      if is_none p.cmd then 64 else commands p.cmd (level_of p.globals.verbose) p.globals p.args

  -- `std::exit(0)` ends the program behind a help or version text.
  unfoldable pub main_status : Outcome → ℕ
  unfolding dispatch
  main_status (error e) = 64
  main_status (printed_help c) = 0
  main_status printed_version = 0
  main_status (parsed p) = dispatch p

  unfoldable pub main : Bool → Bool → List String → ℕ
  unfolding main_status
  main experimental tui args = main_status (parse_args experimental tui args)

  -- A known command with arguments that do not start with a dash: the program's status is what the
  -- command returns on these arguments and the default options, at the log level info.
  pub main-plain :
      (experimental tui : Bool) (s : String) (args : List String)
      → NoDash s
      → is_none (parse_subcommand tui s) ≡ false
      → All NoDash args
      → main experimental tui (s ∷ args)
        ≡ commands (parse_subcommand tui s) info default_options args
  unfolding main main_status dispatch level_of
  main-plain x t s args h c d =
      ap main_status (parse_args-plain x t s args h c d) ∙ rw (main_status, c) refl
