-- ===== src/Cli/Parser/Tests.antt =====
-- The command lines of tests/unit/cli_parser_test.cpp, and the theorems at command lines.
use k_watch.Prelude.{◌≡◌, refl, List, [], ◌∷◌, true, false, String}
use k_watch.Util.Result.{ok}
use k_watch.Util.Numbers.{stoul}
use k_watch.Cli.Parser.{
  run, block, default_options, parse_u32_arg, parse_subcommand, parsed, error, printed_help,
  parse_loop, parse_args,
}
use k_watch.Cli.Parser.Valid.{OutcomeIsValid, parse_args-IsValid}

run_json :
    parse_args false true ("--json" ∷ "run" ∷ "lo" ∷ [])
    ≡ parsed
        (record { cmd = run; globals = record default_options { json = true }; args = "lo" ∷ [] })
unfolding parse_args parse_loop parse_subcommand
run_json = refl

unknown_command : parse_args false true ("fly" ∷ []) ≡ error "Unknown command: fly"
unfolding parse_args parse_loop parse_subcommand
unknown_command = refl

help_block : parse_args false true ("--help" ∷ "block" ∷ []) ≡ printed_help block
unfolding parse_args parse_loop parse_subcommand
help_block = refl

zero_sample_n :
    parse_args false true ("--sample-n" ∷ "0" ∷ "run" ∷ [])
    ≡ error "--sample-n must be greater than zero"
unfolding parse_args parse_u32_arg stoul parse_loop parse_subcommand
zero_sample_n = refl

-- `stoul` negates in 64 bits, so a negative number can pass for a small one.
negative_number : parse_u32_arg "--sample-n" "-18446744073709551615" ≡ ok 1
unfolding parse_u32_arg stoul
negative_number = refl

abbrev block_line : List String
block_line = "--xdp-mode" ∷ "skb" ∷ "block" ∷ "lo" ∷ "10.0.0.0/8" ∷ []

parse_args-IsValid_example : OutcomeIsValid true true (parse_args true true block_line)
parse_args-IsValid_example = parse_args-IsValid true true block_line
