-- ===== src/Cli/Parser/Plain.antt =====
-- Which command `parse_args` reads, with which arguments: those that are no options, in order.
use mathlib.Core.List.{append-nil, append_assoc}
use k_watch.Prelude.{
  ℕ, ◌^◌, ◌<◌, ◌≡◌, refl, ap, sym, ◌∙◌, Option, List, [], ◌∷◌, ◌++◌, Bool, true, false, arith,
  String, same, same_iff, get_elem?, All, Bool-cases, inl, inr,
}
use k_watch.Prelude.Text.{codes}
use k_watch.Util.Result.{ok}
use k_watch.Util.Numbers.{to_string}
use k_watch.Util.Numbers.RoundTrip.{stoul-to_string}
use k_watch.Cli.Parser.{
  no_command, GlobalOptions, ParsedCommand, default_options, is_none, parse_subcommand,
  parse_u32_arg, plain, experimental_step, try_parse_global_option, parsed, starts_with_dash,
  positional, parse_loop, parse_args,
}

-- A number of 32 bits in decimal is read back.
pub parse_u32_arg-to_string :
    (option v : String) (n : ℕ) → codes v ≡ to_string n → n < 2 ^ 32 → parse_u32_arg option v ≡ ok n
unfolding parse_u32_arg
parse_u32_arg-to_string option v n e h =
    rw (e, parse_u32_arg, stoul-to_string n (omega arith)) (ground arith)

abbrev pub NoDash : String → Type 0
NoDash a = starts_with_dash (codes a) ≡ false

same-NoDash : (a o : String) → starts_with_dash (codes o) ≡ true → NoDash a → same a o ≡ false
same-NoDash a o d h = elim (Bool-cases (same a o)) [
  | inl e ↦ absurd (ground (arith, ap (λ s. starts_with_dash (codes s)) ((same_iff a o).0 e)))
  | inr e ↦ e
]

module _ (x t : Bool) where
  try_parse_global_option-plain :
      (p : ParsedCommand) (a : String) (next : Option String)
      → NoDash a
      → try_parse_global_option x t p a next ≡ plain
  unfolding try_parse_global_option experimental_step
  try_parse_global_option-plain p a next h = ground (
    arith,
    same-NoDash a "--json" refl h,
    same-NoDash a "-v" refl h,
    same-NoDash a "--verbose" refl h,
    same-NoDash a "-vv" refl h,
    same-NoDash a "--xdp-mode" refl h,
    same-NoDash a "--sample-n" refl h,
    same-NoDash a "--syn-threshold" refl h,
    same-NoDash a "--syn-window" refl h,
    same-NoDash a "--auto-block" refl h,
    same-NoDash a "--auto-block-ttl" refl h,
    same-NoDash a "--help" refl h,
    same-NoDash a "-h" refl h,
    same-NoDash a "--version" refl h,
  )

  parse_loop-command :
      (s : String) (rest : List String) (g : GlobalOptions)
      → NoDash s
      → is_none (parse_subcommand t s) ≡ false
      → parse_loop x t (s ∷ rest) false (record { cmd = no_command; globals = g; args = [] })
        ≡ parse_loop x t rest false (record { cmd = parse_subcommand t s; globals = g; args = [] })
  unfolding parse_loop positional
  parse_loop-command s rest g h c =
      rw
        (
          parse_loop,
          try_parse_global_option-plain (record { cmd = no_command; globals = g; args = [] }) s
              (get_elem? rest 0) h,
          positional,
          h,
          c,
        )
        refl

  parse_loop-args :
      (l rest : List String) (p : ParsedCommand)
      → is_none p.cmd ≡ false
      → All NoDash l
      → parse_loop x t (l ++ rest) false p
        ≡ parse_loop x t rest false (record p { args = p.args ++ l })
  unfolding parse_loop positional
  parse_loop-args [] rest p c h =
      ap (λ l. parse_loop x t rest false (record p { args = l })) (sym (append-nil p.args))
  parse_loop-args (a ∷ l) rest p c (d, h) =
      rw (parse_loop, try_parse_global_option-plain p a (get_elem? (l ++ rest) 0) d, positional, c)
        (parse_loop-args l rest (record p { args = p.args ++ (a ∷ []) }) c h
          ∙ ap (λ r. parse_loop x t rest false (record p { args = r }))
              (append_assoc p.args (a ∷ []) l))

  -- A command and arguments that do not start with a dash: parse_args gives the command with all
  -- the arguments in order and the default options.
  pub parse_args-plain :
      (s : String) (args : List String)
      → NoDash s
      → is_none (parse_subcommand t s) ≡ false
      → All NoDash args
      → parse_args x t (s ∷ args)
        ≡ parsed (record { cmd = parse_subcommand t s; globals = default_options; args = args })
  unfolding parse_args parse_loop
  parse_args-plain s args h c d =
      parse_loop-command s args default_options h c
      ∙ ap
          (λ l.
            parse_loop x t l false
              (record { cmd = parse_subcommand t s; globals = default_options; args = [] }))
          (sym (append-nil args))
      ∙ parse_loop-args args []
          (record { cmd = parse_subcommand t s; globals = default_options; args = [] }) c d
      ∙ rw (parse_loop, c) refl

  -- An option with a number among the arguments of a command: --sample-n with a number from 1 to
  -- 2^32 - 1 in decimal sets the sampling rate, and the arguments before and behind it are those
  -- of the command, in order; the command and these arguments do not start with a dash.
  pub parse_args-sample_n :
      (s : String) (before after : List String) (v : String) (n : ℕ)
      → NoDash s
      → is_none (parse_subcommand t s) ≡ false
      → All NoDash before
      → All NoDash after
      → codes v ≡ to_string n
      → 0 < n
      → n < 2 ^ 32
      → parse_args x t (s ∷ before ++ ("--sample-n" ∷ v ∷ after))
        ≡ parsed (record {
          cmd = parse_subcommand t s;
          globals = record default_options { sample_n = n };
          args = before ++ after;
        })
  unfolding parse_args parse_loop
  parse_args-sample_n s before after v n h c d d' e pos small =
      parse_loop-command s (before ++ ("--sample-n" ∷ v ∷ after)) default_options h c
      ∙ parse_loop-args before ("--sample-n" ∷ v ∷ after)
          (record { cmd = parse_subcommand t s; globals = default_options; args = [] }) c d
      ∙ option_step
      ∙ ap
          (λ l. parse_loop x t l false (record {
            cmd = parse_subcommand t s;
            globals = record default_options { sample_n = n };
            args = before;
          }))
          (sym (append-nil after))
      ∙ parse_loop-args after []
          (record {
            cmd = parse_subcommand t s;
            globals = record default_options { sample_n = n };
            args = before;
          })
          c d'
      ∙ rw (parse_loop, c) refl
    where
      q : ParsedCommand
      q = record { cmd = parse_subcommand t s; globals = default_options; args = before }

      option_step :
          parse_loop x t ("--sample-n" ∷ v ∷ after) false q
          ≡ parse_loop x t after false
              (record q { globals = record default_options { sample_n = n } })
      option_step =
          rw (parse_loop, try_parse_global_option, parse_u32_arg-to_string "--sample-n" v n e small)
            (ground arith)
