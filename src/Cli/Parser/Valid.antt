-- ===== src/Cli/Parser/Valid.antt =====
-- What holds of every command line that `parse_args` accepts.
use k_watch.Prelude.{
  ℕ, ◌^◌, ◌<◌, ◌≡◌, ◌≢◌, refl, Option, none, some, List, [], ◌∷◌, Bool, true, false, not, ◌||◌,
  ◌==◌, if◌then◌else◌, arith, String, same, get_elem?, Bool-cases, inl, inr,
}
use k_watch.Util.Result.{Result, ok, err}
use k_watch.Cli.Parser.{
  Command, no_command, top, GlobalOptions, ParsedCommand, default_options, is_none,
  parse_subcommand, is_valid_xdp_mode, parse_u32_arg, Step, flag, taken, plain, failed, help,
  version, xdp_mode_step, sample_n_step, number_step, with_next, experimental_step, ending_step,
  try_parse_global_option, Outcome, parsed, error, printed_help, printed_version, positional,
  parse_loop, parse_args, finish, starts_with_dash,
}
use k_watch.Prelude.Text.{codes}

-- the value of a numeric option is a `uint32_t`
abbrev pub IsWord : Result ℕ → Type 0
IsWord (ok n) = n < 2 ^ 32
IsWord (err e) = Unit

pub parse_u32_arg-IsWord : (option value : String) → IsWord (parse_u32_arg option value)
unfolding parse_u32_arg
parse_u32_arg-IsWord option value = ground arith

-- The options: a known attach mode, a sampling rate that is not zero, numbers of 32 bits. A build
-- without the experimental options has their defaults.
abbrev pub IsValid : Bool → GlobalOptions → Type 0
IsValid experimental g =
    (is_valid_xdp_mode g.xdp_mode ≡ true)
    × (0 < g.sample_n)
    × (g.sample_n < 2 ^ 32)
    × (g.syn_threshold < 2 ^ 32)
    × (g.syn_window < 2 ^ 32)
    × (g.auto_block_ttl < 2 ^ 32)
    × (experimental ≡ false → (g.auto_block ≡ false) × (g.syn_threshold ≡ 100))

StepIsValid : Bool → Step → Type 0
StepIsValid x (flag g) = IsValid x g
StepIsValid x (taken g) = IsValid x g
StepIsValid x plain = Unit
StepIsValid x (failed e) = Unit
StepIsValid x (help c) = Unit
StepIsValid x version = Unit

-- the accepted command line has a command, which is `top` only in a build with the dashboard
abbrev pub OutcomeIsValid : Bool → Bool → Outcome → Type 0
OutcomeIsValid x t (parsed p) =
    IsValid x p.globals × (p.cmd ≢ no_command) × (t ≡ false → p.cmd ≢ top)
OutcomeIsValid x t (error e) = Unit
OutcomeIsValid x t (printed_help c) = Unit
OutcomeIsValid x t printed_version = Unit

xdp_mode_step-IsValid :
    (x : Bool) (g : GlobalOptions) (v : String) → IsValid x g → StepIsValid x (xdp_mode_step g v)
unfolding StepIsValid
xdp_mode_step-IsValid x g v (m, s, sw, tw, ww, ttl, st) = elim (Bool-cases (is_valid_xdp_mode v)) [
  | inl e ↦ rw (e, StepIsValid) (e, s, sw, tw, ww, ttl, st)
  | inr e ↦ rw (e, StepIsValid) tt
]

sample_n_step-IsValid :
    (x : Bool) (g : GlobalOptions) (r : Result ℕ)
    → IsWord r
    → IsValid x g
    → StepIsValid x (sample_n_step g r)
unfolding StepIsValid
sample_n_step-IsValid x g (err e) w h = tt
sample_n_step-IsValid x g (ok n) w (m, s, sw, tw, ww, ttl, st) = elim (Bool-cases (n == 0)) [
  | inl e ↦ rw (e, StepIsValid) tt
  | inr e ↦ rw (e, StepIsValid) (m, ground arith, w, tw, ww, ttl, st)
]

number_step-IsValid :
    (x : Bool) (set : ℕ → GlobalOptions) (r : Result ℕ)
    → ((n : ℕ) → n < 2 ^ 32 → IsValid x (set n))
    → IsWord r
    → StepIsValid x (number_step set r)
unfolding StepIsValid
number_step-IsValid x set (err e) h w = tt
number_step-IsValid x set (ok n) h w = h n w

with_next-IsValid :
    (x : Bool) (option : String) (next : Option String) (f : String → Step)
    → ((v : String) → StepIsValid x (f v))
    → StepIsValid x (with_next option next f)
unfolding StepIsValid
with_next-IsValid x option none f h = tt
with_next-IsValid x option (some v) f h = h v

-- a choice of steps
choose-IsValid :
    (x b : Bool) (s t : Step)
    → StepIsValid x s
    → StepIsValid x t
    → StepIsValid x (if b then s else t)
choose-IsValid x true s t h k = h
choose-IsValid x false s t h k = k

OptionIsValid : Bool → Option Step → Type 0
unfolding StepIsValid
OptionIsValid x none = Unit
OptionIsValid x (some s) = StepIsValid x s

choose_option :
    (x b : Bool) (s : Step) (o : Option Step)
    → StepIsValid x s
    → OptionIsValid x o
    → OptionIsValid x (if b then some s else o)
unfolding OptionIsValid
choose_option x true s o h k = h
choose_option x false s o h k = k

experimental_step-IsValid :
    (x : Bool) (g : GlobalOptions) (arg : String) (next : Option String)
    → IsValid x g
    → OptionIsValid x (experimental_step x g arg next)
unfolding experimental_step OptionIsValid StepIsValid
experimental_step-IsValid false g arg next h = tt
experimental_step-IsValid true g arg next (m, s, sw, tw, ww, ttl, st) =
    choose_option true (same arg "--syn-threshold") _ _
      (numeric (λ n. record g { syn_threshold = n })
        λ n w. (m, s, sw, w, ww, ttl, λ e. ground arith))
      (choose_option true (same arg "--syn-window") _ _
        (numeric (λ n. record g { syn_window = n }) λ n w. (m, s, sw, tw, w, ttl, st))
        (choose_option true (same arg "--auto-block") _ _ (m, s, sw, tw, ww, ttl, λ e. ground arith)
          (choose_option true (same arg "--auto-block-ttl") _ _
            (numeric (λ n. record g { auto_block_ttl = n }) λ n w. (m, s, sw, tw, ww, w, st)) tt)))
  where
    numeric :
        (set : ℕ → GlobalOptions)
        → ((n : ℕ) → n < 2 ^ 32 → IsValid true (set n))
        → StepIsValid true (with_next arg next (λ v. number_step set (parse_u32_arg arg v)))
    numeric set h =
        with_next-IsValid true arg next _
          λ v. number_step-IsValid true set (parse_u32_arg arg v) h (parse_u32_arg-IsWord arg v)

ending_step-IsValid :
    (x t : Bool) (p : ParsedCommand) (arg : String) (next : Option String)
    → StepIsValid x (ending_step x t p arg next)
unfolding StepIsValid
ending_step-IsValid x t p arg next =
    choose-IsValid x (same arg "--help" || same arg "-h") _ _ tt
      (choose-IsValid x (same arg "--version") _ _ tt tt)

or_ending-IsValid :
    (x t : Bool) (p : ParsedCommand) (arg : String) (next : Option String) (o : Option Step)
    → OptionIsValid x o
    → StepIsValid x (elim o [ some s ↦ s | none ↦ ending_step x t p arg next ])
unfolding OptionIsValid
or_ending-IsValid x t p arg next none h = ending_step-IsValid x t p arg next
or_ending-IsValid x t p arg next (some s) h = h

try_parse_global_option-IsValid :
    (x t : Bool) (p : ParsedCommand) (arg : String) (next : Option String)
    → IsValid x p.globals
    → StepIsValid x (try_parse_global_option x t p arg next)
unfolding try_parse_global_option StepIsValid
try_parse_global_option-IsValid x t p arg next h = choose-IsValid x (same arg "--json") _ _ h (
    choose-IsValid x (same arg "-v" || same arg "--verbose") _ _ h (
      choose-IsValid x (same arg "-vv") _ _ h (
        choose-IsValid x (same arg "--xdp-mode") _ _
          (with_next-IsValid x arg next _ λ v. xdp_mode_step-IsValid x p.globals v h)
          (choose-IsValid x (same arg "--sample-n") _ _
            (with_next-IsValid x arg next _ λ v.
              sample_n_step-IsValid x p.globals (parse_u32_arg arg v) (parse_u32_arg-IsWord arg v)
                h)
            (or_ending-IsValid x t p arg next _
              (experimental_step-IsValid x p.globals arg next h))))))

abbrev TopAllowed : Bool → Command → Type 0
TopAllowed t c = t ≡ false → c ≢ top

parse_subcommand-top : (t : Bool) (s : String) → TopAllowed t (parse_subcommand t s)
unfolding parse_subcommand
parse_subcommand-top t s e = ground arith

-- the command line so far
abbrev Partial : Bool → Bool → ParsedCommand → Type 0
Partial x t p = IsValid x p.globals × TopAllowed t p.cmd

ResultIsValid : Bool → Bool → Result ParsedCommand → Type 0
ResultIsValid x t (err e) = Unit
ResultIsValid x t (ok q) = Partial x t q

choose_result :
    (x t b : Bool) (r s : Result ParsedCommand)
    → ResultIsValid x t r
    → ResultIsValid x t s
    → ResultIsValid x t (if b then r else s)
choose_result x t true r s h k = h
choose_result x t false r s h k = k

positional-Partial :
    (x t : Bool) (p : ParsedCommand) (arg : String)
    → Partial x t p
    → ResultIsValid x t (positional x t p arg)
unfolding positional ResultIsValid
positional-Partial x t p arg (h, k) =
    choose_result x t (not (is_none p.cmd)) _ _ (h, k)
      (choose_result x t (starts_with_dash (codes arg)) _ _ tt (
        choose_result x t (is_none (parse_subcommand t arg)) _
          (ok (record p { cmd = parse_subcommand t arg })) tt (h, parse_subcommand-top t arg)))

finish-IsValid :
    (x t : Bool) (p : ParsedCommand) → Partial x t p → OutcomeIsValid x t (finish x t p)
finish-IsValid x t p (h, k) = elim (Bool-cases (is_none p.cmd)) [
  | inl e ↦ rw (e, OutcomeIsValid) tt
  | inr e ↦ rw (e, OutcomeIsValid) (h, (λ n. ground arith), k)
]

parse_loop-IsValid :
    (x t : Bool) (l : List String) (skip : Bool) (p : ParsedCommand)
    → Partial x t p
    → OutcomeIsValid x t (parse_loop x t l skip p)
unfolding parse_loop StepIsValid ResultIsValid
parse_loop-IsValid x t [] skip p h = finish-IsValid x t p h
parse_loop-IsValid x t (arg ∷ rest) true p h = parse_loop-IsValid x t rest false p h
parse_loop-IsValid x t (arg ∷ rest) false p (h, k) =
    after (λ skip q v. parse_loop-IsValid x t rest skip q v)
      (try_parse_global_option x t p arg (get_elem? rest 0))
      (try_parse_global_option-IsValid x t p arg (get_elem? rest 0) h)
  where
    Go : Type 0
    Go =
        (skip : Bool) (q : ParsedCommand)
        → Partial x t q
        → OutcomeIsValid x t (parse_loop x t rest skip q)

    next :
        Go
        → (r : Result ParsedCommand) → ResultIsValid x t r
        → OutcomeIsValid x t (elim r [ err e ↦ error e | ok q ↦ parse_loop x t rest false q ])
    next go (err e) v = tt
    next go (ok q) v = go false q v

    after :
        Go
        → (s : Step) → StepIsValid x s
        → OutcomeIsValid x t (elim s [
          | flag g ↦ parse_loop x t rest false (record p { globals = g })
          | taken g ↦ parse_loop x t rest true (record p { globals = g })
          | failed e ↦ error e
          | help c ↦ printed_help c
          | version ↦ printed_version
          | plain ↦ elim (positional x t p arg) [
            | err e ↦ error e
            | ok q ↦ parse_loop x t rest false q
          ]
        ])
    after go (flag g) v = go false (record p { globals = g }) (v, k)
    after go (taken g) v = go true (record p { globals = g }) (v, k)
    after go (failed e) v = tt
    after go (help c) v = tt
    after go version v = tt
    after go plain v = next go (positional x t p arg) (positional-Partial x t p arg (h, k))

-- A command line that parse_args accepts, whatever the build: it has a command, top only in a
-- build with the dashboard; its attach mode is one of the four; its sampling rate is at least 1;
-- its numbers are of 32 bits; without the experimental options no block is automatic and the
-- threshold is the default, 100.
pub parse_args-IsValid :
    (experimental tui : Bool) (args : List String)
    → OutcomeIsValid experimental tui (parse_args experimental tui args)
unfolding parse_args
parse_args-IsValid x t [] = tt
parse_args-IsValid x t (arg ∷ rest) =
    parse_loop-IsValid x t (arg ∷ rest) false
      (record { cmd = no_command; globals = default_options; args = [] })
      (
        (refl, omega arith, omega arith, omega arith, omega arith, omega arith, λ e. (refl, refl)),
        λ e. ground arith,
      )
