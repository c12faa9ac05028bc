-- ===== src/Cli/Demo/Safety.antt =====
-- Which configurations a scenario can be run with.
use k_watch.Prelude.{
  ℕ, suc, ◌^◌, ◌<◌, ◌≡◌, refl, Option, none, some, List, [], ◌∷◌, Bool, true, false, not, ◌||◌,
  ◌==◌, if◌then◌else◌, arith, String, same, take, drop,
}
use k_watch.Prelude.Text.{Text, codes}
use k_watch.Util.Ipv4.{find_char}
use k_watch.Cli.Demo.{
  DemoConfig, default_config, is_empty, whole_u32, strip_suffix, parse_u32_option, parse_u16_option,
  rfind_char, with_port, same_place, parse_target_option, with_number, value_option, option_loop,
  is_loopback, is_address, validate_target, checked, demo_config,
}

abbrev pub Below : ℕ → Option ℕ → Type 0
Below bound none = Unit
Below bound (some n) = n < bound

whole_u32-Below : (s : Text) → Below (2 ^ 32) (whole_u32 s)
unfolding whole_u32
whole_u32-Below s = ground arith

parse_u32_option-Below : (v s : Text) → Below (2 ^ 32) (parse_u32_option v s)
unfolding parse_u32_option
parse_u32_option-Below v s = go (strip_suffix v s)
  where
    go :
        (o : Option Text)
        → Below (2 ^ 32) (elim o as (λ o. Option ℕ) [ none ↦ none | some d ↦ whole_u32 d ])
    go none = tt
    go (some d) = whole_u32-Below d

parse_u16_option-Below : (v : Text) → Below (2 ^ 16) (parse_u16_option v)
unfolding parse_u16_option
parse_u16_option-Below v = ground arith

-- the numbers have their types' widths, and safety is overridden only if `b`
abbrev pub InBounds : Bool → DemoConfig → Type 0
InBounds b cfg =
    (cfg.target_port < 2 ^ 16)
    × (cfg.rate_pps < 2 ^ 32)
    × (cfg.duration_s < 2 ^ 32)
    × (cfg.override_safety ≡ true → b ≡ true)

abbrev pub OptionInBounds : Bool → Option DemoConfig → Type 0
OptionInBounds b none = Unit
OptionInBounds b (some cfg) = InBounds b cfg

-- whether the option that overrides safety is among the arguments
abbrev pub overrides : List String → Bool
overrides [] = false
overrides (arg ∷ args) = same arg "--i-know-what-im-doing" || overrides args

choose_bounded :
    (b c : Bool) (x y : Option DemoConfig)
    → OptionInBounds b x
    → OptionInBounds b y
    → OptionInBounds b (if c then x else y)
choose_bounded b true x y h k = h
choose_bounded b false x y h k = k

with_port-InBounds :
    (b : Bool) (cfg : DemoConfig) (host : Text) (o : Option ℕ)
    → Below (2 ^ 16) o
    → InBounds b cfg
    → OptionInBounds b (with_port cfg host o)
with_port-InBounds b cfg host none w h = tt
with_port-InBounds b cfg host (some n) w (p, r, d, o) = (w, r, d, o)

parse_target_option-InBounds :
    (b : Bool) (v : Text) (cfg : DemoConfig)
    → InBounds b cfg
    → OptionInBounds b (parse_target_option v cfg)
unfolding parse_target_option
parse_target_option-InBounds b v cfg h = go (rfind_char b':' v)
  where
    go :
        (o : Option ℕ)
        → OptionInBounds b (elim o as (λ o. Option DemoConfig) [
          | none ↦ some (record cfg { target_ip = v })
          | some colon ↦
              if not (same_place (find_char b':' v) colon)
              then some (record cfg { target_ip = v })
              else if is_empty (take colon v) || is_empty (drop (suc colon) v)
              then none
              else with_port cfg (take colon v) (parse_u16_option (drop (suc colon) v))
        ])
    go none = h
    go (some colon) = choose_bounded b (not (same_place (find_char b':' v) colon)) _ _ h (
        choose_bounded b (is_empty (take colon v) || is_empty (drop (suc colon) v)) none _ tt (
          with_port-InBounds b cfg (take colon v) (parse_u16_option (drop (suc colon) v))
            (parse_u16_option-Below (drop (suc colon) v)) h))

-- what the use of a value keeps
abbrev Keeps : Option (Text → DemoConfig → Option DemoConfig) → Type 0
Keeps none = Unit
Keeps (some f) =
    (b : Bool) (v : Text) (cfg : DemoConfig) → InBounds b cfg → OptionInBounds b (f v cfg)

choose-Keeps :
    (c : Bool) (x y : Option (Text → DemoConfig → Option DemoConfig))
    → Keeps x
    → Keeps y
    → Keeps (if c then x else y)
choose-Keeps true x y h k = h
choose-Keeps false x y h k = k

with_number-Keeps :
    (set : ℕ → DemoConfig → DemoConfig) (bound : ℕ) (read : Text → Option ℕ)
    → ((v : Text) → Below bound (read v))
    → ((b : Bool) (cfg : DemoConfig) (n : ℕ) → n < bound → InBounds b cfg → InBounds b (set n cfg))
    → Keeps (some (λ v cfg. with_number (λ n. set n cfg) (read v)))
with_number-Keeps set bound read below keep b v cfg h = go (read v) (below v)
  where
    go : (o : Option ℕ) → Below bound o → OptionInBounds b (with_number (λ n. set n cfg) o)
    go none w = tt
    go (some n) w = keep b cfg n w h

value_option-Keeps : (arg : String) → Keeps (value_option arg)
unfolding value_option
value_option-Keeps arg = choose-Keeps (same arg "--target") _ _ parse_target_option-InBounds (
    choose-Keeps (same arg "--port") _ _
      (with_number-Keeps (λ n cfg. record cfg { target_port = n }) (2 ^ 16) parse_u16_option
        parse_u16_option-Below (λ b cfg n w (p, r, d, o). (w, r, d, o)))
      (choose-Keeps (same arg "--duration") _ _
        (with_number-Keeps (λ n cfg. record cfg { duration_s = n }) (2 ^ 32)
          (λ v. parse_u32_option v (codes "s")) (λ v. parse_u32_option-Below v (codes "s"))
          (λ b cfg n w (p, r, d, o). (p, r, w, o)))
        (choose-Keeps (same arg "--rate") _ _
          (with_number-Keeps (λ n cfg. record cfg { rate_pps = n }) (2 ^ 32)
            (λ v. parse_u32_option v (codes "pps")) (λ v. parse_u32_option-Below v (codes "pps"))
            (λ b cfg n w (p, r, d, o). (p, w, d, o)))
          tt)))

option_loop-InBounds :
    (b : Bool) (args : List String) (w : Option (Text → DemoConfig → Option DemoConfig))
    (cfg : DemoConfig)
    → (overrides args ≡ true → b ≡ true)
    → Keeps w
    → InBounds b cfg
    → OptionInBounds b (option_loop args w cfg)
unfolding option_loop
option_loop-InBounds b [] none cfg o k h = h
option_loop-InBounds b [] (some f) cfg o k h = tt
option_loop-InBounds b (arg ∷ args) (some f) cfg o k h =
    go (λ c. option_loop-InBounds b args none c (λ e. o (ground (arith, e))) tt) (f (codes arg) cfg)
      (k b (codes arg) cfg h)
  where
    go :
        ((c : DemoConfig) → InBounds b c → OptionInBounds b (option_loop args none c))
        → (r : Option DemoConfig) → OptionInBounds b r
        → OptionInBounds b
            (elim r as (λ r. Option DemoConfig) [ none ↦ none | some c ↦ option_loop args none c ])
    go ih none i = tt
    go ih (some c) i = ih c i
option_loop-InBounds b (arg ∷ args) none cfg o k h =
    go (λ v. option_loop-InBounds b args v cfg rest_overrides)
      (λ c. option_loop-InBounds b args none c rest_overrides tt) (value_option arg)
      (value_option-Keeps arg)
  where
    rest_overrides : overrides args ≡ true → b ≡ true
    rest_overrides e = o (ground (arith, e))

    last :
        ((c : DemoConfig) → InBounds b c → OptionInBounds b (option_loop args none c))
        → (t : Bool) → (t ≡ true → b ≡ true)
        → OptionInBounds b
            (if t then option_loop args none (record cfg { override_safety = true }) else none)
    last ih true u = ih (record cfg { override_safety = true }) (h.0, h.1, h.2, λ e. u refl)
    last ih false u = tt

    go :
        ((v : Option (Text → DemoConfig → Option DemoConfig))
          → Keeps v
          → InBounds b cfg
          → OptionInBounds b (option_loop args v cfg))
        → ((c : DemoConfig) → InBounds b c → OptionInBounds b (option_loop args none c))
        → (v : Option (Text → DemoConfig → Option DemoConfig)) → Keeps v
        → OptionInBounds b (elim v as (λ v. Option DemoConfig) [
          | some f ↦ option_loop args (some f) cfg
          | none ↦
              if same arg "--i-know-what-im-doing"
              then option_loop args none (record cfg { override_safety = true })
              else none
        ])
    go value ih none kv = last ih (same arg "--i-know-what-im-doing") (λ e. o (ground (arith, e)))
    go value ih (some f) kv = value (some f) kv h

-- a configuration that passed the checks
abbrev pub IsSafe : (Text → Option ℕ) → Bool → Option DemoConfig → Type 0
IsSafe pton b none = Unit
IsSafe pton b (some cfg) =
    InBounds b cfg
    × (0 < cfg.rate_pps)
    × (0 < cfg.duration_s)
    × (is_address pton cfg.target_ip ≡ true)
    × (b ≡ false → is_loopback pton cfg.target_ip ≡ true)

validate_target_lem :
    (pton : Text → Option ℕ) (ip : Text) (b : Bool)
    → validate_target pton ip b ≡ true
    → (is_address pton ip ≡ true) × (b ≡ false → is_loopback pton ip ≡ true)
unfolding validate_target
validate_target_lem pton ip b h = ground (arith, h)

checks-IsSafe :
    (pton : Text → Option ℕ) (b : Bool) (cfg : DemoConfig) (zeros valid : Bool)
    → InBounds b cfg
    → (cfg.rate_pps == 0 || cfg.duration_s == 0) ≡ zeros
    → validate_target pton cfg.target_ip cfg.override_safety ≡ valid
    → IsSafe pton b (if zeros then none else if valid then some cfg else none)
checks-IsSafe pton b cfg true valid h z v = tt
checks-IsSafe pton b cfg false false h z v = tt
checks-IsSafe pton b cfg false true h z v = (
  h,
  ground arith,
  ground arith,
  (validate_target_lem pton cfg.target_ip cfg.override_safety v).0,
  λ e. (validate_target_lem pton cfg.target_ip cfg.override_safety v).1 (ground (arith, h.3, e)),
)

-- The configuration that demo runs a scenario with, whatever the options: its port has 16 bits,
-- its rate and its duration are at least 1 and have 32 bits, its target is an IPv4 address, and
-- unless --i-know-what-im-doing is among the arguments, safety is not overridden and the target is
-- a loopback address.
pub demo_config-IsSafe :
    (inet_pton : Text → Option ℕ) (args : List String)
    → IsSafe inet_pton (overrides args) (demo_config inet_pton args)
unfolding demo_config
demo_config-IsSafe pton args = go (option_loop args none default_config) (
    option_loop-InBounds (overrides args) args none default_config (λ e. e) tt
      (omega arith, omega arith, omega arith, λ e. ground arith))
  where
    go :
        (o : Option DemoConfig)
        → OptionInBounds (overrides args) o
        → IsSafe pton (overrides args) (checked pton o)
    go none h = tt
    go (some cfg) h = checks-IsSafe pton (overrides args) cfg _ _ h refl refl
