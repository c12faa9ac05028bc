-- ===== src/Bpf/PinState/ProcStat.antt =====
-- The fields that `read_proc_stat` takes from a line of `/proc/<pid>/stat`.
use k_watch.Prelude.{
  ℕ, zero, suc, ◌+◌, ◌^◌, ◌<◌, ◌≡◌, ◌≢◌, refl, ap, ◌∙◌, Option, none, some, List, [], ◌∷◌, ◌++◌,
  false, not, ◌&&◌, ◌==◌, arith, get_elem?, All,
}
use k_watch.Prelude.Text.{Text}
use k_watch.Util.Result.{ok}
use k_watch.Util.Numbers.{is_space, to_string}
use k_watch.Util.Numbers.RoundTrip.{stoul-to_string}
use k_watch.Bpf.PinState.{
  OwnerState, after_paren, close, split_word, tokens, start_time, field_loop, parse_stat_line,
  read_proc_stat, is_owner_alive,
}

-- a word: not empty, without white space
abbrev pub IsWord : Text → Type 0
IsWord w = (w ≢ []) × All (λ c. is_space c ≡ false) w

-- words with a space between them
abbrev pub join : List Text → Text
join [] = []
join (w ∷ []) = w
join (w ∷ v ∷ ws) = w ++ (32 ∷ join (v ∷ ws))

after_paren-append :
    (comm tail : Text)
    → after_paren tail ≡ none
    → after_paren (comm ++ (b')' ∷ 32 ∷ tail)) ≡ some tail
unfolding after_paren
after_paren-append [] tail h = rw (after_paren, h) refl
after_paren-append (c ∷ comm) tail h = rw (after_paren, after_paren-append comm tail h) refl

split_word-word : (w : Text) → All (λ c. is_space c ≡ false) w → split_word w ≡ (w, [])
unfolding split_word
split_word-word [] d = refl
split_word-word (c ∷ w) (h, d) = ground (arith, h, split_word-word w d)

split_word-append :
    (w s : Text) → All (λ c. is_space c ≡ false) w → split_word (w ++ (32 ∷ s)) ≡ (w, tokens s)
unfolding split_word tokens
split_word-append [] s d = refl
split_word-append (c ∷ w) s (h, d) = ground (arith, h, split_word-append w s d)

close-IsWord : (w : Text) (ws : List Text) → w ≢ [] → close w ws ≡ w ∷ ws
close-IsWord [] ws h = absurd (h refl)
close-IsWord (c ∷ w) ws h = refl

tokens-join : (ws : List Text) → All IsWord ws → tokens (join ws) ≡ ws
unfolding tokens split_word
tokens-join [] h = refl
tokens-join (w ∷ []) ((ne, d), h) =
    ap {B = List Text} (λ p. close p.0 p.1) (split_word-word w d) ∙ close-IsWord w [] ne
tokens-join (w ∷ v ∷ ws) ((ne, d), h) =
    ap {B = List Text} (λ p. close p.0 p.1) (split_word-append w (join (v ∷ ws)) d)
    ∙ close-IsWord w (tokens (join (v ∷ ws))) ne
    ∙ ap (λ r. w ∷ r) (tokens-join (v ∷ ws) h)

-- the 22nd field, from a field behind the third
field_loop-start :
    (k field : ℕ) (ws : List Text) (state : ℕ) (t : Text)
    → 3 < field
    → field + k ≡ 22
    → get_elem? ws k ≡ some t
    → field_loop field ws state ≡ start_time t state
unfolding field_loop
field_loop-start k field [] state t lt e g = ground arith
field_loop-start zero field (w ∷ ws) state t lt e g = ground arith
field_loop-start (suc k) field (w ∷ ws) state t lt e g =
    ground (arith, field_loop-start k (field + 1) ws state t)

start_time-to_string :
    (n state : ℕ)
    → n < 2 ^ 64
    → start_time (to_string n) state ≡ ok (record { state = state; start_time_ticks = n })
unfolding start_time
start_time-to_string n state h = rw (start_time, stoul-to_string n h) (ground arith)

-- A stat line whose fields from the third on are words with single spaces between them and have no
-- `") "` inside: whatever text stands in front of the last `") "`, the command name among it, the
-- state is the first character of the third field and the start time is the 22nd field, a 64-bit
-- number in decimal.
pub parse_stat_line-fields :
    (comm : Text) (c : ℕ) (w : Text) (ws : List Text) (n : ℕ)
    → All IsWord ((c ∷ w) ∷ ws)
    → after_paren (join ((c ∷ w) ∷ ws)) ≡ none
    → get_elem? ws 18 ≡ some (to_string n)
    → n < 2 ^ 64
    → parse_stat_line (comm ++ (b')' ∷ 32 ∷ join ((c ∷ w) ∷ ws)))
      ≡ ok (record { state = c; start_time_ticks = n })
unfolding parse_stat_line field_loop
parse_stat_line-fields comm c w ws n words no_paren g h =
    rw
      (
        parse_stat_line,
        after_paren-append comm (join ((c ∷ w) ∷ ws)) no_paren,
        tokens-join ((c ∷ w) ∷ ws) words,
      )
      (field_loop-start 18 4 ws c (to_string n) (omega arith) (omega arith) g
        ∙ start_time-to_string n c h)

-- The owner that the owner file names, a process number that is not 0 and a start time, is alive
-- exactly if the process of that number, by such a stat line, is no zombie and has started at that
-- time. So a later process that got the same number is not taken for the owner. Such a stat line
-- has words with single spaces from the third field on, no closing parenthesis and space among
-- them, and a 64-bit number in decimal as its 22nd field.
pub is_owner_alive_lem :
    (stat_line : ℕ → Option Text) (owner : OwnerState) (comm : Text) (c : ℕ) (w : Text)
    (ws : List Text) (n : ℕ)
    → owner.pid ≢ 0
    → stat_line owner.pid ≡ some (comm ++ (b')' ∷ 32 ∷ join ((c ∷ w) ∷ ws)))
    → All IsWord ((c ∷ w) ∷ ws)
    → after_paren (join ((c ∷ w) ∷ ws)) ≡ none
    → get_elem? ws 18 ≡ some (to_string n)
    → n < 2 ^ 64
    → is_owner_alive stat_line owner ≡ (not (c == b'Z') && n == owner.start_time_ticks)
unfolding is_owner_alive read_proc_stat
is_owner_alive_lem stat_line owner comm c w ws n ne e words no_paren g h =
    rw
      (
        is_owner_alive,
        read_proc_stat,
        nonzero,
        e,
        parse_stat_line-fields comm c w ws n words no_paren g h,
      )
      refl
  where
    nonzero : (owner.pid == 0) ≡ false
    nonzero = ground arith
