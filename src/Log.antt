-- ===== src/Log.antt =====
-- log/log.cpp: which messages are printed.
pub mod Tests
pub mod Filter
use k_watch.Prelude.{
  ℕ, zero, suc, ◌-◌, Option, none, some, List, [], ◌∷◌, Bool, true, false, ◌&&◌, ltb, ◌==◌,
  if◌then◌else◌, length, take,
}
use k_watch.Prelude.Text.{Text}

pub data Level : Type 0 where
  error warn info debug trace : Level

-- the value of the enumerator
abbrev pub rank : Level → ℕ
rank error = 0
rank warn = 1
rank info = 2
rank debug = 3
rank trace = 4

pub data LibbpfLevel : Type 0 where
  libbpf_warn libbpf_info libbpf_debug : LibbpfLevel

-- a message on the standard error stream, without its time
pub record Message : Type 0 where
  pub level : Level
  pub component : Text
  pub msg : Text

-- what `emit` adds to the stream
unfoldable pub emit : Level → Level → Text → Text → List Message
emit current l component msg =
    if ltb (rank current) (rank l)
    then []
    else record { level = l; component = component; msg = msg } ∷ []

unfoldable pub level_of_libbpf : LibbpfLevel → Level
level_of_libbpf libbpf_warn = warn
level_of_libbpf libbpf_info = info
level_of_libbpf libbpf_debug = debug

abbrev pub libbpf_shut : Level → LibbpfLevel → Bool
libbpf_shut current libbpf_debug = ltb (rank current) (rank debug)
libbpf_shut current libbpf_info = ltb (rank current) (rank info)
libbpf_shut current libbpf_warn = false

-- A newline at the end is overwritten by the end of the text.
unfoldable pub trim : Text → Text
trim [] = []
trim (c ∷ []) = if c == 10 then [] else c ∷ []
trim (c ∷ d ∷ s) = c ∷ trim (d ∷ s)

-- `text` is what `vsnprintf` has printed in `buf`, less what its 1024 bytes do not hold.
unfoldable pub libbpf_print_fn : Level → LibbpfLevel → Text → List Message
unfolding emit level_of_libbpf trim
libbpf_print_fn current level text =
    if libbpf_shut current level
    then []
    else emit current (level_of_libbpf level) (b'l' ∷ b'i' ∷ b'b' ∷ b'b' ∷ b'p' ∷ b'f' ∷ [])
        (trim (take 1023 text))
