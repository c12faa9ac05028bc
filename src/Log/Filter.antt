-- ===== src/Log/Filter.antt =====
-- What reaches the standard error stream.
use k_watch.Prelude.{◌≡◌, refl, [], ◌∷◌, take}
use k_watch.Prelude.Text.{Text}
use k_watch.Log.{
  Level, error, warn, info, debug, trace, LibbpfLevel, libbpf_warn, libbpf_info, libbpf_debug, emit,
  level_of_libbpf, trim, libbpf_print_fn,
}

-- A message of libbpf is printed under the level that corresponds to its own, if emit prints that
-- level: the tests ahead of vsnprintf only skip messages that emit would not print.
pub libbpf_print_fn-emit :
    (current : Level) (l : LibbpfLevel) (text : Text)
    → libbpf_print_fn current l text
      ≡ emit current
          (level_of_libbpf l)
          (b'l' ∷ b'i' ∷ b'b' ∷ b'b' ∷ b'p' ∷ b'f' ∷ [])
          (trim (take 1023 text))
unfolding libbpf_print_fn emit level_of_libbpf
libbpf_print_fn-emit error libbpf_warn text = refl
libbpf_print_fn-emit warn libbpf_warn text = refl
libbpf_print_fn-emit info libbpf_warn text = refl
libbpf_print_fn-emit debug libbpf_warn text = refl
libbpf_print_fn-emit trace libbpf_warn text = refl
libbpf_print_fn-emit error libbpf_info text = refl
libbpf_print_fn-emit warn libbpf_info text = refl
libbpf_print_fn-emit info libbpf_info text = refl
libbpf_print_fn-emit debug libbpf_info text = refl
libbpf_print_fn-emit trace libbpf_info text = refl
libbpf_print_fn-emit error libbpf_debug text = refl
libbpf_print_fn-emit warn libbpf_debug text = refl
libbpf_print_fn-emit info libbpf_debug text = refl
libbpf_print_fn-emit debug libbpf_debug text = refl
libbpf_print_fn-emit trace libbpf_debug text = refl
