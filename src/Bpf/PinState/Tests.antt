-- ===== src/Bpf/PinState/Tests.antt =====
-- The owner of an interface by a stat line.
use k_watch.Prelude.{
  ℕ, ◌≡◌, refl, Option, some, List, [], ◌∷◌, ◌++◌, not, ◌&&◌, ◌==◌, arith, All, replicate,
}
use k_watch.Prelude.Text.{Text, codes}
use k_watch.Util.Numbers.{to_string}
use k_watch.Bpf.PinState.{after_paren, is_owner_alive}
use k_watch.Bpf.PinState.ProcStat.{IsWord, join, is_owner_alive_lem}

-- a sleeping process named `a) b`, started at 7
abbrev comm_text : Text
comm_text = codes "12 (a) b"

abbrev zeros : List Text
zeros = replicate 18 (b'0' ∷ []) ++ ((b'7' ∷ []) ∷ ((b'0' ∷ []) ∷ []))

abbrev line_of : ℕ → Option Text
line_of pid = some (comm_text ++ (b')' ∷ 32 ∷ join ((b'S' ∷ []) ∷ zeros)))

zeros-IsWord : All IsWord ((b'S' ∷ []) ∷ zeros)
zeros-IsWord = ground arith

is_owner_alive_lem_example :
    is_owner_alive line_of (record { pid = 12; start_time_ticks = 7 })
    ≡ (not (b'S' == b'Z') && 7 == 7)
unfolding after_paren to_string
is_owner_alive_lem_example =
    is_owner_alive_lem line_of (record { pid = 12; start_time_ticks = 7 }) comm_text b'S' [] zeros 7
      (ground arith) refl zeros-IsWord refl refl (omega arith)
