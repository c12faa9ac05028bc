-- ===== src/Bpf/PinState.antt =====
-- bpf/pin_state.cpp: who owns an interface, from `/proc/<pid>/stat` and the owner file. The files'
-- contents are input.
pub mod Tests
pub mod ProcStat
pub mod OwnerFile
use k_watch.Prelude.{
  ℕ, zero, suc, ◌+◌, ◌-◌, ◌^◌, Option, none, some, List, [], ◌∷◌, Bool, true, false, not, ◌&&◌,
  ◌||◌, ltb, leb, ◌==◌, if◌then◌else◌, length,
}
use k_watch.Prelude.Text.{Text}
use k_watch.Util.Result.{Result, ok, err, is_ok}
use k_watch.Util.Numbers.{stoul, is_space}

pub record OwnerState : Type 0 where
  pub pid : ℕ
  pub start_time_ticks : ℕ

pub record Stat : Type 0 where
  pub state : ℕ
  pub start_time_ticks : ℕ

abbrev after_space : Text → Option Text
after_space [] = none
after_space (c ∷ s) = if c == 32 then some s else none

-- `stat_line.substr(stat_line.rfind(") ") + 2U)`
unfoldable pub after_paren : Text → Option Text
after_paren [] = none
after_paren (c ∷ s) = elim (after_paren s) [
  | some r ↦ some r
  | none ↦ if c == b')' then after_space s else none
]

abbrev pub close : Text → List Text → List Text
close [] ws = ws
close (c ∷ w) ws = (c ∷ w) ∷ ws

-- the word at the front, and the words behind it
unfoldable pub split_word : Text → Text × List Text
split_word [] = ([], [])
split_word (c ∷ s) =
    let (w, ws) = split_word s in if is_space c then ([], close w ws) else (c ∷ w, ws)

-- the words that `fields >> token` reads
unfoldable pub tokens : Text → List Text
unfolding split_word
tokens s = let (w, ws) = split_word s in close w ws

abbrev pub front : Text → ℕ
front [] = 0
front (c ∷ s) = c

-- `stoull` has the range of `stoul`
unfoldable pub start_time : Text → ℕ → Result Stat
start_time token state = elim (stoul token) [
  | none ↦ err "proc start time invalid"
  | some (parsed, pos) ↦
      if not (pos == length token)
      then err "proc start time invalid"
      else ok (record { state = state; start_time_ticks = parsed })
]

unfoldable pub field_loop : ℕ → List Text → ℕ → Result Stat
unfolding start_time
field_loop field [] state = err "proc start time missing"
field_loop field (token ∷ rest) state =
    let next = field_loop (field + 1) rest (if field == 3 then front token else state) in
    if field == 3 then next else if field == 22 then start_time token state else next

unfoldable pub parse_stat_line : Text → Result Stat
unfolding after_paren tokens field_loop
parse_stat_line stat_line = elim (after_paren stat_line) [
  | none ↦ err "proc stat invalid"
  | some fields ↦ field_loop 3 (tokens fields) 0
]

-- `stat_line pid` is the first line of `/proc/<pid>/stat`, if that file opens. A process number
-- that is not above 0 is 0 here.
module _ (stat_line : ℕ → Option Text) where
  unfoldable pub read_proc_stat : ℕ → Result Stat
  unfolding parse_stat_line
  read_proc_stat pid =
      if pid == 0
      then err "invalid pid"
      else elim (stat_line pid) [ none ↦ err "proc stat missing" | some l ↦ parse_stat_line l ]

  unfoldable pub is_owner_alive : OwnerState → Bool
  unfolding read_proc_stat
  is_owner_alive owner = elim (read_proc_stat owner.pid) [
    | err e ↦ false
    | ok stat ↦ not (stat.state == b'Z') && stat.start_time_ticks == owner.start_time_ticks
  ]

  -- `kill(pid, 0)` succeeded, or failed with EPERM
  unfoldable pub is_pid_alive : Bool → Bool → ℕ → Bool
  unfolding read_proc_stat
  is_pid_alive kill_ok is_eperm pid = elim (read_proc_stat pid) [
    | ok stat ↦ not (stat.state == b'Z')
    | err e ↦ if pid == 0 then false else if kill_ok then true else is_eperm
  ]

  unfoldable pub current_owner_state : ℕ → Result OwnerState
  unfolding read_proc_stat
  current_owner_state pid = elim (read_proc_stat pid) [
    | err e ↦ err e
    | ok stat ↦ ok (record { pid = pid; start_time_ticks = stat.start_time_ticks })
  ]

-- What `fscanf(fp, "%ld %llu", &pid, &start_time)` has read; a negative `pid` is `pid_negative`.
pub record OwnerScan : Type 0 where
  pub scanned : ℕ
  pub pid_negative : Bool
  pub pid : ℕ
  pub start_time : ℕ

-- `none` where the owner file does not open
unfoldable pub read_owner_state : Option OwnerScan → Result OwnerState
read_owner_state none = err "owner file missing"
read_owner_state (some s) =
    if not (s.scanned == 2)
      || (s.pid_negative || (s.pid == 0 || (ltb (2 ^ 31 - 1) s.pid || s.start_time == 0)))
    then err "owner file invalid"
    else ok (record { pid = s.pid; start_time_ticks = s.start_time })

unfoldable pub read_owner_pid : Option OwnerScan → Result ℕ
unfolding read_owner_state
read_owner_pid f = elim (read_owner_state f) [ err e ↦ err e | ok owner ↦ ok owner.pid ]
