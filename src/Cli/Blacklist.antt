-- ===== src/Cli/Blacklist.antt =====
-- cli/commands/block.cpp, unblock.cpp and list.cpp: the commands on the blacklist of an interface,
-- over the pinned map.
pub mod Block
pub mod Listing
pub mod Tests
use k_watch.Prelude.{
  ℕ, ◌+◌, Option, none, some, List, [], ◌∷◌, ◌++◌, Bool, true, false, not, ◌&&◌, ltb, ◌==◌,
  if◌then◌else◌, map, String,
}
use k_watch.Prelude.Text.{Text, codes}
use k_watch.Util.Result.{Result, ok, err}
use k_watch.Util.Numbers.{to_string}
use k_watch.Util.Ipv4.{parse_cidr, format}
use k_watch.Bpf.PinState.{OwnerState}
use k_watch.Bpf.UserMap.{UserMap, scan_loop}

-- `struct lpm_key`
abbrev pub LpmKey : Type 0
LpmKey = ℕ × ℕ

-- What the commands find for the interface: its owner file, and whether the pinned map opens.
pub record Access : Type 0 where
  pub owner : Result OwnerState
  pub is_alive : OwnerState → Bool
  pub opened : Bool

-- whether `get_blacklist_fd` gives a file descriptor
unfoldable pub get_blacklist_fd : Access → Bool
get_blacklist_fd a = elim a.owner [
  | err e ↦ false
  | ok o ↦ if a.is_alive o then a.opened else false
]

-- A parsed argument as the key of the map.
abbrev pub key_of : ℕ × ℕ → LpmKey
key_of (address, prefix) = (prefix, address)

module _ (inet_pton : Text → Option ℕ) (blacklist : UserMap LpmKey ℕ) where
  -- the map behind a call that may fail
  abbrev pub settle : blacklist.Map → Option blacklist.Map → blacklist.Map × Bool
  settle m none = (m, false)
  settle m (some m') = (m', true)

  -- one argument of `block`, and whether it was added
  unfoldable pub block_arg : blacklist.Map → String → blacklist.Map × Bool
  block_arg m arg = elim (parse_cidr inet_pton (codes arg)) [
    | err e ↦ (m, false)
    | ok r ↦ settle m (blacklist.update m (key_of r) 1)
  ]

  unfoldable pub unblock_arg : blacklist.Map → String → blacklist.Map × Bool
  unblock_arg m arg = elim (parse_cidr inet_pton (codes arg)) [
    | err e ↦ (m, false)
    | ok r ↦ settle m (blacklist.delete m (key_of r))
  ]

  -- the loop over the arguments, with `all_ok`
  unfoldable pub arg_loop :
      (blacklist.Map → String → blacklist.Map × Bool)
      → blacklist.Map
      → List String
      → Bool
      → blacklist.Map × Bool
  arg_loop f m [] all_ok = (m, all_ok)
  arg_loop f m (arg ∷ args) all_ok = let (m', done) = f m arg in arg_loop f m' args (all_ok && done)

  abbrev pub status_of : blacklist.Map × Bool → ℕ × blacklist.Map
  status_of (m, all_ok) = (if all_ok then 0 else 65, m)

  -- the exit status and the map: at least one argument behind the interface is asked for
  abbrev pub on_blacklist :
      (blacklist.Map → String → blacklist.Map × Bool)
      → Access
      → List String
      → blacklist.Map
      → ℕ × blacklist.Map
  on_blacklist f a [] m = (64, m)
  on_blacklist f a (if_name ∷ []) m = (64, m)
  on_blacklist f a (if_name ∷ arg ∷ args) m =
      if get_blacklist_fd a then status_of (arg_loop f m (arg ∷ args) true) else (65, m)

  unfoldable pub cmd_block : Access → List String → blacklist.Map → ℕ × blacklist.Map
  unfolding block_arg get_blacklist_fd arg_loop
  cmd_block a args m = on_blacklist block_arg a args m

  unfoldable pub cmd_unblock : Access → List String → blacklist.Map → ℕ × blacklist.Map
  unfolding unblock_arg get_blacklist_fd arg_loop
  cmd_unblock a args m = on_blacklist unblock_arg a args m

module _ (inet_ntop : ℕ → Option Text) (blacklist : UserMap LpmKey ℕ) where
  -- `%s/%u`, and the end of the line apart
  abbrev pub line : LpmKey × ℕ → Text
  line ((prefixlen, data_word), value) = format inet_ntop data_word ++ (b'/' ∷ to_string prefixlen)

  abbrev pub lines : Option (List (LpmKey × ℕ)) → Option (List Text)
  lines none = none
  lines (some es) = some (map line es)

  -- the exit status and the lines; `fuel` bounds the loop over the map
  unfoldable pub cmd_list : ℕ → Access → List String → blacklist.Map → Option (ℕ × List Text)
  unfolding get_blacklist_fd
  cmd_list fuel a [] m = some (64, [])
  cmd_list fuel a (if_name ∷ []) m =
      if get_blacklist_fd a
      then elim (lines (scan_loop blacklist fuel m none)) [ none ↦ none | some l ↦ some (0, l) ]
      else some (65, [])
  cmd_list fuel a (if_name ∷ arg ∷ args) m = some (64, [])
