-- ===== src/Cli/Blacklist/Tests.antt =====
-- The commands on the blacklist with a list of entries for the kernel's map, and the theorems at
-- their command lines.
use k_watch.Prelude.{ℕ, ◌≡◌, refl, none, some, List, [], ◌∷◌, true, if◌then◌else◌, arith, String}
use k_watch.Util.Result.{ok}
use k_watch.Util.Numbers.{stoul, stoi}
use k_watch.Util.Ipv4.{parse_cidr}
use k_watch.Util.Ipv4.Tests.{pton}
use k_watch.Bpf.UserMap.{UserMap}
use k_watch.Bpf.UserMap.LpmTrie.{same_prefix, longest}
use k_watch.Bpf.UserMap.LpmTrie.LpmList.{lpm_list, lpm_list-IsLpmTrie, node_of}
use k_watch.Cli.Blacklist.{LpmKey, Access, get_blacklist_fd, cmd_block, cmd_unblock}
use k_watch.Cli.Blacklist.Block.{named, all_parse, cmd_block_lem, cmd_unblock_lem}

abbrev owned : Access
owned = record {
  owner = ok (record { pid = 12; start_time_ticks = 7 });
  is_alive = λ o. true;
  opened = true;
}

abbrev trie : UserMap LpmKey ℕ
trie = lpm_list

-- one argument of three does not parse
abbrev arguments : List String
arguments = "10/8" ∷ "junk" ∷ "11" ∷ []

block_run :
    cmd_block pton trie owned ("lo" ∷ arguments) [] ≡ (65, ((8, 10), 1) ∷ ((32, 11), 1) ∷ [])
unfolding cmd_block parse_cidr stoul stoi same_prefix
block_run = refl

-- An address under 10.0.0.0/8 is found, and one with other host bits names the same entry.
covering_run :
    (trie.lookup (((8, 10), 1) ∷ []) (32, 0x0200000A) ≡ some 1)
    × (trie.lookup (((8, 10), 1) ∷ []) (32, 0x0A000002) ≡ none)
    × (trie.delete (((8, 10), 1) ∷ []) (8, 0x0200000A) ≡ some [])
unfolding longest same_prefix
covering_run = (refl, refl, refl)

unblock_run : cmd_unblock pton trie owned ("lo" ∷ arguments) (((8, 10), 1) ∷ []) ≡ (65, [])
unfolding cmd_unblock parse_cidr stoul stoi same_prefix
unblock_run = refl

cmd_block_lem_example :
    ((cmd_block pton trie owned ("lo" ∷ arguments) []).0
      ≡ (if all_parse pton arguments then 0 else 65))
    × ((j : LpmKey)
        → node_of (cmd_block pton trie owned ("lo" ∷ arguments) []).1 j
          ≡ (if named pton j arguments then some 1 else none))
unfolding get_blacklist_fd lpm_list-IsLpmTrie
cmd_block_lem_example =
    cmd_block_lem pton trie lpm_list-IsLpmTrie owned "lo" "10/8" ("junk" ∷ "11" ∷ []) [] refl
      (omega arith)

cmd_unblock_lem_example :
    node_of (cmd_unblock pton trie owned ("lo" ∷ arguments) (((8, 10), 1) ∷ [])).1 (8, 10)
    ≡ (if named pton (8, 10) arguments then none else some 1)
unfolding get_blacklist_fd lpm_list-IsLpmTrie same_prefix
cmd_unblock_lem_example =
    cmd_unblock_lem pton trie lpm_list-IsLpmTrie owned "lo" "10/8" ("junk" ∷ "11" ∷ [])
      (((8, 10), 1) ∷ []) (8, 10) refl
