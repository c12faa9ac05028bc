-- ===== src/Cli/Top/Tests.antt =====
-- A tick that blocks one source, and a table of three counters.
use k_watch.Prelude.{ℕ, ◌*◌, ◌≡◌, refl, some, List, [], ◌∷◌, true, ◌==◌, arith, u64}
use k_watch.Bpf.UserMap.{UserMap}
use k_watch.Bpf.UserMap.Scan.{entries}
use k_watch.Bpf.UserMap.ListMap.{list_map}
use k_watch.Bpf.UserMap.LpmTrie.{same_prefix}
use k_watch.Bpf.UserMap.LpmTrie.LpmList.{lpm_list}
use k_watch.Core.FlowTracker.{
  FlowTracker, no_stats, new, tick_and_get_blocks, get_expired_blocks, block_loop, expire_loop,
  evict_idle,
}
use k_watch.Cli.Blacklist.{LpmKey}
use k_watch.Cli.Top.{ProtocolBreakdown, refresh_protocol_breakdown, current_total, sync_blocks}
use k_watch.Cli.Top.Totals.{accepted, refused, refresh_protocol_breakdown_lem}

abbrev trie : UserMap LpmKey ℕ
trie = lpm_list

abbrev seconds : ℕ
seconds = 1_000_000_000

-- the tracker holds one source, which is flagged
abbrev flagged : FlowTracker
flagged = record (new 2 10 true 300) {
  ip_stats =
      (7, record no_stats { syn_count = 3; is_flagged = true; last_event_ns = seconds }) ∷ [];
}

tick_blocks : (sync_blocks trie flagged (2 * seconds) []).1 ≡ ((32, 7), 1) ∷ []
unfolding sync_blocks tick_and_get_blocks get_expired_blocks block_loop expire_loop evict_idle new
    same_prefix
tick_blocks = refl

abbrev numbers : UserMap ℕ ℕ
numbers = list_map (λ a b. a == b)

abbrev table : List (ℕ × ℕ)
table = (6, 40) ∷ (0xFFFF, 3) ∷ (0, 1) ∷ []

refresh_protocol_breakdown_lem_example :
    (b : ProtocolBreakdown) × (refresh_protocol_breakdown numbers 4 table ≡ some b)
    × (current_total b ≡ u64 (accepted (entries numbers table (6 ∷ 0xFFFF ∷ 0 ∷ []))))
    × (b.dropped ≡ u64 (refused (entries numbers table (6 ∷ 0xFFFF ∷ 0 ∷ []))))
refresh_protocol_breakdown_lem_example =
    refresh_protocol_breakdown_lem numbers 4 table (6 ∷ 0xFFFF ∷ 0 ∷ [])
      (refl, (refl, (refl, refl))) (omega arith)
