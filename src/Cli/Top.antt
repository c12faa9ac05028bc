-- ===== src/Cli/Top.antt =====
-- cli/commands/top.cpp: the numbers of packets by protocol, and what a tick of the dashboard does
-- to the rates and to the blacklist.
pub mod Sync
pub mod Totals
pub mod Threats
pub mod Firewall
pub mod Loop
pub mod Command
pub mod Tests
use k_watch.Prelude.{
  ℕ, zero, suc, ◌+◌, ◌*◌, Option, none, some, List, [], ◌∷◌, Bool, ltb, ◌==◌, if◌then◌else◌, u64,
  sub64,
}
use k_watch.Bpf.UserMap.{UserMap, scan_loop}
use k_watch.Core.PpsWindow.{PpsWindow, push}
use k_watch.Core.FlowTracker.{FlowTracker, tick_and_get_blocks, get_expired_blocks}
use k_watch.Cli.Blacklist.{LpmKey}

pub record ProtocolBreakdown : Type 0 where
  pub tcp : ℕ
  pub udp : ℕ
  pub icmp : ℕ
  pub other : ℕ
  pub dropped : ℕ

abbrev pub no_packets : ProtocolBreakdown
no_packets = record { tcp = 0; udp = 0; icmp = 0; other = 0; dropped = 0 }

unfoldable pub add_count : ℕ → ℕ → ProtocolBreakdown → ProtocolBreakdown
add_count key value b =
    if key == 1
    then record b { icmp = u64 (b.icmp + value) }
    else if key == 6
    then record b { tcp = u64 (b.tcp + value) }
    else if key == 17
    then record b { udp = u64 (b.udp + value) }
    else if key == 0xFFFF
    then record b { dropped = u64 (b.dropped + value) }
    else record b { other = u64 (b.other + value) }

unfoldable pub add_counts : List (ℕ × ℕ) → ProtocolBreakdown → ProtocolBreakdown
unfolding add_count
add_counts [] b = b
add_counts ((key, value) ∷ es) b = add_counts es (add_count key value b)

module _ (counts : UserMap ℕ ℕ) where
  abbrev pub broken_down : Option (List (ℕ × ℕ)) → Option ProtocolBreakdown
  broken_down none = none
  broken_down (some es) = some (add_counts es no_packets)

  -- `fuel` bounds the loop over the map
  unfoldable pub refresh_protocol_breakdown : ℕ → counts.Map → Option ProtocolBreakdown
  unfolding add_counts
  refresh_protocol_breakdown fuel m = broken_down (scan_loop counts fuel m none)

unfoldable pub current_total : ProtocolBreakdown → ℕ
current_total b = u64 (b.tcp + b.udp + b.icmp + b.other)

pub record Rates : Type 0 where
  pub last_pkt_total : ℕ
  pub current_pps : ℕ
  pub pps_win : PpsWindow

-- two ticks a second; the first total only starts the counting
unfoldable pub update_rates : Rates → ℕ → Rates
update_rates r total =
    if ltb 0 r.last_pkt_total
    then (let pps = u64 (sub64 total r.last_pkt_total * 2) in
        record { last_pkt_total = total; current_pps = pps; pps_win = push r.pps_win pps })
    else record r { last_pkt_total = total; current_pps = 0 }

module _ (blacklist : UserMap LpmKey ℕ) where
  -- the map behind a call whose failure is ignored
  abbrev pub or_same : blacklist.Map → Option blacklist.Map → blacklist.Map
  or_same m none = m
  or_same m (some m') = m'

  unfoldable pub block_ips : List ℕ → blacklist.Map → blacklist.Map
  block_ips [] m = m
  block_ips (ip ∷ ips) m = block_ips ips (or_same m (blacklist.update m (32, ip) 1))

  unfoldable pub unblock_ips : List ℕ → blacklist.Map → blacklist.Map
  unblock_ips [] m = m
  unblock_ips (ip ∷ ips) m = unblock_ips ips (or_same m (blacklist.delete m (32, ip)))

  -- the tracker's decisions of a tick, and the blacklist
  unfoldable pub sync_blocks : FlowTracker → ℕ → blacklist.Map → FlowTracker × blacklist.Map
  unfolding block_ips unblock_ips
  sync_blocks t now_ns m =
      let (t1, to_block) = tick_and_get_blocks t now_ns in
      let (t2, to_unblock) = get_expired_blocks t1 now_ns in
      (t2, unblock_ips to_unblock (block_ips to_block m))
