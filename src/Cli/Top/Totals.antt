-- ===== src/Cli/Top/Totals.antt =====
-- The packet totals of the dashboard.
use k_watch.Prelude.{
  ℕ, ◌+◌, ◌^◌, ◌<◌, ◌≡◌, refl, ap, ◌∙◌, none, some, List, [], ◌∷◌, ◌==◌, if◌then◌else◌, arith,
  length, u64,
}
use k_watch.Bpf.UserMap.{UserMap}
use k_watch.Bpf.UserMap.Scan.{Chain, entries, scan_loop-Chain}
use k_watch.Cli.Top.{
  ProtocolBreakdown, no_packets, add_count, add_counts, refresh_protocol_breakdown, current_total,
}

-- the packets that were not dropped, and those that were
abbrev pub accepted : List (ℕ × ℕ) → ℕ
accepted [] = 0
accepted ((key, value) ∷ es) = if key == 0xFFFF then accepted es else value + accepted es

abbrev pub refused : List (ℕ × ℕ) → ℕ
refused [] = 0
refused ((key, value) ∷ es) = if key == 0xFFFF then value + refused es else refused es

add_count-total :
    (key value : ℕ) (b : ProtocolBreakdown)
    → current_total (add_count key value b)
      ≡ (if key == 0xFFFF then current_total b else u64 (current_total b + value))
unfolding add_count current_total
add_count-total key value b = ground arith

add_counts-total :
    (es : List (ℕ × ℕ)) (b : ProtocolBreakdown)
    → current_total (add_counts es b) ≡ u64 (current_total b + accepted es)
unfolding add_counts current_total
add_counts-total [] b = ground arith
add_counts-total ((key, value) ∷ es) b =
    ground (arith, add_counts-total es (add_count key value b), add_count-total key value b)

add_counts-dropped :
    (es : List (ℕ × ℕ)) (b : ProtocolBreakdown)
    → b.dropped < 2 ^ 64
    → (add_counts es b).dropped ≡ u64 (b.dropped + refused es)
unfolding add_counts add_count
add_counts-dropped [] b h = ground arith
add_counts-dropped ((key, value) ∷ es) b h =
    ground (arith, add_counts-dropped es (add_count key value b))

module _ (u : UserMap ℕ ℕ) where
  -- Where the kernel gives the keys `ks` one after another, from the first, and a fuel above their
  -- number: the breakdown is there, the total that top takes its rate from is the sum modulo 2^64
  -- of all counters but 0xFFFF, each counted once, and its dropped packets are the sum of the
  -- counters 0xFFFF.
  pub refresh_protocol_breakdown_lem :
      (fuel : ℕ) (m : u.Map) (ks : List ℕ)
      → Chain u m none ks
      → length ks < fuel
      → (b : ProtocolBreakdown) × (refresh_protocol_breakdown u fuel m ≡ some b)
        × (current_total b ≡ u64 (accepted (entries u m ks)))
        × (b.dropped ≡ u64 (refused (entries u m ks)))
  unfolding refresh_protocol_breakdown current_total
  refresh_protocol_breakdown_lem fuel m ks c h = (
    add_counts (entries u m ks) no_packets,
    rw (refresh_protocol_breakdown, scan_loop-Chain u fuel m none ks c h) refl,
    add_counts-total (entries u m ks) no_packets
        ∙ ap u64 {x = 0 + accepted (entries u m ks)} {y = accepted (entries u m ks)} (omega arith),
    add_counts-dropped (entries u m ks) no_packets (omega arith)
        ∙ ap u64 {x = 0 + refused (entries u m ks)} {y = refused (entries u m ks)} (omega arith),
  )
