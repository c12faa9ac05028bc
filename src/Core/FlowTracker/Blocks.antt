-- ===== src/Core/FlowTracker/Blocks.antt =====
-- Which sources `tick_and_get_blocks` blocks and `get_expired_blocks` releases, and what eviction
-- keeps.
use k_watch.Prelude.{
  ℕ, ◌+◌, ◌≡◌, refl, Option, none, some, [], ◌∷◌, Bool, true, false, not, ◌&&◌, leb, if◌then◌else◌,
  arith, Assoc, find, map_values, find-map_values, elem, keys_where, elem-keys_where, holds,
  Distinct, Distinct-map_values, find-retain_where, Distinct-retain_where, u64,
}
use k_watch.Core.FlowTracker.{
  IpStats, FlowTracker, block_loop, expire_loop, keeps_stats, evict_idle, tick_and_get_blocks,
  get_expired_blocks,
}

-- the test of `tick_and_get_blocks`, and what it makes of an entry
abbrev pub to_block : Bool → IpStats → Bool
to_block auto_block s = s.is_flagged && (not s.is_blocked && auto_block)

abbrev pub blocked_at : ℕ → IpStats → IpStats
blocked_at now_ns s = record s { is_blocked = true; block_start_ns = now_ns }

-- the test of `get_expired_blocks`, and what it makes of an entry
abbrev pub has_expired : ℕ → ℕ → IpStats → Bool
has_expired ttl_ns now_ns s = s.is_blocked && leb (u64 (s.block_start_ns + ttl_ns)) now_ns

abbrev pub released : IpStats → IpStats
released s = record s { is_blocked = false; is_flagged = false; syn_count = 0; ack_count = 0 }

abbrev pub blocking : Bool → ℕ → ℕ → IpStats → IpStats
blocking auto_block now_ns ip s = if to_block auto_block s then blocked_at now_ns s else s

abbrev pub expiring : ℕ → ℕ → ℕ → IpStats → IpStats
expiring ttl_ns now_ns ip s = if has_expired ttl_ns now_ns s then released s else s

-- Each loop is a map over the entries, beside the keys that pass its test.
pub block_loop_lem :
    (auto_block : Bool) (now_ns : ℕ) (m : Assoc IpStats)
    → ((block_loop auto_block now_ns m).0 ≡ map_values (blocking auto_block now_ns) m)
      × ((block_loop auto_block now_ns m).1 ≡ keys_where (to_block auto_block) m)
unfolding block_loop map_values keys_where
block_loop_lem auto_block now_ns [] = (refl, refl)
block_loop_lem auto_block now_ns ((ip, s) ∷ m) = ground (arith, block_loop_lem auto_block now_ns m)

pub expire_loop_lem :
    (ttl_ns now_ns : ℕ) (m : Assoc IpStats)
    → ((expire_loop ttl_ns now_ns m).0 ≡ map_values (expiring ttl_ns now_ns) m)
      × ((expire_loop ttl_ns now_ns m).1 ≡ keys_where (has_expired ttl_ns now_ns) m)
unfolding expire_loop map_values keys_where
expire_loop_lem ttl_ns now_ns [] = (refl, refl)
expire_loop_lem ttl_ns now_ns ((ip, s) ∷ m) = ground (arith, expire_loop_lem ttl_ns now_ns m)

-- the entry of a source, after the map
abbrev pub over : (IpStats → IpStats) → Option IpStats → Option IpStats
over f none = none
over f (some s) = some (f s)

-- Eviction erases only entries that are idle, not flagged and not blocked: any other entry stays
-- as it is. For a map that holds no key twice.
pub evict_idle-keeps :
    (t : FlowTracker) (now_ns ip : ℕ) {s : IpStats}
    → Distinct t.ip_stats
    → find ip t.ip_stats ≡ some s
    → keeps_stats now_ns s ≡ true
    → find ip (evict_idle t now_ns).ip_stats ≡ some s
unfolding evict_idle
evict_idle-keeps t now_ns ip d e k =
    ground (arith, find-retain_where (keeps_stats now_ns) ip t.ip_stats d)

-- Eviction invents and changes nothing: what is there afterwards was there before.
pub evict_idle-only :
    (t : FlowTracker) (now_ns ip : ℕ) {s : IpStats}
    → Distinct t.ip_stats
    → find ip (evict_idle t now_ns).ip_stats ≡ some s
    → find ip t.ip_stats ≡ some s
unfolding evict_idle
evict_idle-only t now_ns ip d e =
    ground (arith, find-retain_where (keeps_stats now_ns) ip t.ip_stats d)

pub evict_idle-Distinct :
    (t : FlowTracker) (now_ns : ℕ) → Distinct t.ip_stats → Distinct (evict_idle t now_ns).ip_stats
unfolding evict_idle
evict_idle-Distinct t now_ns d =
    ground (arith, d, Distinct-retain_where (keeps_stats now_ns) t.ip_stats d)

-- whether the source is blocked
abbrev pub is_blocked_ip : FlowTracker → ℕ → Bool
is_blocked_ip t ip = holds (λ s. s.is_blocked) (find ip t.ip_stats)

module _ (t : FlowTracker) (now_ns ip : ℕ) (d : Distinct t.ip_stats) where
  -- tick_and_get_blocks returns a source if and only if automatic blocking is on and its entry is
  -- flagged and not blocked; afterwards the blocked sources are those that were blocked and those
  -- that it returned. For a map that holds no key twice.
  pub tick_and_get_blocks_lem :
      let (t', ips) = tick_and_get_blocks t now_ns in
      (elem ip ips ≡ holds (to_block t.auto_block_enabled) (find ip t.ip_stats))
      × (is_blocked_ip t' ip ≡ (if elem ip ips then true else is_blocked_ip t ip))
  unfolding tick_and_get_blocks evict_idle
  tick_and_get_blocks_lem = ground (
    arith,
    block_loop_lem t.auto_block_enabled now_ns t.ip_stats,
    elem-keys_where (to_block t.auto_block_enabled) ip t.ip_stats d,
    find-map_values (blocking t.auto_block_enabled now_ns) ip t.ip_stats,
    find-retain_where (keeps_stats now_ns) ip
        (map_values (blocking t.auto_block_enabled now_ns) t.ip_stats)
        (Distinct-map_values (blocking t.auto_block_enabled now_ns) t.ip_stats d),
  )

  -- get_expired_blocks returns a source if and only if it is blocked and its block has lasted the
  -- time to live, and afterwards exactly those of the blocked sources are not blocked that it
  -- returned; they are not flagged either. For a map that holds no key twice.
  pub get_expired_blocks_lem :
      let (t', ips) = get_expired_blocks t now_ns in
      (elem ip ips ≡ holds (has_expired t.auto_block_ttl_ns now_ns) (find ip t.ip_stats))
      × (is_blocked_ip t' ip ≡ (if elem ip ips then false else is_blocked_ip t ip))
      × (holds (λ s. s.is_flagged) (find ip t'.ip_stats)
          ≡ (if elem ip ips then false else holds (λ s. s.is_flagged) (find ip t.ip_stats)))
  unfolding get_expired_blocks
  get_expired_blocks_lem = ground (
    arith,
    expire_loop_lem t.auto_block_ttl_ns now_ns t.ip_stats,
    elem-keys_where (has_expired t.auto_block_ttl_ns now_ns) ip t.ip_stats d,
    find-map_values (expiring t.auto_block_ttl_ns now_ns) ip t.ip_stats,
  )

  -- A source that is returned is blocked from `now_ns` on.
  pub tick_and_get_blocks-start :
      let (t', ips) = tick_and_get_blocks t now_ns in
      elem ip ips ≡ true
      → (s : IpStats) × (find ip t.ip_stats ≡ some s)
        × (find ip t'.ip_stats ≡ some (blocked_at now_ns s))
  unfolding tick_and_get_blocks evict_idle
  tick_and_get_blocks-start h = ground (
    arith,
    block_loop_lem t.auto_block_enabled now_ns t.ip_stats,
    elem-keys_where (to_block t.auto_block_enabled) ip t.ip_stats d,
    find-map_values (blocking t.auto_block_enabled now_ns) ip t.ip_stats,
    find-retain_where (keeps_stats now_ns) ip
        (map_values (blocking t.auto_block_enabled now_ns) t.ip_stats)
        (Distinct-map_values (blocking t.auto_block_enabled now_ns) t.ip_stats d),
  )
