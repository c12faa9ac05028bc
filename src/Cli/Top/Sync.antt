-- ===== src/Cli/Top/Sync.antt =====
-- The kernel's blacklist and the tracker's blocks.
use k_watch.Prelude.{
  ℕ, ◌≡◌, ◌≤◌, ◌<◌, ◌+◌, refl, ap, ◌∙◌, Option, none, some, List, [], ◌∷◌, Bool, true, false,
  if◌then◌else◌, arith, elem, Distinct, length, ◌==◌, ◌||◌,
}
use k_watch.Bpf.UserMap.{UserMap}
use k_watch.Bpf.UserMap.LpmTrie.{IsLpmTrie, same_prefix, max_entries, lookup_host}
use k_watch.Core.FlowTracker.{FlowTracker, tick_and_get_blocks, get_expired_blocks}
use k_watch.Core.FlowTracker.Blocks.{is_blocked_ip, tick_and_get_blocks_lem, get_expired_blocks_lem}
use k_watch.Core.FlowTracker.Trace.{IsValid, tick, expire, apply, apply-IsValid}
use k_watch.Cli.Blacklist.{LpmKey}
use k_watch.Cli.Top.{or_same, block_ips, unblock_ips, sync_blocks}

module _ (u : UserMap LpmKey ℕ) (laws : IsLpmTrie u) where
  -- every source that the tracker holds blocked has its entry in the kernel's blacklist, which the
  -- kernel finds for its packets
  pub record Covers (m : u.Map) (t : FlowTracker) : Type 0 where
    pub blocked :
        (ip : ℕ)
        → is_blocked_ip t ip ≡ true
        → (laws.node m (32, ip) ≡ some 1) × (u.lookup m (32, ip) ≡ some 1)

  pub found :
      (m : u.Map) (ip : ℕ)
      → laws.node m (32, ip) ≡ some 1
      → (laws.node m (32, ip) ≡ some 1) × (u.lookup m (32, ip) ≡ some 1)
  found m ip e = (e, lookup_host u laws m ip e)

-- one source, and the sources behind it
if_step :
    (b c : Bool) (w x y z : Option ℕ)
    → z ≡ (if c then w else y)
    → y ≡ (if b then w else x)
    → z ≡ (if b || c then w else x)
if_step b c w x y z h k = ground (arith, h, k)

module _ (u : UserMap LpmKey ℕ) (laws : IsLpmTrie u) where
  host_prefix : (a b : ℕ) → same_prefix (32, a) (32, b) ≡ a == b
  unfolding same_prefix
  host_prefix a b = ground arith

  updated :
      (m : u.Map) (k : ℕ) (j : LpmKey) (o : Option u.Map)
      → u.update m (32, k) 1 ≡ o
      → laws.size m < max_entries
      → (laws.node (or_same u m o) j ≡ (if same_prefix (32, k) j then some 1 else laws.node m j))
        × (laws.size (or_same u m o) ≤ laws.size m + 1)
  updated m k j none e room =
      absurd (ground (arith, room, laws.update_fails m 32 k 1 (omega arith) e))
  updated m k j (some m') e room =
      (laws.node-update m m' (32, k) j 1 e, laws.size-update m m' (32, k) 1 e)

  deleted :
      (m : u.Map) (k : ℕ) (j : LpmKey) (o : Option u.Map)
      → u.delete m (32, k) ≡ o
      → laws.node (or_same u m o) j ≡ (if same_prefix (32, k) j then none else laws.node m j)
  deleted m k j none e = ground (arith, laws.delete_fails m (32, k) j e)
  deleted m k j (some m') e = laws.node-delete m m' (32, k) j e

  block_ips-node :
      (ips : List ℕ) (m : u.Map) (ip : ℕ)
      → laws.size m + length ips ≤ max_entries
      → laws.node (block_ips u ips m) (32, ip)
        ≡ (if elem ip ips then some 1 else laws.node m (32, ip))
  unfolding block_ips elem
  block_ips-node [] m ip room = refl
  block_ips-node (k ∷ ips) m ip room =
      if_step (k == ip) (elem ip ips) (some 1) (laws.node m (32, ip)) _ _
        (block_ips-node ips (or_same u m (u.update m (32, k) 1)) ip (omega (arith, room, step.1)))
        (step.0 ∙ ap (λ b. if b then some 1 else laws.node m (32, ip)) (host_prefix k ip))
    where
      step :
          (laws.node (or_same u m (u.update m (32, k) 1)) (32, ip)
            ≡ (if same_prefix (32, k) (32, ip) then some 1 else laws.node m (32, ip)))
          × (laws.size (or_same u m (u.update m (32, k) 1)) ≤ laws.size m + 1)
      step = updated m k (32, ip) (u.update m (32, k) 1) refl (omega (arith, room))

  unblock_ips-node :
      (ips : List ℕ) (m : u.Map) (ip : ℕ)
      → laws.node (unblock_ips u ips m) (32, ip)
        ≡ (if elem ip ips then none else laws.node m (32, ip))
  unfolding unblock_ips elem
  unblock_ips-node [] m ip = refl
  unblock_ips-node (k ∷ ips) m ip =
      if_step (k == ip) (elem ip ips) none (laws.node m (32, ip)) _ _
        (unblock_ips-node ips (or_same u m (u.delete m (32, k))) ip)
        (deleted m k (32, ip) (u.delete m (32, k)) refl
          ∙ ap (λ b. if b then none else laws.node m (32, ip)) (host_prefix k ip))

  combine :
      (blocked blocked1 blocked2 b c : Bool) (x y z : Option ℕ)
      → (blocked ≡ true → x ≡ some 1)
      → blocked1 ≡ (if b then true else blocked)
      → blocked2 ≡ (if c then false else blocked1)
      → y ≡ (if b then some 1 else x)
      → z ≡ (if c then none else y)
      → blocked2 ≡ true
      → z ≡ some 1
  combine p p1 p2 b c x y z h e1 e2 ey ez k = ground (arith, h, e1, e2, ey, ez, k)

  pub sync_blocks-Covers :
      (t : FlowTracker) (now_ns : ℕ) (m : u.Map)
      → IsValid t
      → laws.size m + length (tick_and_get_blocks t now_ns).1 ≤ max_entries
      → Covers u laws m t
      → Covers u laws (sync_blocks u t now_ns m).1 (sync_blocks u t now_ns m).0
  unfolding sync_blocks tick_and_get_blocks apply
  sync_blocks-Covers t now_ns m v room h = record {
    blocked = λ ip b. found u laws (sync_blocks u t now_ns m).1 ip (
        combine (is_blocked_ip t ip) (is_blocked_ip t1 ip) _ (elem ip to_block) (elem ip to_unblock)
          (laws.node m (32, ip)) (laws.node (block_ips u to_block m) (32, ip)) _
          (λ c. (h.blocked ip c).0) (tick_and_get_blocks_lem t now_ns ip v.distinct).1
          (get_expired_blocks_lem t1 now_ns ip (ticked-Distinct v)).1
          (block_ips-node to_block m ip room)
          (unblock_ips-node to_unblock (block_ips u to_block m) ip) b);
  }
    where
      t1 : FlowTracker
      t1 = (tick_and_get_blocks t now_ns).0

      to_block : List ℕ
      to_block = (tick_and_get_blocks t now_ns).1

      to_unblock : List ℕ
      to_unblock = (get_expired_blocks t1 now_ns).1

      ticked-Distinct : IsValid t → Distinct t1.ip_stats
      ticked-Distinct w = (apply-IsValid t (tick now_ns) w).distinct

  pub sync_blocks-IsValid :
      (t : FlowTracker) (now_ns : ℕ) (m : u.Map) → IsValid t → IsValid (sync_blocks u t now_ns m).0
  unfolding sync_blocks apply
  sync_blocks-IsValid t now_ns m v =
      apply-IsValid (tick_and_get_blocks t now_ns).0 (expire now_ns)
        (apply-IsValid t (tick now_ns) v)
