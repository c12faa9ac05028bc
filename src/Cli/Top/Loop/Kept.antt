-- ===== src/Cli/Top/Loop/Kept.antt =====
-- What leaves the tracker's blocks in the blacklist: events, snapshots, and keys but for a deletion.
use k_watch.Prelude.{
  ℕ, ◌≡◌, refl, Option, none, some, List, Bool, true, false, not, ◌&&◌, arith, Bool-cases, inl, inr,
}
use k_watch.Prelude.Text.{Text}
use k_watch.Util.Result.{Result, ok, err}
use k_watch.Util.Ipv4.{parse_cidr}
use k_watch.Bpf.Shared.{Event}
use k_watch.Bpf.UserMap.{UserMap}
use k_watch.Bpf.UserMap.LpmTrie.{IsLpmTrie}
use k_watch.Core.FlowTracker.{FlowMapEntry, FlowTracker, process_event, process_flow_snapshot}
use k_watch.Core.FlowTracker.Blocked.{process_flow_snapshot-blocked, process_event-blocked}
use k_watch.Cli.Blacklist.{LpmKey}
use k_watch.Cli.Top.Sync.{Covers}
use k_watch.Tui.App.{
  App, View, dashboard, threats, firewall, demos, FirewallRow, Key, char, key_up, key_down, no_key,
  either, or_same, add_parsed, firewall_map, view_of, view_input, switch, handle_input,
}

module _ (u : UserMap LpmKey ℕ) (laws : IsLpmTrie u) where
  pub snapshot-Covers :
      (t : FlowTracker) (es : List FlowMapEntry) (now_ns : ℕ) (m : u.Map)
      → Covers u laws m t
      → Covers u laws m (process_flow_snapshot t es now_ns)
  snapshot-Covers t es now_ns m c = record {
    blocked = λ ip h. c.blocked ip (process_flow_snapshot-blocked t es now_ns ip h);
  }

  pub event-Covers :
      (t : FlowTracker) (e : Event) (m : u.Map)
      → Covers u laws m t
      → Covers u laws m (process_event t e)
  event-Covers t e m c = record { blocked = λ ip h. c.blocked ip (process_event-blocked t e ip h) }

abbrev pub lists_rows : View → Bool
lists_rows dashboard = false
lists_rows threats = false
lists_rows firewall = true
lists_rows demos = false

-- The key deletes no row of the blacklist: that is done only in the view of the firewall.
abbrev pub keeps_rows : Key → View → Bool
keeps_rows (char ch) v = not (either ch b'd' b'D' && lists_rows v)
keeps_rows key_up v = true
keeps_rows key_down v = true
keeps_rows no_key v = true

module _ (u : UserMap LpmKey ℕ) (laws : IsLpmTrie u) (inet_pton : Text → Option ℕ) where
  -- An entry that is there with the value 1 stays.
  added :
      (m : u.Map) (k j : LpmKey) (o : Option u.Map)
      → u.update m k 1 ≡ o
      → laws.node m j ≡ some 1
      → laws.node (or_same u inet_pton m o) j ≡ some 1
  added m k j none e h = h
  added m k j (some m') e h = ground (arith, h, laws.node-update m m' k j 1 e)

  parsed-kept :
      (r : Result (ℕ × ℕ)) (m : u.Map) (j : LpmKey)
      → laws.node m j ≡ some 1
      → laws.node (add_parsed u inet_pton r m) j ≡ some 1
  parsed-kept (err e) m j h = h
  parsed-kept (ok (addr, prefix)) m j h =
      added m (prefix, addr) j (u.update m (prefix, addr) 1) refl h

  firewall_map-kept :
      (ch : ℕ) (typed : Text) (rows : List FirewallRow) (i : ℕ) (m : u.Map) (j : LpmKey)
      → either ch b'd' b'D' ≡ false
      → laws.node m j ≡ some 1
      → laws.node (firewall_map u inet_pton ch typed rows i m) j ≡ some 1
  unfolding firewall_map
  firewall_map-kept ch typed rows i m j n h =
      ground (arith, n, h, parsed-kept (parse_cidr inet_pton typed) m j h)

  view_input-kept :
      (key : Key) (typed : Text) (rows : List FirewallRow) (v : View) (a : App) (m : u.Map)
      (j : LpmKey)
      → a.current_view ≡ v
      → keeps_rows key v ≡ true
      → laws.node m j ≡ some 1
      → laws.node (view_input u inet_pton key typed rows a m).1 j ≡ some 1
  unfolding view_input
  view_input-kept key typed rows dashboard a m j e k h = rw (view_input, e) h
  view_input-kept key typed rows threats a m j e k h = rw (view_input, e) h
  view_input-kept key typed rows demos a m j e k h = rw (view_input, e) h
  view_input-kept (char ch) typed rows firewall a m j e k h =
      rw (view_input, e)
        (firewall_map-kept ch typed rows a.firewall_selected_index m j (ground (arith, k)) h)
  view_input-kept key_up typed rows firewall a m j e k h = rw (view_input, e) h
  view_input-kept key_down typed rows firewall a m j e k h = rw (view_input, e) h
  view_input-kept no_key typed rows firewall a m j e k h = rw (view_input, e) h

  switch-kept :
      (o : Option View) (other : App × u.Map) (a : App) (m : u.Map) (j : LpmKey)
      → laws.node other.1 j ≡ some 1
      → laws.node m j ≡ some 1
      → laws.node (switch u inet_pton o other a m).1 j ≡ some 1
  switch-kept none other a m j h k = h
  switch-kept (some v) other a m j h k = k

  pub handle_input-kept :
      (key : Key) (typed : Text) (rows : List FirewallRow) (a : App) (m : u.Map) (j : LpmKey)
      → keeps_rows key a.current_view ≡ true
      → laws.node m j ≡ some 1
      → laws.node (handle_input u inet_pton key typed rows a m).1 j ≡ some 1
  unfolding handle_input
  handle_input-kept (char ch) typed rows a m j k h = elim (Bool-cases (either ch b'q' b'Q')) [
    | inl q ↦ rw (handle_input, q) h
    | inr q ↦
        rw (handle_input, q)
          (switch-kept (view_of ch) (view_input u inet_pton (char ch) typed rows a m) a m j
            (view_input-kept (char ch) typed rows a.current_view a m j refl k h) h)
  ]
  handle_input-kept key_up typed rows a m j k h =
      view_input-kept key_up typed rows a.current_view a m j refl k h
  handle_input-kept key_down typed rows a m j k h =
      view_input-kept key_down typed rows a.current_view a m j refl k h
  handle_input-kept no_key typed rows a m j k h =
      view_input-kept no_key typed rows a.current_view a m j refl k h
