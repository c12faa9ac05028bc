-- ===== src/Cli/Top/Firewall.antt =====
-- src/cli/commands/top.cpp: the rows of the view of the firewall, `refresh_firewall_snapshot`.
use k_watch.Prelude.{
  ℕ, zero, suc, ◌+◌, ◌-◌, ◌*◌, ◌/◌, ◌^◌, ◌<◌, ◌≡◌, refl, ap, ap₂, sym, ◌∙◌, Option, none, some,
  List, [], ◌∷◌, Bool, leb, ◌==◌, ◌&&◌, if◌then◌else◌, length, arith, Assoc, insert, at,
  find-insert, elem, sub64,
}
use k_watch.Bpf.UserMap.{UserMap}
use k_watch.Bpf.UserMap.Scan.{Chain}
use k_watch.Cli.Blacklist.{LpmKey}
use k_watch.Tui.App.{FirewallRow}

pub record FirewallMeta : Type 0 where
  pub first_seen_ns : ℕ
  pub drop_baseline : ℕ

abbrev pub no_meta : FirewallMeta
no_meta = record { first_seen_ns = 0; drop_baseline = 0 }

abbrev pub firewall_id : LpmKey → ℕ
firewall_id (prefixlen, addr) = prefixlen * 2 ^ 32 + addr

-- `if (meta.first_seen_ns == 0U)`
unfoldable pub seen : FirewallMeta → ℕ → ℕ → FirewallMeta
seen meta now_ns dropped_total =
    if meta.first_seen_ns == 0
    then record { first_seen_ns = now_ns; drop_baseline = dropped_total }
    else meta

unfoldable pub firewall_row : LpmKey → FirewallMeta → ℕ → ℕ → FirewallRow
firewall_row (prefixlen, addr) meta now_ns dropped_total = record {
  prefixlen = prefixlen;
  ip = addr;
  age_s = sub64 now_ns meta.first_seen_ns / 1_000_000_000;
  drop_count =
      if leb meta.drop_baseline dropped_total then dropped_total - meta.drop_baseline else 0;
}

-- the body of the loop for each key
unfoldable pub firewall_rows_of :
    List LpmKey → Assoc FirewallMeta → ℕ → ℕ → List FirewallRow × Assoc FirewallMeta
unfolding seen firewall_row
firewall_rows_of [] metas now_ns dropped_total = ([], metas)
firewall_rows_of (key ∷ keys) metas now_ns dropped_total =
    let meta = seen (at no_meta (firewall_id key) metas) now_ns dropped_total in
    let (rows, metas') =
      firewall_rows_of keys (insert (firewall_id key) meta metas) now_ns dropped_total in
    (firewall_row key meta now_ns dropped_total ∷ rows, metas')

module _ (blacklist : UserMap LpmKey ℕ) where
  abbrev pub and_key : LpmKey → Option (List LpmKey) → Option (List LpmKey)
  and_key k none = none
  and_key k (some ks) = some (k ∷ ks)

  -- `while (bpf_map_get_next_key(blacklist_fd, lookup_key, &next_key) == 0)`
  unfoldable pub key_loop : ℕ → blacklist.Map → Option LpmKey → Option (List LpmKey)
  key_loop zero m prev = none
  key_loop (suc f) m prev = elim (blacklist.next_key m prev) [
    | none ↦ some []
    | some next ↦ and_key next (key_loop f m (some next))
  ]

  abbrev pub rows_of_keys :
      Option (List LpmKey)
      → Assoc FirewallMeta
      → ℕ
      → ℕ
      → Option (List FirewallRow × Assoc FirewallMeta)
  rows_of_keys none metas now_ns dropped_total = none
  rows_of_keys (some keys) metas now_ns dropped_total =
      some (firewall_rows_of keys metas now_ns dropped_total)

  unfoldable pub refresh_firewall_snapshot :
      ℕ
      → blacklist.Map
      → Assoc FirewallMeta
      → ℕ
      → ℕ
      → Option (List FirewallRow × Assoc FirewallMeta)
  unfolding key_loop firewall_rows_of
  refresh_firewall_snapshot fuel m metas now_ns dropped_total =
      rows_of_keys (key_loop fuel m none) metas now_ns dropped_total

  key_loop-Chain :
      (f : ℕ) (m : blacklist.Map) (prev : Option LpmKey) (ks : List LpmKey)
      → Chain blacklist m prev ks
      → length ks < f
      → key_loop f m prev ≡ some ks
  unfolding key_loop
  key_loop-Chain zero m prev ks c h = elim h [ ]
  key_loop-Chain (suc f) m prev [] c h = rw (key_loop, c) refl
  key_loop-Chain (suc f) m prev (k ∷ ks) (e, c) h =
      rw (key_loop, e) (ap (and_key k) (key_loop-Chain f m (some k) ks c (omega arith)))

-- A row for each key: the seconds since the first time, modulo 2^64 nanoseconds, and the drops above
-- the baseline, by the metadata as they are after the refresh.
abbrev pub rows_by : Assoc FirewallMeta → ℕ → ℕ → List LpmKey → List FirewallRow
rows_by metas now_ns dropped_total [] = []
rows_by metas now_ns dropped_total ((prefixlen, addr) ∷ keys) =
    record {
      prefixlen = prefixlen;
      ip = addr;
      age_s =
          sub64 now_ns (at no_meta (prefixlen * 2 ^ 32 + addr) metas).first_seen_ns / 1_000_000_000;
      drop_count = dropped_total - (at no_meta (prefixlen * 2 ^ 32 + addr) metas).drop_baseline;
    }
    ∷ rows_by metas now_ns dropped_total keys

cut_off : (a b : ℕ) → (if leb a b then b - a else 0) ≡ b - a
cut_off a b = ground arith

drops_above :
    (key : LpmKey) (meta : FirewallMeta) (now_ns dropped_total : ℕ)
    → firewall_row key meta now_ns dropped_total ≡ record {
      prefixlen = key.0;
      ip = key.1;
      age_s = sub64 now_ns meta.first_seen_ns / 1_000_000_000;
      drop_count = dropped_total - meta.drop_baseline;
    }
unfolding firewall_row
drops_above (prefixlen, addr) meta now_ns dropped_total =
    ap
      (λ n. record {
        prefixlen = prefixlen;
        ip = addr;
        age_s = sub64 now_ns meta.first_seen_ns / 1_000_000_000;
        drop_count = n;
      })
      (cut_off meta.drop_baseline dropped_total)

abbrev pub ids : List LpmKey → List ℕ
ids [] = []
ids (k ∷ ks) = firewall_id k ∷ ids ks

-- What a refresh makes of the metadata of an entry: kept, but for a listed entry that was not seen.
abbrev pub refreshed_meta : Bool → FirewallMeta → ℕ → ℕ → FirewallMeta
refreshed_meta is_listed meta now_ns dropped_total =
    if is_listed && meta.first_seen_ns == 0
    then record { first_seen_ns = now_ns; drop_baseline = dropped_total }
    else meta

seen_twice :
    (meta : FirewallMeta) (now_ns dropped_total : ℕ)
    → seen (seen meta now_ns dropped_total) now_ns dropped_total ≡ seen meta now_ns dropped_total
unfolding seen
seen_twice meta now_ns dropped_total = ground arith

firewall_rows_of-metas :
    (keys : List LpmKey) (metas : Assoc FirewallMeta) (now_ns dropped_total id : ℕ)
    → at no_meta id (firewall_rows_of keys metas now_ns dropped_total).1
      ≡ refreshed_meta (elem id (ids keys)) (at no_meta id metas) now_ns dropped_total
unfolding firewall_rows_of elem seen
firewall_rows_of-metas [] metas now_ns dropped_total id = refl
firewall_rows_of-metas (k ∷ keys) metas now_ns dropped_total id = ground (
  arith,
  firewall_rows_of-metas keys
      (insert (firewall_id k) (seen (at no_meta (firewall_id k) metas) now_ns dropped_total) metas)
      now_ns dropped_total id,
  find-insert (firewall_id k) id (seen (at no_meta (firewall_id k) metas) now_ns dropped_total)
      metas,
  seen_twice (at no_meta id metas) now_ns dropped_total,
)

-- a row by its metadata
abbrev shown : LpmKey → ℕ → ℕ → FirewallMeta → FirewallRow
shown (prefixlen, addr) now_ns dropped_total meta = record {
  prefixlen = prefixlen;
  ip = addr;
  age_s = sub64 now_ns meta.first_seen_ns / 1_000_000_000;
  drop_count = dropped_total - meta.drop_baseline;
}

firewall_rows_of-rows :
    (keys : List LpmKey) (metas : Assoc FirewallMeta) (now_ns dropped_total : ℕ)
    → (firewall_rows_of keys metas now_ns dropped_total).0
      ≡ rows_by (firewall_rows_of keys metas now_ns dropped_total).1 now_ns dropped_total keys
unfolding firewall_rows_of
firewall_rows_of-rows [] metas now_ns dropped_total = refl
firewall_rows_of-rows (k ∷ keys) metas now_ns dropped_total =
    ap₂ (λ row rows. row ∷ rows)
      (drops_above k meta now_ns dropped_total ∙ ap (shown k now_ns dropped_total) (sym own))
      (firewall_rows_of-rows keys (insert (firewall_id k) meta metas) now_ns dropped_total)
  where
    meta : FirewallMeta
    meta = seen (at no_meta (firewall_id k) metas) now_ns dropped_total

    own :
        at no_meta
          (firewall_id k)
          (firewall_rows_of keys (insert (firewall_id k) meta metas) now_ns dropped_total).1
        ≡ meta
    own = ground (
      arith,
      firewall_rows_of-metas keys (insert (firewall_id k) meta metas) now_ns dropped_total
          (firewall_id k),
      find-insert (firewall_id k) (firewall_id k) meta metas,
      seen_twice (at no_meta (firewall_id k) metas) now_ns dropped_total,
    )

-- the metadata behind a refresh
abbrev pub metas_after : List LpmKey → Assoc FirewallMeta → ℕ → ℕ → Assoc FirewallMeta
metas_after keys metas now_ns dropped_total = (firewall_rows_of keys metas now_ns dropped_total).1

-- Where the kernel gives the keys of the blacklist one after another, from the first, and a fuel
-- above their number: there is a row for each key, in this order, with the whole seconds since the
-- entry's first time, modulo 2^64 nanoseconds, and the drops above its baseline, or 0; and the
-- first time and the baseline of an entry are what they were, but where it is listed and its first
-- time is 0 they are the time and the drops of this refresh. So an entry's age runs from the first
-- refresh that listed it, also if it was deleted in between.
pub refresh_firewall_snapshot_lem :
    (u : UserMap LpmKey ℕ) (fuel : ℕ) (m : u.Map) (keys : List LpmKey) (metas : Assoc FirewallMeta)
    (now_ns dropped_total id : ℕ)
    → Chain u m none keys
    → length keys < fuel
    → (refresh_firewall_snapshot u fuel m metas now_ns dropped_total
        ≡ some (
          rows_by (metas_after keys metas now_ns dropped_total) now_ns dropped_total keys,
          metas_after keys metas now_ns dropped_total,
        ))
      × (at no_meta id (metas_after keys metas now_ns dropped_total)
          ≡ refreshed_meta (elem id (ids keys)) (at no_meta id metas) now_ns dropped_total)
unfolding refresh_firewall_snapshot
refresh_firewall_snapshot_lem u fuel m keys metas now_ns dropped_total id c h = (
  rw (refresh_firewall_snapshot, key_loop-Chain u fuel m none keys c h)
      (ap (λ rows. some (rows, metas_after keys metas now_ns dropped_total))
        (firewall_rows_of-rows keys metas now_ns dropped_total)),
  firewall_rows_of-metas keys metas now_ns dropped_total id,
)
