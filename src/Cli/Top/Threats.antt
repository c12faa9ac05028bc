-- ===== src/Cli/Top/Threats.antt =====
-- src/cli/commands/top.cpp: the rows of the view of threats, `refresh_threat_snapshot`.
use k_watch.Prelude.{
  ℕ, suc, length, ◌≤◌, ◌≡◌, refl, ap, ◌∙◌, Option, none, some, List, [], ◌∷◌, Bool, true, false,
  not, ltb, ◌==◌, if◌then◌else◌, arith, Bool-cases, inl, inr, Assoc, find, Distinct,
}
use k_watch.Core.FlowTracker.{IpStats, FlowTracker}
use k_watch.Tui.App.{ThreatRow}

-- the comparison that the sort is given
unfoldable pub row_before : ThreatRow → ThreatRow → Bool
row_before lhs rhs =
    if not (lhs.syn_count == rhs.syn_count)
    then ltb rhs.syn_count lhs.syn_count
    else ltb lhs.ip rhs.ip

-- `std::sort`: the order of the comparison is total on rows of different addresses, so any sort gives
-- the same rows
unfoldable pub insert_row : ThreatRow → List ThreatRow → List ThreatRow
unfolding row_before
insert_row r [] = r ∷ []
insert_row r (s ∷ rows) =
    let rest = insert_row r rows in if row_before s r then s ∷ rest else r ∷ s ∷ rows

abbrev pub row_of : ℕ → IpStats → ThreatRow
row_of ip stats = record {
  ip = ip;
  syn_count = stats.syn_count;
  ack_count = stats.ack_count;
  ttl = stats.last_ttl;
  flagged = stats.is_flagged;
}

unfoldable pub threat_rows_of : Assoc IpStats → List ThreatRow
unfolding insert_row
threat_rows_of [] = []
threat_rows_of ((ip, stats) ∷ m) = insert_row (row_of ip stats) (threat_rows_of m)

unfoldable pub refresh_threat_snapshot : FlowTracker → List ThreatRow
unfolding threat_rows_of
refresh_threat_snapshot tracker = threat_rows_of tracker.ip_stats

-- no row stands before one that the comparison puts before it
abbrev Ordered : List ThreatRow → Type 0
Ordered [] = Unit
Ordered (r ∷ []) = Unit
Ordered (r ∷ s ∷ rows) = (row_before s r ≡ false) × Ordered (s ∷ rows)

-- A row has more SYNs than the next one, or as many and an address that is not above the next one's.
abbrev pub Sorted : List ThreatRow → Type 0
Sorted [] = Unit
Sorted (r ∷ []) = Unit
Sorted (r ∷ s ∷ rows) =
    (s.syn_count ≤ r.syn_count) × (r.syn_count ≡ s.syn_count → r.ip ≤ s.ip) × Sorted (s ∷ rows)

-- the row of a source
unfoldable pub find_row : ℕ → List ThreatRow → Option ThreatRow
find_row ip [] = none
find_row ip (r ∷ rows) = if r.ip == ip then some r else find_row ip rows

abbrev map_row : ℕ → Option IpStats → Option ThreatRow
map_row ip none = none
map_row ip (some stats) = some (row_of ip stats)

row_before_asym : (a b : ThreatRow) → row_before a b ≡ true → row_before b a ≡ false
unfolding row_before
row_before_asym a b h = ground (arith, h)

insert_row-Ordered :
    (r : ThreatRow) (rows : List ThreatRow) → Ordered rows → Ordered (insert_row r rows)
unfolding insert_row row_before
insert_row-Ordered r [] h = tt
insert_row-Ordered r (s ∷ []) h = elim (Bool-cases (row_before s r)) [
  | inl e ↦ rw (insert_row, e) (row_before_asym s r e, tt)
  | inr e ↦ rw (insert_row, e) (e, tt)
]
insert_row-Ordered r (s ∷ t ∷ rows) (h, k) = elim (Bool-cases (row_before s r)) [
  | inr e ↦ rw (insert_row, e) (e, (h, k))
  | inl e ↦ rw (insert_row, e) (behind_first e (row_before t r) (insert_row-Ordered r (t ∷ rows) k))
]
  where
    behind_first :
        row_before s r ≡ true
        → (b : Bool) → Ordered (if b then t ∷ insert_row r rows else r ∷ t ∷ rows)
        → Ordered (s ∷ (if b then t ∷ insert_row r rows else r ∷ t ∷ rows))
    behind_first e true i = (h, i)
    behind_first e false i = (row_before_asym s r e, i)

find_row-insert_row :
    (r : ThreatRow) (rows : List ThreatRow) (ip : ℕ)
    → find_row r.ip rows ≡ none
    → find_row ip (insert_row r rows) ≡ (if r.ip == ip then some r else find_row ip rows)
unfolding find_row insert_row
find_row-insert_row r [] ip h = refl
find_row-insert_row r (s ∷ rows) ip h = ground (arith, h, find_row-insert_row r rows ip)

find_row-threat_rows_of :
    (m : Assoc IpStats) (ip : ℕ)
    → Distinct m
    → find_row ip (threat_rows_of m) ≡ map_row ip (find ip m)
unfolding find_row threat_rows_of find
find_row-threat_rows_of [] ip d = refl
find_row-threat_rows_of ((k, v) ∷ m) ip (n, d) = ground (
  arith,
  find_row-insert_row (row_of k v) (threat_rows_of m) ip,
  find_row-threat_rows_of m k d,
  find_row-threat_rows_of m ip d,
  n,
)

threat_rows_of-Ordered : (m : Assoc IpStats) → Ordered (threat_rows_of m)
unfolding threat_rows_of
threat_rows_of-Ordered [] = tt
threat_rows_of-Ordered ((k, v) ∷ m) =
    insert_row-Ordered (row_of k v) (threat_rows_of m) (threat_rows_of-Ordered m)

length-insert_row :
    (r : ThreatRow) (rows : List ThreatRow) → length (insert_row r rows) ≡ suc (length rows)
unfolding insert_row
length-insert_row r [] = refl
length-insert_row r (s ∷ rows) = ground (arith, length-insert_row r rows)

length-threat_rows_of : (m : Assoc IpStats) → length (threat_rows_of m) ≡ length m
unfolding threat_rows_of
length-threat_rows_of [] = refl
length-threat_rows_of ((k, v) ∷ m) =
    length-insert_row (row_of k v) (threat_rows_of m) ∙ ap suc (length-threat_rows_of m)

Ordered-Sorted : (rows : List ThreatRow) → Ordered rows → Sorted rows
unfolding row_before
Ordered-Sorted [] h = tt
Ordered-Sorted (r ∷ []) h = tt
Ordered-Sorted (r ∷ s ∷ rows) (h, k) = (pair.0, pair.1, Ordered-Sorted (s ∷ rows) k)
  where
    pair : (s.syn_count ≤ r.syn_count) × (r.syn_count ≡ s.syn_count → r.ip ≤ s.ip)
    pair = ground (arith, h)

-- Each row of the threats has more SYNs than the next, or as many and an address that is not above
-- the next one's; there are as many rows as the tracker has entries; and a source without an entry
-- has no row, while one with an entry has a row with the entry's SYNs, ACKs, time to live and
-- flag. For a tracker that holds no source twice.
pub refresh_threat_snapshot-Sorted :
    (t : FlowTracker) (ip : ℕ)
    → Distinct t.ip_stats
    → Sorted (refresh_threat_snapshot t)
      × (length (refresh_threat_snapshot t) ≡ length t.ip_stats)
      × ((find ip t.ip_stats ≡ none → find_row ip (refresh_threat_snapshot t) ≡ none)
          × ((s : IpStats)
              → find ip t.ip_stats ≡ some s
              → find_row ip (refresh_threat_snapshot t)
                ≡ some (record {
                  ip = ip;
                  syn_count = s.syn_count;
                  ack_count = s.ack_count;
                  ttl = s.last_ttl;
                  flagged = s.is_flagged;
                })))
unfolding refresh_threat_snapshot
refresh_threat_snapshot-Sorted t ip d = (
  Ordered-Sorted (threat_rows_of t.ip_stats) (threat_rows_of-Ordered t.ip_stats),
  length-threat_rows_of t.ip_stats,
  (
    λ e. find_row-threat_rows_of t.ip_stats ip d ∙ ap (map_row ip) e,
    λ s e. find_row-threat_rows_of t.ip_stats ip d ∙ ap (map_row ip) e,
  ),
)
