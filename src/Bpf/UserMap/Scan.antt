-- ===== src/Bpf/UserMap/Scan.antt =====
-- A loop over a map reads each entry once.
use k_watch.Prelude.{
  ℕ, zero, suc, ◌<◌, ◌≡◌, refl, ap, Option, none, some, List, [], ◌∷◌, arith, length,
}
use k_watch.Bpf.UserMap.{UserMap, push_found, map_found, scan_loop}

module _ {K V : Type 0} (u : UserMap K V) where
  -- From `prev` on, `bpf_map_get_next_key` gives the keys `ks` in order, and then fails.
  abbrev pub Chain : u.Map → Option K → List K → Type 0
  Chain m prev [] = u.next_key m prev ≡ none
  Chain m prev (k ∷ ks) = (u.next_key m prev ≡ some k) × Chain m (some k) ks

  -- the entries of these keys
  abbrev pub entries : u.Map → List K → List (K × V)
  entries m [] = []
  entries m (k ∷ ks) = push_found u k (u.lookup m k) (entries m ks)

  pub scan_loop-Chain :
      (f : ℕ) (m : u.Map) (prev : Option K) (ks : List K)
      → Chain m prev ks
      → length ks < f
      → scan_loop u f m prev ≡ some (entries m ks)
  unfolding scan_loop
  scan_loop-Chain zero m prev ks c h = elim h [ ]
  scan_loop-Chain (suc f) m prev [] c h = rw (scan_loop, c) refl
  scan_loop-Chain (suc f) m prev (k ∷ ks) (e, c) h =
      rw (scan_loop, e)
        (ap (map_found u k (u.lookup m k)) (scan_loop-Chain f m (some k) ks c (omega arith)))
