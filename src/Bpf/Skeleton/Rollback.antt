-- ===== src/Bpf/Skeleton/Rollback.antt =====
-- `Skeleton::pin` of an interface whose owner is alive.
use k_watch.Prelude.{ℕ, ◌≡◌, ◌≢◌, refl, ap, ◌∙◌, Option, none, some, Bool, true, false, arith}
use k_watch.Prelude.Text.{Text}
use k_watch.Util.Result.{Result, ok, err, is_ok}
use k_watch.Bpf.Host.{Host, IsHost}
use k_watch.Bpf.PinState.{read_owner_state}
use k_watch.Bpf.PinState.OwnerFile.{scan_file}
use k_watch.Bpf.Cleanup.{owner_at, is_active}
use k_watch.Bpf.Skeleton.{Skeleton, Pinned, pin, pin_skel, pin_dir, prepare_dir}

module _ (h : Host) (laws : IsHost h) (stat_line : ℕ → Option Text) (pid : ℕ) where
  prepare_dir-frame :
      (path : Text) (w : h.World) (q : Text)
      → q ≢ path
      → h.node (prepare_dir h stat_line pid path w).1 q ≡ h.node w q
  unfolding prepare_dir
  prepare_dir-frame path w q ne = ground (arith, laws.mkdir_frame w path q ne)

  -- The pin is refused, and concerns the pin directory alone.
  abbrev pub Refused : Text → Skeleton → h.World → Text → Pinned h stat_line pid → Type 0
  Refused path s w q r = (is_ok r.0 ≡ false) × (r.1.0 ≡ s) × (h.node r.1.1 q ≡ h.node w q)

  pin_dir-Refused :
      (path file : Text) (s : Skeleton) (w : h.World) (q : Text) (r : Result Bool × h.World)
      → q ≢ path
      → is_active h stat_line (owner_at h stat_line r.1 file) ≡ true
      → h.node r.1 q ≡ h.node w q
      → Refused path s w q (pin_dir h stat_line pid path file s r)
  pin_dir-Refused path file s w q (err e, v) ne a k = (refl, refl, k)
  pin_dir-Refused path file s w q (ok true, v) ne a k =
      rw (pin_dir, a) (refl, refl, laws.rmdir_frame v path q ne ∙ k)
  pin_dir-Refused path file s w q (ok false, v) ne a k = rw (pin_dir, a) (refl, refl, k)

  pin_skel-Refused :
      (k : Option ℕ) (path file : Text) (s : Skeleton) (w : h.World) (q : Text)
      (r : Result Bool × h.World)
      → Refused path s w q (pin_dir h stat_line pid path file s r)
      → Refused path s w q (pin_skel h stat_line pid k path file s r w)
  pin_skel-Refused none path file s w q r f = (refl, refl, refl)
  pin_skel-Refused (some k) path file s w q r f = f

  -- pin where the owner file names a process that is alive fails, leaves the object as it was, and
  -- every path but the pin directory as it was. The owner file is not the pin directory, and the
  -- file system keeps what it documents.
  pub pin-active :
      (path file : Text) (s : Skeleton) (w : h.World) (q : Text)
      → file ≢ path
      → q ≢ path
      → is_active h stat_line (owner_at h stat_line w file) ≡ true
      → (is_ok (pin h stat_line pid path file s w).0 ≡ false)
        × ((pin h stat_line pid path file s w).1.0 ≡ s)
        × (h.node (pin h stat_line pid path file s w).1.1 q ≡ h.node w q)
  unfolding pin
  pin-active path file s w q nf nq a =
      pin_skel-Refused s.skel path file s w q (prepare_dir h stat_line pid path w) (
        pin_dir-Refused path file s w q (prepare_dir h stat_line pid path w) nq
          (ap (λ t. is_active h stat_line (read_owner_state (scan_file t)))
              (laws.read_file_node _ w file (prepare_dir-frame path w file nf))
            ∙ a)
          (prepare_dir-frame path w q nq))
