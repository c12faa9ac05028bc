-- ===== src/Bpf/Attach/Tests.antt =====
-- An interface that has only the mode without a flag.
use k_watch.Prelude.{ℕ, ◌≡◌, refl, some, [], ◌∷◌, true, ◌==◌, if◌then◌else◌, String, inl, inr}
use k_watch.Util.Result.{ok}
use k_watch.Bpf.Attach.{XdpAttach, LinkCreate, attach}
use k_watch.Bpf.Attach.Owner.{IsBalanced, attach-IsBalanced}

abbrev generic_only : LinkCreate
generic_only flags = if flags == 0 then inl 9 else inr 95

abbrev text_of : ℕ → String
text_of e = "error"

abbrev attached : XdpAttach
attached = record { link_fd = some 5; created = 4 ∷ 5 ∷ []; closed = 4 ∷ [] }

attach_run :
    attach text_of generic_only true "auto" attached
    ≡ (ok "generic", 0, record { link_fd = some 9; created = 4 ∷ 5 ∷ 9 ∷ []; closed = 4 ∷ 5 ∷ [] })
unfolding attach
attach_run = refl

attach-IsBalanced_example : IsBalanced (attach text_of generic_only true "drv" attached).2
attach-IsBalanced_example = attach-IsBalanced text_of generic_only true "drv" attached refl
