-- ===== src/Bpf/Attach/Owner.antt =====
-- The link that the object owns: none is leaked, none is closed twice, and which mode is used.
use mathlib.Core.List.{append-nil}
use k_watch.Prelude.{
  ℕ, ◌≡◌, refl, ap, sym, ◌∙◌, none, some, [], ◌∷◌, ◌++◌, Bool, true, false, not, if◌then◌else◌,
  String, ◌⊎◌, inl, inr,
}
use k_watch.Util.Result.{Result}
use k_watch.Bpf.Attach.{XdpAttach, detach, mode_list, LinkCreate, try_modes, settle, attach, owned}

-- the descriptors created are those closed, in order, and then the one that is held
abbrev pub IsBalanced : XdpAttach → Type 0
IsBalanced x = x.created ≡ x.closed ++ owned x.link_fd

pub detach-IsBalanced : (x : XdpAttach) → IsBalanced x → IsBalanced (detach x)
unfolding detach
detach-IsBalanced x h = h ∙ sym (append-nil (x.closed ++ owned x.link_fd))

settle-IsBalanced :
    (mode : String) (strerror : ℕ → String) (x : XdpAttach) (r : (ℕ × String) ⊎ ℕ)
    → x.created ≡ x.closed
    → IsBalanced (record x { link_fd = none })
    → x.link_fd ≡ none
    → IsBalanced (settle mode strerror x r).2
settle-IsBalanced mode strerror x (inl (fd, name)) h k e = ap (λ l. l ++ (fd ∷ [])) h
settle-IsBalanced mode strerror x (inr e) h k n = rw n k

choose_attached :
    (b : Bool) (x y : Result String × ℕ × XdpAttach)
    → IsBalanced x.2
    → IsBalanced y.2
    → IsBalanced (if b then x else y).2
choose_attached true x y h k = h
choose_attached false x y h k = k

-- attach, whatever the mode, the errors of the kernel and the state before: the descriptors
-- created are still those closed, in order, followed by the one that is held, if that was so
-- before. So a link that was held before is closed, none is closed twice and none is lost.
pub attach-IsBalanced :
    (strerror : ℕ → String) (create : LinkCreate) (prog_ok : Bool) (mode : String) (x : XdpAttach)
    → IsBalanced x
    → IsBalanced (attach strerror create prog_ok mode x).2
unfolding attach detach
attach-IsBalanced strerror create prog_ok mode x h =
    choose_attached (not prog_ok) _ _ (detach-IsBalanced x h) (
      settle-IsBalanced mode strerror (detach x) (try_modes create (mode_list mode) 0) h
        (detach-IsBalanced x h) refl)

-- attach in the mode auto with a valid program: it fails only if the kernel refuses the driver
-- mode, the generic mode by its flag and the mode without a flag, one after another; then the
-- error number is the last one, and the object holds no link. If a mode is accepted, those ahead
-- of it were refused, and its descriptor is held.
pub attach-auto :
    (strerror : ℕ → String) (create : LinkCreate) (x : XdpAttach)
    → ((fd : ℕ) → create 4 ≡ inl fd → (attach strerror create true "auto" x).2.link_fd ≡ some fd)
      × ((e fd : ℕ)
          → create 4 ≡ inr e
          → create 2 ≡ inl fd
          → (attach strerror create true "auto" x).2.link_fd ≡ some fd)
      × ((e f fd : ℕ)
          → create 4 ≡ inr e
          → create 2 ≡ inr f
          → create 0 ≡ inl fd
          → (attach strerror create true "auto" x).2.link_fd ≡ some fd)
      × ((e f g : ℕ)
          → create 4 ≡ inr e
          → create 2 ≡ inr f
          → create 0 ≡ inr g
          → ((attach strerror create true "auto" x).1 ≡ g)
            × ((attach strerror create true "auto" x).2.link_fd ≡ none))
unfolding attach detach mode_list try_modes
attach-auto strerror create x = (
  λ fd a. rw (attach, try_modes, a) refl,
  λ e fd a b. rw (attach, try_modes, a, b) refl,
  λ e f fd a b c. rw (attach, try_modes, a, b, c) refl,
  λ e f g a b c. rw (attach, try_modes, a, b, c) (refl, refl),
)
