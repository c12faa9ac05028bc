-- ===== src/Bpf/Attach.antt =====
-- bpf/attach.cpp: the object that owns the link of the XDP program to an interface. What
-- `bpf_link_create` returns for given flags, a file descriptor or an error number, is input.
pub mod Owner
pub mod Tests
use k_watch.Prelude.{
  ℕ, Option, none, some, List, [], ◌∷◌, ◌++◌, Bool, true, false, not, if◌then◌else◌, String, same,
  ◌⊎◌, inl, inr,
}
use k_watch.Util.Result.{Result, ok, err, ◌<>◌}

-- The interface's index, which only `bpf_link_create` is given, is left out. `link_fd` is `none` for -1. `created` and `closed` are the file descriptors that `bpf_link_create`
-- has returned to this object and that it has closed, in order.
pub record XdpAttach : Type 0 where
  pub link_fd : Option ℕ
  pub created : List ℕ
  pub closed : List ℕ

abbrev pub new : XdpAttach
new = record { link_fd = none; created = []; closed = [] }

abbrev pub owned : Option ℕ → List ℕ
owned none = []
owned (some fd) = fd ∷ []

-- Nothing is closed where there is no link.
unfoldable pub detach : XdpAttach → XdpAttach
detach x = record x { link_fd = none; closed = x.closed ++ owned x.link_fd }

-- flags and name of a mode
abbrev pub Mode : Type 0
Mode = ℕ × String

-- The modes that are tried, until one succeeds.
unfoldable pub mode_list : String → List Mode
mode_list requested_mode =
    if same requested_mode "drv"
    then (4, "drv") ∷ []
    else if same requested_mode "skb"
    then (2, "skb") ∷ []
    else if same requested_mode "hw"
    then (8, "hw") ∷ []
    else (4, "drv") ∷ (2, "skb") ∷ (0, "generic") ∷ []

abbrev pub LinkCreate : Type 0
LinkCreate = ℕ → ℕ ⊎ ℕ

-- the file descriptor with the mode's name, or the last error
unfoldable pub try_modes : LinkCreate → List Mode → ℕ → (ℕ × String) ⊎ ℕ
try_modes create [] last_err = inr last_err
try_modes create ((flags, name) ∷ modes) last_err = elim (create flags) [
  | inl fd ↦ inl (fd, name)
  | inr e ↦ try_modes create modes e
]

abbrev pub einval : ℕ
einval = 22

-- the result, `*err_out`, and the object
abbrev pub settle :
    String → (ℕ → String) → XdpAttach → (ℕ × String) ⊎ ℕ → Result String × ℕ × XdpAttach
settle mode strerror x (inl (fd, name)) =
    (ok name, 0, record x { link_fd = some fd; created = x.created ++ (fd ∷ []) })
settle mode strerror x (inr e) =
    (err ("Failed to attach XDP in mode=" <> mode <> ": " <> strerror e), e, x)

unfoldable pub attach :
    (ℕ → String) → LinkCreate → Bool → String → XdpAttach → Result String × ℕ × XdpAttach
unfolding detach mode_list try_modes
attach strerror create prog_ok requested_mode x =
    let d = detach x in
    if not prog_ok
    then (err "Invalid BPF program fd", einval, d)
    else settle requested_mode strerror d (try_modes create (mode_list requested_mode) 0)
