-- ===== src/Bpf/Skeleton/Load.antt =====
-- src/bpf/skeleton.cpp: the messages of libbpf that a load collects, and `Skeleton::open_and_load`.
-- What libbpf's calls return, and the messages they print, are input.
pub mod Details
use k_watch.Prelude.{
  ℕ, ◌+◌, ◌-◌, ◌^◌, Option, none, some, List, [], ◌∷◌, ◌++◌, Bool, true, false, not, ◌&&◌, ◌||◌,
  ltb, leb, ◌==◌, if◌then◌else◌, length, take, Bool-cases, arith, ◌≡◌, ◌⊎◌, inl, inr,
}
use k_watch.Prelude.Text.{Text, codes}
use k_watch.Util.Result.{Result, ok, err, is_ok}
use k_watch.Log.{LibbpfLevel, libbpf_warn, libbpf_info, libbpf_debug}
use k_watch.Bpf.Shared.{RuntimeConfig, make_runtime_config}
use k_watch.Bpf.Skeleton.{Skeleton, is_empty}

abbrev pub is_captured : LibbpfLevel → Bool
is_captured libbpf_warn = true
is_captured libbpf_info = false
is_captured libbpf_debug = true

-- `vsnprintf(buf, 1024, …)` keeps 1023 characters.
unfoldable pub capture_libbpf_log : LibbpfLevel → Text → Text → Text
capture_libbpf_log level message buf =
    if is_captured level && ltb (length buf) 4096 then buf ++ take 1023 message else buf

-- what a call of libbpf prints
unfoldable pub capture_all : List (LibbpfLevel × Text) → Text → Text
unfolding capture_libbpf_log
capture_all [] buf = buf
capture_all ((level, message) ∷ ms) buf = capture_all ms (capture_libbpf_log level message buf)

abbrev pub is_blank : ℕ → Bool
is_blank ch = ch == 10 || (ch == 13 || ch == 9) || ch == 32

-- the loop, with `last_was_space`
unfoldable pub squeeze : Bool → Text → Text
squeeze last_was_space [] = []
squeeze last_was_space (ch ∷ s) =
    let blank = squeeze true s in
    let other = squeeze false s in
    if is_blank ch then if not last_was_space then 32 ∷ blank else blank else ch ∷ other

unfoldable pub one_line_libbpf_details : Text → Text
unfolding squeeze
one_line_libbpf_details buf =
    let details = squeeze false buf in
    if ltb 1000 (length details) then take 1000 details ++ codes "..." else details

-- What the calls of libbpf do: `kwatch_bpf__open` with its messages, the object's handle or `errno`;
-- whether the object has `rodata`; `kwatch_bpf__load` with its messages, whether its result is
-- negative, and the magnitude of that.
pub record Libbpf : Type 0 where
  pub open_messages : List (LibbpfLevel × Text)
  pub opening : ℕ ⊎ ℕ
  pub has_rodata : Bool
  pub load_messages : List (LibbpfLevel × Text)
  pub load_negative : Bool
  pub load_magnitude : ℕ

-- What a call leaves: `*err_out`, the logged errors, the configuration of the program, and the handles
-- destroyed.
pub record Loaded : Type 0 where
  pub result : Result Skeleton
  pub err_out : ℕ
  pub logged : List Text
  pub config : Option RuntimeConfig
  pub destroyed : List ℕ

abbrev pub eio : ℕ
eio = 5

abbrev pub eperm : ℕ
eperm = 1

abbrev pub eacces : ℕ
eacces = 13

-- the positive error number of a load
abbrev pub load_errno : Bool → ℕ → ℕ
load_errno negative magnitude = if negative then magnitude else eio

-- the handles that the object of the result owns, and those destroyed
abbrev pub owned : Result Skeleton → List ℕ
owned (err e) = []
owned (ok s) = elim (s.skel) [ none ↦ [] | some k ↦ k ∷ [] ]

abbrev pub handles : Loaded → List ℕ
handles l = owned l.result ++ l.destroyed

abbrev pub opened : ℕ ⊎ ℕ → List ℕ
opened (inl k) = k ∷ []
opened (inr e) = []

-- `strerror` is a parameter.
module _ (strerror : ℕ → Text) where
  abbrev pub load_message : ℕ → Text → Text
  load_message e buf =
      (codes "Failed to load BPF skeleton: " ++ strerror e)
      ++ (if not (is_empty buf) then codes " details=" ++ one_line_libbpf_details buf else [])

  abbrev pub load_log : ℕ → Text → List Text
  load_log e buf = if not (e == eperm) && not (e == eacces) then load_message e buf ∷ [] else []

  abbrev pub loaded : Option RuntimeConfig → ℕ → Libbpf → Loaded
  loaded config k l =
      let e = load_errno l.load_negative l.load_magnitude in
      let buf = capture_all l.load_messages (capture_all l.open_messages []) in
      if not (l.load_magnitude == 0)
      then record {
        result = err "load failed";
        err_out = e;
        logged = load_log e buf;
        config = config;
        destroyed = k ∷ [];
      }
      else record {
        result = ok (record { skel = some k; pinned_path = []; owner_pid_path = [] });
        err_out = 0;
        logged = [];
        config = config;
        destroyed = [];
      }

  abbrev pub open_failed : ℕ → Loaded
  open_failed e = record {
    result = err "open failed";
    err_out = e;
    logged = (codes "Failed to open BPF skeleton: " ++ strerror e) ∷ [];
    config = none;
    destroyed = [];
  }

  abbrev pub opened_loaded : Option RuntimeConfig → Libbpf → ℕ ⊎ ℕ → Loaded
  opened_loaded config l (inr errno) = open_failed (if errno == 0 then eio else errno)
  opened_loaded config l (inl k) = loaded config k l

  unfoldable pub open_and_load : ℕ → ℕ → Libbpf → Loaded
  unfolding make_runtime_config capture_all one_line_libbpf_details
  open_and_load sample_n syn_window_s l =
      opened_loaded
        (if l.has_rodata then some (make_runtime_config sample_n syn_window_s) else none) l
        l.opening

  opened_loaded_lem :
      (config : Option RuntimeConfig) (l : Libbpf) (o : ℕ ⊎ ℕ)
      → (is_ok (opened_loaded config l o).result ≡ ((opened_loaded config l o).err_out == 0))
        × (handles (opened_loaded config l o) ≡ opened o)
  opened_loaded_lem config l (inr e) = ground arith
  opened_loaded_lem config l (inl k) = elim (Bool-cases (l.load_magnitude == 0)) [
    | inl h ↦ rw (opened_loaded, h) (ground arith)
    | inr h ↦ rw (opened_loaded, h) (ground arith)
  ]

  -- The error number is 0 exactly where the load succeeds. A load that fails gives back the object that
  -- was opened, one that succeeds owns it, with no path pinned.
  pub open_and_load_lem :
      (sample_n syn_window_s : ℕ) (l : Libbpf)
      → (is_ok (open_and_load sample_n syn_window_s l).result
          ≡ ((open_and_load sample_n syn_window_s l).err_out == 0))
        × (handles (open_and_load sample_n syn_window_s l) ≡ opened l.opening)
  unfolding open_and_load
  open_and_load_lem sample_n syn_window_s l = opened_loaded_lem _ l l.opening
