-- ===== src/Bpf/Host.antt =====
-- What src/bpf/pin_state.cpp and src/bpf/skeleton.cpp call of the C library, the kernel and libbpf on
-- the file system: parameters. An error number is 0 where the call succeeds.
pub mod ListHost
use k_watch.Prelude.{
  ℕ, ◌≡◌, ◌≢◌, Option, none, some, List, [], ◌∷◌, ◌++◌, Bool, true, false, ◌||◌, ◌⊎◌, inl, inr,
}
use k_watch.Prelude.Text.{Text, equal}

pub data Node : Type 0 where
  directory : Node
  file : Text → Node
  pinned_map : Node

-- `errno`, 0 for success, and the world behind the call
abbrev pub Call : Type 0 → Type 0
Call W = ℕ × W

pub record Host : Type 1 where
  pub World : Type 0
  -- what stands at a path
  pub node : World → Text → Option Node
  -- `opendir`, and the names `readdir` gives, or the error number of `opendir`
  pub read_dir : World → Text → List Text ⊎ ℕ
  -- `stat`, and `S_ISDIR`
  pub is_dir : World → Text → Bool
  -- the content, where `fopen(path, "r")` opens the file
  pub read_file : World → Text → Option Text
  pub mkdir : World → Text → Call World
  pub rmdir : World → Text → Call World
  pub unlink : World → Text → Call World
  -- `fopen(path, "w")`, `fprintf` and `fclose` of that file
  pub open_file : World → Text → Call World
  pub print_file : World → Text → Text → Call World
  pub close_file : World → Text → Call World
  -- `bpf_object__pin_maps` and `bpf_object__unpin_maps` of the object
  pub pin_maps : World → Text → Call World
  pub unpin_maps : World → Text → World
  -- `kwatch_bpf__destroy` of the object with this handle
  pub destroy : World → ℕ → World

abbrev pub enoent : ℕ
enoent = 2

abbrev pub eexist : ℕ
eexist = 17

abbrev pub enotempty : ℕ
enotempty = 39

-- `dir_path + "/" + name`
abbrev pub entry_path : Text → Text → Text
entry_path dir_path name = dir_path ++ (b'/' ∷ name)

abbrev pub listed : Text → List Text → Bool
listed name [] = false
listed name (n ∷ names) = equal n name || listed name names

-- The path of no entry of the directory.
pub record Outside (dir_path q : Text) : Type 0 where
  pub not_entry : (name : Text) → q ≢ entry_path dir_path name

-- What the manual pages say: a call concerns its own path, or the entries of its directory; what a
-- call removed, or did not find, is not there; a directory is made where nothing was; the names that
-- `readdir` gives are those of all the entries, and a directory that is not there has no entries; a
-- file that was opened, written and closed without error holds what was written.
pub record IsHost (h : Host) : Type 0 where
  pub mkdir_frame : (w : h.World) (p q : Text) → q ≢ p → h.node (h.mkdir w p).1 q ≡ h.node w q
  pub mkdir_new : (w : h.World) (p : Text) → (h.mkdir w p).0 ≡ 0 → h.node w p ≡ none
  pub rmdir_frame : (w : h.World) (p q : Text) → q ≢ p → h.node (h.rmdir w p).1 q ≡ h.node w q
  pub rmdir_none : (w : h.World) (p : Text) → (h.rmdir w p).0 ≡ 0 → h.node (h.rmdir w p).1 p ≡ none
  pub unlink_frame : (w : h.World) (p q : Text) → q ≢ p → h.node (h.unlink w p).1 q ≡ h.node w q
  pub unlink_none :
      (w : h.World) (p : Text)
      → (h.unlink w p).0 ≡ 0 ⊎ (h.unlink w p).0 ≡ enoent
      → h.node (h.unlink w p).1 p ≡ none
  pub open_frame : (w : h.World) (p q : Text) → q ≢ p → h.node (h.open_file w p).1 q ≡ h.node w q
  pub print_frame :
      (w : h.World) (p t q : Text) → q ≢ p → h.node (h.print_file w p t).1 q ≡ h.node w q
  pub close_frame : (w : h.World) (p q : Text) → q ≢ p → h.node (h.close_file w p).1 q ≡ h.node w q
  pub pin_frame :
      (w : h.World) (p q : Text) → Outside p q → h.node (h.pin_maps w p).1 q ≡ h.node w q
  pub unpin_frame :
      (w : h.World) (p q : Text) → Outside p q → h.node (h.unpin_maps w p) q ≡ h.node w q
  pub destroy_frame : (w : h.World) (k : ℕ) (q : Text) → h.node (h.destroy w k) q ≡ h.node w q
  pub read_file_node :
      (w v : h.World) (p : Text) → h.node w p ≡ h.node v p → h.read_file w p ≡ h.read_file v p
  pub read_dir_all :
      (w : h.World) (p name : Text) (names : List Text)
      → h.read_dir w p ≡ inl names
      → h.node w (entry_path p name) ≢ none
      → listed name names ≡ true
  pub read_dir_none :
      (w : h.World) (p name : Text)
      → h.read_dir w p ≡ inr enoent
      → h.node w (entry_path p name) ≡ none
  pub read-write :
      (w : h.World) (p t : Text)
      → (h.open_file w p).0 ≡ 0
      → (h.print_file (h.open_file w p).1 p t).0 ≡ 0
      → (h.close_file (h.print_file (h.open_file w p).1 p t).1 p).0 ≡ 0
      → h.read_file (h.close_file (h.print_file (h.open_file w p).1 p t).1 p).1 p ≡ some t
