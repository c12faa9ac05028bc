-- ===== src/Cli/Run/Tests.antt =====
-- A run on `eth0` on the host of the tests, ended by SIGTERM.
use k_watch.Prelude.{
  ℕ, ◌≡◌, refl, Option, none, some, List, [], ◌∷◌, String, true, false, arith, inl, ◌⊎◌,
}
use k_watch.Prelude.Text.{Text, codes, equal}
use k_watch.Util.Result.{ok}
use k_watch.Util.Numbers.{scan, stoul}
use k_watch.Bpf.Attach.{XdpAttach, new, attach, detach, mode_list, try_modes}
use k_watch.Bpf.Host.ListHost.{list_host, lookup, remove, names}
use k_watch.Bpf.PinState.{
  read_owner_state, is_owner_alive, read_proc_stat, parse_stat_line, tokens, start_time,
  after_paren, split_word, field_loop, current_owner_state,
}
use k_watch.Bpf.PinState.OwnerFile.{fscanf_owner}
use k_watch.Bpf.Cleanup.{is_dot}
use k_watch.Bpf.Cleanup.{pin_path_for_iface, owner_pid_path_for_iface}
use k_watch.Bpf.Skeleton.{
  before_slash, parent_dir, only_dots, directory_is_empty, ensure_dir, ensure_owner_pid_parent,
  write_owner_line, write_owner_pid_file, prepare_dir, reclaim, pin_objects, pin,
}
use k_watch.Bpf.Skeleton.Load.{open_and_load}
use k_watch.Cli.Parser.{default_options}
use k_watch.Cli.Start.{Answers, Exit}
use k_watch.Cli.Run.{Wait, signal, ready, interrupted, cmd_run, run_loop, dispatch}
use k_watch.Cli.Start.Release.{ends_with, pinned_skeleton, fresh_skeleton, released, start-released}
use k_watch.Cli.Run.Ends.{any_last, has_end, cmd_run-ends}

abbrev eth0 : Text
eth0 = codes "eth0"

abbrev stat_line : ℕ → Option Text
stat_line pid = some (codes "12 (kwatch) S 0 0 0 0 0 0 0 0 0 0 0 0 0 0 0 0 0 0 7 0")

abbrev no_text : ℕ → Text
no_text e = []

abbrev no_string : ℕ → String
no_string e = "error"

abbrev link : ℕ → ℕ ⊎ ℕ
link flags = inl 9

abbrev answers : Answers
answers = record {
  if_index = 2;
  libbpf = record {
    open_messages = [];
    opening = inl 3;
    has_rodata = true;
    load_messages = [];
    load_negative = false;
    load_magnitude = 0;
  };
  link_create = link;
  prog_ok = true;
  signals_ok = true;
  timer_ok = true;
  ringbuf_ok = true;
  epoll_ok = true;
}

abbrev waits : List Wait
waits = interrupted ∷ ready (signal 15 ∷ []) ∷ []

abbrev attached : XdpAttach
attached = record { link_fd = some 9; created = 9 ∷ []; closed = [] }

loaded_ok :
    (open_and_load no_text default_options.sample_n 10 answers.libbpf).result
    ≡ ok (fresh_skeleton 3)
unfolding open_and_load
loaded_ok = refl

abbrev files : list_host.World
files =
    (pin list_host stat_line 12 (pin_path_for_iface eth0) (owner_pid_path_for_iface eth0)
      (fresh_skeleton 3) []).1.1

pinned :
    pin list_host stat_line 12
      (pin_path_for_iface eth0)
      (owner_pid_path_for_iface eth0)
      (fresh_skeleton 3)
      []
    ≡ (ok tt, (pinned_skeleton 3 eth0, files))
unfolding pin pin_objects reclaim prepare_dir write_owner_pid_file write_owner_line ensure_dir
    ensure_owner_pid_parent parent_dir before_slash lookup remove names equal read_owner_state
    fscanf_owner scan current_owner_state read_proc_stat parse_stat_line tokens start_time
    after_paren split_word field_loop stoul is_owner_alive only_dots directory_is_empty is_dot
pinned = refl

link-attached : attach no_string link true default_options.xdp_mode new ≡ (ok "drv", 0, attached)
unfolding attach detach mode_list try_modes
link-attached = refl

ended : any_last waits ≡ true
unfolding any_last has_end
ended = refl

cmd_run-ends_example :
    cmd_run list_host stat_line 12 no_text no_string waits default_options answers (eth0 ∷ []) []
    ≡ some (0, released list_host 3 eth0 files, detach attached)
cmd_run-ends_example =
    cmd_run-ends list_host stat_line 12 no_text no_string waits default_options answers eth0 []
      files 3 0 "drv" attached (ground arith) loaded_ok pinned link-attached refl ended

abbrev last : Exit list_host stat_line 12 no_text no_string
last = (0, released list_host 3 eth0 files, detach attached)

start-released_example :
    (last.0
      ≡ ends_with answers
          (attach no_string answers.link_create answers.prog_ok default_options.xdp_mode new))
    × ((last.1 ≡ released list_host 3 eth0 files) × (last.2.link_fd ≡ none))
unfolding detach cmd_run run_loop dispatch
start-released_example =
    start-released list_host stat_line 12 no_text no_string 10 true default_options answers eth0 []
      files 3 last (ground arith) loaded_ok pinned cmd_run-ends_example
