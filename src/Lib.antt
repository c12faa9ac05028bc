-- ===== src/Lib.antt =====
-- K-Watch: a watcher of network traffic, an XDP program in the kernel (bpf/kwatch.bpf.c) and a command
-- line tool in C++ (src/) that attaches it, shows what it counts, detects SYN floods and keeps a
-- blacklist.
--
-- The kernel program parses each frame, drops packets from blacklisted addresses, counts protocols,
-- accounts TCP flows and sends sampled events through a ring buffer. In user space the flow table is
-- copied (src/core/flow_snapshot.h) and given to the tracker (src/core/flow_tracker.cpp), which says
-- which sources to block; `block`, `unblock` and `list` edit the same blacklist through its pinned map,
-- `stats` reads the counters, and `detach` stops the process that owns the interface. `run` and `top`
-- own an interface: they load and pin the program (src/bpf/skeleton.cpp), write an owner file, attach,
-- loop over signals, ticks and events, and give everything back. The dashboard of `top` (src/tui) shows
-- the tracker and the blacklist and edits the blacklist, and src/demo/ sends traffic to try it on.
--
-- Which file models what:
--   Prelude           shared names, lists, finite maps as association lists (`std::unordered_map`, its
--                     order of iteration being the order of the list), machine words, texts
--   Util.Result       src/util/result.h
--   Util.Numbers      std::stoul, std::stoi and std::to_string as the C++ standard has them
--   Util.Ipv4         src/util/ipv4.cpp
--   Util.UniqueFd     src/util/fd.h: the state is that of all objects that own descriptors
--   Util.Signals      src/util/signals.cpp
--   Log               src/log/log.cpp
--   Bpf.Shared        bpf/kwatch_shared.h
--   Bpf.Maps          the kernel's maps, as a record of operations with their documented laws
--   Bpf.Packet        the parsing of bpf/kwatch.bpf.c: a frame is its bytes, and a read outside of it
--                     is `none`
--   Bpf.Xdp           the rest of bpf/kwatch.bpf.c: `xdp_kwatch_prog` is the program for one packet
--   Bpf.UserMap       BPF maps through libbpf, and the loop over a map with bpf_map_get_next_key
--                     LpmTrie has what the kernel documents of the blacklist, a trie of 1024 prefixes: the
--                     lookup finds the longest prefix, and a key's bits past its length do not count
--   Bpf.PinState      src/bpf/pin_state.cpp, the reading of the owner's state; OwnerFile has the text of
--                     the owner file
--   Bpf.Host          the file system and libbpf's pinning, as a record of operations with their
--                     documented laws, and a list of paths that satisfies them
--   Bpf.Cleanup       src/bpf/pin_state.cpp, the removal of stale state
--   Bpf.Skeleton      src/bpf/skeleton.cpp; Load has the loading
--   Bpf.Attach        src/bpf/attach.cpp
--   Bpf.RingBuf       src/bpf/ringbuf.cpp
--   Core.PpsWindow    src/core/pps_window.cpp
--   Core.FlowTracker  src/core/flow_tracker.cpp: the record `FlowTracker` is the object's state, each
--                     method a function from state to state; `Trace` has runs of calls
--   Core.FlowSnapshot src/core/flow_snapshot.h
--   Core.Tick         src/core/tick.cpp
--   Core.Event        src/core/event_formatter.h
--   Cli.Parser        src/cli/parser.cpp: `parse_loop` is the loop of `parse_args`, the index that an
--                     option advances being a flag to skip the next argument
--   Cli.Main          src/cli/main.cpp
--   Cli.Blacklist     src/cli/commands/block.cpp, unblock.cpp and list.cpp
--   Cli.Stats         src/cli/commands/stats.cpp
--   Cli.Detach        src/cli/commands/detach.cpp
--   Cli.Demo          src/cli/commands/demo.cpp and src/demo/demos.h
--   Cli.Top           src/cli/commands/top.cpp: packet totals, rates, and the blacklist at a tick; the
--                     rows of the views in Threats and Firewall; the event loop in Loop, over what
--                     each epoll_wait reports; `cmd_top` in Command
--   Cli.Start         how src/cli/commands/run.cpp and top.cpp start, their exit statuses, and what they
--                     give back
--   Cli.Run           src/cli/commands/run.cpp: the loop of `cmd_run`, and the command
--   Demo              src/demo/: checksums and packets as bytes, and the loops of the scenarios
--   Tui.Sparkline     src/tui/widgets/sparkline.cpp
--   Tui.App           src/tui/app.cpp: the keys; Render has the lines of the views
-- Modules named Tests hold runs on concrete inputs and the theorems at concrete inputs.
--
-- What is not part of the repository is a parameter: the kernel's and libbpf's maps, inet_pton and
-- inet_ntop, the clock, the random numbers, /proc, and the results of system calls. Machine integers
-- are natural numbers with their wrap-around written out.
--
-- Fuel: `scan_loop` and `key_loop` take fuel, since a map gives as many keys as it likes; more than the
-- number of keys is enough. `flood_loop` takes fuel for its rounds, since a clock may stand still; more
-- than the number of the round in which the time is up is enough. `digits` takes its number plus one,
-- which is above the number of digits. All other loops are structural; the event loops run over the
-- list of what each epoll_wait returns.
--
-- Not modelled: drawing with ncurses but for the text of the lines, the thread that a demo of the
-- dashboard runs in, libbpf's own work, sockets, and texts that are only printed or logged, such as the
-- help. A rate of 0, by which the scenarios divide, is left to their caller.
pub mod Prelude
pub mod Util
pub mod Log
pub mod Bpf
pub mod Core
pub mod Cli
pub mod Demo
pub mod Tui
