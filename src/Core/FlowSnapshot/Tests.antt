-- ===== src/Core/FlowSnapshot/Tests.antt =====
-- A kernel table of one flow.
use k_watch.Prelude.{◌==◌}
use k_watch.Bpf.Shared.{FlowKey, FlowStats}
use k_watch.Bpf.UserMap.{UserMap}
use k_watch.Bpf.UserMap.ListMap.{list_map}

abbrev table : UserMap FlowKey FlowStats
table = list_map (λ a b. a.sport == b.sport)

abbrev key : FlowKey
key = record { src_ip = 1; dst_ip = 2; sport = 3; dport = 4; protocol = 6 }

abbrev seen : FlowStats
seen = record { syn_count = 1; ack_count = 0; first_seen_ns = 5; last_seen_ns = 5 }
