-- ===== src/Bpf/Shared.antt =====
-- bpf/kwatch_shared.h: what the kernel program and user space exchange, and the sampling rule.
use k_watch.Prelude.{
  ℕ, ◌%◌, ◌<◌, ◌≡◌, Bool, true, ◌||◌, leb, ◌==◌, if◌then◌else◌, seconds_ns, arith, ◌↔◌, ◌⊎◌,
}

pub record Event : Type 0 where
  pub ts_ns : ℕ
  pub src_ip : ℕ
  pub dst_ip : ℕ
  pub sport : ℕ
  pub dport : ℕ
  pub protocol : ℕ
  pub tcp_flags : ℕ
  pub ttl : ℕ
  pub action : ℕ
  pub icmp_type : ℕ
  pub icmp_code : ℕ

-- `struct kwatch_flow_key`
pub record FlowKey : Type 0 where
  pub src_ip : ℕ
  pub dst_ip : ℕ
  pub sport : ℕ
  pub dport : ℕ
  pub protocol : ℕ

-- `struct kwatch_flow_stats`
pub record FlowStats : Type 0 where
  pub syn_count : ℕ
  pub ack_count : ℕ
  pub first_seen_ns : ℕ
  pub last_seen_ns : ℕ

pub record RuntimeConfig : Type 0 where
  pub sample_n : ℕ
  pub syn_window_ns : ℕ

unfoldable pub make_runtime_config : ℕ → ℕ → RuntimeConfig
make_runtime_config sample_n syn_window_s = record {
  sample_n = sample_n;
  syn_window_ns = seconds_ns syn_window_s;
}

unfoldable pub should_emit_event : ℕ → ℕ → Bool → Bool
should_emit_event sample_n random_value is_new =
    if is_new || leb sample_n 1 then true else random_value % sample_n == 0

-- A new flow is always emitted, whatever the rate, and so is every packet at the rates 0 and 1;
-- else exactly the packets whose random number the rate divides.
pub should_emit_event_lem :
    (n r : ℕ) (is_new : Bool)
    → (should_emit_event n r is_new ≡ true) ↔ ((is_new ≡ true) ⊎ ((n < 2) ⊎ (r % n ≡ 0)))
unfolding should_emit_event
should_emit_event_lem n r is_new = (λ h. ground arith, λ h. ground arith)
