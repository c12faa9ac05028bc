-- ===== src/Demo/Loop.antt =====
-- How long the scenarios run, and what they send.
use k_watch.Prelude.{ℕ, zero, suc, ◌+◌, ◌%◌, List, [], ◌∷◌, Bool}
use k_watch.Prelude.Text.{Text}
use k_watch.Demo.Packets.{syn_datagram, next_port}

-- the source port of the n-th datagram
abbrev pub port : ℕ → ℕ
port n = 1024 + n % 64512

-- the datagrams of the rounds from `i` on
unfoldable pub datagrams : ℕ → ℕ → ℕ → ℕ → List Text
datagrams daddr dest zero i = []
datagrams daddr dest (suc n) i = syn_datagram daddr (port i) dest ∷ datagrams daddr dest n (i + 1)

module _ (daddr dest duration_s : ℕ) (clock : ℕ → ℕ) (sent : ℕ → Bool) where
  abbrev build : ℕ → Text × ℕ
  build p = (syn_datagram daddr p dest, next_port p)
