-- ===== src/Config.antt =====
-- `TCPConfig` and `FdAdapterConfig` of libsponge/tcp_helpers/tcp_config.hh.
use cs144_2021_sponge.Prelude.{ℕ, Option, none, some, List, [], ◌∷◌}
use cs144_2021_sponge.Wrapping.{WrappingInt32}
use cs144_2021_sponge.Address.{Address, Hints, Resolved, from_ip}

abbrev pub default_capacity : ℕ
default_capacity = 64000

abbrev pub max_payload_size : ℕ
max_payload_size = 1452

abbrev pub timeout_dflt : ℕ
timeout_dflt = 1000

abbrev pub max_retx_attempts : ℕ
max_retx_attempts = 8

pub record TcpConfig : Type 0 where
  pub rt_timeout : ℕ
  pub recv_capacity : ℕ
  pub send_capacity : ℕ
  pub fixed_isn : Option WrappingInt32

abbrev pub default_config : TcpConfig
default_config = record {
  rt_timeout = timeout_dflt;
  recv_capacity = default_capacity;
  send_capacity = default_capacity;
  fixed_isn = none;
}

-- The configuration of an adapter between a connection and a descriptor.
pub record FdAdapterConfig : Type 0 where
  pub source : Address
  pub destination : Address
  pub loss_rate_dn : ℕ
  pub loss_rate_up : ℕ

-- Its defaults: both addresses are made by the same call, "0" with port 0, which may throw.
unfoldable pub default_adapter_config :
    (getaddrinfo : List ℕ → List ℕ → Hints → Resolved) → Option FdAdapterConfig
default_adapter_config getaddrinfo = elim (from_ip getaddrinfo (48 ∷ []) 0) [
  | none ↦ none
  | some a ↦ some (record { source = a; destination = a; loss_rate_dn = 0; loss_rate_up = 0 })
]
