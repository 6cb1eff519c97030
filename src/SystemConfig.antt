-- ===== src/SystemConfig.antt =====
-- include/SystemConfig.h.
use simple_rv.Prelude.{ℕ, ◌-◌}
use simple_rv.Types.{memory_size}

pub record SystemConfig : Type 0 where
  pub ram_size : ℕ
  pub pc_init : ℕ
  pub sp_init : ℕ
  pub mtvec_init : ℕ
  pub uart_base : ℕ

unfoldable pub default_128mb : SystemConfig
default_128mb = record {
  ram_size = memory_size;
  pc_init = 0x00000000;
  sp_init = memory_size - 16;
  mtvec_init = 0x00010000;
  uart_base = 0x10000000;
}
