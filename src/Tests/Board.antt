-- ===== src/Tests/Board.antt =====
-- A quiet board: its registers keep fixed contents, in which nothing is busy and the UARTs are enabled, and its one piece of
-- changing state is a clock of one millisecond for each read of the time.
use device_abstraction_stack.Base.{ℕ, ◌+◌, ◌%◌, ◌^◌, inl, refl, arith, true, false, some}
use device_abstraction_stack.Api.Dma.{DasDmaConfig}
use device_abstraction_stack.Machine.Reg.{Reg}
use device_abstraction_stack.Machine.Platform.{Platform, EthLayout}
use device_abstraction_stack.Machine.World.{World, external, DmaVars, EthVars}
use device_abstraction_stack.Time.Clock.{Ticking, Installed}
use device_abstraction_stack.Time.Waiting.{Apart}
use device_abstraction_stack.Tests.Bits.{stm32h755}

abbrev contents : Reg → ℕ
contents Reg.rcc_cr = 0x4
contents Reg.pwr_d3cr = 0x2000
contents Reg.flash_acr = 0x24
contents (Reg.usart_cr1 n) = 0xd
contents Reg.i2c_cr1 = 0x1
contents Reg.pwr_cr3 = 0x4
contents Reg.pwr_csr1 = 0x2000
contents r = 0

abbrev pub sram : EthLayout
sram = record {
  tx_desc = 0x3004_0000;
  rx_desc = 0x3004_0080;
  tx_buffers = 0x3004_0100;
  rx_buffers = 0x3004_1900;
}

abbrev pub board : Platform
board = record {
  State = ℕ;
  read = λ r s. (contents r, s);
  write = λ r v s. s;
  load_byte = λ a s. (0x55, s);
  store_byte = λ a v s. s;
  barrier = λ b s. s;
  get_primask = λ s. (0, s);
  set_primask = λ v s. s;
  disable_irq = λ s. s;
  systick_config = λ ticks s. (0, s);
  nvic_enable = λ n s. s;
  nvic_disable = λ n s. s;
  nvic_get_enable = λ n s. (0, s);
  nvic_set_priority = λ n v s. s;
  nvic_get_priority = λ n s. (0, s);
  nvic_set_pending = λ n s. s;
  nvic_clear_pending = λ n s. s;
  nvic_get_pending = λ n s. (0, s);
  scb_enable_dcache = λ s. s;
  scb_disable_dcache = λ s. s;
  scb_clean_dcache = λ a n s. s;
  scb_invalidate_dcache = λ a n s. s;
  scb_clean_invalidate_dcache = λ a n s. s;
  call_source = λ f context s. ((s + 1) % 2 ^ 32, s + 1);
  systick_taken = λ s. (0, s);
  eth_layout = sram;
  cmsis = stm32h755;
}

abbrev pub no_config : DasDmaConfig
no_config = record {
  direction = 0;
  source_width = 1;
  destination_width = 1;
  source_increment = false;
  destination_increment = true;
}

abbrev pub no_eth : EthVars
no_eth = record { g_initialized = false; g_phy_address = 0xff; g_tx_index = 0; g_rx_index = 0 }

abbrev pub no_streams : DmaVars
no_streams = record {
  g_dma_claimed = λ i. false;
  g_dma_generation = λ i. 0;
  g_dma_configured = λ i. false;
  g_dma_active = λ i. false;
  g_dma_config = λ i. no_config;
}

-- The source 7 with the context 9 is installed, and no stream is in use.
abbrev pub fresh : World board
fresh = record {
  hw = 0;
  time = record { g_time_source = some (external 7); g_time_source_context = 9; g_systick_ms = 0 };
  dma = no_streams;
  eth = no_eth;
}

abbrev pub ticking : Ticking board 7 9
ticking = record {
  now = λ s. s;
  patience = 0;
  stalls = λ s. 0;
  value = λ s. refl;
  grows = λ s. omega arith;
  gap = λ s. omega arith;
  patient = λ s. omega arith;
  moves = λ s. inl (omega arith);
}

pub installed : (s : ℕ) → Installed 7 9 (record fresh { hw = s })
installed s = record { source_set = refl; context_set = refl }

abbrev pub apart : Apart board 7 9 ticking
apart = record {
  reads = λ r s. (refl, refl);
  writes = λ r v s. (refl, refl);
  loads = λ a s. (refl, refl);
  stores = λ a v s. (refl, refl);
}
