-- ===== src/Eth/Phy.antt =====
-- The management interface and the PHY in src/device/stm32h755/eth.c.
use device_abstraction_stack.Base.{
  ℕ, zero, suc, ◌+◌, ◌-◌, Bool, true, false, not, ◌&&◌, ◌||◌, Option, none, some, bit_and, bit_or,
  bit_clear, has_bits, leb, ◌==◌, ◌!=◌, if◌then◌else◌, u16, ◌<<<◌,
}
use device_abstraction_stack.Api.Eth.{
  DasEthLinkState, das_eth_duplex_unknown, das_eth_duplex_half, das_eth_duplex_full,
}
use device_abstraction_stack.Machine.Reg.{Reg, Barrier}
use device_abstraction_stack.Machine.Platform.{Platform}
use device_abstraction_stack.Machine.Monad.{
  M, invalid_argument, not_ready, io, return, fail, fail_if, attempt, ◌>>=◌, ◌>>◌, get_world,
  set_eth, read_reg, write_reg, modify_reg, barrier,
}
use device_abstraction_stack.Machine.Poll.{wait_mask}

abbrev pub eth_wait_limit : ℕ
eth_wait_limit = 1_000_000

abbrev pub phy_address_count : ℕ
phy_address_count = 32

-- `UINT8_MAX`, for a PHY that is not known
abbrev pub no_phy : ℕ
no_phy = 0xff

-- Registers of the LAN8742
abbrev pub lan8742_bcr : ℕ
lan8742_bcr = 0x00

abbrev pub lan8742_bsr : ℕ
lan8742_bsr = 0x01

abbrev pub lan8742_phyi1r : ℕ
lan8742_phyi1r = 0x02

abbrev pub lan8742_phyi2r : ℕ
lan8742_phyi2r = 0x03

abbrev pub lan8742_smr : ℕ
lan8742_smr = 0x12

abbrev pub lan8742_physcsr : ℕ
lan8742_physcsr = 0x1f

module _ ⦃p : Platform⦄ where
  unfoldable pub wait_clear : Reg → ℕ → M (Unit {0})
  wait_clear reg mask = wait_mask reg mask false eth_wait_limit

  unfoldable pub mdio_wait_idle : M (Unit {0})
  mdio_wait_idle = wait_clear Reg.eth_macmdioar p.cmsis.eth.macmdioar_mb

  unfoldable pub mdio_configure_clock : M (Unit {0})
  mdio_configure_clock =
      modify_reg Reg.eth_macmdioar
        (λ v. bit_or (bit_clear v p.cmsis.eth.macmdioar_cr) p.cmsis.eth.macmdioar_cr_div124)

  -- The command word for a PHY and a register of it, over the word that is there.
  unfoldable pub mdio_command : ℕ → ℕ → ℕ → ℕ → ℕ
  mdio_command operation phy_address register_address address =
      let eth = p.cmsis.eth in
      let cleared = bit_clear address (
        bit_or (bit_or (bit_or eth.macmdioar_pa eth.macmdioar_rda) eth.macmdioar_moc)
          eth.macmdioar_c45e) in
      let with_phy =
        bit_or cleared (bit_and (phy_address <<< eth.macmdioar_pa_pos) eth.macmdioar_pa) in
      let with_register =
        bit_or with_phy (bit_and (register_address <<< eth.macmdioar_rda_pos) eth.macmdioar_rda) in
      bit_or with_register (bit_or operation eth.macmdioar_mb)

  -- The Boolean says whether `value` is given.
  unfoldable pub mdio_read : ℕ → ℕ → Bool → M ℕ
  mdio_read phy_address register_address value = do
    fail_if (leb phy_address_count phy_address || leb 32 register_address || not value)
        invalid_argument
    mdio_wait_idle
    address ← read_reg Reg.eth_macmdioar
    write_reg Reg.eth_macmdioar
        (mdio_command p.cmsis.eth.macmdioar_moc_rd phy_address register_address address)
    mdio_wait_idle
    data_ ← read_reg Reg.eth_macmdiodr
    return (u16 data_)

  unfoldable pub mdio_write : ℕ → ℕ → ℕ → M (Unit {0})
  mdio_write phy_address register_address value = do
    fail_if (leb phy_address_count phy_address || leb 32 register_address) invalid_argument
    mdio_wait_idle
    address ← read_reg Reg.eth_macmdioar
    write_reg Reg.eth_macmdiodr value
    write_reg Reg.eth_macmdioar
        (mdio_command p.cmsis.eth.macmdioar_moc_wr phy_address register_address address)
    mdio_wait_idle

  -- Whether a PHY answers at the address: the body of the loop of `discover_phy`.
  unfoldable pub phy_identified : ℕ → M Bool
  phy_identified address = do
    id1 ← attempt (mdio_read address lan8742_phyi1r true)
    elim id1 [
      | none ↦ return false
      | some a ↦ (do
        id2 ← attempt (mdio_read address lan8742_phyi2r true)
        elim id2 [
          | none ↦ return false
          | some b ↦ return (not (a == 0 && b == 0 || a == 0xffff && b == 0xffff))
        ])
    ]

  unfoldable pub phy_answers : ℕ → M Bool
  phy_answers address = do
    smr ← attempt (mdio_read address lan8742_smr true)
    elim smr [
      | none ↦ return false
      | some v ↦ if bit_and v 0x1f != address then return false else phy_identified address
    ]

  -- The loop of `discover_phy` at `address`, with `left` addresses to try.
  unfoldable pub discover_from : ℕ → ℕ → M (Unit {0})
  discover_from zero address = fail not_ready
  discover_from (suc left) address = do
    found ← phy_answers address
    if found
        then (do w ← get_world; set_eth (record w.eth { g_phy_address = address }))
        else discover_from left (address + 1)

  unfoldable pub discover_phy : M (Unit {0})
  discover_phy = do
    w ← get_world
    set_eth (record w.eth { g_phy_address = no_phy })
    discover_from phy_address_count 0

  unfoldable pub configure_phy : M (Unit {0})
  configure_phy = do
    w ← get_world
    control ← mdio_read w.eth.g_phy_address lan8742_bcr true
    w' ← get_world
    mdio_write w'.eth.g_phy_address lan8742_bcr
        (bit_or (bit_and control (0xffff - bit_or 0x0800 0x0400)) (bit_or 0x1000 0x0200))

  -- `*state` at first.
  abbrev pub link_down : DasEthLinkState
  link_down = record { up = false; speed_mbps = 0; duplex = das_eth_duplex_unknown }

  -- The speed and the duplex mode of a PHYSCSR word.
  unfoldable pub link_mode : ℕ → Option (ℕ × ℕ)
  link_mode phy_status =
      let field = bit_and phy_status 0x1c in
      if field == 0x18
      then some (100, das_eth_duplex_full)
      else if field == 0x08
      then some (100, das_eth_duplex_half)
      else if field == 0x14
      then some (10, das_eth_duplex_full)
      else if field == 0x04
      then some (10, das_eth_duplex_half)
      else none

  -- `if (test) word |= bits;`
  abbrev pub or_when : Bool → ℕ → ℕ → ℕ
  or_when test bits word = if test then bit_or word bits else word

  -- The mode is written to MACCR, whose enable bits stay.
  unfoldable pub apply_link_mode : ℕ → ℕ → M DasEthLinkState
  apply_link_mode speed_mbps duplex = do
    let eth = p.cmsis.eth
    enabled ← read_reg Reg.eth_maccr
    maccr ← read_reg Reg.eth_maccr
    let cleared =
        bit_clear maccr
          (bit_or (bit_or (bit_or eth.maccr_te eth.maccr_re) eth.maccr_fes) eth.maccr_dm)
    let fast = or_when (speed_mbps == 100) eth.maccr_fes cleared
    let full = or_when (duplex == das_eth_duplex_full) eth.maccr_dm fast
    write_reg Reg.eth_maccr (bit_or full (bit_and enabled (bit_or eth.maccr_te eth.maccr_re)))
    barrier Barrier.dsb
    return (record { up = true; speed_mbps = speed_mbps; duplex = duplex })

  -- The link status is read twice.
  unfoldable pub read_link_state : M DasEthLinkState
  read_link_state = do
    w ← get_world
    stale ← mdio_read w.eth.g_phy_address lan8742_bsr true
    w' ← get_world
    status ← mdio_read w'.eth.g_phy_address lan8742_bsr true
    if not (has_bits status 0x0004) then return link_down else (do
      w'' ← get_world
      phy_status ← mdio_read w''.eth.g_phy_address lan8742_physcsr true
      elim (link_mode phy_status) [ none ↦ fail io | some mode ↦ apply_link_mode mode.0 mode.1 ])
