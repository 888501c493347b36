-- ===== src/Eth/Vlan.antt =====
-- The VLAN registers that main/network/eth_network.c writes.
use esp32_deskflow.Prelude.{
  ℕ, zero, suc, ◌⊎◌, inl, inr, Bool-cases, ◌+◌, ◌*◌, ◌^◌, ◌≤◌, ◌≡◌, refl, ap, ◌∙◌, arith, ℤ, pos,
  negsuc, ltb_ℤ, bit_and, bit_or, Bool, true, false, ◌==◌, holds_below, holds_below_at,
  if◌then◌else◌, ◌||◌,
}
use esp32_deskflow.Eth.{Registers, eth_set_vlan}

abbrev tag_kept : ℕ → Bool
tag_kept v = bit_and v 0x0fff == v

abbrev tag_inserted : ℕ → Bool
tag_inserted v = bit_or (bit_or (bit_and v 0x0fff) (2 * 2 ^ 16)) (1 * 2 ^ 18) == v + 0x60000

all_inserted : holds_below tag_inserted 4095 ≡ true
unfolding holds_below
all_inserted = refl

all_kept : holds_below tag_kept 4095 ≡ true
unfolding holds_below
all_kept = refl

-- The registers for a tag: the receive filter keeps the tag beside its enable bit, and the transmit
-- register holds the tag with "insert" and "use this register".
abbrev pub tagged : ℕ → ℕ → Registers
tagged emac_etv v = record { vlantag = bit_or v emac_etv; inclusion = v + 0x60000 }

valid_tag :
    (emac_etv v : ℕ) (regs : Registers)
    → 1 ≤ v
    → v ≤ 4094
    → eth_set_vlan emac_etv (pos v) regs ≡ tagged emac_etv v
unfolding eth_set_vlan
valid_tag emac_etv v regs low high =
    let valid : (ltb_ℤ (pos v) (pos 1) || ltb_ℤ (pos 4094) (pos v)) ≡ false = ground arith in
    let kept : bit_and v 0x0fff ≡ v =
      ground (arith, holds_below_at tag_kept 4095 all_kept v (omega arith)) in
    let inserted : bit_or (bit_or (bit_and v 0x0fff) (2 * 2 ^ 16)) (1 * 2 ^ 18) ≡ v + 0x60000 =
      ground (arith, holds_below_at tag_inserted 4095 all_inserted v (omega arith)) in
    let sent = bit_or (bit_or (bit_and v 0x0fff) (2 * 2 ^ 16)) (1 * 2 ^ 18) in
    ap
      (λ (t : Bool).
        if t
        then regs
        else record { vlantag = bit_or (bit_and v 0x0fff) emac_etv; inclusion = sent })
      valid
    ∙ ap (λ (k : ℕ). record { vlantag = bit_or k emac_etv; inclusion = sent }) kept
    ∙ ap (λ (k : ℕ). record { vlantag = bit_or v emac_etv; inclusion = k }) inserted

-- Whatever number is configured, eth_set_vlan clears both registers for -1, tags and filters by a number
-- from 1 to 4094, and leaves the registers alone for every other one.
pub eth_set_vlan_lem :
    (emac_etv : ℕ) (id : ℤ) (regs : Registers)
    → (id ≡ negsuc 0) × (eth_set_vlan emac_etv id regs ≡ record { vlantag = 0; inclusion = 0 })
      ⊎ (((v : ℕ) × (id ≡ pos v)
            × (1 ≤ v)
            × (v ≤ 4094)
            × (eth_set_vlan emac_etv id regs ≡ tagged emac_etv v))
          ⊎ ((ltb_ℤ id (pos 1) || ltb_ℤ (pos 4094) id) ≡ true)
            × (eth_set_vlan emac_etv id regs ≡ regs))
unfolding eth_set_vlan
eth_set_vlan_lem emac_etv (negsuc zero) regs = inl (refl, refl)
eth_set_vlan_lem emac_etv (negsuc (suc n)) regs = inr (inr (ground arith, ground arith))
eth_set_vlan_lem emac_etv (pos v) regs =
    let set_to : Registers = record {
      vlantag = bit_or (bit_and v 0x0fff) emac_etv;
      inclusion = bit_or (bit_or (bit_and v 0x0fff) (2 * 2 ^ 16)) (1 * 2 ^ 18);
    } in
    elim (Bool-cases (ltb_ℤ (pos v) (pos 1) || ltb_ℤ (pos 4094) (pos v))) [
      | inl outside ↦ inr (inr (outside, ap (λ (t : Bool). if t then regs else set_to) outside))
      | inr inside ↦
          let low : 1 ≤ v = ground arith in
          let high : v ≤ 4094 = ground arith in
          inr (inl (v, refl, low, high, valid_tag emac_etv v regs low high))
    ]
