-- ===== src/Address/Kernel.antt =====
-- src/memory/address/mod.rs: the kernel's translations between physical addresses and its own
-- mapping of them. The start of physical memory and the boot address come from the device tree.
use mankoros.Base.{
  ℕ, ◌-◌, ◌<◌, ◌≡◌, leb, ltb, if◌then◌else◌, Run, ok, ◌>>=◌, add_usize, sub_usize, usize_mod, arith,
}

abbrev pub k_seg_beg : ℕ
k_seg_beg = 0xffff_ffc0_0000_0000

abbrev pub k_seg_phy_mem_beg : ℕ
k_seg_phy_mem_beg = 0xffff_fff0_0000_0000

abbrev pub k_seg_text_beg : ℕ
k_seg_text_beg = 0xffff_ffff_8000_0000

abbrev pub k_seg_hardware_beg : ℕ
k_seg_hardware_beg = 0xffff_ffff_c000_0000

abbrev pub device_start : ℕ
device_start = 0xc00_0000

-- `checked_sub` and `checked_add` followed by a panic on `None`
unfoldable pub kernel_phys_to_virt : ℕ → ℕ → Run ℕ
kernel_phys_to_virt phymem_start addr =
    if leb k_seg_beg addr
    then ok addr
    else (sub_usize addr phymem_start >>= λ offset. add_usize offset k_seg_phy_mem_beg)

unfoldable pub kernel_virt_text_to_phys : ℕ → ℕ → Run ℕ
kernel_virt_text_to_phys platform_boot_pc addr =
    if ltb addr k_seg_text_beg
    then ok addr
    else (sub_usize addr k_seg_text_beg >>= λ offset. add_usize offset platform_boot_pc)

unfoldable pub kernel_virt_to_phys : ℕ → ℕ → Run ℕ
kernel_virt_to_phys phymem_start addr =
    if leb addr k_seg_phy_mem_beg
    then ok addr
    else (sub_usize addr k_seg_phy_mem_beg >>= λ offset. add_usize offset phymem_start)

unfoldable pub kernel_phys_dev_to_virt : ℕ → Run ℕ
kernel_phys_dev_to_virt addr =
    if leb k_seg_beg addr
    then ok addr
    else (sub_usize addr device_start >>= λ offset. add_usize offset k_seg_hardware_beg)

-- A physical address past the start of memory, and near enough to it that the mapping does not
-- overflow, goes to a kernel address and back.
pub virt_to_phys-phys_to_virt :
    (phymem_start addr : ℕ)
    → phymem_start < addr
    → addr < k_seg_beg
    → addr - phymem_start < usize_mod - k_seg_phy_mem_beg
    → (kernel_phys_to_virt phymem_start addr >>= kernel_virt_to_phys phymem_start) ≡ ok addr
unfolding kernel_phys_to_virt kernel_virt_to_phys add_usize sub_usize
virt_to_phys-phys_to_virt phymem_start addr h p q = ground arith

-- The first address of physical memory does not come back: its kernel address is returned as it is.
pub virt_to_phys-phys_to_virt_start :
    (phymem_start : ℕ)
    → phymem_start < k_seg_beg
    → (kernel_phys_to_virt phymem_start phymem_start >>= kernel_virt_to_phys phymem_start)
      ≡ ok k_seg_phy_mem_beg
unfolding kernel_phys_to_virt kernel_virt_to_phys add_usize sub_usize
virt_to_phys-phys_to_virt_start phymem_start p = ground arith
