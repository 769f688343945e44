-- ===== src/Machine.antt =====
-- The memory that the managers share: the placement pointer of src/kernel/memory/allocators.cpp, the
-- frame nodes and fields of the one `physical` object, and the page-table words. Each kind of
-- object has its own map from addresses, so that a frame node never overlays a page-table word.
use coronel.Base.{ℕ, Bool, ◌==◌, if◌then◌else◌, add64, sub64}
use coronel.Config.{align_up, kvirtual_address}

-- `physical::frame`; 16 bytes.
pub record Frame : Type 0 where
  pub address : ℕ
  pub previous : ℕ

-- `placement` is `__placement`; `physical_end` and `free_list` are the fields of the `physical`
-- object; `cr3` is what `insn::get_current_page` reads.
pub record Machine : Type 0 where
  pub placement : ℕ
  pub frames : ℕ → Frame
  pub physical_end : ℕ
  pub free_list : ℕ
  pub words : ℕ → ℕ
  pub cr3 : ℕ

abbrev pub null : ℕ
null = 0

-- A store at one address.
abbrev pub update {ℓ} : {A : Type ℓ} → (ℕ → A) → ℕ → A → ℕ → A
update mem p v q = if q == p then v else mem q

-- `if (align) { __placement = ALIGN_UP(__placement); }`
abbrev pub placement_start : Bool → Machine → ℕ
placement_start align m = if align then align_up m.placement else m.placement

-- The pointer, the physical address that goes through `paddr`, and the new state.
unfoldable pub placement_kalloc : ℕ → Bool → Machine → ℕ × ℕ × Machine
placement_kalloc size align m =
    let ret = placement_start align m in
    (ret, sub64 ret kvirtual_address, record m { placement = add64 ret size })

unfoldable pub kfree_block : ℕ → Machine → Machine
kfree_block size m = record m { placement = sub64 m.placement size }

-- `current()`
unfoldable pub current : Machine → ℕ
current m = m.placement
