-- ===== src/Main.antt =====
-- src/kernel/main.cpp: the start of the kernel, with src/kernel/archs.hpp and the constructor of
-- src/kernel/arch/amd64/amd64.cpp.
pub mod Start
use coronel.Base.{
  ℕ, ◌+◌, ◌&&◌, leb, ltb, Bool, false, not, List, [], ◌∷◌, Option, some, bit_and, ◌==◌,
  if◌then◌else◌, add64,
}
use coronel.Config.{kvirtual_address}
use coronel.Machine.{Machine, null, placement_kalloc}
use coronel.Paging.Boot.{map_kernel_memory}
use coronel.Screen.{Screen, clear, prints, gray}
use coronel.Number.Print.{Argument, print}
use coronel.Interrupts.{IdtEntry, idt_setup, gdt_setup}
use coronel.Drivers.Timer.{Timer, timer}
use coronel.Drivers.Pci.{Arch, scan_device}
use coronel.Drivers.Pci.Report.{report_all}
use coronel.Kernel.{Kernel}
use coronel.Kernel.Manager.{MmapEntry, MultibootInfo, initialize_memory}

-- The fields of `multiboot_info` that `kmain` reads itself, and those that the memory manager reads.
pub record BootInfo : Type 0 where
  pub info : MultibootInfo
  pub cmdline : ℕ
  pub vbe_mode : ℕ
  pub vbe_interface_seg : ℕ
  pub vbe_interface_off : ℕ
  pub vbe_interface_len : ℕ
  pub framebuffer_addr : ℕ
  pub framebuffer_pitch : ℕ
  pub framebuffer_width : ℕ
  pub framebuffer_height : ℕ
  pub framebuffer_bpp : ℕ
  pub framebuffer_type : ℕ

-- What the kernel finds: the entry points of the interrupts by number, the memory map and the strings in
-- memory, and the configuration space with a bound on the bridges passed.
pub record Found : Type 0 where
  pub handlers : ℕ → ℕ
  pub entry_at : ℕ → MmapEntry
  pub string_at : ℕ → List ℕ
  pub pci : Arch
  pub bridges : ℕ

-- What the kernel sets up. `arch` is where the object of `amd64` lies: `screen` is its `video_`, whose colour
-- and cursor take the bytes 16 to 21 of the object. The keyboard is its shift state.
pub record System : Type 0 where
  pub arch : ℕ
  pub kernel : Kernel
  pub screen : Screen
  pub gdt : List ℕ
  pub idt : ℕ → IdtEntry
  pub timer_handler : Option Timer
  pub keyboard_handler : Option Bool

-- `amd64::amd64`, with the constructor of its screen.
unfoldable pub amd64 : Found → System → System
amd64 found y = record y {
  screen = record y.screen { current_color = gray; col = 0; lin = 0 };
  idt = idt_setup found.handlers y.idt;
  gdt = gdt_setup;
  kernel = record y.kernel {
    heap = record y.kernel.heap { machine = map_kernel_memory y.kernel.heap.machine };
  };
}

-- `sizeof(iarch)`: the class has no fields, only virtual functions.
abbrev pub sizeof_iarch : ℕ
sizeof_iarch = 8

-- The bytes of an `amd64` that are read: its table of functions, that of `video_`, and the colour, column
-- and line of `video_`. The buffer behind them and `paging_` are read nowhere.
abbrev pub fields_in_use : ℕ
fields_in_use = 8 + 8 + 4 + 1 + 1

-- The pointer, and the system after the constructor. Only `sizeof_iarch` bytes are placed, so what is placed
-- next may lie in the object, see `is_covered`.
unfoldable pub get_arch : Found → System → ℕ × System
get_arch found y =
    let (mem, _, m) = placement_kalloc sizeof_iarch false y.kernel.heap.machine in
    (
      mem,
      amd64 found (record y {
        arch = mem;
        kernel = record y.kernel { heap = record y.kernel.heap { machine = m } };
      }),
    )

abbrev pub welcome : List ℕ
welcome =
    b'W' ∷ b'e' ∷ b'l' ∷ b'c' ∷ b'o' ∷ b'm' ∷ b'e' ∷ b' ' ∷ b't' ∷ b'o' ∷ b' ' ∷ b'C' ∷ b'o' ∷ b'r'
    ∷ b'o' ∷ b'n' ∷ b'e' ∷ b'l' ∷ b'O' ∷ b'S' ∷ b'!' ∷ b'\n' ∷ b'A' ∷ b'r' ∷ b'c' ∷ b'h' ∷ b':'
    ∷ b' ' ∷ []

abbrev pub arch_name : List ℕ
arch_name = b'a' ∷ b'm' ∷ b'd' ∷ b'6' ∷ b'4' ∷ []

abbrev command_line : List ℕ
command_line =
    b'C' ∷ b'o' ∷ b'm' ∷ b'm' ∷ b'a' ∷ b'n' ∷ b'd' ∷ b' ' ∷ b'l' ∷ b'i' ∷ b'n' ∷ b'e' ∷ b':' ∷ b' '
    ∷ []

abbrev empty_line : List ℕ
empty_line = b'\n' ∷ b'\n' ∷ []

abbrev vbe_mode_text : List ℕ
vbe_mode_text = b'V' ∷ b'B' ∷ b'E' ∷ b' ' ∷ b'm' ∷ b'o' ∷ b'd' ∷ b'e' ∷ b':' ∷ b' ' ∷ []

abbrev vbe_seg_text : List ℕ
vbe_seg_text =
    b',' ∷ b' ' ∷ b'i' ∷ b'f' ∷ b'a' ∷ b'c' ∷ b'e' ∷ b' ' ∷ b's' ∷ b'e' ∷ b'g' ∷ b'm' ∷ b'e' ∷ b'n'
    ∷ b't' ∷ b':' ∷ b' ' ∷ []

abbrev vbe_off_text : List ℕ
vbe_off_text =
    b',' ∷ b' ' ∷ b'i' ∷ b'f' ∷ b'a' ∷ b'c' ∷ b'e' ∷ b' ' ∷ b'o' ∷ b'f' ∷ b'f' ∷ b's' ∷ b'e' ∷ b't'
    ∷ b':' ∷ b' ' ∷ []

abbrev vbe_len_text : List ℕ
vbe_len_text =
    b',' ∷ b' ' ∷ b'i' ∷ b'f' ∷ b'a' ∷ b'c' ∷ b'e' ∷ b' ' ∷ b'l' ∷ b'e' ∷ b'n' ∷ b'g' ∷ b't' ∷ b'h'
    ∷ b':' ∷ b' ' ∷ []

abbrev address_text : List ℕ
address_text =
    b'F' ∷ b'r' ∷ b'a' ∷ b'm' ∷ b'e' ∷ b'b' ∷ b'u' ∷ b'f' ∷ b'f' ∷ b'e' ∷ b'r' ∷ b' ' ∷ b'a' ∷ b'd'
    ∷ b'd' ∷ b'r' ∷ b'e' ∷ b's' ∷ b's' ∷ b':' ∷ b' ' ∷ []

abbrev width_text : List ℕ
width_text = b',' ∷ b' ' ∷ b'w' ∷ b'i' ∷ b'd' ∷ b't' ∷ b'h' ∷ b':' ∷ b' ' ∷ []

abbrev height_text : List ℕ
height_text = b',' ∷ b' ' ∷ b'h' ∷ b'e' ∷ b'i' ∷ b'g' ∷ b'h' ∷ b't' ∷ b':' ∷ b' ' ∷ []

abbrev bpp_text : List ℕ
bpp_text = b',' ∷ b' ' ∷ b'b' ∷ b'p' ∷ b'p' ∷ b':' ∷ b' ' ∷ []

abbrev pitch_text : List ℕ
pitch_text = b',' ∷ b' ' ∷ b'p' ∷ b'i' ∷ b't' ∷ b'c' ∷ b'h' ∷ b':' ∷ b' ' ∷ []

abbrev type_text : List ℕ
type_text =
    b'F' ∷ b'r' ∷ b'a' ∷ b'm' ∷ b'e' ∷ b'b' ∷ b'u' ∷ b'f' ∷ b'f' ∷ b'e' ∷ b'r' ∷ b' ' ∷ b't' ∷ b'y'
    ∷ b'p' ∷ b'e' ∷ b':' ∷ b' ' ∷ []

abbrev indexed : List ℕ
indexed = b'I' ∷ b'n' ∷ b'd' ∷ b'e' ∷ b'x' ∷ b'e' ∷ b'd' ∷ b'\n' ∷ []

abbrev rgb : List ℕ
rgb = b'R' ∷ b'G' ∷ b'B' ∷ b'\n' ∷ []

abbrev ega_text : List ℕ
ega_text = b'E' ∷ b'G' ∷ b'A' ∷ b' ' ∷ b'T' ∷ b'e' ∷ b'x' ∷ b't' ∷ b'\n' ∷ []

abbrev unknown : List ℕ
unknown = b'U' ∷ b'n' ∷ b'k' ∷ b'n' ∷ b'o' ∷ b'w' ∷ b'n' ∷ b'\n' ∷ []

abbrev pub scanning : List ℕ
scanning =
    b'S' ∷ b'c' ∷ b'a' ∷ b'n' ∷ b'n' ∷ b'i' ∷ b'n' ∷ b'g' ∷ b' ' ∷ b'P' ∷ b'C' ∷ b'I' ∷ b' ' ∷ b'd'
    ∷ b'e' ∷ b'v' ∷ b'i' ∷ b'c' ∷ b'e' ∷ b's' ∷ b'.' ∷ b'.' ∷ b'.' ∷ b'\n' ∷ []

-- The parts of `kmain` that print, each in front of its condition.
abbrev pub print_welcome : Screen → Screen
print_welcome s =
    print (Argument.text welcome ∷ Argument.text arch_name ∷ Argument.letter b'\n' ∷ []) (clear s)

-- A `char*` is no `const char*`.
abbrev pub print_command_line : Found → BootInfo → Screen → Screen
print_command_line found b s =
    if not (bit_and b.info.flags 0x04 == 0)
    then print
        (Argument.text command_line
          ∷ Argument.other (found.string_at (add64 b.cmdline kvirtual_address))
          ∷ Argument.text empty_line
          ∷ [])
        s
    else s

abbrev pub print_vbe : BootInfo → Screen → Screen
print_vbe b s =
    if not (bit_and b.info.flags 0x800 == 0)
    then print
        (Argument.text vbe_len_text
          ∷ Argument.number b.vbe_interface_len
          ∷ Argument.text empty_line
          ∷ [])
        (print (Argument.text vbe_off_text ∷ Argument.number b.vbe_interface_off ∷ []) (
          print (Argument.text vbe_seg_text ∷ Argument.number b.vbe_interface_seg ∷ [])
            (print (Argument.text vbe_mode_text ∷ Argument.number b.vbe_mode ∷ []) s)))
    else s

-- The `switch` on the type.
abbrev pub type_name : ℕ → List ℕ
type_name t =
    if t == 0 then indexed else if t == 1 then rgb else if t == 2 then ega_text else unknown

abbrev pub print_framebuffer : BootInfo → Screen → Screen
print_framebuffer b s =
    let s₁ = print (Argument.text address_text ∷ Argument.number b.framebuffer_addr ∷ []) s in
    let s₂ = print (Argument.text width_text ∷ Argument.number b.framebuffer_width ∷ []) s₁ in
    let s₃ = print (Argument.text height_text ∷ Argument.number b.framebuffer_height ∷ []) s₂ in
    let s₄ = print (Argument.text bpp_text ∷ Argument.number b.framebuffer_bpp ∷ []) s₃ in
    let s₅ =
      print
        (Argument.text pitch_text
          ∷ Argument.number b.framebuffer_pitch
          ∷ Argument.letter b'\n'
          ∷ [])
        s₄ in
    if not (bit_and b.info.flags 0x1000 == 0)
    then prints (b'\n' ∷ []) (prints (type_name b.framebuffer_type) (prints type_text s₅))
    else s

abbrev pub bootloader_magic : ℕ
bootloader_magic = 0x2BADB002

abbrev pub set_timer_handler : Timer → System → System
set_timer_handler t y = record y { timer_handler = some t }

abbrev pub set_keyboard_handler : Bool → System → System
set_keyboard_handler shift y = record y { keyboard_handler = some shift }

abbrev pub add_timer : ℕ → System → System
add_timer frequency y = set_timer_handler (timer frequency) y

abbrev pub add_keyboard : System → System
add_keyboard y = set_keyboard_handler false y

-- Whether `initialize_memory` has put the physical manager, the first thing that it places, over fields of
-- the object at `arch` that are in use. All that is placed later lies behind it.
abbrev pub is_covered : ℕ → Kernel → Bool
is_covered arch k = leb arch k.g_physical_manager && ltb k.g_physical_manager (arch + fields_in_use)

-- `kmain` returns at once, or the object of the architecture is written over while it is in use, after
-- which nothing is said, or everything is started.
pub data Outcome : Type 0 where
  refused : System → Outcome
  covered : Outcome
  started : System → Outcome

-- The prints of the scan come behind those of the boot information, and the memory is set up in between;
-- unless the object is covered, neither reads what the other writes.
unfoldable pub kmain : Found → BootInfo → ℕ → System → Outcome
kmain found b magic y =
    let (arch, y₁) = get_arch found y in
    let s₁ = print_welcome y₁.screen in
    let kernel = initialize_memory b.info found.entry_at y₁.kernel in
    let s₂ = print_framebuffer b (print_vbe b (print_command_line found b s₁)) in
    let s₃ = report_all (scan_device found.bridges found.pci) (prints scanning s₂) in
    if not (magic == bootloader_magic)
    then Outcome.refused y
    else if arch == null
    then Outcome.refused y₁
    else if is_covered arch kernel
    then Outcome.covered
    else Outcome.started (add_keyboard (add_timer 100 (record y₁ { kernel = kernel; screen = s₃ })))
