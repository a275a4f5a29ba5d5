-- ===== src/Emu/Ram.antt =====
-- The RAM arrays of emu/rv32_cpu.h, and the accesses through `uint8_t *`, `uint16_t *` and
-- `uint32_t *` on a little-endian machine. An array is a function from the offset to the byte.
use gdb_stub.Prelude.{
  ℕ, ◌+◌, ◌-◌, ◌*◌, ◌/◌, ◌%◌, ◌^◌, ◌<◌, List, get_or, length, leb, ltb, ◌&&◌, ◌==◌, if◌then◌else◌,
}

-- `RAM_SIZE`, `RAM_BASE`, `UART_BASE`
abbrev pub ram_size : ℕ
ram_size = 64 * 1024

abbrev pub ram_base : ℕ
ram_base = 0x80000000

abbrev pub uart_base : ℕ
uart_base = 0x10000000

abbrev pub Ram : Type 0
Ram = ℕ → ℕ

-- `ram[offset] = byte`
abbrev pub set_byte : ℕ → ℕ → Ram → Ram
set_byte offset byte ram i = if offset == i then byte else ram i

abbrev pub load16 : Ram → ℕ → ℕ
load16 ram offset = ram offset + ram (offset + 1) * 2 ^ 8

abbrev pub load32 : Ram → ℕ → ℕ
load32 ram offset = load16 ram offset + load16 ram (offset + 2) * 2 ^ 16

abbrev pub store16 : ℕ → ℕ → Ram → Ram
store16 offset value ram =
    set_byte (offset + 1) (value / 2 ^ 8 % 2 ^ 8) (set_byte offset (value % 2 ^ 8) ram)

abbrev pub store32 : ℕ → ℕ → Ram → Ram
store32 offset value ram =
    store16 (offset + 2) (value / 2 ^ 16 % 2 ^ 16) (store16 offset (value % 2 ^ 16) ram)

-- `memcpy(&ram[offset], bytes, length)`
unfoldable pub copy_bytes : ℕ → List ℕ → Ram → Ram
copy_bytes offset bytes ram i =
    if leb offset i && ltb i (offset + length bytes) then get_or bytes (i - offset) 0 else ram i

-- an array of `uint8_t`
abbrev pub IsBytes : Ram → Type 0
IsBytes ram = (i : ℕ) → ram i < 2 ^ 8
