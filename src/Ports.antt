-- ===== src/Ports.antt =====
-- Kernel/src/sys/io.c: the processor's ports. What a device answers is a parameter, by the port and the
-- width of the read in bytes; a write is a value.
use wheatley.Common.{ℕ, ◌%◌, ◌^◌}

-- The answers are read as numbers of that width.
abbrev pub Device : Type 0
Device = (port width : ℕ) → ℕ

pub record PortWrite : Type 0 where
  pub port : ℕ  -- uint16_t
  pub width : ℕ
  pub val : ℕ

unfoldable pub outb : (port val : ℕ) → PortWrite
outb port val = record { port = port; width = 1; val = val % 2 ^ 8 }

unfoldable pub outw : (port val : ℕ) → PortWrite
outw port val = record { port = port; width = 2; val = val % 2 ^ 16 }

unfoldable pub outd : (port val : ℕ) → PortWrite
outd port val = record { port = port; width = 4; val = val % 2 ^ 32 }

unfoldable pub inb : Device → (port : ℕ) → ℕ
inb device port = device port 1 % 2 ^ 8

unfoldable pub inw : Device → (port : ℕ) → ℕ
inw device port = device port 2 % 2 ^ 16

-- `ret` is a uint16_t, so the instruction reads two bytes.
unfoldable pub ind : Device → (port : ℕ) → ℕ
ind device port = device port 2 % 2 ^ 16
