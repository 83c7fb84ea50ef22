-- ===== src/Tests/Log.antt =====
-- The theorem on the panic handler at a concrete input: the screen's lock is held.
use testos.Base.{ℕ, arith, true, false, List, [], ◌∷◌, replicate, length-replicate}
use testos.Vga
use testos.Vga.{VgaWriter, writer}
use testos.Vga.Bounds.{IsWriter}
use testos.Log.{DebugLogger, log_sink, qemu_write_str, panic_handler, debug_logger}
use testos.Log.Safe.{Reports, panic_handler-Reports}

abbrev memory : List ℕ
memory = replicate 4000 32

abbrev on_screen : VgaWriter
on_screen = writer memory 160

on_screen-IsWriter : IsWriter on_screen
on_screen-IsWriter = record { size = length-replicate {A = ℕ} 4000 32; bound = omega arith }

abbrev loggers : DebugLogger
loggers = (log_sink qemu_write_str [] false, log_sink Vga.write_str on_screen true)

panic_handler-Reports_example :
    Reports
      (107 ∷ [])
      (111 ∷ 104 ∷ [])
      loggers
      (panic_handler debug_logger true (107 ∷ []) (111 ∷ 104 ∷ []) [] memory loggers)
panic_handler-Reports_example =
    panic_handler-Reports (107 ∷ []) (111 ∷ 104 ∷ []) loggers on_screen-IsWriter
