-- ===== src/Log.antt =====
-- The loggers of shared/src/log.rs. A string is the list of its characters. The arguments of a message
-- come formatted. A lock that is held is never released while the code waits for it, since no other
-- code runs then: waiting for it gives no result, which is `panic` here.
pub mod Safe
use testos.Base.{
  ℕ, ◌+◌, ◌*◌, ◌/◌, ◌%◌, ◌^◌, Bool, true, false, not, ◌||◌, List, [], ◌∷◌, ◌++◌, ltb, if◌then◌else◌,
  Outcome, ok, ◌>>=◌, ◌>>◌, assert,
}
use testos.Vga
use testos.Vga.{VgaWriter}

pub data Level : Type 0 where
  error warn info debug trace : Level

abbrev pub level_as_string : Level → List ℕ
level_as_string error = 69 ∷ 82 ∷ 82 ∷ 79 ∷ 82 ∷ []
level_as_string warn = 32 ∷ 87 ∷ 65 ∷ 82 ∷ 78 ∷ []
level_as_string info = 32 ∷ 73 ∷ 78 ∷ 70 ∷ 79 ∷ []
level_as_string debug = 68 ∷ 69 ∷ 66 ∷ 85 ∷ 71 ∷ []
level_as_string trace = 84 ∷ 82 ∷ 65 ∷ 67 ∷ 69 ∷ []

-- `log::Record`, with its arguments as text.
pub record Record : Type 0 where
  pub level : Level
  pub target : List ℕ
  pub args : List ℕ

-- `Log` and `LogExt`.
pub record Logger {ℓ} (L : Type ℓ) : Type ℓ where
  pub enabled : L → Bool
  pub log : Record → L → Outcome L
  pub flush : L → Outcome L
  pub is_locked : L → Bool

-- The pieces that `writeln!("[{}] {}: {}", ..)` writes.
abbrev pub pieces : Record → List (List ℕ)
pieces r =
    (91 ∷ [])
    ∷ level_as_string r.level
    ∷ (93 ∷ 32 ∷ [])
    ∷ r.target
    ∷ (58 ∷ 32 ∷ [])
    ∷ r.args
    ∷ (10 ∷ [])
    ∷ []

module _ {ℓ} {W : Type ℓ} (write_str : List ℕ → W → Outcome W) where
  pub record LogSink : Type ℓ where
    pub writer : W
    pub locked : Bool

  abbrev pub log_sink : W → Bool → LogSink
  log_sink w b = record { writer = w; locked = b }

  unfoldable pub write_pieces : List (List ℕ) → W → Outcome W
  write_pieces [] w = ok w
  write_pieces (s ∷ ss) w = do w' ← write_str s w; write_pieces ss w'

  unfoldable pub sink_log : Record → LogSink → Outcome LogSink
  sink_log r s = do
    assert (not s.locked)
    w ← write_pieces (pieces r) s.writer
    ok (log_sink w false)

  abbrev pub sink_logger : Logger LogSink
  sink_logger = record {
    enabled = λ s. true;
    log = sink_log;
    flush = λ s. ok s;
    is_locked = λ s. s.locked;
  }

-- `LogTee`.
abbrev pub tee {ℓ κ} : {A : Type ℓ} {B : Type κ} → Logger A → Logger B → Logger (A × B)
tee first second = record {
  enabled = λ l. first.enabled l.0 || second.enabled l.1;
  log = λ r l. first.log r l.0 >>= λ a. second.log r l.1 >>= λ b. ok (a, b);
  flush = λ l. first.flush l.0 >>= λ a. second.flush l.1 >>= λ b. ok (a, b);
  is_locked = λ l. first.is_locked l.0 || second.is_locked l.1;
}

-- The UTF-8 bytes of a character.
abbrev pub utf8 : ℕ → List ℕ
utf8 c =
    if ltb c 128
    then c ∷ []
    else if ltb c 2048
    then (192 + c / 64) ∷ (128 + c % 64) ∷ []
    else if ltb c 65536
    then (224 + c / 4096) ∷ (128 + c / 64 % 64) ∷ (128 + c % 64) ∷ []
    else (240 + c / 262144) ∷ (128 + c / 4096 % 64) ∷ (128 + c / 64 % 64) ∷ (128 + c % 64) ∷ []

abbrev pub bytes : List ℕ → List ℕ
bytes [] = []
bytes (c ∷ cs) = utf8 c ++ bytes cs

-- The bytes that went to the debug port, in order.
abbrev pub QemuDebugWriter : Type 0
QemuDebugWriter = List ℕ

unfoldable pub qemu_write_str : List ℕ → QemuDebugWriter → Outcome QemuDebugWriter
qemu_write_str s sent = ok (sent ++ bytes s)

-- `LOGGER` of src/kmain.rs with the feature `qemu_debugcon`, and without it.
abbrev pub DebugLogger : Type 0
DebugLogger = LogSink qemu_write_str × LogSink Vga.write_str

abbrev pub debug_logger : Logger DebugLogger
debug_logger = tee (sink_logger qemu_write_str) (sink_logger Vga.write_str)

abbrev pub screen_logger : Logger (LogSink Vga.write_str)
screen_logger = sink_logger Vga.write_str

-- What the panic handler of src/kmain.rs leaves: the logger after the message, or the writers that it
-- made itself.
pub data Report {ℓ} (L : Type ℓ) : Type ℓ where
  logged : L → Report L
  printed : QemuDebugWriter → VgaWriter → Report L

-- The panic handler up to the halt. `vmem` is the video memory, to which the logger may have written,
-- and `sent` what went to the debug port.
unfoldable pub panic_handler {ℓ} :
    {L : Type ℓ}
    → Logger L
    → Bool
    → List ℕ
    → List ℕ
    → QemuDebugWriter
    → List ℕ
    → L
    → Outcome (Report L)
panic_handler logger qemu_debugcon target text sent vmem l =
    if not (logger.is_locked l)
    then (do
      l' ← logger.log (record { level = error; target = target; args = text }) l
      ok (logged l'))
    else (do
      sent' ← (if qemu_debugcon then qemu_write_str text sent else ok sent)
      w ← Vga.new vmem
      w' ← Vga.write_str text w
      ok (printed sent' w'))
