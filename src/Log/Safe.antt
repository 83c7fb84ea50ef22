-- ===== src/Log/Safe.antt =====
-- The panic handler of src/kmain.rs and the loggers of shared/src/log.rs that it uses.
use testos.Base.{
  ℕ, ◌≡◌, inl, inr, refl, sym, ap, ◌∙◌, arith, Bool, true, false, ◌||◌, Bool-cases, List, [], ◌∷◌,
  ◌++◌, append_assoc, append-nil, Outcome, ok, panic, ◌>>=◌,
}
use testos.Vga
use testos.Vga.{VgaWriter}
use testos.Vga.Bounds.{IsWriter, write_str-IsSafe, new-IsSafe}
use testos.Log.{
  error, pieces, log_sink, write_pieces, sink_log, bytes, utf8, qemu_write_str, QemuDebugWriter,
  DebugLogger, debug_logger, Report, logged, printed, panic_handler,
}

-- The line that a message makes: `[ERROR] `, the target, `: `, the text, and the end of the line.
abbrev pub error_line : List ℕ → List ℕ → List ℕ
error_line target text =
    91 ∷ 69 ∷ 82 ∷ 82 ∷ 79 ∷ 82 ∷ 93 ∷ 32 ∷ (target ++ (58 ∷ 32 ∷ (text ++ (10 ∷ []))))

abbrev joined : List (List ℕ) → List ℕ
joined [] = []
joined (s ∷ ss) = s ++ joined ss

bytes-append : (cs ds : List ℕ) → bytes (cs ++ ds) ≡ bytes cs ++ bytes ds
bytes-append [] ds = refl
bytes-append (c ∷ cs) ds =
    ap (λ t. utf8 c ++ t) (bytes-append cs ds) ∙ sym (append_assoc (utf8 c) (bytes cs) (bytes ds))

-- Pieces that are written one after the other are written as one string.
write_pieces-qemu :
    (ss : List (List ℕ)) (sent : QemuDebugWriter)
    → write_pieces qemu_write_str ss sent ≡ ok (sent ++ bytes (joined ss))
unfolding write_pieces qemu_write_str
write_pieces-qemu [] sent = ap ok (sym (append-nil sent))
write_pieces-qemu (s ∷ ss) sent =
    write_pieces-qemu ss (sent ++ bytes s)
    ∙ ap ok (
        append_assoc sent (bytes s) (bytes (joined ss))
        ∙ ap (λ t. sent ++ t) (sym (bytes-append s (joined ss))))

write_str-append :
    (cs ds : List ℕ) (w : VgaWriter)
    → Vga.write_str (cs ++ ds) w ≡ (Vga.write_str cs w >>= λ v. Vga.write_str ds v)
unfolding Vga.write_str
write_str-append [] ds w = refl
write_str-append (c ∷ cs) ds w = go (write_str-append cs ds) (Vga.write_char c w)
  where
    go :
        ((v : VgaWriter)
          → Vga.write_str (cs ++ ds) v ≡ (Vga.write_str cs v >>= λ u. Vga.write_str ds u))
        → (o : Outcome VgaWriter)
        → (o >>= λ v. Vga.write_str (cs ++ ds) v)
          ≡ ((o >>= λ v. Vga.write_str cs v) >>= λ v. Vga.write_str ds v)
    go later panic = refl
    go later (ok v) = later v

write_pieces-screen :
    (ss : List (List ℕ)) (w : VgaWriter)
    → write_pieces Vga.write_str ss w ≡ Vga.write_str (joined ss) w
unfolding write_pieces Vga.write_str
write_pieces-screen [] w = refl
write_pieces-screen (s ∷ ss) w =
    go (write_pieces-screen ss) (Vga.write_str s w) ∙ sym (write_str-append s (joined ss) w)
  where
    go :
        ((v : VgaWriter) → write_pieces Vga.write_str ss v ≡ Vga.write_str (joined ss) v)
        → (o : Outcome VgaWriter)
        → (o >>= λ v. write_pieces Vga.write_str ss v) ≡ (o >>= λ v. Vga.write_str (joined ss) v)
    go later panic = refl
    go later (ok v) = later v

-- What the panic handler leaves. If no lock is held, both loggers have the line of the message: the
-- debug port got its bytes, and it was written to the screen. If one is held, the text goes to the port
-- and to a new writer of the screen.
pub data Reports (target text : List ℕ) (l : DebugLogger) (r : Outcome (Report DebugLogger))
    : Type 0 where
  by_logger :
      (w : VgaWriter)
      → l.0.locked || l.1.locked ≡ false
      → r
        ≡ ok (
            logged (
              log_sink qemu_write_str (l.0.writer ++ bytes (error_line target text)) false,
              log_sink Vga.write_str w false,
            ))
      → Vga.write_str (error_line target text) l.1.writer ≡ ok w
      → IsWriter w
      → Reports target text l r
  by_hand :
      (cleared w : VgaWriter)
      → l.0.locked || l.1.locked ≡ true
      → r ≡ ok (printed (l.0.writer ++ bytes text) w)
      → Vga.new l.1.writer.vmem ≡ ok cleared
      → Vga.write_str text cleared ≡ ok w
      → IsWriter w
      → Reports target text l r

both_free : (a b : Bool) → a || b ≡ false → (a ≡ false) × (b ≡ false)
both_free true b e = absurd (ground arith)
both_free false b e = (refl, e)

-- With the feature qemu_debugcon and a valid writer of the screen, the panic handler returns whichever
-- locks are held. If none is, the bytes of `[ERROR] target: text` and a line end went to the debug port
-- and the line was written to the screen; otherwise the bytes of the text went to the port, and the
-- text to the cleared screen.
pub panic_handler-Reports :
    (target text : List ℕ) (l : DebugLogger)
    → IsWriter l.1.writer
    → Reports target text l
        (panic_handler debug_logger true target text l.0.writer l.1.writer.vmem l)
unfolding panic_handler sink_log qemu_write_str
panic_handler-Reports target text l v = elim (Bool-cases (l.0.locked || l.1.locked)) [
  | inl held ↦
      let (cleared, made, valid) = new-IsSafe l.1.writer.vmem v.size in
      let (w, run, valid') = write_str-IsSafe text cleared valid in
      by_hand cleared w held (rw (held, made, run) refl) made run valid'
  | inr unheld ↦
      let ps = pieces (record { level = error; target = target; args = text }) in
      let (free₀, free₁) = both_free l.0.locked l.1.locked unheld in
      let (w, run, valid) = write_str-IsSafe (error_line target text) l.1.writer v in
      by_logger w unheld
        (rw
          (
            unheld,
            free₀,
            write_pieces-qemu ps l.0.writer,
            free₁,
            write_pieces-screen ps l.1.writer ∙ run,
          )
          refl)
        run valid
]
