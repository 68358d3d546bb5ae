-- ===== src/HwTimer/Frc1.antt =====
-- The timer FRC1 behind its registers.
use esp_misc.Common.{ℕ, ◌%◌, ◌/◌, ◌==◌, ◌≡◌, Bool, true, List, [], ◌∷◌}
use esp_misc.HwTimer.{TimerWrite, ctrl, load, isr_attach, nmi_attach, edge_int, frc1_intr}

-- What the registers hold: whether it counts, from where, and whether it interrupts.
pub record Frc1 : Type 0 where
  pub counting : Bool
  pub loaded : ℕ
  pub attached : Bool
  pub edge : Bool
  pub intr : Bool

abbrev pub written : TimerWrite → Frc1 → Frc1
written (ctrl bits) f = record f { counting = bits / 128 % 2 == 1 }
written (load ticks) f = record f { loaded = ticks }
written isr_attach f = record f { attached = true }
written nmi_attach f = record f { attached = true }
written (edge_int on) f = record f { edge = on }
written (frc1_intr on) f = record f { intr = on }

abbrev pub all_written : List TimerWrite → Frc1 → Frc1
all_written [] f = f
all_written (w ∷ ws) f = all_written ws (written w f)

-- It counts and interrupts.
pub record IsRunning (f : Frc1) : Type 0 where
  pub counts : f.counting ≡ true
  pub takes : f.attached ≡ true
  pub edges : f.edge ≡ true
  pub interrupts : f.intr ≡ true
