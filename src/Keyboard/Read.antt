-- ===== src/Keyboard/Read.antt =====
-- From the keys to a reader of the keyboard file: `kbd_read` of kernel/ps2.c.
use jeos.Prelude.{ℕ, replicate, length-replicate, arith}
use jeos.Ring.Inv.{IsValid, init-IsValid}
use jeos.Keyboard.{fresh}

pub fresh-IsValid : IsValid fresh.ring
unfolding fresh
fresh-IsValid =
    init-IsValid (replicate 1024 0) 1024 (omega arith) (omega arith)
      (omega (arith, length-replicate {A = ℕ} 1024 0))
