-- ===== src/Console/Tests.antt =====
-- Runs of the console checks, for src/console_contract.rs.
use promptboot.Prelude.{◌≡◌, refl, true, false}
use promptboot.Console.{is_generation_interrupt}

interrupt_by_control : is_generation_interrupt 0x63 0x80000008 ≡ true
unfolding is_generation_interrupt
interrupt_by_control = refl

no_interrupt_unshifted : is_generation_interrupt 0x63 0x80000000 ≡ false
unfolding is_generation_interrupt
no_interrupt_unshifted = refl
