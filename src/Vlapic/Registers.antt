-- ===== src/Vlapic/Registers.antt =====
-- Writes of the registers of a local APIC, `vlapic_write` of bios/vmm/io/vlapic.c, where the source
-- has panics: of the divisor of the timer, of an LVT register and of the stack of vectors.
use bhyve_experiments.Base.Ends.{Ends, ended, then-Ends, weaker-Ends}
use bhyve_experiments.Base.{
  ℕ, zero, suc, ◌+◌, ◌*◌, ◌/◌, ◌%◌, ◌^◌, ◌<◌, ◌≤◌, ◌≡◌, ◌≢◌, refl, sym, subst, arith, Bool, true,
  false, ◌&&◌, ◌||◌, Option, none, some, if◌then◌else◌, bit_and,
}
use bhyve_experiments.Base.{leb, ◌==◌, set}
use bhyve_experiments.Base.Words.{bit_and_step, bit_and-zero}
use bhyve_experiments.Vlapic.Apic.{Vlapic}
use bhyve_experiments.Vlapic.Access.{
  divisor_of, timer_divisor, dcr_write_handler, lvt_off_to_idx, written_lvt, write_register,
  icrtmr_write_handler, svr_write_handler, dfr_write_handler, ldr_write_handler, id_write_handler,
  esr_write_handler, vlapic_bus_freq,
}
use bhyve_experiments.Vlapic.Keeps.{
  Keeps, then-Keeps, same-Keeps, plain-Keeps, dfr-Keeps, ldr-Keeps, svr-Keeps, icrtmr-Keeps,
  lvt-Keeps,
}
use bhyve_experiments.Vlapic.Good.{IsGood, IsGood-Keeps, set_tpr-Ends, process_eoi-Ends}

-- Three of the four lowest bits are left.
three_bits : (x : ℕ) → bit_and x 0xb ≡ x % 2 + 2 * (x / 2 % 2) + 8 * (x / 8 % 2)
three_bits x = omega (
  arith,
  bit_and_step x 0xb,
  bit_and_step (x / 2) 5,
  bit_and_step (x / 2 / 2) 2,
  bit_and_step (x / 2 / 2 / 2) 1,
  bit_and-zero (x / 2 / 2 / 2 / 2),
)

divisor_of-Ends :
    (a b c : ℕ)
    → a < 2
    → b < 2
    → c < 2
    → Ends (λ d. (1 ≤ d) × (d ≤ 128)) (divisor_of (a + 2 * b + 8 * c))
divisor_of-Ends zero zero zero p q r = ended 2 (omega arith, omega arith)
divisor_of-Ends (suc zero) zero zero p q r = ended 4 (omega arith, omega arith)
divisor_of-Ends zero (suc zero) zero p q r = ended 8 (omega arith, omega arith)
divisor_of-Ends (suc zero) (suc zero) zero p q r = ended 16 (omega arith, omega arith)
divisor_of-Ends zero zero (suc zero) p q r = ended 32 (omega arith, omega arith)
divisor_of-Ends (suc zero) zero (suc zero) p q r = ended 64 (omega arith, omega arith)
divisor_of-Ends zero (suc zero) (suc zero) p q r = ended 128 (omega arith, omega arith)
divisor_of-Ends (suc zero) (suc zero) (suc zero) p q r = ended 1 (omega arith, omega arith)
divisor_of-Ends (suc (suc a)) b c p q r = absurd (omega arith)
divisor_of-Ends zero (suc (suc b)) c p q r = absurd (omega arith)
divisor_of-Ends (suc zero) (suc (suc b)) c p q r = absurd (omega arith)
divisor_of-Ends zero zero (suc (suc c)) p q r = absurd (omega arith)
divisor_of-Ends zero (suc zero) (suc (suc c)) p q r = absurd (omega arith)
divisor_of-Ends (suc zero) zero (suc (suc c)) p q r = absurd (omega arith)
divisor_of-Ends (suc zero) (suc zero) (suc (suc c)) p q r = absurd (omega arith)

-- All that a divide configuration can be is among the cases.
pub timer_divisor-Ends : (dcr : ℕ) → Ends (λ d. (1 ≤ d) × (d ≤ 128)) (timer_divisor dcr)
unfolding timer_divisor
timer_divisor-Ends dcr =
    subst (λ x. Ends (λ d. (1 ≤ d) × (d ≤ 128)) (divisor_of x)) (sym (three_bits dcr))
      (divisor_of-Ends (dcr % 2) (dcr / 2 % 2) (dcr / 8 % 2) (omega arith) (omega arith)
        (omega arith))

pub dcr-Ends : (v : Vlapic) → Ends (Keeps v) (dcr_write_handler v)
unfolding dcr_write_handler
dcr-Ends v =
    then-Ends _ (Keeps v) (timer_divisor v.dcr_timer)
      (λ divisor.
        some (record v { timer_freq = vlapic_bus_freq / divisor; timer_period = v.icr_timer }))
      (timer_divisor-Ends v.dcr_timer) (λ d h. ended _ (plain-Keeps v _ refl refl))

lvt_index :
    (offset : ℕ)
    → offset % 16 ≡ 0
    → (offset == 0x2f0 || leb 0x320 offset && leb offset 0x370) ≡ true
    → lvt_off_to_idx offset ≢ none
unfolding lvt_off_to_idx
lvt_index offset aligned among e = ground arith

module _ (v : Vlapic) (good : IsGood v) where
  written_lvt-Ends : (value : ℕ) (o : Option ℕ) → o ≢ none → Ends IsGood (written_lvt v value o)
  written_lvt-Ends value none h = absurd (h refl)
  written_lvt-Ends value (some idx) h =
      let w : Vlapic = record v { lvt = set v.lvt idx value } in
      ended _
        (IsGood-Keeps v _ good (then-Keeps v w _ (plain-Keeps v w refl refl) (lvt-Keeps idx w)))

  -- a handler that keeps what `IsGood` is about, behind the write of its register
  handled-Ends :
      (f : Vlapic → Vlapic) (w : Vlapic) → Keeps v w → Keeps w (f w) → Ends IsGood (some (f w))
  handled-Ends f w p q = ended (f w) (IsGood-Keeps v (f w) good (then-Keeps v w (f w) p q))

  choose-Ends :
      (b : Bool) (x y : Option Vlapic)
      → (b ≡ true → Ends IsGood x)
      → Ends IsGood y
      → Ends IsGood (if b then x else y)
  choose-Ends true x y p q = p refl
  choose-Ends false x y p q = q

  pub write_register-Ends :
      (offset wval : ℕ) → offset % 16 ≡ 0 → Ends IsGood (write_register v offset wval)
  unfolding write_register
  write_register-Ends offset wval aligned =
      let value = wval % 2 ^ 32 in
      choose-Ends _ _ _
        (λ e.
          handled-Ends id_write_handler (record v { id = value }) (plain-Keeps v _ refl refl)
            (plain-Keeps _ _ refl refl))
        (choose-Ends _ _ _ (λ e. set_tpr-Ends v good (wval % 256))
          (choose-Ends _ _ _ (λ e. process_eoi-Ends v good)
            (choose-Ends _ _ _
              (λ e.
                handled-Ends ldr_write_handler (record v { ldr = value })
                  (plain-Keeps v _ refl refl) (ldr-Keeps _))
              (choose-Ends _ _ _
                (λ e.
                  handled-Ends dfr_write_handler (record v { dfr = value })
                    (plain-Keeps v _ refl refl) (dfr-Keeps _))
                (choose-Ends _ _ _
                  (λ e.
                    handled-Ends svr_write_handler (record v { svr = value })
                      (plain-Keeps v _ refl refl) (svr-Keeps _))
                  (choose-Ends _ _ _ (λ e. hi_written value (omega arith))
                    (choose-Ends _ _ _
                      (λ e.
                        written_lvt-Ends value (lvt_off_to_idx offset) (lvt_index offset aligned e))
                      (choose-Ends _ _ _
                        (λ e.
                          handled-Ends icrtmr_write_handler (record v { icr_timer = value })
                            (plain-Keeps v _ refl refl) (icrtmr-Keeps _))
                        (choose-Ends _ _ _ (λ e. configured-Ends value)
                          (choose-Ends _ _ _
                            (λ e.
                              handled-Ends esr_write_handler v (same-Keeps v)
                                (plain-Keeps v _ refl refl))
                            (ended v good)))))))))))
    where
      hi_written : (value : ℕ) → value < 2 ^ 32 → Ends IsGood (some (record v { icr_hi = value }))
      hi_written value h = ended _ (record { stack = good.stack; word = h })

      configured-Ends :
          (value : ℕ) → Ends IsGood (dcr_write_handler (record v { dcr_timer = value }))
      configured-Ends value =
          let w : Vlapic = record v { dcr_timer = value } in
          weaker-Ends _ IsGood (dcr_write_handler w) (dcr-Ends w)
            (λ u k. IsGood-Keeps v u good (then-Keeps v w u (plain-Keeps v w refl refl) k))
