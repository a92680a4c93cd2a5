-- ===== src/Microbios/Int15/E820.antt =====
-- The memory map that a guest reads entry by entry, function E820h of interrupt 15h.
use bhyve_experiments.Base.{ℕ, zero, suc, ◌+◌, ◌%◌, ◌≤◌, ◌≡◌, Bool, true, false}
use bhyve_experiments.Base.{List, [], ◌∷◌, Option, none, some, length, ◌==◌, if◌then◌else◌}
use bhyve_experiments.Iov.{copy_in, copy_out}
use bhyve_experiments.Microbios.{
  Regs, Bios, Env, E820Entry, reg_word, reg_lobyte, reg_hibyte, linear,
}
use bhyve_experiments.Microbios.{clear_cf}
use bhyve_experiments.Microbios.Int15.{smap, e820_size, entry_bytes, handle_int15}

-- What the guest asks with: the function, the signature, room for an entry, and a buffer in memory.
pub record IsAsking (env : Env) (r : Regs) : Type 0 where
  pub function_high : reg_hibyte r.eax ≡ 0xe8
  pub function_low : reg_lobyte r.eax ≡ 0x20
  pub signature : r.edx ≡ smap
  pub room : e820_size ≤ reg_word r.ecx
  pub buffer : env.backed (linear r.es r.edi) e820_size ≡ true

-- the state after entry `k` was copied
copied : Bios → Regs → ℕ → E820Entry → Bios
copied m r k e = record m {
  memory = copy_out m.memory (linear r.es r.edi) (entry_bytes e);
  vcpu = record m.vcpu { rax = smap; rbx = (k + 1) % length m.e820_tbl; rcx = e820_size; rdx = 0 };
  vars = record m.vars {
    flags =
        (clear_cf (record r {
          eax = smap;
          ebx = (k + 1) % length m.e820_tbl;
          ecx = e820_size;
          edx = 0;
        })).eflags;
  };
}

-- the next request of the guest: the same, with the continuation that it was given
abbrev pub with_ebx : Regs → ℕ → Regs
with_ebx r ebx = record r { ebx = ebx }

abbrev got : Regs → Bios → List ℕ
got r w = copy_in w.memory (linear r.es r.edi) e820_size

-- The loop of a guest, for at most `n` rounds: it asks for an entry, keeps the bytes that it gets,
-- and asks again with the continuation, until that is 0 or the call fails.
abbrev pub next_round : (Bios → ℕ → List (List ℕ)) → Regs → Option (Bios × Bool) → List (List ℕ)
next_round more r none = []
next_round more r (some (w, false)) = []
next_round more r (some (w, true)) = got r w ∷ (if w.vcpu.rbx == 0 then [] else more w w.vcpu.rbx)

unfoldable pub walk : ℕ → Env → Bios → Regs → List (List ℕ)
walk zero env m r = []
walk (suc n) env m r = next_round (λ w ebx. walk n env w (with_ebx r ebx)) r (handle_int15 env m r)
