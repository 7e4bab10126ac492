-- ===== src/Locks/Interrupts.antt =====
-- push_off and pop_off of spinlock.c are matched.
use cpu_scheduling_algos.Prelude.{
  ℕ, zero, suc, ◌-◌, ◌≡◌, ◌≢◌, refl, ap, ◌∙◌, ◌==◌, false, ◌&&◌, Bool-cases, inl, inr, arith,
  Outcome, done, ◌>>=◌,
}
use cpu_scheduling_algos.Locks.{Cpu, push_off, pop_off}

abbrev pub push_many : ℕ → Cpu → Cpu
push_many zero c = c
push_many (suc n) c = push_many n (push_off c)

abbrev pub pop_many : ℕ → Cpu → Outcome Cpu
pop_many zero c = done c
pop_many (suc n) c = pop_many n c >>= pop_off

-- What stays of a CPU over matched calls.
pub record Restored (c c' : Cpu) : Type 0 where
  pub intr : c'.intr ≡ c.intr
  pub noff : c'.noff ≡ c.noff
  pub intena : c.noff ≢ 0 → c'.intena ≡ c.intena

pop_one :
    (c c' : Cpu)
    → (c.noff ≢ 0 → c.intr ≡ false)
    → Restored (push_off c) c'
    → (c'' : Cpu) × (pop_off c' ≡ done c'') × Restored c c''
unfolding push_off pop_off
pop_one c c' quiet r = (
  record c' { noff = c'.noff - 1; intr = c'.noff - 1 == 0 && c'.intena },
  ground (arith, r.intr, r.noff),
  record {
    intr = elim (Bool-cases (c.noff == 0)) [
      | inl z ↦ ground (arith, r.noff, r.intena)
      | inr nz ↦ ground (arith, r.noff, quiet)
    ];
    noff = ground (arith, r.noff);
    intena = λ ne. ground (arith, r.noff, r.intena);
  },
)

push_off-off : (c : Cpu) → (push_off c).intr ≡ false
unfolding push_off
push_off-off c = refl

-- Any number of push_offs undone by as many pop_offs leaves interrupts on or off as they were, and
-- never panics, provided that interrupts were off if the CPU was already inside a push_off.
pub pop_many-push_many :
    (n : ℕ) (c : Cpu)
    → (c.noff ≢ 0 → c.intr ≡ false)
    → (c' : Cpu) × (pop_many n (push_many n c) ≡ done c') × Restored c c'
pop_many-push_many zero c quiet = (c, refl, record { intr = refl; noff = refl; intena = λ _. refl })
pop_many-push_many (suc n) c quiet =
    let (c', e, r) = pop_many-push_many n (push_off c) (λ _. push_off-off c) in
    let (c'', e', r') = pop_one c c' quiet r in (c'', ap (λ o. o >>= pop_off) e ∙ e', r')
