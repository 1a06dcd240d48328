-- ===== src/Tests/Interrupts.antt =====
-- A ring whose counters are about to wrap.
use house.Irq.{Ring}
use house.Prelude.{◌-◌, ◌^◌, ◌≡◌, refl, true, [], ◌∷◌, arith, neg, replicate}
use house.Irq.Laws.{Holds, IsRing}
use house.Irq.Queue.{push, pop, run_ring, run_offers, run_ring_refines}

abbrev about_to_wrap : Ring
about_to_wrap = record {
  buf = replicate 256 0;
  head = 2 ^ 32 - 1;
  tail = 2 ^ 32 - 1;
  drops = 0;
  pipe_r = neg 1;
  pipe_w = neg 1;
  acks = [];
  fds = record {
    fdt = [];
    errno = 0;
    tick_interval_ns = 0;
    isr_active = true;
    isr_pending = [];
    uart = [];
  };
}

empty-IsRing : IsRing about_to_wrap []
unfolding Holds
empty-IsRing = record {
  full_size = refl;
  tail_in = omega arith;
  few = omega arith;
  head_at = refl;
  holds = tt;
}

run_ring_refines_example :
    run_ring (λ n. 1) (push 27 ∷ push 48 ∷ pop ∷ pop ∷ pop ∷ []) about_to_wrap
    ≡ run_offers (push 27 ∷ push 48 ∷ pop ∷ pop ∷ pop ∷ []) [] 0
run_ring_refines_example =
    run_ring_refines (λ n. 1) (push 27 ∷ push 48 ∷ pop ∷ pop ∷ pop ∷ []) about_to_wrap []
      empty-IsRing
