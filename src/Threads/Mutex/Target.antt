-- ===== src/Threads/Mutex/Target.antt =====
-- rust/crates/house-libc/src/threads/threads.rs: the core that a woken thread goes to, and the interrupt
-- that `house_sched_kick` sends there.
use house.Prelude.{
  ℕ, zero, suc, ◌+◌, ◌*◌, ◌/◌, ◌%◌, ◌^◌, ◌≤◌, ◌<◌, ◌≡◌, refl, ap, ◌∙◌, ◌≢◌, ◌⊎◌, inl, inr, Bool,
  true, false, List, ◌∷◌, arith, leb, ◌==◌, if◌then◌else◌, ==_iff, Bool-cases,
}
use native.Mathlib.Nat.{two-pow-succ, pow-succ', mul_assoc}
use house.Threads.{max_smp}
use house.Threads.Mutex.{Mutex, trailing_zeros, house_sched_kick, wake_core}

-- The core of a thread: that of the lowest bit `b` of its affinity, where there are so many cores.
pub data Target (affinity smp c : ℕ) : Type 0 where
  anywhere : affinity ≡ 0 → c ≡ 0 → Target affinity smp c
  pinned : (b k : ℕ) → affinity ≡ 2 ^ b * (2 * k + 1) → b < smp → c ≡ b → Target affinity smp c
  absent : (b k : ℕ) → affinity ≡ 2 ^ b * (2 * k + 1) → smp ≤ b → c ≡ 0 → Target affinity smp c

-- The core is sent an interrupt if it is another one that is there and online.
pub data Kicked (cpu c smp online : ℕ) (before after : List ℕ) : Type 0 where
  same : c ≡ cpu → after ≡ before → Kicked cpu c smp online before after
  sent :
      c ≢ cpu
      → c < smp
      → online / 2 ^ c % 2 ≢ 0
      → after ≡ c ∷ before
      → Kicked cpu c smp online before after
  deaf :
      c ≢ cpu
      → (smp ≤ c) ⊎ (online / 2 ^ c % 2 ≡ 0)
      → after ≡ before
      → Kicked cpu c smp online before after

pub if_both {ℓ ℓ'} :
    {A : Type ℓ} (P : A → Type ℓ') (b : Bool) (x y : A) → P x → P y → P (if b then x else y)
if_both P true x y p q = p
if_both P false x y p q = q

trailing_zeros_lem :
    (n a : ℕ)
    → a ≢ 0
    → a < 2 ^ n
    → (trailing_zeros n a < n) × (k : ℕ) × (a ≡ 2 ^ trailing_zeros n a * (2 * k + 1))
unfolding trailing_zeros
trailing_zeros_lem zero a nz lt = absurd (nz (omega arith))
trailing_zeros_lem (suc n) a nz lt = elim (Bool-cases (a % 2 == 1)) [
  | inl y ↦ rw y (omega arith, a / 2, omega (arith, (==_iff (a % 2) 1).0 y))
  | inr y ↦
      let even : a % 2 ≡ 0 = ground (arith, ==_iff (a % 2) 1, y) in
      let (b, k, e) =
        trailing_zeros_lem n (a / 2) (λ z. nz (omega (arith, z, even)))
          (omega (arith, two-pow-succ n)) in
      let t = trailing_zeros n (a / 2) in
      let twice : 2 ^ suc t * (2 * k + 1) ≡ 2 * (2 ^ t * (2 * k + 1)) =
        ap (λ x. x * (2 * k + 1)) (pow-succ' 2 t) ∙ mul_assoc 2 (2 ^ t) (2 * k + 1) in
      rw y (omega arith, k, omega (arith, even, ap (λ x. 2 * x) e, twice))
]

pub wake_core_lem :
    (w : ℕ) (m : Mutex)
    → m.affinity w < 2 ^ 32
    → (wake_core w m < max_smp) × Target (m.affinity w) m.smp (wake_core w m)
wake_core_lem w m lt = elim (Bool-cases (m.affinity w == 0)) [
  | inl y ↦ elim (Bool-cases (leb m.smp 0)) [
    | inl z ↦ rw (y, z) (omega arith, anywhere ((==_iff (m.affinity w) 0).0 y) refl)
    | inr z ↦ rw (y, z) (omega arith, anywhere ((==_iff (m.affinity w) 0).0 y) refl)
  ]
  | inr y ↦
      let (b, k, e) = trailing_zeros_lem 32 (m.affinity w) (λ z. ground (arith, y, z)) lt in
      let t = trailing_zeros 32 (m.affinity w) in
      elim (Bool-cases (leb m.smp t)) [
        | inl z ↦ rw (y, z) (omega arith, absent t k e (ground arith) refl)
        | inr z ↦ rw (y, z) (b, pinned t k e (ground arith) refl)
      ]
]

pub kick_keeps :
    (P : Mutex → Type 0) (c : ℕ) (m : Mutex)
    → ((l : List ℕ) → P (record m { sgis = l }))
    → P (house_sched_kick c m)
unfolding house_sched_kick
kick_keeps P c m h = if_both P (leb m.smp c) m _ (h m.sgis) (
    if_both P (leb 32 c) m _ (h m.sgis)
      (if_both P (m.online_mask / 2 ^ c % 2 == 0) m _ (h m.sgis) (h (c ∷ m.sgis))))

pub kick-Kicked :
    (cpu c : ℕ) (m : Mutex)
    → c < max_smp
    → let after = if c == cpu then m else house_sched_kick c m in
      Kicked cpu c m.smp m.online_mask m.sgis after.sgis
unfolding house_sched_kick
kick-Kicked cpu c m lt = elim (Bool-cases (c == cpu)) [
  | inl y ↦ rw y (same ((==_iff c cpu).0 y) refl)
  | inr y ↦
      let other : c ≢ cpu = λ e. ground (arith, y, e) in
      elim (Bool-cases (leb m.smp c)) [
        | inl z ↦ rw (y, z) (deaf other (inl (ground arith)) refl)
        | inr z ↦
            let few : leb 32 c ≡ false = ground arith in
            let on = m.online_mask / 2 ^ c % 2 in
            elim (Bool-cases (on == 0)) [
              | inl o ↦ rw (y, z, few, o) (deaf other (inr ((==_iff on 0).0 o)) refl)
              | inr o ↦
                  rw (y, z, few, o) (sent other (ground arith) (λ e. ground (arith, o, e)) refl)
            ]
      ]
]
