-- ===== src/El0/Park/Laws.antt =====
-- What a session parks is what the kernel takes, and what it resumes.
use house.El0.{
  req_fault_kill, req_fault, Slot, El0, find_slot, slot, put_slot, poke_park, park_current,
}
use house.Prelude.{
  ℕ, ◌-◌, ◌%◌, ◌≡◌, refl, sym, ap, subst, ◌∙◌, ◌≢◌, Bool, true, ◌&&◌, ◌||◌, none, some, List, arith,
  ◌==◌, if◌then◌else◌, ==_ne, pos, length, take,
}
use house.El0.Table.{look}
use house.El0.Session.Laws.{session}
use house.El0.Change.{poke_park-table, Changed, change_lem, find_session}
use house.El0.Park.{
  with_request, with_fault, house_el0_park, house_el0_park_fault, house_el0_park_kill,
  house_el0_fault_addr, house_el0_take_request,
}
use house.El0.Sched.{sched_reset_quantum}
use house.El0.Session.Laws.{session, IsValid}

pub sched_reset_quantum-table : (e : El0) → (sched_reset_quantum e).table ≡ e.table
unfolding sched_reset_quantum
sched_reset_quantum-table e = ground arith

pub sched_reset_quantum-current : (e : El0) → (sched_reset_quantum e).current ≡ e.current
unfolding sched_reset_quantum
sched_reset_quantum-current e = ground arith

-- a session changed, up to what does not stand in the table
pub table-Changed :
    (pdir : ℕ) (s' : Slot) (e e1 e2 e3 : El0)
    → e1.table ≡ e.table
    → e3.table ≡ e2.table
    → Changed pdir s' e1 e2
    → Changed pdir s' e e3
table-Changed pdir s' e e1 e2 e3 p q (a, o, v) = (
  ap (look pdir) q ∙ a,
  λ k nk ne. ap (look k) q ∙ o k nk ne ∙ ap (look k) p,
  record { full = ap length q ∙ v.full; unique = rw q v.unique },
)

-- Parking succeeds, `s` is what the session of `pdir` becomes, and the others stay.
abbrev pub Stopped : ℕ → Slot → El0 → Bool × El0 → Type 0
Stopped pdir s e (b, e') = (b ≡ true) × Changed pdir s e e'

-- a trap of the session `s` of the current directory
pub record Traps (pdir : ℕ) (s : Slot) (e : El0) : Type 0 where
  pub present : pdir ≢ 0
  pub current : e.current ≡ pdir
  pub valid : IsValid e
  pub here : session e pdir ≡ some s

park_current_at :
    (f : Slot → Slot) (e : El0) (i : ℕ)
    → e.current ≢ 0
    → find_slot e.current e.table 0 ≡ some i
    → park_current f e ≡ (true, poke_park (put_slot e i (f (slot e i))))
unfolding park_current
park_current_at f e i nz q = rw (park_current, ==_ne e.current 0 nz, q) refl

pub park_current_lem :
    (pdir : ℕ) (f : Slot → Slot) (e e1 : El0) (s : Slot)
    → ((s : Slot) → (f s).pdir ≡ s.pdir)
    → Traps pdir s e
    → e1.table ≡ e.table
    → e1.current ≡ e.current
    → Stopped pdir (f s) e (park_current f e1)
park_current_lem pdir f e e1 s keep t same cur =
    let (i, q, at, sc) = find_session pdir s e1 (ap (look pdir) same ∙ t.here) in
    let s' = f (slot e1 i) in
    let v : IsValid e1 = record {
      full = ap length same ∙ t.valid.full;
      unique = rw same t.valid.unique;
    } in
    let c = change_lem pdir i s' e1 t.present v (keep (slot e1 i)) sc in
    let e2 = poke_park (put_slot e1 i s') in
    let d = table-Changed pdir s' e e1 (put_slot e1 i s') e2 same (poke_park-table _) c in
    let key = cur ∙ t.current in
    rw
      (park_current_at f e1 i (λ z. t.present (sym key ∙ z))
        (ap (λ k. find_slot k e1.table 0) key ∙ q))
      (refl, subst (λ (t : Slot). Changed pdir (f t) e e2) at d)

-- In a well-formed table, the three ways to park after a trap put the frame, the return address and
-- the stack pointer into the session of the current directory, as they are given, and mark it parked:
-- a call with its number as the request, a fault with 0x1F and a kill with 0x1D, both with the page of
-- the faulting address. The rest of the session and every other one stay as they were, and the table
-- stays well formed.
pub park_lem :
    (elr sp_el0 imm far : ℕ) (gpr : List ℕ) (pdir : ℕ) (e : El0) (s : Slot)
    → Traps pdir s e
    → Stopped pdir
        (record s { save = gpr; elr = elr; sp_el0 = sp_el0; req = imm; parked = true })
        e
        (house_el0_park elr sp_el0 imm (some gpr) e)
      × Stopped pdir
          (record s {
            save = gpr;
            elr = elr;
            sp_el0 = sp_el0;
            req = 0x1F;
            fault_va = far - far % 4096;
            parked = true;
          })
          e
          (house_el0_park_fault elr sp_el0 (some gpr) far e)
      × Stopped pdir
          (record s {
            save = gpr;
            elr = elr;
            sp_el0 = sp_el0;
            req = 0x1D;
            fault_va = far - far % 4096;
            parked = true;
          })
          e
          (house_el0_park_kill elr sp_el0 (some gpr) far e)
unfolding house_el0_park house_el0_park_fault house_el0_park_kill
park_lem elr sp_el0 imm far gpr pdir e s t = (
  go (with_request gpr elr sp_el0 imm) (λ t. refl),
  go (with_fault req_fault gpr elr sp_el0 far) (λ t. refl),
  go (with_fault req_fault_kill gpr elr sp_el0 far) (λ t. refl),
)
  where
    go :
        (f : Slot → Slot)
        → ((t : Slot) → (f t).pdir ≡ t.pdir)
        → Stopped pdir (f s) e (park_current f (sched_reset_quantum e))
    go f keep =
        park_current_lem pdir f e (sched_reset_quantum e) s keep t (sched_reset_quantum-table e)
          (sched_reset_quantum-current e)

pub take_request_lem :
    (pdir : ℕ) (s : Slot) (e : El0)
    → pdir ≢ 0
    → session e pdir ≡ some s
    → house_el0_take_request pdir true e
      ≡ (if s.parked then (pos 1, some (s.req, take 4 s.save)) else (pos 0, none))
unfolding house_el0_take_request
take_request_lem pdir s e nz h =
    let (i, q, at, sc) = find_session pdir s e h in
    rw (house_el0_take_request, ==_ne pdir 0 nz, q, at) refl

pub fault_addr_lem :
    (pdir : ℕ) (s : Slot) (e : El0)
    → pdir ≢ 0
    → session e pdir ≡ some s
    → house_el0_fault_addr pdir e
      ≡ (if s.parked && ((s.req == req_fault) || (s.req == req_fault_kill)) then s.fault_va else 0)
unfolding house_el0_fault_addr
fault_addr_lem pdir s e nz h =
    let (i, q, at, sc) = find_session pdir s e h in
    rw (house_el0_fault_addr, ==_ne pdir 0 nz, q, at) refl

-- After a trap parks a session, the kernel takes the request with the first four words of the frame;
-- after a fault it also finds the page of the faulting address.
pub take_request-park :
    (elr sp_el0 imm far : ℕ) (gpr : List ℕ) (pdir : ℕ) (e : El0) (s : Slot)
    → Traps pdir s e
    → (house_el0_take_request pdir true (house_el0_park elr sp_el0 imm (some gpr) e).1
        ≡ (pos 1, some (imm, take 4 gpr)))
      × (house_el0_take_request pdir true (house_el0_park_fault elr sp_el0 (some gpr) far e).1
          ≡ (pos 1, some (req_fault, take 4 gpr)))
      × (house_el0_fault_addr pdir (house_el0_park_fault elr sp_el0 (some gpr) far e).1
          ≡ far - far % 4096)
      × (house_el0_fault_addr pdir (house_el0_park_kill elr sp_el0 (some gpr) far e).1
          ≡ far - far % 4096)
take_request-park elr sp_el0 imm far gpr pdir e s t =
    let (a, b, c) = park_lem elr sp_el0 imm far gpr pdir e s t in
    (
      take_request_lem pdir _ _ t.present a.1.0,
      take_request_lem pdir _ _ t.present b.1.0,
      fault_addr_lem pdir _ _ t.present b.1.0,
      fault_addr_lem pdir _ _ t.present c.1.0,
    )
