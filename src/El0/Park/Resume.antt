-- ===== src/El0/Park/Resume.antt =====
-- A session resumes where it parked, and a fork resumes where its parent parked.
use house.El0.{Slot, zero_save, El0, find_slot, find_last, slot, put_slot, poke_park}
use house.Prelude.{
  ℕ, ◌≡◌, refl, ap, subst, ◌∙◌, ◌≢◌, true, false, Option, none, some, List, arith, ==_ne, ℤ, pos,
  set,
}
use house.El0.Table.{find_last_lem}
use house.El0.Session.Laws.{session, Only}
use house.El0.Change.{poke_park-table, Changed, change_lem, find_session}
use house.El0.Park.{
  house_el0_park, forked, house_el0_clone_slot, entered, house_el0_set_entry, Entry, unparked,
  entry_of, house_resume_el0,
}
use house.El0.Park.Laws.{sched_reset_quantum-table, table-Changed, Traps, park_lem}
use house.El0.Sched.{sched_reset_quantum}
use house.El0.Session.Laws.{session, Only, IsValid}

-- the frame that enters EL0
abbrev pub Enters : ℕ → ℕ → ℕ → Slot → El0 → ℤ × Option Entry × El0 → Type 0
Enters pdir asid res s e (r, f, e') =
    (r ≡ pos 0)
    × (f
        ≡ some (record {
          save = set s.save 0 res;
          elr = s.elr;
          sp_el0 = s.sp_el0;
          pdir = pdir;
          asid = asid;
        }))
    × (e'.current ≡ pdir)
    × Changed pdir (unparked res s) e e'

-- Resuming a parked session enters EL0 with its frame, in which only x0 is changed to the result,
-- at its return address and stack; the session is current and no longer parked.
pub resume_lem :
    (pdir asid res : ℕ) (s : Slot) (e : El0)
    → pdir ≢ 0
    → IsValid e
    → session e pdir ≡ some s
    → s.parked ≡ true
    → Enters pdir asid res s e (house_resume_el0 pdir asid res e)
unfolding house_resume_el0
resume_lem pdir asid res s e nz v h parked =
    let (i, q, at, sc) = find_session pdir s e h in
    let c = change_lem pdir i (unparked res (slot e i)) e nz v refl sc in
    let e1 = put_slot e i (unparked res (slot e i)) in
    let e2 = record (sched_reset_quantum e1) { current = pdir } in
    let d = table-Changed pdir _ e e e1 e2 refl (sched_reset_quantum-table e1) c in
    rw (house_resume_el0, ==_ne pdir 0 nz, q, ap (λ (t : Slot). t.parked) at ∙ parked)
      (
        refl,
        ap (λ t. some (entry_of pdir asid (unparked res t))) at,
        refl,
        subst (λ (t : Slot). Changed pdir (unparked res t) e e2) at d,
      )

resume_live_lem :
    (pdir asid res : ℕ) (s : Slot) (e : El0)
    → pdir ≢ 0
    → session e pdir ≡ some s
    → s.parked ≡ false
    → house_resume_el0 pdir asid res e ≡ (pos 0, none, e)
unfolding house_resume_el0
resume_live_lem pdir asid res s e nz h live =
    let (i, q, at, sc) = find_session pdir s e h in
    rw (house_resume_el0, ==_ne pdir 0 nz, q, ap (λ (t : Slot). t.parked) at ∙ live) refl

-- A session that a trap parks resumes with the trap's own frame, return address and stack, with x0
-- the result. To resume it once more enters nothing and returns 0.
pub resume-park :
    (elr sp_el0 imm asid res : ℕ) (gpr : List ℕ) (pdir : ℕ) (e : El0) (s : Slot)
    → Traps pdir s e
    → let (r, f, e') =
        house_resume_el0 pdir asid res (house_el0_park elr sp_el0 imm (some gpr) e).1 in
      (r ≡ pos 0)
      × (f
          ≡ some (record {
            save = set gpr 0 res;
            elr = elr;
            sp_el0 = sp_el0;
            pdir = pdir;
            asid = asid;
          }))
      × (e'.current ≡ pdir)
      × (house_resume_el0 pdir asid res e' ≡ (pos 0, none, e'))
resume-park elr sp_el0 imm asid res gpr pdir e s t =
    let (b, (c, o, v)) = (park_lem elr sp_el0 imm 0 gpr pdir e s t).0 in
    let (x, y, z, w) = resume_lem pdir asid res _ _ t.present v c refl in
    (x, y, z, resume_live_lem pdir asid res _ _ t.present w.0 refl)

clone_slot_at :
    (parent child i j : ℕ) (e : El0)
    → parent ≢ 0
    → child ≢ 0
    → find_last parent e.table 0 ≡ some i
    → find_last child e.table 0 ≡ some j
    → (slot e i).parked ≡ true
    → house_el0_clone_slot parent child e
      ≡ (pos 0, poke_park (put_slot e j (forked (slot e i) (slot e j))))
unfolding house_el0_clone_slot
clone_slot_at parent child i j e np nc l l' parked =
    rw (house_el0_clone_slot, ==_ne parent 0 np, ==_ne child 0 nc, l, l') (ground (arith, parked))

-- A fork of a parked parent sets the child up to return where the parent does, with its stack, its
-- frame and x0 = 0, and leaves the parent and every other session as they were.
clone_slot_lem :
    (parent child : ℕ) (p c : Slot) (e : El0)
    → parent ≢ 0
    → child ≢ 0
    → IsValid e
    → session e parent ≡ some p
    → session e child ≡ some c
    → p.parked ≡ true
    → ((house_el0_clone_slot parent child e).0 ≡ pos 0)
      × Changed child (forked p c) e (house_el0_clone_slot parent child e).1
clone_slot_lem parent child p c e np nc v hp hc parked =
    let (i, q, at, sc) = find_session parent p e hp in
    let (j, q', at', sc') = find_session child c e hc in
    let l = find_last_lem parent e.table 0 np v.unique ∙ q in
    let l' = find_last_lem child e.table 0 nc v.unique ∙ q' in
    let s' = forked (slot e i) (slot e j) in
    let d = change_lem child j s' e nc v refl sc' in
    let e2 = poke_park (put_slot e j s') in
    let d' = table-Changed child _ e e (put_slot e j s') e2 refl (poke_park-table _) d in
    rw (clone_slot_at parent child i j e np nc l l' (ap (λ (t : Slot). t.parked) at ∙ parked))
      (refl, subst (λ (t : Slot × Slot). Changed child (forked t.0 t.1) e e2) (ap2 at at') d')
  where
    ap2 : {x x' y y' : Slot} → x ≡ x' → y ≡ y' → ◌≡◌ {A = Slot × Slot} (x, y) (x', y')
    ap2 {x' = x'} {y = y} a b = ap (λ t. (t, y)) a ∙ ap (λ t. (x', t)) b

-- A fork of a parked parent marks the child parked with x0 = 0 and leaves the parent and every other session
-- as they were; resumed, the child enters EL0 at its parent's return address and stack with its
-- parent's frame but for x0, which is the result it is resumed with.
pub resume-clone_slot :
    (parent child asid res : ℕ) (p c : Slot) (e : El0)
    → parent ≢ 0
    → child ≢ 0
    → IsValid e
    → session e parent ≡ some p
    → session e child ≡ some c
    → p.parked ≡ true
    → let (q, e1) = house_el0_clone_slot parent child e in
      let (r, f, e') = house_resume_el0 child asid res e1 in
      (q ≡ pos 0)
      × Changed child (forked p c) e e1
      × (r ≡ pos 0)
      × (f
          ≡ some (record {
            save = set (set p.save 0 0) 0 res;
            elr = p.elr;
            sp_el0 = p.sp_el0;
            pdir = child;
            asid = asid;
          }))
resume-clone_slot parent child asid res p c e np nc v hp hc parked =
    let (a, (b, o, v')) = clone_slot_lem parent child p c e np nc v hp hc parked in
    let (x, y, z, w) = resume_lem child asid res _ _ nc v' b refl in (a, (b, o, v'), x, y)

set_entry_at :
    (pdir entry sp i : ℕ) (e : El0)
    → pdir ≢ 0
    → find_slot pdir e.table 0 ≡ some i
    → (slot e i).parked ≡ true
    → house_el0_set_entry pdir entry sp e ≡ (pos 0, put_slot e i (entered entry sp (slot e i)))
unfolding house_el0_set_entry
set_entry_at pdir entry sp i e nz q parked =
    rw (house_el0_set_entry, ==_ne pdir 0 nz, q) (ground (arith, parked))

-- After an exec of a parked session it enters EL0 at the new entry and stack, with a zeroed frame
-- but for x0.
pub resume-set_entry :
    (pdir asid res entry sp : ℕ) (s : Slot) (e : El0)
    → pdir ≢ 0
    → IsValid e
    → session e pdir ≡ some s
    → s.parked ≡ true
    → let (r, e1) = house_el0_set_entry pdir entry sp e in
      let (r', f, e') = house_resume_el0 pdir asid res e1 in
      (r ≡ pos 0)
      × (f
          ≡ some (record {
            save = set zero_save 0 res;
            elr = entry;
            sp_el0 = sp;
            pdir = pdir;
            asid = asid;
          }))
      × Only pdir e e1
resume-set_entry pdir asid res entry sp s e nz v h parked =
    let (i, q, at, sc) = find_session pdir s e h in
    let s' = entered entry sp (slot e i) in
    let on = ap (λ (t : Slot). t.parked) at ∙ parked in
    let (a, o, v') = change_lem pdir i s' e nz v refl sc in
    let (x, y, z, w) = resume_lem pdir asid res s' (put_slot e i s') nz v' a on in
    rw (set_entry_at pdir entry sp i e nz q on) (refl, y, o)
