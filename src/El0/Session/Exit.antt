-- ===== src/El0/Session/Exit.antt =====
-- An exit code reaches whoever asks for it.
use house.El0.{Slot, El0, find_slot, slot, put_slot, poke_park}
use house.Prelude.{
  ℕ, ◌≡◌, refl, sym, ap, subst, ◌∙◌, ◌≢◌, true, none, some, if◌then◌else◌, ==_ne, ℤ, pos,
}
use house.El0.Session.Laws.{session}
use house.El0.Change.{poke_park-table, Changed, change_lem, find_session}
use house.El0.Park.Laws.{table-Changed, Traps}
use house.El0.Session.{route_exit, house_set_exit, house_el0_exit_status}

abbrev exiting : ℤ → Slot → Slot
exiting code s = record s { exit_code = code; exited = true }

route_exit_at :
    (code : ℤ) (e : El0) (i : ℕ)
    → e.current ≢ 0
    → find_slot e.current e.table 0 ≡ some i
    → route_exit code e ≡ put_slot e i (exiting code (slot e i))
unfolding route_exit
route_exit_at code e i nz q = rw (route_exit, ==_ne e.current 0 nz, q) refl

exit_status_lem :
    (pdir : ℕ) (s : Slot) (e : El0)
    → pdir ≢ 0
    → session e pdir ≡ some s
    → house_el0_exit_status pdir true e
      ≡ (if s.exited then (pos 1, some s.exit_code) else (pos 0, none))
unfolding house_el0_exit_status
exit_status_lem pdir s e nz h =
    let (i, q, at, sc) = find_session pdir s e h in
    rw (house_el0_exit_status, ==_ne pdir 0 nz, q, at) refl

-- The exit code of the running session is what its exit status then is, the session keeps its
-- frame and request, and no other session changes.
pub exit_status-set_exit :
    (code : ℤ) (pdir : ℕ) (s : Slot) (e : El0)
    → Traps pdir s e
    → (house_el0_exit_status pdir true (house_set_exit code e) ≡ (pos 1, some code))
      × Changed pdir (record s { exit_code = code; exited = true }) e (house_set_exit code e)
unfolding house_set_exit
exit_status-set_exit code pdir s e t =
    let (i, q, at, sc) = find_session pdir s e t.here in
    let s' = exiting code (slot e i) in
    let c = change_lem pdir i s' e t.present t.valid refl sc in
    let d =
      table-Changed pdir s' e e (put_slot e i s') (poke_park (put_slot e i s')) refl
        (poke_park-table _) c in
    let r =
      route_exit_at code e i (λ z. t.present (sym t.current ∙ z))
        (ap (λ k. find_slot k e.table 0) t.current ∙ q) in
    let w =
      subst (λ (t : Slot). Changed pdir (exiting code t) e (poke_park (put_slot e i s'))) at d in
    rw (house_set_exit, r) (exit_status_lem pdir _ _ t.present w.0, w)
