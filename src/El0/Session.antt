-- ===== src/El0/Session.antt =====
-- svc.rs: sessions come, exit and go.
pub mod Laws
pub mod Exit
use house.Prelude.{
  ℕ, zero, suc, ◌+◌, ◌-◌, ◌*◌, ◌/◌, ◌%◌, ◌^◌, ◌≤◌, ◌<◌, min, max, ◌≡◌, refl, sym, ap, subst, ◌∙◌,
  ◌≢◌, ◌⊎◌, inl, inr, ◌↔◌, Bool, true, false, not, ◌&&◌, ◌||◌, Option, none, some, List, [], ◌∷◌,
  ◌++◌, map, arith, ltb, leb, ◌==◌, if◌then◌else◌, ltb→lt, lt→ltb, leb→le, le→leb, ==_iff, ==_refl,
  ==_ne, Bool-cases, Option-cases, all_below, all_below_sound, is_some, ℤ, pos, negsuc, neg, eq_ℤ,
  eq_ℤ_iff, as_u64, length, get_elem?, get_or, set, take, drop, replicate, length-append,
  length-take, length-drop, length-set, get_or-set_self, get_or-set_ne,
}
use house.El0.{
  req_fault_kill, req_preempt, req_fault, Slot, save_words, el0_free, el0_n, El0, find_slot,
  find_last, slot, put_slot, is_negative, made_pipe, poke_write, poke_park, house_el0_park_pipe_fd,
  house_el0_park_pipe_readable, is_positive, drain_from, house_el0_park_pipe_drain, park_current,
}

-- a slot claimed again, or for the first time
abbrev pub rearm : Slot → Slot
rearm s = record s { exit_code = pos 0; exited = false; parked = false; req = 0 }

abbrev pub claim : ℕ → Slot → Slot
claim key s = record s {
  exit_code = pos 0;
  exited = false;
  parked = false;
  req = 0;
  elr = 0;
  sp_el0 = 0;
  pdir = key;
}

abbrev pub retract : Slot → Slot
retract s = record s { pdir = 0; exited = false; exit_code = pos 0; parked = false; req = 0 }

unfoldable pub house_el0_register : ℕ → El0 → ℤ × El0
unfolding find_slot
house_el0_register pdir e = if pdir == 0 then (neg 22, e) else elim (find_slot pdir e.table 0) [
  | some i ↦ (pos 0, put_slot e i (rearm (slot e i)))
  | none ↦ elim (find_slot 0 e.table 0) [
    | some i ↦ (pos 0, put_slot e i (claim pdir (slot e i)))
    | none ↦ (neg 28, e)
  ]
]

unfoldable pub house_el0_unregister : ℕ → El0 → El0
unfolding find_slot
house_el0_unregister pdir e =
    if pdir == 0
    then e
    else elim (find_slot pdir e.table 0) [ some i ↦ put_slot e i (retract (slot e i)) | none ↦ e ]

-- The exit code goes to the slot of the current directory, or to the legacy global.
unfoldable pub route_exit : ℤ → El0 → El0
unfolding find_slot
route_exit code e =
    let legacy = record e { user_exit_code = code; user_exited = true } in
    if e.current == 0 then legacy else elim (find_slot e.current e.table 0) [
      | some i ↦ put_slot e i (record (slot e i) { exit_code = code; exited = true })
      | none ↦ legacy
    ]

unfoldable pub house_set_exit : ℤ → El0 → El0
unfolding route_exit poke_park
house_set_exit code e = poke_park (route_exit code e)

-- `there` tells whether `code_out` is not null; the second result is what is stored in it.
unfoldable pub house_el0_exit_status : ℕ → Bool → El0 → ℤ × Option ℤ
unfolding find_slot
house_el0_exit_status pdir there e =
    if (pdir == 0) || not there then (neg 14, none) else elim (find_slot pdir e.table 0) [
      | some i ↦ if (slot e i).exited then (pos 1, some (slot e i).exit_code) else (pos 0, none)
      | none ↦ (pos 0, none)
    ]

unfoldable pub house_get_exit_code : El0 → ℤ
house_get_exit_code e = e.user_exit_code

unfoldable pub house_clear_exit : El0 → El0
house_clear_exit e = record e { user_exited = false; user_exit_code = pos 0 }

unfoldable pub house_is_exited : El0 → Bool
house_is_exited e = e.user_exited
