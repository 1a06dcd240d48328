-- ===== src/Userspace/Asid.antt =====
-- The ASID cache of userspace.rs: ASID_MAP, NEXT_ASID and the functions over them.
-- `flushes` counts the runs of `tlbi vmalle1is`, which drop every cached translation.
pub mod Laws
pub mod Alias
use house.Prelude.{
  ℕ, zero, suc, ◌+◌, ◌-◌, ◌*◌, ◌/◌, ◌%◌, ◌^◌, ◌≤◌, ◌<◌, min, max, ◌≡◌, refl, sym, ap, subst, ◌∙◌,
  ◌≢◌, ◌⊎◌, inl, inr, ◌↔◌, Bool, true, false, not, ◌&&◌, ◌||◌, Option, none, some, List, [], ◌∷◌,
  ◌++◌, map, arith, ltb, leb, ◌==◌, if◌then◌else◌, ltb→lt, lt→ltb, leb→le, le→leb, ==_iff, ==_refl,
  ==_ne, Bool-cases, Option-cases, all_below, all_below_sound, is_some, ℤ, pos, negsuc, neg, eq_ℤ,
  eq_ℤ_iff, as_u64, length, get_elem?, get_or, set, take, drop, replicate, length-append,
  length-take, length-drop, length-set, get_or-set_self, get_or-set_ne,
}
use house.Keyed.{find, swap_remove, table_cap}

pub record Asids : Type 0 where
  pub bound : List (ℕ × ℕ)
  pub next : ℕ
  pub flushes : ℕ

-- ASID_MAP empty, NEXT_ASID = 1
abbrev pub boot : Asids
boot = record { bound = []; next = 1; flushes = 0 }

-- `wrapping_add(1)` on a `u16`
abbrev pub wrapping_inc : ℕ → ℕ
wrapping_inc n = (n + 1) % 2 ^ 16

-- the second draw, made only when the first one was 0
redraw : ℕ → Bool → ℕ × ℕ × Bool
redraw n wrapped = let n' = wrapping_inc n in if ltb 250 n' then (n, 1, true) else (n, n', wrapped)

-- the ASID taken, NEXT_ASID after it, and whether the counter went round
pub draw : ℕ → ℕ × ℕ × Bool
unfolding redraw
draw a =
    let n = wrapping_inc a in
    let wrapped = (n == 0) || ltb 250 n in
    let next : ℕ = if wrapped then 1 else n in
    if a == 0 then redraw next wrapped else (a, next, wrapped)

-- A full map is dropped whole before the new pair is stored, with a flush.
pub bind_new : ℕ → Asids → ℕ × Asids
unfolding draw
bind_new pdir s =
    let (a, next, wrapped) = draw s.next in
    let full = length s.bound == table_cap in
    (
      a,
      record {
        bound = if full then (pdir, a) ∷ [] else s.bound ++ ((pdir, a) ∷ []);
        next = next;
        flushes = if wrapped || full then s.flushes + 1 else s.flushes;
      },
    )

pub asid_for_pdir : ℕ → Asids → ℕ × Asids
unfolding bind_new
asid_for_pdir pdir s = elim (find pdir s.bound) [ some a ↦ (a, s) | none ↦ bind_new pdir s ]

unfoldable pub house_asid_for_pdir : ℕ → Asids → ℕ × Asids
unfolding asid_for_pdir
house_asid_for_pdir pdir s = if pdir == 0 then (0, s) else asid_for_pdir pdir s

pub evict_asid : ℕ → Asids → Bool × Asids
evict_asid pdir s = (is_some (find pdir s.bound), record s { bound = swap_remove pdir s.bound })

-- 1 if a binding was held, which is when the flush is made
pub house_asid_forget_pdir : ℕ → Asids → Bool × Asids
unfolding evict_asid
house_asid_forget_pdir pdir s =
    if pdir == 0
    then (false, s)
    else let (held, s') = evict_asid pdir s in
      if held then (true, record s' { flushes = s'.flushes + 1 }) else (false, s')
