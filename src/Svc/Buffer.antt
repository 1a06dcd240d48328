-- ===== src/Svc/Buffer.antt =====
-- svc.rs: validate_user_buffer and validate_cstring_current, the checks of memory that a trap makes.
pub mod Laws
pub mod Strings
use house.Prelude.{
  ℕ, zero, suc, ◌+◌, ◌-◌, ◌*◌, ◌/◌, ◌%◌, ◌^◌, ◌≤◌, ◌<◌, min, max, ◌≡◌, refl, sym, ap, subst, ◌∙◌,
  ◌≢◌, ◌⊎◌, inl, inr, ◌↔◌, Bool, true, false, not, ◌&&◌, ◌||◌, Option, none, some, List, [], ◌∷◌,
  ◌++◌, map, arith, ltb, leb, ◌==◌, if◌then◌else◌, ltb→lt, lt→ltb, leb→le, le→leb, ==_iff, ==_refl,
  ==_ne, Bool-cases, Option-cases, all_below, all_below_sound, is_some, ℤ, pos, negsuc, neg, eq_ℤ,
  eq_ℤ_iff, as_u64, length, get_elem?, get_or, set, take, drop, replicate, length-append,
  length-take, length-drop, length-set, get_or-set_self, get_or-set_ne,
}
use house.Svc.{
  Space, window_lo, window_hi, u64_max, page_of, entry_at, next_table, leaf, translate_va_pdir,
  translate_va, is_demand_desc, house_is_demand_va, byte_at, in_window,
}

-- the page is there, or promised by a demand marker
unfoldable pub is_usable : Space → ℕ → Bool
unfolding translate_va house_is_demand_va
is_usable s p = not (translate_va s p == 0) || house_is_demand_va s p

-- The loop over the pages from `p` to `end_page`. A buffer of at most 65536 bytes has at most 17
-- pages.
unfoldable pub pages_usable : ℕ → Space → ℕ → ℕ → ℕ → Bool
unfolding is_usable
pages_usable zero s start_page p end_page = false
pages_usable (suc fuel) s start_page p end_page =
    let rest = pages_usable fuel s start_page (p + 4096) end_page in
    if not (is_usable s p)
    then false
    else if p == end_page
    then true
    else if ltb u64_max (p + 4096)
    then false
    else if ltb (p + 4096) start_page
    then false
    else rest

abbrev pub page_fuel : ℕ
page_fuel = 17

-- 0 or -1
unfoldable pub validate_user_buffer : Space → ℕ → ℕ → ℤ
unfolding pages_usable
validate_user_buffer s va len =
    if len == 0
    then pos 0
    else if ltb 65536 len
    then neg 1
    else if not (in_window va len)
    then neg 1
    else if pages_usable page_fuel s (page_of va) (page_of va) (page_of (va + len - 1))
    then pos 0
    else neg 1

-- the scan for NUL over `n` bytes
unfoldable pub scan_cstring : Space → ℕ → ℕ → ℤ
unfolding translate_va house_is_demand_va
scan_cstring s zero va = neg 22
scan_cstring s (suc n) va =
    let pa = translate_va s va in
    let rest = scan_cstring s n (va + 1) in
    if pa == 0
    then (if house_is_demand_va s va then pos 0 else neg 14)
    else if byte_at s.mem pa == 0
    then pos 0
    else rest

unfoldable pub validate_cstring_current : Space → ℕ → ℕ → ℤ
unfolding scan_cstring
validate_cstring_current s va max = if not (in_window va max) then neg 14 else scan_cstring s max va
