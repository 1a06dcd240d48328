-- ===== src/Svc/Copy.antt =====
-- svc.rs: house_user_read, house_user_read_bytes and house_user_strlen, which copy from the memory of
-- a session that is parked.
pub mod Laws
use house.Prelude.{
  ℕ, zero, suc, ◌+◌, ◌-◌, ◌*◌, ◌/◌, ◌%◌, ◌^◌, ◌≤◌, ◌<◌, min, max, ◌≡◌, refl, sym, ap, subst, ◌∙◌,
  ◌≢◌, ◌⊎◌, inl, inr, ◌↔◌, Bool, true, false, not, ◌&&◌, ◌||◌, Option, none, some, List, [], ◌∷◌,
  ◌++◌, map, arith, ltb, leb, ◌==◌, if◌then◌else◌, ltb→lt, lt→ltb, leb→le, le→leb, ==_iff, ==_refl,
  ==_ne, Bool-cases, Option-cases, all_below, all_below_sound, is_some, ℤ, pos, negsuc, neg, eq_ℤ,
  eq_ℤ_iff, as_u64, length, get_elem?, get_or, set, take, drop, replicate, length-append,
  length-take, length-drop, length-set, get_or-set_self, get_or-set_ne,
}
use house.Svc.{
  Space, window_lo, window_hi, u64_max, page_of, entry_at, next_table, leaf, translate_va_pdir,
  translate_va, is_demand_desc, house_is_demand_va, byte_at, in_window,
}

-- `there` tells whether the kernel's pointer is not null.
unfoldable pub check_user_words : ℕ → ℕ → Bool → ℕ → ℤ
check_user_words pdir va there nwords =
    if (pdir == 0) || not there
    then neg 14
    else if ltb 8 nwords
    then neg 22
    else if not (va % 8 == 0)
    then neg 22
    else if not (in_window va (nwords * 8))
    then neg 14
    else pos 0

-- the loop over the words
unfoldable pub read_words : (ℕ → ℕ) → ℕ → ℕ → ℕ → ℤ × List ℕ
unfolding translate_va_pdir
read_words mem pdir va zero = (pos 0, [])
read_words mem pdir va (suc n) =
    let pa = translate_va_pdir mem pdir va in
    let rest = read_words mem pdir (va + 8) n in
    if pa == 0 then (neg 14, []) else (rest.0, mem pa ∷ rest.1)

-- The second result is what is stored at `out`.
unfoldable pub house_user_read : (ℕ → ℕ) → ℕ → ℕ → Bool → ℕ → ℤ × List ℕ
unfolding check_user_words read_words
house_user_read mem pdir va there nwords =
    let rc = check_user_words pdir va there nwords in
    if eq_ℤ rc (pos 0) then read_words mem pdir va nwords else (rc, [])

unfoldable pub read_bytes : (ℕ → ℕ) → ℕ → ℕ → ℕ → ℤ × List ℕ
unfolding translate_va_pdir
read_bytes mem pdir va zero = (pos 0, [])
read_bytes mem pdir va (suc n) =
    let pa = translate_va_pdir mem pdir va in
    let rest = read_bytes mem pdir (va + 1) n in
    if pa == 0 then (neg 14, []) else (rest.0, byte_at mem pa ∷ rest.1)

unfoldable pub house_user_read_bytes : (ℕ → ℕ) → ℕ → ℕ → Bool → ℕ → ℤ × List ℕ
unfolding read_bytes
house_user_read_bytes mem pdir va there len =
    if (pdir == 0) || not there
    then (neg 14, [])
    else if ltb 65536 len
    then (neg 22, [])
    else if len == 0
    then (pos 0, [])
    else if not (in_window va len)
    then (neg 14, [])
    else read_bytes mem pdir va len

-- the scan for NUL: the result and the length
unfoldable pub scan_strlen : (ℕ → ℕ) → ℕ → ℕ → ℕ → ℕ → ℤ × Option ℕ
unfolding translate_va_pdir
scan_strlen mem pdir va i zero = (neg 22, none)
scan_strlen mem pdir va i (suc n) =
    let pa = translate_va_pdir mem pdir (va + i) in
    let rest = scan_strlen mem pdir va (suc i) n in
    if pa == 0 then (neg 14, none) else if byte_at mem pa == 0 then (pos 0, some i) else rest

unfoldable pub house_user_strlen : (ℕ → ℕ) → ℕ → ℕ → ℕ → Bool → ℤ × Option ℕ
unfolding scan_strlen
house_user_strlen mem pdir va max there =
    if (pdir == 0) || not there
    then (neg 14, none)
    else if (max == 0) || ltb 4096 max
    then (neg 22, none)
    else if not (in_window va max)
    then (neg 14, none)
    else scan_strlen mem pdir va 0 max
