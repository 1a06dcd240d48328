-- ===== src/Svc/Gates.antt =====
-- svc.rs: the validators of the system calls, and the gates that park a call for the kernel.
pub mod Laws
use house.Prelude.{
  ℕ, zero, suc, ◌+◌, ◌-◌, ◌*◌, ◌/◌, ◌%◌, ◌^◌, ◌≤◌, ◌<◌, min, max, ◌≡◌, refl, sym, ap, subst, ◌∙◌,
  ◌≢◌, ◌⊎◌, inl, inr, ◌↔◌, Bool, true, false, not, ◌&&◌, ◌||◌, Option, none, some, List, [], ◌∷◌,
  ◌++◌, map, arith, ltb, leb, ◌==◌, if◌then◌else◌, ltb→lt, lt→ltb, leb→le, le→leb, ==_iff, ==_refl,
  ==_ne, Bool-cases, Option-cases, all_below, all_below_sound, is_some, ℤ, pos, negsuc, neg, eq_ℤ,
  eq_ℤ_iff, as_u64, length, get_elem?, get_or, set, take, drop, replicate, length-append,
  length-take, length-drop, length-set, get_or-set_self, get_or-set_ne,
}
use house.Svc.{
  Space, window_lo, window_hi, u64_max, page_of, entry_at, next_table, leaf, translate_va_pdir,
  translate_va, is_demand_desc, house_is_demand_va, byte_at, in_window,
}
use house.Svc.Buffer.{
  is_usable, pages_usable, page_fuel, validate_user_buffer, scan_cstring, validate_cstring_current,
}

-- HOUSE_SVC_*
abbrev pub svc_brk : ℕ
svc_brk = 0x03

abbrev pub svc_open : ℕ
svc_open = 0x04

abbrev pub svc_read : ℕ
svc_read = 0x05

abbrev pub svc_write_fd : ℕ
svc_write_fd = 0x06

abbrev pub svc_close : ℕ
svc_close = 0x07

abbrev pub svc_fork : ℕ
svc_fork = 0x08

abbrev pub svc_wait : ℕ
svc_wait = 0x09

abbrev pub svc_seek : ℕ
svc_seek = 0x0A

abbrev pub svc_exec : ℕ
svc_exec = 0x0B

abbrev pub svc_mkdir : ℕ
svc_mkdir = 0x0C

abbrev pub svc_unlink : ℕ
svc_unlink = 0x0D

abbrev pub svc_stat : ℕ
svc_stat = 0x0E

abbrev pub svc_getdents : ℕ
svc_getdents = 0x0F

abbrev pub svc_sock_open : ℕ
svc_sock_open = 0x15

abbrev pub svc_sock_send : ℕ
svc_sock_send = 0x16

abbrev pub svc_sock_recv : ℕ
svc_sock_recv = 0x17

abbrev pub svc_sock_close : ℕ
svc_sock_close = 0x18

abbrev pub valid_park : ℤ
valid_park = pos 1

-- the shared part of the validators: a buffer of at most 64K
unfoldable pub buffer_gate : Space → ℕ → ℕ → ℤ
unfolding validate_user_buffer
buffer_gate s va len =
    if ltb 65536 len
    then neg 22
    else if eq_ℤ (validate_user_buffer s va len) (pos 0)
    then valid_park
    else neg 14

unfoldable pub path_gate : Space → ℕ → ℤ → ℤ
unfolding validate_cstring_current
path_gate s va good =
    let r = validate_cstring_current s va 256 in if eq_ℤ r (pos 0) then good else r

unfoldable pub validate_fd : Space → ℕ → ℕ → ℕ → ℕ → ℤ
unfolding buffer_gate path_gate
validate_fd s op x0 x1 x2 =
    if op == svc_open
    then path_gate s x0 valid_park
    else if (op == svc_read) || (op == svc_write_fd)
    then buffer_gate s x1 x2
    else if (op == svc_close) || (op == svc_seek)
    then valid_park
    else neg 22

unfoldable pub validate_dir : Space → ℕ → ℕ → ℕ → ℕ → ℤ
unfolding buffer_gate path_gate
validate_dir s op x0 x1 x2 =
    if (op == svc_mkdir) || (op == svc_unlink)
    then path_gate s x0 valid_park
    else if (op == svc_stat) || (op == svc_getdents)
    then path_gate s x0 (buffer_gate s x1 x2)
    else neg 22

unfoldable pub validate_sock : Space → ℕ → ℕ → ℕ → ℤ
unfolding buffer_gate
validate_sock s op x0 x1 =
    if (op == svc_sock_open) || (op == svc_sock_close)
    then valid_park
    else if (op == svc_sock_send) || (op == svc_sock_recv)
    then buffer_gate s x0 x1
    else neg 22

-- ENOSYS, EFAULT and EINVAL fall through to the dispatch.
abbrev pub gate : ℤ → ℤ
gate r =
    if eq_ℤ r valid_park
    then pos 1
    else if eq_ℤ r (neg 38) || (eq_ℤ r (neg 14) || eq_ℤ r (neg 22))
    then pos 0
    else neg 22

unfoldable pub house_fd_should_park : Space → ℕ → ℕ → ℕ → ℕ → ℤ
unfolding validate_fd
house_fd_should_park s op x0 x1 x2 = gate (validate_fd s op x0 x1 x2)

unfoldable pub house_dir_should_park : Space → ℕ → ℕ → ℕ → ℕ → ℤ
unfolding validate_dir
house_dir_should_park s op x0 x1 x2 = gate (validate_dir s op x0 x1 x2)

unfoldable pub house_sock_should_park : Space → ℕ → ℕ → ℕ → ℤ
unfolding validate_sock
house_sock_should_park s op x0 x1 = gate (validate_sock s op x0 x1)

unfoldable pub house_brk_should_park : ℕ → ℤ
house_brk_should_park op = if op == svc_brk then pos 1 else neg 22

unfoldable pub house_fork_should_park : ℕ → ℤ
house_fork_should_park op = if op == svc_fork then pos 1 else neg 22

unfoldable pub house_wait_should_park : ℕ → ℤ
house_wait_should_park op = if op == svc_wait then pos 1 else neg 22

unfoldable pub house_exec_should_park : Space → ℕ → ℕ → ℤ
unfolding validate_cstring_current
house_exec_should_park s op x0 =
    if not (op == svc_exec)
    then neg 22
    else if eq_ℤ (validate_cstring_current s x0 256) (pos 0)
    then pos 1
    else pos 0
