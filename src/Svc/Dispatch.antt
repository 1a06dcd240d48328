-- ===== src/Svc/Dispatch.antt =====
-- svc.rs: house_svc_dispatch, which answers the calls that did not park.
pub mod Laws
pub mod Console
pub mod Errors
use house.Prelude.{
  ℕ, zero, suc, ◌+◌, ◌-◌, ◌*◌, ◌/◌, ◌%◌, ◌^◌, ◌≤◌, ◌<◌, min, max, ◌≡◌, refl, sym, ap, subst, ◌∙◌,
  ◌≢◌, ◌⊎◌, inl, inr, ◌↔◌, Bool, true, false, not, ◌&&◌, ◌||◌, Option, none, some, List, [], ◌∷◌,
  ◌++◌, map, arith, ltb, leb, ◌==◌, if◌then◌else◌, ltb→lt, lt→ltb, leb→le, le→leb, ==_iff, ==_refl,
  ==_ne, Bool-cases, Option-cases, all_below, all_below_sound, is_some, ℤ, pos, negsuc, neg, eq_ℤ,
  eq_ℤ_iff, as_u64, length, get_elem?, get_or, set, take, drop, replicate, length-append,
  length-take, length-drop, length-set, get_or-set_self, get_or-set_ne,
}
use house.El0.{
  req_fault_kill, req_preempt, req_fault, Slot, save_words, zero_save, el0_free, el0_n, El0,
  find_slot, find_last, slot, put_slot, is_negative, made_pipe, poke_write, poke_park,
  house_el0_park_pipe_fd, house_el0_park_pipe_readable, is_positive, drain_from,
  house_el0_park_pipe_drain, park_current,
}
use house.El0.Session.{
  rearm, claim, retract, house_el0_register, house_el0_unregister, route_exit, house_set_exit,
  house_el0_exit_status, house_get_exit_code, house_clear_exit, house_is_exited,
}
use house.Svc.{
  Space, window_lo, window_hi, u64_max, page_of, entry_at, next_table, leaf, translate_va_pdir,
  translate_va, is_demand_desc, house_is_demand_va, byte_at, in_window,
}
use house.Svc.Buffer.{
  is_usable, pages_usable, page_fuel, validate_user_buffer, scan_cstring, validate_cstring_current,
}
use house.Svc.Gates.{
  svc_brk, svc_open, svc_read, svc_write_fd, svc_close, svc_fork, svc_wait, svc_seek, svc_exec,
  svc_mkdir, svc_unlink, svc_stat, svc_getdents, svc_sock_open, svc_sock_send, svc_sock_recv,
  svc_sock_close, valid_park, buffer_gate, path_gate, validate_fd, validate_dir, validate_sock,
  gate, house_fd_should_park, house_dir_should_park, house_sock_should_park, house_brk_should_park,
  house_fork_should_park, house_wait_should_park, house_exec_should_park,
}
use house.Svc.Ipc.{
  ipc_send, ipc_recv, ipc_call, ipc_reply, ipc_grant_map, inline_words_ok, words_gate, validate_ipc,
  house_ipc_svc_dispatch, house_ipc_should_park,
}

-- What a dispatch leaves: its result, the frame, the bytes on the console and the sessions.
pub record Answer : Type 0 where
  pub result : ℤ
  pub gpr : Option (List ℕ)
  pub uart : List ℕ
  pub sessions : El0

abbrev pub set_x0 : ℤ → Option (List ℕ) → Option (List ℕ)
set_x0 r none = none
set_x0 r (some f) = some (set f 0 (as_u64 r))

-- `*gpr = r as u64`, if `gpr` is not null
abbrev pub answer : ℤ → Option (List ℕ) → El0 → Answer
answer r gpr e = record { result = r; gpr = set_x0 r gpr; uart = []; sessions = e }

-- the `n` bytes from a physical address
unfoldable pub chunk_bytes : (ℕ → ℕ) → ℕ → ℕ → List ℕ
chunk_bytes mem pa zero = []
chunk_bytes mem pa (suc n) = byte_at mem pa ∷ chunk_bytes mem (pa + 1) n

-- The loop of the console write, one page at a time; the first result is whether it faulted.
unfoldable pub console_loop : ℕ → Space → ℕ → ℕ → Bool × List ℕ
unfolding translate_va chunk_bytes
console_loop zero s remaining cur = (false, [])
console_loop (suc fuel) s remaining cur =
    let chunk = min (4096 - cur % 4096) remaining in
    let pa = translate_va s cur in
    let rest = console_loop fuel s (remaining - chunk) (cur + chunk) in
    if remaining == 0
    then (false, [])
    else if pa == 0
    then (true, [])
    else (rest.0, chunk_bytes s.mem pa chunk ++ rest.1)

-- 65536 bytes touch at most 17 pages.
unfoldable pub svc_write : Space → ℕ → ℕ → ℕ → Option (List ℕ) → El0 → Answer
unfolding validate_user_buffer console_loop
svc_write s fd va len gpr e =
    if not (fd == 1)
    then answer (neg 9) gpr e
    else if ltb 65536 len
    then answer (neg 22) gpr e
    else if len == 0
    then answer (pos 0) gpr e
    else if not (eq_ℤ (validate_user_buffer s va len) (pos 0))
    then answer (neg 14) gpr e
    else let (fault, bytes) = console_loop 17 s len va in
      record (answer (if fault then neg 14 else pos len) gpr e) { uart = bytes }

-- a validator's outcome outside of the park path
abbrev pub no_park : ℤ → ℤ
no_park r = if eq_ℤ r valid_park then neg 38 else r

abbrev pub among : ℕ → ℕ → ℕ → Bool
among lo hi n = leb lo n && leb n hi

unfoldable pub house_svc_dispatch : Space → ℕ → ℕ → ℕ → ℕ → Option (List ℕ) → El0 → Answer
unfolding svc_write house_set_exit validate_fd validate_dir validate_sock validate_cstring_current
    house_ipc_svc_dispatch
house_svc_dispatch s imm x0 x1 x2 gpr e =
    if imm == 0x00
    then answer (neg 38) gpr e
    else if imm == 0x01
    then svc_write s x0 x1 x2 gpr e
    else if imm == 0x02
    then answer (pos 0) gpr (house_set_exit (pos (x0 % 2 ^ 8)) e)
    else if imm == svc_brk
    then answer (neg 38) gpr e
    else if among 0x04 0x07 imm || (imm == svc_seek)
    then answer (no_park (validate_fd s imm x0 x1 x2)) gpr e
    else if among 0x0C 0x0F imm
    then answer (no_park (validate_dir s imm x0 x1 x2)) gpr e
    else if (imm == svc_fork) || (imm == svc_wait)
    then answer (neg 38) gpr e
    else if among 0x15 0x18 imm
    then answer (no_park (validate_sock s imm x0 x1)) gpr e
    else if imm == svc_exec
    then (let r = validate_cstring_current s x0 256 in
        answer (if eq_ℤ r (pos 0) then neg 38 else r) gpr e)
    else if among 0x10 0x14 imm
    then answer (house_ipc_svc_dispatch s imm x1 x2) gpr e
    else answer (neg 38) gpr e
