-- ===== src/Tests/Memory.antt =====
-- The memory of a session: one page at 0x1000000, in the frame 0x9000, that starts with "a".
use house.Svc.Ipc.{
  ipc_send, ipc_recv, ipc_call, ipc_reply, inline_words_ok, validate_ipc, house_ipc_should_park,
}
use house.Svc.Ipc.Laws.{WordsChecked, ipc_should_park_lem}
use house.Svc.Copy.Laws.{Copied, user_read_bytes_lem}
use house.Svc.{Space, leaf, translate_va_pdir, translate_va, house_is_demand_va}
use house.Prelude.{ℕ, ◌≡◌, refl, ◌⊎◌, ◌↔◌, true, arith, ◌==◌, if◌then◌else◌, pos}
use house.Svc.Buffer.{
  is_usable, pages_usable, validate_user_buffer, scan_cstring, validate_cstring_current,
}
use house.Svc.Copy.{house_user_read_bytes}
use house.Svc.Gates.{
  svc_open, svc_read, svc_write_fd, svc_close, svc_seek, svc_mkdir, svc_sock_send, buffer_gate,
  path_gate, validate_fd, validate_dir, validate_sock, house_fd_should_park, house_dir_should_park,
  house_sock_should_park,
}
use house.Svc.Buffer.Laws.{Accessible, validate_user_buffer_lem}
use house.Svc.Copy.Laws.{Copied, user_read_bytes_lem}
use house.Svc.Buffer.Strings.{PathChecked}
use house.Svc.Gates.Laws.{fd_should_park_lem}

abbrev tables : ℕ → ℕ
tables a =
    if a == 0x1000
    then 0x2001
    else if a == 0x2000
    then 0x3001
    else if a == 0x3040
    then 0x4001
    else if a == 0x4000
    then 0x9001
    else if a == 0x9000
    then 0x61
    else 0

abbrev space : Space
space = record { current = 0x1000; mem = tables }

validate_user_buffer_lem_example :
    (validate_user_buffer space 0x1000000 100 ≡ pos 0) ↔ Accessible space 0x1000000 100
validate_user_buffer_lem_example = validate_user_buffer_lem space 0x1000000 100

read_parks : house_fd_should_park space svc_read 5 0x1000000 100 ≡ pos 1
unfolding house_fd_should_park validate_fd buffer_gate validate_user_buffer pages_usable is_usable
    translate_va translate_va_pdir leaf house_is_demand_va
read_parks = refl

fd_should_park_lem_example :
    let op : ℕ = 5 in
    ((op ≡ svc_open) × PathChecked space 5)
    ⊎ ((((op ≡ svc_read) ⊎ (op ≡ svc_write_fd)) × Accessible space 0x1000000 100)
        ⊎ ((op ≡ svc_close) ⊎ (op ≡ svc_seek)))
fd_should_park_lem_example = fd_should_park_lem space 5 5 0x1000000 100 read_parks

mkdir_parks : house_dir_should_park space svc_mkdir 0x1000000 0 0 ≡ pos 1
unfolding house_dir_should_park validate_dir path_gate validate_cstring_current scan_cstring
    translate_va translate_va_pdir leaf house_is_demand_va
mkdir_parks = refl

send_parks : house_sock_should_park space svc_sock_send 0x1000000 8 ≡ pos 1
unfolding house_sock_should_park validate_sock buffer_gate validate_user_buffer pages_usable
    is_usable translate_va translate_va_pdir leaf house_is_demand_va
send_parks = refl

user_read_bytes_lem_example :
    Copied tables 0x1000 0x1000000 2 (house_user_read_bytes tables 0x1000 0x1000000 true 2)
user_read_bytes_lem_example =
    user_read_bytes_lem tables 0x1000 0x1000000 2 (λ e. omega (arith, e)) (omega arith) refl

ipc_parks : house_ipc_should_park space ipc_call 0x1000000 3 ≡ pos 1
unfolding house_ipc_should_park validate_ipc inline_words_ok validate_user_buffer pages_usable
    is_usable translate_va translate_va_pdir leaf house_is_demand_va
ipc_parks = refl

ipc_should_park_lem_example :
    let op : ℕ = 18 in
    let va : ℕ = 0x1000000 in
    let n : ℕ = 3 in
    (((op ≡ ipc_send) ⊎ ((op ≡ ipc_call) ⊎ (op ≡ ipc_reply))) × WordsChecked space 0x1000000 3)
    ⊎ ((op ≡ ipc_recv) × (((va ≡ 0) × (n ≡ 0)) ⊎ WordsChecked space 0x1000000 3))
ipc_should_park_lem_example = ipc_should_park_lem space 18 0x1000000 3 ipc_parks
