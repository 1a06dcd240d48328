-- ===== src/Svc/Ipc.antt =====
-- rust/crates/house-hal-aarch64/src/ipc.rs: the checks of the IPC calls.
pub mod Laws
use house.Prelude.{ℕ, ◌*◌, ◌%◌, not, ◌&&◌, ◌||◌, ltb, ◌==◌, if◌then◌else◌, ℤ, pos, neg, eq_ℤ}
use house.Svc.{Space}
use house.Svc.Buffer.{validate_user_buffer}

abbrev pub ipc_send : ℕ
ipc_send = 0x10

abbrev pub ipc_recv : ℕ
ipc_recv = 0x11

abbrev pub ipc_call : ℕ
ipc_call = 0x12

abbrev pub ipc_reply : ℕ
ipc_reply = 0x13

abbrev pub ipc_grant_map : ℕ
ipc_grant_map = 0x14

unfoldable pub inline_words_ok : Space → ℕ → ℕ → ℤ
unfolding validate_user_buffer
inline_words_ok s va nwords =
    if ltb 8 nwords
    then neg 22
    else if nwords * 8 == 0
    then pos 0
    else if eq_ℤ (validate_user_buffer s va (nwords * 8)) (pos 0)
    then pos 0
    else neg 14

-- the words are checked, then the call may park
abbrev pub words_gate : Space → ℕ → ℕ → ℤ
words_gate s va nwords = let r = inline_words_ok s va nwords in if eq_ℤ r (pos 0) then pos 1 else r

unfoldable pub validate_ipc : Space → ℕ → ℕ → ℕ → ℤ
unfolding inline_words_ok validate_user_buffer
validate_ipc s op x1 x2 =
    if (op == ipc_send) || ((op == ipc_call) || (op == ipc_reply))
    then words_gate s x1 x2
    else if op == ipc_recv
    then (if (x1 == 0) && (x2 == 0) then pos 1 else words_gate s x1 x2)
    else if op == ipc_grant_map
    then (if ltb 1 x2
        then neg 22
        else if not (x1 % 4096 == 0)
        then neg 22
        else if eq_ℤ (validate_user_buffer s x1 4096) (pos 0)
        then neg 38
        else neg 14)
    else neg 22

unfoldable pub house_ipc_svc_dispatch : Space → ℕ → ℕ → ℕ → ℤ
unfolding validate_ipc
house_ipc_svc_dispatch s op x1 x2 =
    let r = validate_ipc s op x1 x2 in if eq_ℤ r (pos 1) then neg 38 else r

unfoldable pub house_ipc_should_park : Space → ℕ → ℕ → ℕ → ℤ
unfolding validate_ipc
house_ipc_should_park s op x1 x2 =
    let r = validate_ipc s op x1 x2 in
    if eq_ℤ r (pos 1)
    then pos 1
    else if eq_ℤ r (neg 38) || (eq_ℤ r (neg 14) || eq_ℤ r (neg 22))
    then pos 0
    else neg 22
