-- ===== src/Svc/Gates/Laws.antt =====
-- A call that parks was checked.
use house.Svc.{Space, translate_va, house_is_demand_va, byte_at, in_window}
use house.Prelude.{
  ℕ, zero, suc, ◌+◌, max, ◌≡◌, refl, ◌⊎◌, inl, inr, Bool, true, ◌||◌, arith, ltb, ◌==◌,
  if◌then◌else◌, ==_iff, Bool-cases, ℤ, pos, neg, eq_ℤ, eq_ℤ_iff,
}
use house.Svc.Buffer.{validate_user_buffer, scan_cstring, validate_cstring_current}
use house.Svc.Buffer.Strings.{PathChecked, validate_cstring-PathChecked}
use house.Svc.Buffer.Laws.{Accessible, validate_user_buffer_lem}
use house.Svc.Gates.{
  svc_open, svc_read, svc_write_fd, svc_close, svc_seek, svc_mkdir, svc_unlink, svc_stat,
  svc_getdents, svc_sock_open, svc_sock_send, svc_sock_recv, svc_sock_close, valid_park,
  buffer_gate, path_gate, validate_fd, validate_dir, validate_sock, gate, house_fd_should_park,
  house_dir_should_park, house_sock_should_park,
}

-- the outcome of a validator
abbrev pub Verdict : ℤ → Type 0
Verdict r = (r ≡ valid_park) ⊎ ((r ≡ neg 14) ⊎ (r ≡ neg 22))

buffer-Verdict : (b v : Bool) → Verdict (if b then neg 22 else if v then valid_park else neg 14)
buffer-Verdict b v = ground arith

buffer_parks :
    (b v : Bool) → (if b then neg 22 else if v then valid_park else neg 14) ≡ valid_park → v ≡ true
buffer_parks b v h = ground (arith, h)

buffer_gate-Verdict : (s : Space) (va len : ℕ) → Verdict (buffer_gate s va len)
unfolding buffer_gate
buffer_gate-Verdict s va len =
    buffer-Verdict (ltb 65536 len) (eq_ℤ (validate_user_buffer s va len) (pos 0))

buffer_gate-Accessible :
    (s : Space) (va len : ℕ) → buffer_gate s va len ≡ valid_park → Accessible s va len
unfolding buffer_gate
buffer_gate-Accessible s va len y = (validate_user_buffer_lem s va len).0 (
    (eq_ℤ_iff _ _).0
      (buffer_parks (ltb 65536 len) (eq_ℤ (validate_user_buffer s va len) (pos 0)) y))

scan_step :
    (a b c : Bool) (r : ℤ)
    → (r ≡ pos 0) ⊎ ((r ≡ neg 14) ⊎ (r ≡ neg 22))
    → let q = if a then (if b then pos 0 else neg 14) else if c then pos 0 else r in
      (q ≡ pos 0) ⊎ ((q ≡ neg 14) ⊎ (q ≡ neg 22))
scan_step a b c r h = ground (arith, h)

scan_verdict :
    (n : ℕ) (s : Space) (va : ℕ)
    → (scan_cstring s n va ≡ pos 0)
      ⊎ ((scan_cstring s n va ≡ neg 14) ⊎ (scan_cstring s n va ≡ neg 22))
unfolding scan_cstring
scan_verdict zero s va = inr (inr refl)
scan_verdict (suc n) s va =
    scan_step (translate_va s va == 0) (house_is_demand_va s va)
      (byte_at s.mem (translate_va s va) == 0) (scan_cstring s n (va + 1))
      (scan_verdict n s (va + 1))

cstring_verdict :
    (s : Space) (va max : ℕ)
    → let r = validate_cstring_current s va max in (r ≡ pos 0) ⊎ ((r ≡ neg 14) ⊎ (r ≡ neg 22))
unfolding validate_cstring_current
cstring_verdict s va max = elim (Bool-cases (in_window va max)) [
  | inl y ↦ rw (y, validate_cstring_current) (scan_verdict max s va)
  | inr n ↦ rw (n, validate_cstring_current) (inr (inl refl))
]

path-Verdict :
    (r good : ℤ)
    → (r ≡ pos 0) ⊎ ((r ≡ neg 14) ⊎ (r ≡ neg 22))
    → Verdict good
    → Verdict (if eq_ℤ r (pos 0) then good else r)
path-Verdict r good h g = ground (arith, h, g)

path_gate-Verdict : (s : Space) (va : ℕ) (good : ℤ) → Verdict good → Verdict (path_gate s va good)
unfolding path_gate
path_gate-Verdict s va good g =
    path-Verdict (validate_cstring_current s va 256) good (cstring_verdict s va 256) g

path_parks :
    (r good : ℤ)
    → (r ≡ pos 0) ⊎ ((r ≡ neg 14) ⊎ (r ≡ neg 22))
    → (if eq_ℤ r (pos 0) then good else r) ≡ valid_park
    → (r ≡ pos 0) × (good ≡ valid_park)
path_parks r good h y = ground (arith, h, y)

path_gate_lem :
    (s : Space) (va : ℕ) (good : ℤ)
    → path_gate s va good ≡ valid_park
    → PathChecked s va × (good ≡ valid_park)
unfolding path_gate
path_gate_lem s va good y =
    let (c, g) = path_parks _ good (cstring_verdict s va 256) y in
    (validate_cstring-PathChecked s va c, g)

-- a choice between verdicts
choose : (b : Bool) (x y : ℤ) → Verdict x → Verdict y → Verdict (if b then x else y)
choose b x y h k = ground (arith, h, k)

pub validators-Verdict :
    (s : Space) (op x0 x1 x2 : ℕ)
    → Verdict (validate_fd s op x0 x1 x2)
      × Verdict (validate_dir s op x0 x1 x2)
      × Verdict (validate_sock s op x0 x1)
unfolding validate_fd validate_dir validate_sock
validators-Verdict s op x0 x1 x2 = (
  choose _ _ _ (path_gate-Verdict s x0 valid_park (inl refl))
      (choose _ _ _ (buffer_gate-Verdict s x1 x2) (choose _ _ _ (inl refl) (inr (inr refl)))),
  choose _ _ _ (path_gate-Verdict s x0 valid_park (inl refl)) (
      choose _ _ _ (path_gate-Verdict s x0 (buffer_gate s x1 x2) (buffer_gate-Verdict s x1 x2))
        (inr (inr refl))),
  choose _ _ _ (inl refl) (choose _ _ _ (buffer_gate-Verdict s x0 x1) (inr (inr refl))),
)

abbrev pub ZeroOne : ℤ → Type 0
ZeroOne r = (r ≡ pos 0) ⊎ (r ≡ pos 1)

gate-Verdict : (r : ℤ) → Verdict r → ZeroOne (gate r)
gate-Verdict r v = ground (arith, v)

-- The gates of the file, directory and socket calls answer 1 or 0 for every operation. They never
-- answer -22, not even for an operation that is none of theirs.
pub should_park_lem :
    (s : Space) (op x0 x1 x2 : ℕ)
    → ZeroOne (house_fd_should_park s op x0 x1 x2)
      × ZeroOne (house_dir_should_park s op x0 x1 x2)
      × ZeroOne (house_sock_should_park s op x0 x1)
unfolding house_fd_should_park house_dir_should_park house_sock_should_park
should_park_lem s op x0 x1 x2 =
    let (f, d, k) = validators-Verdict s op x0 x1 x2 in
    (gate-Verdict _ f, gate-Verdict _ d, gate-Verdict _ k)

gate_one : (r : ℤ) → gate r ≡ pos 1 → r ≡ valid_park
gate_one r h = ground (arith, h)

three_ways :
    (a b c : Bool) (x y : ℤ)
    → (if a then x else if b then y else if c then valid_park else neg 22) ≡ valid_park
    → ((a ≡ true) × (x ≡ valid_park)) ⊎ (((b ≡ true) × (y ≡ valid_park)) ⊎ (c ≡ true))
three_ways a b c x y h = ground (arith, h)

two_ways :
    (a b : Bool) (x y : ℤ)
    → (if a then x else if b then y else neg 22) ≡ valid_park
    → ((a ≡ true) × (x ≡ valid_park)) ⊎ ((b ≡ true) × (y ≡ valid_park))
two_ways a b x y h = ground (arith, h)

one_of : (op a b : ℕ) → ((op == a) || (op == b)) ≡ true → (op ≡ a) ⊎ (op ≡ b)
one_of op a b h = ground (arith, h)

-- A file call that parks is an open whose path ends within 256 bytes of the user window, at a NUL or on a
-- page that is promised, with each byte before that mapped; a read or a write whose buffer is
-- accessible; a close; or a seek.
pub fd_should_park_lem :
    (s : Space) (op x0 x1 x2 : ℕ)
    → house_fd_should_park s op x0 x1 x2 ≡ pos 1
    → ((op ≡ svc_open) × PathChecked s x0)
      ⊎ ((((op ≡ svc_read) ⊎ (op ≡ svc_write_fd)) × Accessible s x1 x2)
          ⊎ ((op ≡ svc_close) ⊎ (op ≡ svc_seek)))
unfolding house_fd_should_park validate_fd
fd_should_park_lem s op x0 x1 x2 y =
    elim (three_ways (op == svc_open) ((op == svc_read) || (op == svc_write_fd))
      ((op == svc_close) || (op == svc_seek)) (path_gate s x0 valid_park) (buffer_gate s x1 x2)
      (gate_one _ y)) [
        | inl (o, p) ↦ inl ((==_iff op svc_open).0 o, (path_gate_lem s x0 valid_park p).0)
        | inr (inl (o, p)) ↦ inr (inl (one_of op _ _ o, buffer_gate-Accessible s x1 x2 p))
        | inr (inr o) ↦ inr (inr (one_of op _ _ o))
      ]

-- A directory call that parks has a path that ends within 256 bytes of the user window, at a NUL or on a
-- page that is promised, with each byte before that mapped; and it is a mkdir or an unlink, or a stat or
-- a listing whose buffer is accessible.
pub dir_should_park_lem :
    (s : Space) (op x0 x1 x2 : ℕ)
    → house_dir_should_park s op x0 x1 x2 ≡ pos 1
    → PathChecked s x0
      × (((op ≡ svc_mkdir) ⊎ (op ≡ svc_unlink))
          ⊎ (((op ≡ svc_stat) ⊎ (op ≡ svc_getdents)) × Accessible s x1 x2))
unfolding house_dir_should_park validate_dir
dir_should_park_lem s op x0 x1 x2 y =
    elim (two_ways ((op == svc_mkdir) || (op == svc_unlink))
      ((op == svc_stat) || (op == svc_getdents)) (path_gate s x0 valid_park)
      (path_gate s x0 (buffer_gate s x1 x2)) (gate_one _ y)) [
        | inl (o, p) ↦ ((path_gate_lem s x0 valid_park p).0, inl (one_of op _ _ o))
        | inr (o, p) ↦
            let (c, b) = path_gate_lem s x0 (buffer_gate s x1 x2) p in
            (c, inr (one_of op _ _ o, buffer_gate-Accessible s x1 x2 b))
      ]

-- A socket call that parks is an open, a close, or a transfer whose buffer is accessible.
pub sock_should_park_lem :
    (s : Space) (op x0 x1 : ℕ)
    → house_sock_should_park s op x0 x1 ≡ pos 1
    → ((op ≡ svc_sock_open) ⊎ (op ≡ svc_sock_close))
      ⊎ (((op ≡ svc_sock_send) ⊎ (op ≡ svc_sock_recv)) × Accessible s x0 x1)
unfolding house_sock_should_park validate_sock
sock_should_park_lem s op x0 x1 y =
    elim (two_ways ((op == svc_sock_open) || (op == svc_sock_close))
      ((op == svc_sock_send) || (op == svc_sock_recv)) valid_park (buffer_gate s x0 x1)
      (gate_one _ y)) [
        | inl (o, p) ↦ inl (one_of op _ _ o)
        | inr (o, p) ↦ inr (one_of op _ _ o, buffer_gate-Accessible s x0 x1 p)
      ]
