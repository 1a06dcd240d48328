-- ===== src/Svc/Dispatch/Errors.antt =====
-- The dispatch answers a file call that did not park.
use house.Svc.{Space}
use house.Prelude.{
  ℕ, ◌≤◌, ◌≡◌, refl, ◌⊎◌, inl, inr, Bool, true, false, ◌||◌, Option, List, [], arith, ◌==◌,
  if◌then◌else◌, ℤ, pos, neg,
}
use house.El0.{El0}
use house.Svc.Dispatch.{Answer, set_x0, answer, no_park, among, house_svc_dispatch}
use house.Svc.Gates.{validate_fd, gate, house_fd_should_park}
use house.Svc.Gates.Laws.{Verdict, validators-Verdict}

-- a file call's number
abbrev pub IsFileCall : ℕ → Type 0
IsFileCall op = ((4 ≤ op) × (op ≤ 7)) ⊎ (op ≡ 10)

others :
    (op : ℕ)
    → IsFileCall op
    → ((op == 0) ≡ false)
      × ((op == 1) ≡ false)
      × ((op == 2) ≡ false)
      × ((op == 3) ≡ false)
      × ((among 4 7 op || (op == 10)) ≡ true)
others op h =
    (ground (arith, h), ground (arith, h), ground (arith, h), ground (arith, h), ground (arith, h))

fifth :
    (a b c d f : Bool) (v w x y z t : Answer)
    → a ≡ false
    → b ≡ false
    → c ≡ false
    → d ≡ false
    → f ≡ true
    → (if a then v else if b then w else if c then x else if d then y else if f then z else t) ≡ z
fifth a b c d f v w x y z t p q r u k = rw (p, q, r, u, k) refl

dispatch_file :
    (s : Space) (op x0 x1 x2 : ℕ) (gpr : Option (List ℕ)) (e : El0)
    → IsFileCall op
    → house_svc_dispatch s op x0 x1 x2 gpr e ≡ answer (no_park (validate_fd s op x0 x1 x2)) gpr e
unfolding house_svc_dispatch
dispatch_file s op x0 x1 x2 gpr e h =
    let (a, b, c, d, f) = others op h in
    fifth (op == 0) (op == 1) (op == 2) (op == 3) (among 4 7 op || (op == 10)) _ _ _ _ _ _ a b c d f

-- what a gate and the dispatch say of one call
abbrev pub Agree : ℤ → ℤ → Type 0
Agree parks result =
    ((parks ≡ pos 1) × (result ≡ neg 38))
    ⊎ ((parks ≡ pos 0) × ((result ≡ neg 14) ⊎ (result ≡ neg 22)))

Verdict-Agree : (r : ℤ) → Verdict r → Agree (gate r) (no_park r)
Verdict-Agree r (inl a) = inl (rw a refl, rw a refl)
Verdict-Agree r (inr (inl a)) = inr (rw a refl, inl (rw a refl))
Verdict-Agree r (inr (inr a)) = inr (rw a refl, inr (rw a refl))

-- For a file call, whose number is 4 to 7 or 10, the dispatch answers ENOSYS if the gate says that the
-- call parks, and EFAULT or EINVAL if it says that it does not. The answer goes to x0 of the frame too,
-- where there is one, nothing is printed, and no session changes.
pub dispatch_file_lem :
    (s : Space) (op x0 x1 x2 : ℕ) (gpr : Option (List ℕ)) (e : El0)
    → IsFileCall op
    → let a = house_svc_dispatch s op x0 x1 x2 gpr e in
      Agree (house_fd_should_park s op x0 x1 x2) a.result
      × (a.gpr ≡ set_x0 a.result gpr)
      × (a.uart ≡ [])
      × (a.sessions ≡ e)
unfolding house_fd_should_park
dispatch_file_lem s op x0 x1 x2 gpr e h =
    rw (dispatch_file s op x0 x1 x2 gpr e h)
      (Verdict-Agree _ (validators-Verdict s op x0 x1 x2).0, refl, refl, refl)
