-- ===== src/Svc/Dispatch/Console.antt =====
-- The console write, page by page, is a copy byte by byte.
use house.Svc.{Space, translate_va_pdir}
use house.Prelude.{
  ℕ, zero, suc, ◌+◌, ◌-◌, ◌*◌, ◌%◌, ◌≤◌, ◌<◌, min, ◌≡◌, refl, sym, ap, ◌∙◌, ◌≢◌, ◌⊎◌, inl, inr,
  Bool, true, false, not, Option, List, arith, ltb, ◌==◌, if◌then◌else◌, ==_iff, ==_ne, Bool-cases,
  ℤ, pos, neg, eq_ℤ,
}
use house.El0.{El0}
use house.Svc.Buffer.{validate_user_buffer}
use house.Svc.Copy.{read_bytes}
use house.Svc.Dispatch.{
  Answer, set_x0, answer, chunk_bytes, console_loop, svc_write, house_svc_dispatch,
}
use house.Svc.Dispatch.Laws.{
  translate_shift, with_bytes, read_bytes-fault, read_bytes-chunk, as_copy, console_loop-step,
  console_loop-fault, console_loop-done, read_bytes-none, translate_va_lem,
}

-- the part of a page that the loop prints in one step
abbrev chunk_of : ℕ → ℕ → ℕ
chunk_of cur remaining = min (4096 - cur % 4096) remaining

chunk_lem :
    (fuel va len : ℕ)
    → va % 4096 + len ≤ 4096 * suc fuel
    → (chunk_of va len + (len - chunk_of va len) ≡ len)
      × ((len - chunk_of va len ≡ 0)
          ⊎ ((va + chunk_of va len) % 4096 + (len - chunk_of va len) ≤ 4096 * fuel))
chunk_lem fuel va len h = (omega (arith, h), omega (arith, h))

in_chunk : (va len i : ℕ) → i < chunk_of va len → va % 4096 + i < 4096
in_chunk va len i h = omega (arith, h)

console_loop_lem :
    (fuel : ℕ) (s : Space) (len va : ℕ)
    → (len ≡ 0) ⊎ (va % 4096 + len ≤ 4096 * fuel)
    → as_copy (console_loop fuel s len va) ≡ read_bytes s.mem s.current va len
console_loop_lem zero s len va enough =
    let z : len ≡ 0 = omega (arith, enough) in
    rw (z, console_loop-done zero s va) (sym (read_bytes-none s.mem s.current va))
console_loop_lem (suc fuel) s len va enough = elim (Bool-cases (len == 0)) [
  | inl y ↦
      rw ((==_iff len 0).0 y, console_loop-done (suc fuel) s va)
        (sym (read_bytes-none s.mem s.current va))
  | inr n ↦
      let nz : len ≢ 0 = differs len n in
      let pa = translate_va_pdir s.mem s.current va in
      elim (Bool-cases (pa == 0)) [
        | inl y ↦
            let t = (==_iff pa 0).0 y in
            rw (console_loop-fault fuel s len va nz (translate_va_lem s va ∙ t))
              (sym (read_bytes-fault s.mem s.current va len t (positive len nz)))
        | inr m ↦
            let mapped : pa ≢ 0 = differs pa m in
            let c = chunk_of va len in
            let (whole, less) = chunk_lem fuel va len (omega (arith, enough, nz)) in
            let ih = console_loop_lem fuel s (len - c) (va + c) less in
            console_loop-step fuel s len va pa nz (translate_va_lem s va) mapped
            ∙ ap (with_bytes (chunk_bytes s.mem pa c)) ih
            ∙ sym (
                read_bytes-chunk c (len - c) s.mem s.current va pa mapped
                  (λ i h. translate_shift s.mem s.current va i (in_chunk va len i h) mapped))
            ∙ ap (read_bytes s.mem s.current va) whole
      ]
]
  where
    differs : (n : ℕ) → (n == 0) ≡ false → n ≢ 0
    differs n y = ground (arith, y)

    positive : (n : ℕ) → n ≢ 0 → 0 < n
    positive n y = omega (arith, y)

le-ltb : (n : ℕ) → n ≤ 65536 → ltb 65536 n ≡ false
le-ltb n h = ground (arith, h)

pick :
    (a b : Bool) (v : ℤ) (w x y z : Answer)
    → a ≡ false
    → b ≡ false
    → v ≡ pos 0
    → (if a then w else if b then x else if not (eq_ℤ v (pos 0)) then y else z) ≡ z
pick a b v w x y z p q r = rw (p, q, r) refl

-- the answer after the loop
abbrev printed : ℕ → Option (List ℕ) → El0 → Bool × List ℕ → Answer
printed len gpr e (fault, bytes) = record (answer (if fault then neg 14 else pos len) gpr e) {
  uart = bytes;
}

svc_write_at :
    (s : Space) (va len : ℕ) (gpr : Option (List ℕ)) (e : El0)
    → len ≢ 0
    → len ≤ 65536
    → validate_user_buffer s va len ≡ pos 0
    → svc_write s 1 va len gpr e ≡ printed len gpr e (console_loop 17 s len va)
unfolding svc_write
svc_write_at s va len gpr e nz le ok =
    pick (ltb 65536 len) (len == 0) (validate_user_buffer s va len) _ _ _ _ (le-ltb len le)
      (==_ne len 0 nz) ok

dispatch_write :
    (s : Space) (va len : ℕ) (gpr : Option (List ℕ)) (e : El0)
    → house_svc_dispatch s 0x01 1 va len gpr e ≡ svc_write s 1 va len gpr e
unfolding house_svc_dispatch
dispatch_write s va len gpr e = refl

abbrev pub Prints : ℤ × List ℕ → ℕ → Option (List ℕ) → El0 → Answer → Type 0
Prints r len gpr e a =
    (a.uart ≡ r.1)
    × (((r.0 ≡ pos 0) × (a.result ≡ pos len)) ⊎ ((r.0 ≡ neg 14) × (a.result ≡ neg 14)))
    × (a.gpr ≡ set_x0 a.result gpr)
    × (a.sessions ≡ e)

printed-Prints :
    (len : ℕ) (gpr : Option (List ℕ)) (e : El0) (r : ℤ × List ℕ) (c : Bool × List ℕ)
    → as_copy c ≡ r
    → Prints r len gpr e (printed len gpr e c)
printed-Prints len gpr e r (false, bs) q =
    (ap (λ (r : ℤ × List ℕ). r.1) q, inl (sym (ap (λ (r : ℤ × List ℕ). r.0) q), refl), refl, refl)
printed-Prints len gpr e r (true, bs) q =
    (ap (λ (r : ℤ × List ℕ). r.1) q, inr (sym (ap (λ (r : ℤ × List ℕ). r.0) q), refl), refl, refl)

-- A console write of an accessible buffer of 1 to 65536 bytes prints exactly the bytes that a
-- copy of that buffer byte by byte gives, up to the first address that is not mapped. It returns
-- the length if there is none, and EFAULT otherwise; x0 of the frame, if there is one, is the
-- result, and no session changes.
pub console_write_lem :
    (s : Space) (va len : ℕ) (gpr : Option (List ℕ)) (e : El0)
    → len ≢ 0
    → len ≤ 65536
    → validate_user_buffer s va len ≡ pos 0
    → Prints
        (read_bytes s.mem s.current va len)
        len
        gpr
        e
        (house_svc_dispatch s 0x01 1 va len gpr e)
console_write_lem s va len gpr e nz le ok =
    rw (dispatch_write s va len gpr e, svc_write_at s va len gpr e nz le ok)
      (printed-Prints len gpr e _ (console_loop 17 s len va)
        (console_loop_lem 17 s len va (inr (omega (arith, le)))))
