-- ===== src/Svc/Dispatch/Laws.antt =====
-- What the console prints is what the session has in memory.
use house.Svc.{Space, page_of, leaf, translate_va_pdir, translate_va, byte_at}
use house.Prelude.{
  ℕ, zero, suc, ◌+◌, ◌-◌, ◌*◌, ◌/◌, ◌%◌, ◌^◌, ◌<◌, min, ◌≡◌, refl, sym, ap, ◌∙◌, ◌≢◌, Bool, true,
  false, not, ◌||◌, Option, none, some, List, [], ◌∷◌, ◌++◌, arith, ◌==◌, if◌then◌else◌, ==_ne, ℤ,
  pos, neg,
}
use house.Svc.Copy.{read_bytes}
use house.Svc.Dispatch.{chunk_bytes, console_loop}

-- the table indices of addresses in one page
same_page :
    (va i : ℕ)
    → va % 4096 + i < 4096
    → ((va + i) / 2 ^ 39 % 512 ≡ va / 2 ^ 39 % 512)
      × ((va + i) / 2 ^ 30 % 512 ≡ va / 2 ^ 30 % 512)
      × ((va + i) / 2 ^ 21 % 512 ≡ va / 2 ^ 21 % 512)
      × ((va + i) / 2 ^ 12 % 512 ≡ va / 2 ^ 12 % 512)
same_page va i h = (omega (arith, h), omega (arith, h), omega (arith, h), omega (arith, h))

-- the walk from the four indices
abbrev next_at : (ℕ → ℕ) → ℕ → ℕ → Option ℕ
next_at mem table i = let d = mem (table + 8 * i) in if d % 2 == 0 then none else some (page_of d)

leaf_at : (ℕ → ℕ) → ℕ → ℕ → ℕ → ℕ → ℕ → Option ℕ
leaf_at mem pdir a b c d =
    if (pdir == 0) || not (pdir % 4096 == 0) then none else elim (next_at mem pdir a) [
      | none ↦ none
      | some l1 ↦ elim (next_at mem l1 b) [
        | none ↦ none
        | some l2 ↦ elim (next_at mem l2 c) [ none ↦ none | some l3 ↦ some (mem (l3 + 8 * d)) ]
      ]
    ]

leaf-indices :
    (mem : ℕ → ℕ) (pdir va : ℕ)
    → leaf mem pdir va
      ≡ leaf_at mem pdir
          (va / 2 ^ 39 % 512)
          (va / 2 ^ 30 % 512)
          (va / 2 ^ 21 % 512)
          (va / 2 ^ 12 % 512)
unfolding leaf leaf_at
leaf-indices mem pdir va = refl

leaf_same :
    (mem : ℕ → ℕ) (pdir va i : ℕ) → va % 4096 + i < 4096 → leaf mem pdir (va + i) ≡ leaf mem pdir va
leaf_same mem pdir va i h =
    let (a, b, c, d) = same_page va i h in
    rw (leaf-indices mem pdir (va + i), leaf-indices mem pdir va, a, b, c, d) refl

-- the address from the descriptor
abbrev address : Option ℕ → ℕ → ℕ
address none o = 0
address (some d3) o = if d3 % 2 == 0 then 0 else page_of d3 + o

translate-address :
    (mem : ℕ → ℕ) (pdir va : ℕ)
    → translate_va_pdir mem pdir va ≡ address (leaf mem pdir va) (va % 4096)
unfolding translate_va_pdir
translate-address mem pdir va = go (leaf mem pdir va)
  where
    go :
        (l : Option ℕ)
        → elim l [ none ↦ 0 | some d3 ↦ if d3 % 2 == 0 then 0 else page_of d3 + va % 4096 ]
          ≡ address l (va % 4096)
    go none = refl
    go (some d3) = refl

address_shift : (l : Option ℕ) (o i : ℕ) → address l o ≢ 0 → address l (o + i) ≡ address l o + i
address_shift none o i nz = absurd (nz refl)
address_shift (some d3) o i nz = ground (arith, nz)

-- Within a page, a mapped address moves along.
pub translate_shift :
    (mem : ℕ → ℕ) (pdir va i : ℕ)
    → va % 4096 + i < 4096
    → translate_va_pdir mem pdir va ≢ 0
    → translate_va_pdir mem pdir (va + i) ≡ translate_va_pdir mem pdir va + i
translate_shift mem pdir va i h nz =
    let e = translate-address mem pdir va in
    let off : (va + i) % 4096 ≡ va % 4096 + i = omega (arith, h) in
    translate-address mem pdir (va + i)
    ∙ ap (λ l. address l ((va + i) % 4096)) (leaf_same mem pdir va i h)
    ∙ ap (address (leaf mem pdir va)) off
    ∙ address_shift (leaf mem pdir va) (va % 4096) i (λ z. nz (e ∙ z))
    ∙ ap (λ x. x + i) (sym e)

abbrev with_byte : ℕ → ℤ × List ℕ → ℤ × List ℕ
with_byte b (r, bs) = (r, b ∷ bs)

abbrev pub with_bytes : List ℕ → ℤ × List ℕ → ℤ × List ℕ
with_bytes bs (r, cs) = (r, bs ++ cs)

read_bytes-step :
    (mem : ℕ → ℕ) (pdir va n pa : ℕ)
    → translate_va_pdir mem pdir va ≡ pa
    → pa ≢ 0
    → read_bytes mem pdir va (suc n) ≡ with_byte (byte_at mem pa) (read_bytes mem pdir (va + 1) n)
unfolding read_bytes
read_bytes-step mem pdir va n pa t nz = rw (t, ==_ne pa 0 nz, read_bytes) refl

pub read_bytes-fault :
    (mem : ℕ → ℕ) (pdir va n : ℕ)
    → translate_va_pdir mem pdir va ≡ 0
    → 0 < n
    → read_bytes mem pdir va n ≡ (neg 14, [])
unfolding read_bytes
read_bytes-fault mem pdir va zero t h = absurd (omega (arith, h))
read_bytes-fault mem pdir va (suc n) t h = rw (t, read_bytes) refl

-- a page's part of the copy
pub read_bytes-chunk :
    (n m : ℕ) (mem : ℕ → ℕ) (pdir va pa : ℕ)
    → pa ≢ 0
    → ((i : ℕ) → i < n → translate_va_pdir mem pdir (va + i) ≡ pa + i)
    → read_bytes mem pdir va (n + m)
      ≡ with_bytes (chunk_bytes mem pa n) (read_bytes mem pdir (va + n) m)
unfolding chunk_bytes
read_bytes-chunk zero m mem pdir va pa nz f =
    ap (λ k. read_bytes mem pdir va k) (omega arith)
    ∙ ap (λ a. read_bytes mem pdir a m) (omega arith)
read_bytes-chunk (suc n) m mem pdir va pa nz f =
    let t : translate_va_pdir mem pdir va ≡ pa =
      ap (translate_va_pdir mem pdir) (add_zero va) ∙ f 0 (omega arith) ∙ sym (add_zero pa) in
    let ih = read_bytes-chunk n m mem pdir (va + 1) (pa + 1) (omega arith) (λ i h.
      ap (translate_va_pdir mem pdir) (add_suc va i)
      ∙ f (suc i) (omega (arith, h))
      ∙ sym (add_suc pa i)) in
    ap (λ k. read_bytes mem pdir va k) (suc_add n m)
    ∙ read_bytes-step mem pdir va (n + m) pa t nz
    ∙ ap (with_byte (byte_at mem pa)) ih
    ∙ ap (λ a. with_bytes (byte_at mem pa ∷ chunk_bytes mem (pa + 1) n) (read_bytes mem pdir a m))
        (add_suc va n)
  where
    add_zero : (a : ℕ) → a ≡ a + 0
    add_zero a = omega arith

    add_suc : (a i : ℕ) → a + 1 + i ≡ a + suc i
    add_suc a i = omega arith

    suc_add : (a b : ℕ) → suc a + b ≡ suc (a + b)
    suc_add a b = omega arith

-- the copy as the console loop returns it
abbrev pub as_copy : Bool × List ℕ → ℤ × List ℕ
as_copy (fault, bs) = ((if fault then neg 14 else pos 0), bs)

pub console_loop-step :
    (fuel : ℕ) (s : Space) (remaining cur pa : ℕ)
    → remaining ≢ 0
    → translate_va s cur ≡ pa
    → pa ≢ 0
    → let chunk = min (4096 - cur % 4096) remaining in
      as_copy (console_loop (suc fuel) s remaining cur)
      ≡ with_bytes
          (chunk_bytes s.mem pa chunk)
          (as_copy (console_loop fuel s (remaining - chunk) (cur + chunk)))
unfolding console_loop
console_loop-step fuel s remaining cur pa nr t nz =
    rw (t, ==_ne remaining 0 nr, ==_ne pa 0 nz, console_loop) refl

pub console_loop-fault :
    (fuel : ℕ) (s : Space) (remaining cur : ℕ)
    → remaining ≢ 0
    → translate_va s cur ≡ 0
    → console_loop (suc fuel) s remaining cur ≡ (true, [])
unfolding console_loop
console_loop-fault fuel s remaining cur nr t = rw (t, ==_ne remaining 0 nr, console_loop) refl

pub console_loop-done : (fuel : ℕ) (s : Space) (cur : ℕ) → console_loop fuel s 0 cur ≡ (false, [])
unfolding console_loop
console_loop-done zero s cur = refl
console_loop-done (suc fuel) s cur = refl

pub read_bytes-none : (mem : ℕ → ℕ) (pdir va : ℕ) → read_bytes mem pdir va 0 ≡ (pos 0, [])
unfolding read_bytes
read_bytes-none mem pdir va = refl

pub translate_va_lem :
    (s : Space) (va : ℕ) → translate_va s va ≡ translate_va_pdir s.mem s.current va
unfolding translate_va
translate_va_lem s va = refl
