-- ===== src/Svc/Buffer/Laws.antt =====
-- The checks of a trap accept the memory that is there, and no other.
use house.Svc.{Space, window_hi, page_of, in_window}
use house.Prelude.{
  ℕ, zero, suc, ◌+◌, ◌-◌, ◌*◌, ◌%◌, ◌≤◌, ◌<◌, max, ◌≡◌, refl, ap, subst, ◌∙◌, ◌≢◌, ◌⊎◌, inl, inr,
  ◌↔◌, Bool, true, false, not, arith, ltb, ◌==◌, if◌then◌else◌, ==_iff, Bool-cases, pos, neg,
}
use house.Svc.Buffer.{is_usable, pages_usable, page_fuel, validate_user_buffer}

-- every page of the range can be read, now or once it is served
abbrev pub Usable : Space → ℕ → ℕ → Type 0
Usable s lo hi = (q : ℕ) → lo ≤ q → q ≤ hi → q % 4096 ≡ 0 → is_usable s q ≡ true

-- the loop's hypotheses
pub record Pages (fuel start_page p end_page : ℕ) : Type 0 where
  pub p_page : p % 4096 ≡ 0
  pub end_page_page : end_page % 4096 ≡ 0
  pub from : start_page ≤ p
  pub upto : p ≤ end_page
  pub fits : end_page < window_hi
  pub fuel_enough : end_page < p + 4096 * fuel

Pages-step : (fuel st p e : ℕ) → Pages (suc fuel) st p e → p ≢ e → Pages fuel st (p + 4096) e
Pages-step fuel st p e h ne = record {
  p_page = omega (arith, h.p_page);
  end_page_page = h.end_page_page;
  from = omega (arith, h.from);
  upto = omega (arith, h.upto, ne, h.p_page, h.end_page_page);
  fits = h.fits;
  fuel_enough = omega (arith, h.fuel_enough);
}

pages_usable-Pages :
    (fuel : ℕ) (s : Space) (st p e : ℕ)
    → Pages (suc fuel) st p e
    → pages_usable (suc fuel) s st p e ≡ (
        if not (is_usable s p)
        then false
        else if p == e
        then true
        else pages_usable fuel s st (p + 4096) e)
unfolding pages_usable
pages_usable-Pages fuel s st p e h = ground (arith, h.from, h.fits, h.upto)

pages_usable_sound :
    (fuel : ℕ) (s : Space) (st p e : ℕ)
    → Pages fuel st p e
    → pages_usable fuel s st p e ≡ true
    → Usable s p e
pages_usable_sound zero s st p e h y q lo hi al = absurd (omega (arith, h.upto, h.fuel_enough))
pages_usable_sound (suc fuel) s st p e h y q lo hi al =
    let y' = (rw (pages_usable-Pages fuel s st p e h) at y) in
    go (is_usable s p) refl (p == e) refl y'
      (λ hp z lo. pages_usable_sound fuel s st (p + 4096) e hp z q lo hi al)
  where
    go :
        (u : Bool)
        → is_usable s p ≡ u
        → (c : Bool) → (p == e) ≡ c
        → (if not u then false else if c then true else pages_usable fuel s st (p + 4096) e) ≡ true
        → (Pages fuel st (p + 4096) e
            → pages_usable fuel s st (p + 4096) e ≡ true
            → p + 4096 ≤ q
            → is_usable s q ≡ true)
        → is_usable s q ≡ true
    go false eu c ec z ih = absurd (ground (arith, z))
    go true eu true ec z ih = ap (is_usable s) (omega (arith, lo, hi, (==_iff p e).0 ec)) ∙ eu
    go true eu false ec z ih = elim (Bool-cases (q == p)) [
      | inl w ↦ ap (is_usable s) ((==_iff q p).0 w) ∙ eu
      | inr n ↦
          let ne : p ≢ e = ground (arith, ec) in
          let apart : q ≢ p = ground (arith, n) in
          ih (Pages-step fuel st p e h ne) z (omega (arith, apart, lo, al, h.p_page))
    ]

pages_usable_complete :
    (fuel : ℕ) (s : Space) (st p e : ℕ)
    → Pages fuel st p e
    → Usable s p e
    → pages_usable fuel s st p e ≡ true
pages_usable_complete zero s st p e h u = absurd (omega (arith, h.upto, h.fuel_enough))
pages_usable_complete (suc fuel) s st p e h u = elim (Bool-cases (p == e)) [
  | inl y' ↦ rw (pages_usable-Pages fuel s st p e h, u p (omega arith) h.upto h.p_page, y') refl
  | inr n ↦
      let ne : p ≢ e = ground (arith, n) in
      let ih =
        pages_usable_complete fuel s st (p + 4096) e (Pages-step fuel st p e h ne)
          (λ q lo hi al. u q (omega (arith, lo)) hi al) in
      rw (pages_usable-Pages fuel s st p e h, u p (omega arith) h.upto h.p_page, n, ih) refl
]

-- what the check of a buffer accepts
abbrev pub Accessible : Space → ℕ → ℕ → Type 0
Accessible s va len =
    (len ≡ 0)
    ⊎ ((len ≤ 65536)
        × (in_window va len ≡ true)
        × ((a : ℕ) → va ≤ a → a < va + len → is_usable s (page_of a) ≡ true))

-- the pages of the buffer
buffer-Pages :
    (va len : ℕ)
    → 0 < len
    → len ≤ 65536
    → in_window va len ≡ true
    → Pages page_fuel (page_of va) (page_of va) (page_of (va + len - 1))
buffer-Pages va len nz le w = record {
  p_page = omega arith;
  end_page_page = omega arith;
  from = omega arith;
  upto = omega (arith, nz);
  fits = ground (arith, w, nz);
  fuel_enough = omega (arith, le, nz);
}

bytes_from_pages :
    (s : Space) (va len : ℕ)
    → Usable s (page_of va) (page_of (va + len - 1))
    → (a : ℕ) → va ≤ a
    → a < va + len
    → is_usable s (page_of a) ≡ true
bytes_from_pages s va len u a lo hi =
    u (page_of a) (omega (arith, lo)) (omega (arith, hi)) (omega arith)

pages_from_bytes :
    (s : Space) (va len : ℕ)
    → 0 < len
    → ((a : ℕ) → va ≤ a → a < va + len → is_usable s (page_of a) ≡ true)
    → Usable s (page_of va) (page_of (va + len - 1))
pages_from_bytes s va len nz f q lo hi al =
    subst (λ x. is_usable s x ≡ true) (page_max va q lo al)
      (f (max va q) (omega arith) (omega (arith, hi, nz)))
  where
    page_max : (va q : ℕ) → page_of va ≤ q → q % 4096 ≡ 0 → page_of (max va q) ≡ q
    page_max va q lo al = omega (arith, lo, al)

-- the outcome of the four tests
accepted :
    (a b c d : Bool)
    → (if a
        then pos 0
        else if b
        then neg 1
        else if not c
        then neg 1
        else if d
        then pos 0
        else neg 1)
      ≡ pos 0
    → (a ≡ true) ⊎ ((b ≡ false) × (c ≡ true) × (d ≡ true))
accepted a b c d h = ground (arith, h)

==_one : (n : ℕ) → n ≡ 0 → (n == 0) ≡ true
==_one n z = ground (arith, z)

le-ltb : (n : ℕ) → n ≤ 65536 → ltb 65536 n ≡ false
le-ltb n h = ground (arith, h)

pos_of : (n : ℕ) → (n == 0) ≡ false → 0 < n
pos_of n h = ground (arith, h)

le_of : (n : ℕ) → ltb 65536 n ≡ false → n ≤ 65536
le_of n h = ground (arith, h)

-- The check of a user buffer accepts exactly the buffers that are empty, or of at most 65536 bytes,
-- inside of the user window, and with every byte on a page that is mapped or promised.
pub validate_user_buffer_lem :
    (s : Space) (va len : ℕ) → (validate_user_buffer s va len ≡ pos 0) ↔ Accessible s va len
unfolding validate_user_buffer
validate_user_buffer_lem s va len = (fwd, bwd)
  where
    first : ℕ
    first = page_of va

    last : ℕ
    last = page_of (va + len - 1)

    fwd : validate_user_buffer s va len ≡ pos 0 → Accessible s va len
    fwd y =
        elim (accepted (len == 0) (ltb 65536 len) (in_window va len)
          (pages_usable page_fuel s first first last) y) [
            | inl z ↦ inl ((==_iff len 0).0 z)
            | inr (b, w, d) ↦ elim (Bool-cases (len == 0)) [
              | inl z ↦ inl ((==_iff len 0).0 z)
              | inr n ↦
                  let nz = pos_of len n in
                  let le = le_of len b in
                  inr (
                    le,
                    w,
                    bytes_from_pages s va len (
                        pages_usable_sound page_fuel s first first last
                          (buffer-Pages va len nz le w) d),
                  )
            ]
          ]

    bwd : Accessible s va len → validate_user_buffer s va len ≡ pos 0
    bwd (inl z) = rw (validate_user_buffer, ==_one len z) refl
    bwd (inr (le, w, f)) = elim (Bool-cases (len == 0)) [
      | inl z ↦ rw (validate_user_buffer, z) refl
      | inr n ↦
          let nz = pos_of len n in
          let d =
            pages_usable_complete page_fuel s first first last (buffer-Pages va len nz le w)
              (pages_from_bytes s va len nz f) in
          rw (validate_user_buffer, n, le-ltb len le, w, d) refl
    ]
