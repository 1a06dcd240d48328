-- ===== src/Userspace/Asid/Alias.antt =====
-- The counter goes round while bindings live on: two live directories can hold one ASID.
use house.Prelude.{
  ℕ, ◌+◌, ◌≤◌, ◌<◌, ◌≡◌, refl, ap, ◌∙◌, ◌≢◌, false, none, some, List, [], ◌∷◌, arith, ◌==◌,
  if◌then◌else◌, ==_ne, length,
}
use house.Keyed.{find, swap_remove, table_cap}
use house.Userspace.Asid.{Asids, boot, bind_new, asid_for_pdir, house_asid_forget_pdir}
use house.Userspace.Asid.Laws.{draw_lem, find-bind_new, asid-bind_new, asid_for-new, IsValid}

-- Whenever the counter stands at the ASID of a live directory and the map is not full, a second
-- directory is bound to that same ASID, beside the first.
pub asid_alias :
    (p q : ℕ) (s : Asids)
    → IsValid s
    → p ≢ q
    → find p s.bound ≡ some s.next
    → find q s.bound ≡ none
    → length s.bound < table_cap
    → let (a, s') = asid_for_pdir q s in (find p s'.bound ≡ some a) × (find q s'.bound ≡ some a)
asid_alias p q s v ne held fresh room =
    rw (asid_for-new q s fresh, asid-bind_new q s v)
      (
        ground (arith, find-bind_new q p s v fresh, held),
        ground (arith, find-bind_new q q s v fresh),
      )

-- processes that come and go one after the other, with these directories
pub churn : List ℕ → Asids → Asids
churn [] s = s
churn (r ∷ rs) s = churn rs (house_asid_forget_pdir r (asid_for_pdir r s).1).1

-- None is null, and none is `p`.
abbrev pub Others : ℕ → List ℕ → Type 0
Others p [] = Unit {0}
Others p (r ∷ rs) = (p ≢ r) × (r ≢ 0) × Others p rs

abbrev one_live : ℕ → ℕ → ℕ → Asids
one_live p n f = record { bound = (p, 1) ∷ []; next = n; flushes = f }

one_live-IsValid : (p n f : ℕ) → 1 ≤ n → n ≤ 250 → IsValid (one_live p n f)
unfolding find
one_live-IsValid p n f l h = record {
  counter = (l, h);
  distinct = (refl, tt);
  fits = omega arith;
  in_range = λ q a e. ground (arith, e);
}

abbrev two_live : ℕ → ℕ → ℕ → ℕ → Asids
two_live p r n f = record {
  bound = (p, 1) ∷ (r, n) ∷ [];
  next = (if n == 250 then 1 else n + 1);
  flushes = (if n == 250 then f + 1 else f);
}

enter :
    (p r n f : ℕ)
    → p ≢ r
    → 1 ≤ n
    → n ≤ 250
    → (asid_for_pdir r (one_live p n f)).1 ≡ two_live p r n f
unfolding asid_for_pdir bind_new find
enter p r n f ne l h = ground (arith, draw_lem n l h)

leave :
    (p r n f : ℕ)
    → p ≢ r
    → r ≢ 0
    → (house_asid_forget_pdir r (two_live p r n f)).1
      ≡ (if n == 250 then one_live p 1 (f + 2) else one_live p (n + 1) (f + 1))
unfolding house_asid_forget_pdir find swap_remove
leave p r n f ne nz = ground arith

visit :
    (p r n f : ℕ)
    → p ≢ r
    → r ≢ 0
    → 1 ≤ n
    → n ≤ 250
    → (house_asid_forget_pdir r (asid_for_pdir r (one_live p n f)).1).1
      ≡ (if n == 250 then one_live p 1 (f + 2) else one_live p (n + 1) (f + 1))
visit p r n f ne nz l h =
    ap (λ s. (house_asid_forget_pdir r s).1) (enter p r n f ne l h) ∙ leave p r n f ne nz

churn_round :
    (rs : List ℕ) (p n f : ℕ)
    → Others p rs
    → 1 ≤ n
    → n ≤ 250
    → n + length rs ≡ 251
    → churn rs (one_live p n f) ≡ one_live p 1 (f + length rs + 1)
unfolding churn
churn_round [] p n f o l u h = absurd (omega arith)
churn_round (r ∷ []) p n f o l u h = visit p r n f o.0 o.1 l u ∙ ground arith
churn_round (r ∷ r' ∷ rs) p n f o l u h =
    let on : (n == 250) ≡ false = ==_ne n 250 (omega arith) in
    ap (churn (r' ∷ rs)) (visit p r n f o.0 o.1 l u ∙ rw on refl)
    ∙ churn_round (r' ∷ rs) p (n + 1) (f + 1) o.2 (omega arith) (omega arith) (omega arith)
    ∙ ap (one_live p 1) (omega arith)

boot_first : (p : ℕ) → (asid_for_pdir p boot).1 ≡ one_live p 2 0
unfolding asid_for_pdir bind_new find
boot_first p = refl

held : (p f : ℕ) → find p (one_live p 1 f).bound ≡ some 1
unfolding find
held p f = ground arith

fresh : (p r f : ℕ) → p ≢ r → find r (one_live p 1 f).bound ≡ none
unfolding find
fresh p r f ne = ground arith

-- From boot, when one process lives on while 249 others come and go one after the other, each gone
-- before the next comes and none with the directory of the first or null, the next directory other
-- than that of the first is bound to the same ASID as the first, which is still bound to it.
pub churn_alias :
    (p q : ℕ) (rs : List ℕ)
    → length rs ≡ 249
    → Others p rs
    → p ≢ q
    → let (a, s) = asid_for_pdir q (churn rs (asid_for_pdir p boot).1) in
      (find p s.bound ≡ some a) × (find q s.bound ≡ some a)
churn_alias p q rs n o ne =
    rw (boot_first p, churn_round rs p 2 0 o (omega arith) (omega arith) (omega (arith, n)))
      (asid_alias p q (one_live p 1 (0 + length rs + 1))
        (one_live-IsValid p 1 (0 + length rs + 1) (omega arith) (omega arith)) ne
        (held p (0 + length rs + 1)) (fresh p q (0 + length rs + 1) ne) (omega arith))
