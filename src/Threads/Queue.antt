-- ===== src/Threads/Queue.antt =====
-- rust/crates/house-libc/src/threads/threads.rs: the run queues as lists, and what the cores do with
-- them.
use house.Prelude.{
  ℕ, zero, suc, ◌≤◌, ◌<◌, ◌≡◌, refl, subst, inl, inr, Bool, true, false, ◌||◌, List, [], ◌∷◌, ◌++◌,
  arith, leb, ◌==◌, if◌then◌else◌, ==_iff, Bool-cases, ℤ, pos, negsuc, length,
}
use house.Threads.{max_smp, put}

unfoldable pub has : ℕ → List ℕ → Bool
has t [] = false
has t (x ∷ xs) = (x == t) || has t xs

abbrev pub Unique : List ℕ → Type 0
Unique [] = Unit {0}
Unique (x ∷ xs) = (has x xs ≡ false) × Unique xs

-- Every member lies between 1 and `n`, as the names of threads do.
abbrev pub Bounded : ℕ → List ℕ → Type 0
Bounded n [] = Unit {0}
Bounded n (x ∷ xs) = (0 < x) × (x ≤ n) × Bounded n xs

unfoldable pub last : ℕ → List ℕ → ℕ
last d [] = d
last d (x ∷ xs) = last x xs

abbrev pub head_of : List ℕ → ℕ
head_of [] = 0
head_of (x ∷ _) = x

abbrev pub tail_of : List ℕ → List ℕ
tail_of [] = []
tail_of (_ ∷ xs) = xs

abbrev pub Queues : Type 0
Queues = ℕ → List ℕ

-- whether a thread is in one of the first queues
unfoldable pub anywhere_below : ℕ → ℕ → Queues → Bool
anywhere_below zero t qs = false
anywhere_below (suc c) t qs = if anywhere_below c t qs then true else has t (qs c)

pub data Call : Type 0 where
  enqueue : ℤ → ℕ → Call
  dequeue : ℤ → Call

-- A thread that is not queued is put behind the others of the core.
unfoldable pub admit : ℤ → ℕ → Queues → Queues
admit (negsuc _) t qs = qs
admit (pos c) t qs =
    if leb max_smp c
    then qs
    else if t == 0
    then qs
    else if anywhere_below max_smp t qs
    then qs
    else put qs c (qs c ++ t ∷ [])

-- The first of a core leaves its queue.
unfoldable pub leave : ℤ → Queues → ℕ × Queues
leave (negsuc _) qs = (0, qs)
leave (pos c) qs = if leb max_smp c then (0, qs) else (head_of (qs c), put qs c (tail_of (qs c)))

abbrev pub serve : Call → Queues → ℕ × Queues
serve (enqueue c t) qs = (0, admit c t qs)
serve (dequeue c) qs = leave c qs

pub has-append : (t : ℕ) (xs : List ℕ) (u : ℕ) → has t (xs ++ u ∷ []) ≡ (has t xs || (u == t))
unfolding has
has-append t [] u = ground arith
has-append t (x ∷ xs) u = ground (arith, has-append t xs u)

pub append-Unique : (xs : List ℕ) (u : ℕ) → Unique xs → has u xs ≡ false → Unique (xs ++ u ∷ [])
unfolding has
append-Unique [] u d h = (refl, tt)
append-Unique (x ∷ xs) u d h =
    ground (arith, has-append x xs u, append-Unique xs u, ==_iff x u, ==_iff u x)

pub append-Bounded :
    (n : ℕ) (xs : List ℕ) (u : ℕ) → Bounded n xs → 0 < u → u ≤ n → Bounded n (xs ++ u ∷ [])
append-Bounded n [] u h a b = (a, b, tt)
append-Bounded n (x ∷ xs) u h a b = (h.0, h.1, append-Bounded n xs u h.2 a b)

pub last-has : (x : ℕ) (xs : List ℕ) → has (last x xs) (x ∷ xs) ≡ true
unfolding has last
last-has x [] = ground arith
last-has x (y ∷ ys) = ground (arith, last-has y ys)

pub last-append : (d : ℕ) (xs : List ℕ) (u : ℕ) → last d (xs ++ u ∷ []) ≡ u
unfolding last
last-append d [] u = refl
last-append d (x ∷ xs) u = last-append x xs u

abbrev drop_one : ℕ → List ℕ → List ℕ
drop_one t [] = []
drop_one t (x ∷ xs) = if x == t then xs else x ∷ drop_one t xs

drop_one-has : (y t : ℕ) (xs : List ℕ) → has y xs ≡ false → has y (drop_one t xs) ≡ false
unfolding has
drop_one-has y t [] h = refl
drop_one-has y t (x ∷ xs) h = ground (arith, drop_one-has y t xs)

drop_one-Unique : (t : ℕ) (xs : List ℕ) → Unique xs → Unique (drop_one t xs)
drop_one-Unique t [] d = tt
drop_one-Unique t (x ∷ xs) d = elim (Bool-cases (x == t)) [
  | inl y ↦ rw y d.1
  | inr y ↦ rw y (drop_one-has x t xs d.0, drop_one-Unique t xs d.1)
]

lower : (n : ℕ) (xs : List ℕ) → Bounded (suc n) xs → has (suc n) xs ≡ false → Bounded n xs
unfolding has
lower n [] b h = tt
lower n (x ∷ xs) b h = ground (arith, lower n xs, ==_iff x (suc n))

drop_one-Bounded :
    (n : ℕ) (xs : List ℕ) → Bounded (suc n) xs → Unique xs → Bounded n (drop_one (suc n) xs)
drop_one-Bounded n [] b d = tt
drop_one-Bounded n (x ∷ xs) b d = elim (Bool-cases (x == suc n)) [
  | inl y ↦ rw y (lower n xs b.2 (subst (λ k. has k xs ≡ false) ((==_iff x (suc n)).0 y) d.0))
  | inr y ↦ rw y (b.0, ground (arith, ==_iff x (suc n)), drop_one-Bounded n xs b.2 d.1)
]

drop_one-length : (t : ℕ) (xs : List ℕ) → length xs ≤ suc (length (drop_one t xs))
drop_one-length t [] = omega arith
drop_one-length t (x ∷ xs) = ground (arith, drop_one-length t xs)

-- Below a bound there is only room for so many different names.
pub pigeonhole : (n : ℕ) (xs : List ℕ) → Bounded n xs → Unique xs → length xs ≤ n
pigeonhole zero [] b d = omega arith
pigeonhole zero (x ∷ xs) b d = absurd (omega arith)
pigeonhole (suc n) xs b d = omega (
  arith,
  drop_one-length (suc n) xs,
  pigeonhole n (drop_one (suc n) xs) (drop_one-Bounded n xs b d) (drop_one-Unique (suc n) xs d),
)

pub anywhere_below-has :
    (n t : ℕ) (qs : Queues) (c : ℕ) → anywhere_below n t qs ≡ false → c < n → has t (qs c) ≡ false
unfolding anywhere_below
anywhere_below-has zero t qs c h k = absurd (omega arith)
anywhere_below-has (suc n) t qs c h k = elim (Bool-cases (n == c)) [
  | inl y ↦ subst (λ m. has t (qs m) ≡ false) ((==_iff n c).0 y) (ground arith)
  | inr y ↦ ground (arith, anywhere_below-has n t qs c, ==_iff n c)
]
