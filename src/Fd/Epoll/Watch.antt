-- ===== src/Fd/Epoll/Watch.antt =====
-- An epoll set of sys/mod.rs as a finite map from descriptors to events and data.
use house.Prelude.{
  ℕ, suc, ◌≤◌, ◌≡◌, refl, sym, ap, ◌∙◌, ◌≢◌, inl, inr, true, false, Option, none, some, List, [],
  ◌∷◌, ◌++◌, arith, if◌then◌else◌, Bool-cases, is_some, ℤ, eq_ℤ, eq_ℤ_iff, length,
}
use house.Keyed.{fill, final, but_final}
use house.Fd.{Watched}
use house.Fd.Epoll.{ep_cap, watch_of, watches_fd, unwatch, rewatch}

-- the entry for a descriptor
unfoldable pub watch : ℤ → List Watched → Option (ℕ × ℕ)
watch g [] = none
watch g (w ∷ ws) = if eq_ℤ w.fd g then some (w.events, w.token) else watch g ws

abbrev pub Once : List Watched → Type 0
Once [] = Unit {0}
Once (w ∷ ws) = (watch w.fd ws ≡ none) × Once ws

-- No descriptor stands twice, and there are at most 16.
abbrev pub IsWatchList : List Watched → Type 0
IsWatchList ws = Once ws × (length ws ≤ ep_cap)

eq_refl : (a : ℤ) → eq_ℤ a a ≡ true
eq_refl a = (eq_ℤ_iff a a).1 refl

eq_sym : (a b : ℤ) → eq_ℤ a b ≡ eq_ℤ b a
eq_sym a b = ground (arith, eq_ℤ_iff a b, eq_ℤ_iff b a)

pub watches_fd-watch : (g : ℤ) (ws : List Watched) → watches_fd g ws ≡ is_some (watch g ws)
unfolding watches_fd watch
watches_fd-watch g [] = refl
watches_fd-watch g (w ∷ ws) = ground (arith, watches_fd-watch g ws)

pub watch-same : (g h : ℤ) (ws : List Watched) → eq_ℤ g h ≡ true → watch g ws ≡ watch h ws
watch-same g h ws e = ap (λ k. watch k ws) ((eq_ℤ_iff g h).0 e)

pub watch-append :
    (g : ℤ) (w : Watched) (ws : List Watched)
    → watch w.fd ws ≡ none
    → watch g (ws ++ w ∷ []) ≡ (if eq_ℤ w.fd g then some (w.events, w.token) else watch g ws)
unfolding watch
watch-append g w [] h = refl
watch-append g w (x ∷ ws) h =
    ground (arith, watch-append g w ws, eq_ℤ_iff x.fd g, eq_ℤ_iff w.fd g, eq_ℤ_iff x.fd w.fd)

pub append-Once :
    (w : Watched) (ws : List Watched) → watch w.fd ws ≡ none → Once ws → Once (ws ++ w ∷ [])
unfolding watch
append-Once w [] h d = (refl, tt)
append-Once w (x ∷ ws) h d =
    ground (arith, append-Once w ws, watch-append x.fd w ws, eq_ℤ_iff x.fd w.fd, eq_ℤ_iff w.fd x.fd)

watch-final :
    (g : ℤ) (x : Watched) (m : List Watched)
    → Once (x ∷ m)
    → watch g (final x m ∷ but_final x m) ≡ watch g (x ∷ m)
unfolding watch
watch-final g x [] d = refl
watch-final g x (y ∷ m) d = ground (
  arith,
  watch-final g y m d.1,
  watch-final x.fd y m d.1,
  eq_ℤ_iff y.fd g,
  eq_ℤ_iff x.fd g,
  eq_ℤ_iff y.fd x.fd,
)

watch-fill : (g : ℤ) (m : List Watched) → Once m → watch g (fill m) ≡ watch g m
watch-fill g [] d = refl
watch-fill g (x ∷ m) d = watch-final g x m d

final-Once : (x : Watched) (m : List Watched) → Once (x ∷ m) → Once (final x m ∷ but_final x m)
unfolding watch
final-Once x [] d = (refl, tt)
final-Once x (y ∷ m) d = ground (
  arith,
  final-Once y m d.1,
  watch-final x.fd y m d.1,
  watch-final y.fd y m d.1,
  eq_ℤ_iff x.fd y.fd,
  eq_ℤ_iff y.fd x.fd,
)

fill-Once : (m : List Watched) → Once m → Once (fill m)
fill-Once [] d = tt
fill-Once (x ∷ m) d = final-Once x m d

length-final : (x : Watched) (m : List Watched) → length (but_final x m) ≡ length m
length-final x [] = refl
length-final x (y ∷ m) = ap suc (length-final y m)

length-fill : (m : List Watched) → length (fill m) ≡ length m
length-fill [] = refl
length-fill (x ∷ m) = ap suc (length-final x m)

-- What a set becomes, or that the descriptor is not in it.
abbrev pub Changed : ℤ → Option (ℕ × ℕ) → List Watched → Option (List Watched) → Type 0
Changed fd v ws none = watch fd ws ≡ none
Changed fd v ws (some r) =
    (watch fd ws ≢ none)
    × Once r
    × (length r ≤ length ws)
    × ((g : ℤ) → watch g r ≡ (if eq_ℤ fd g then v else watch g ws))

abbrev pub wanted : Option (ℕ × ℕ) → ℕ × ℕ
wanted none = (0, 0)
wanted (some v) = v

unwatch_hit :
    (fd : ℤ) (w : Watched) (ws : List Watched)
    → eq_ℤ w.fd fd ≡ true
    → Once (w ∷ ws)
    → Changed fd none (w ∷ ws) (some (fill ws))
unfolding watch
unwatch_hit fd w ws y d =
    let gone : watch fd ws ≡ none = sym (watch-same w.fd fd ws y) ∙ d.0 in
    (
      (λ e. ground (arith, y)),
      fill-Once ws d.1,
      omega (arith, length-fill ws),
      λ g. ground (
        arith,
        watch-fill g ws d.1,
        watch-same fd g ws,
        eq_ℤ_iff w.fd fd,
        eq_ℤ_iff w.fd g,
        eq_ℤ_iff fd g,
        gone,
      ),
    )

rewatch_hit :
    (fd : ℤ) (want : Option (ℕ × ℕ)) (w : Watched) (ws : List Watched)
    → eq_ℤ w.fd fd ≡ true
    → Once (w ∷ ws)
    → Changed fd (some (wanted want)) (w ∷ ws) (some (watch_of w.fd want ∷ ws))
unfolding watch
rewatch_hit fd want w ws y d = (
  (λ e. ground (arith, y)),
  ground (arith, d),
  omega arith,
  λ g. ground (arith, eq_ℤ_iff w.fd fd, eq_ℤ_iff w.fd g, eq_ℤ_iff fd g),
)

miss :
    (fd : ℤ) (v : Option (ℕ × ℕ)) (w : Watched) (ws : List Watched)
    → eq_ℤ w.fd fd ≡ false
    → Once (w ∷ ws)
    → (r : Option (List Watched)) → Changed fd v ws r
    → Changed fd v (w ∷ ws) (elim r [ none ↦ none | some x ↦ some (w ∷ x) ])
unfolding watch
miss fd v w ws y d none c = rw y c
miss fd v w ws y d (some r) c = (
  rw y c.0,
  (c.3 w.fd ∙ rw (eq_sym fd w.fd, y) d.0, c.1),
  omega (arith, c.2),
  λ g. ground (arith, c.3 g, eq_ℤ_iff w.fd fd, eq_ℤ_iff w.fd g, eq_ℤ_iff fd g),
)

pub unwatch-Changed : (fd : ℤ) (ws : List Watched) → Once ws → Changed fd none ws (unwatch fd ws)
unfolding unwatch watch
unwatch-Changed fd [] d = refl
unwatch-Changed fd (w ∷ ws) d = elim (Bool-cases (eq_ℤ w.fd fd)) [
  | inl y ↦ rw y (unwatch_hit fd w ws y d)
  | inr y ↦ rw y (miss fd none w ws y d (unwatch fd ws) (unwatch-Changed fd ws d.1))
]

pub rewatch-Changed :
    (fd : ℤ) (want : Option (ℕ × ℕ)) (ws : List Watched)
    → Once ws
    → Changed fd (some (wanted want)) ws (rewatch fd want ws)
unfolding rewatch watch
rewatch-Changed fd want [] d = refl
rewatch-Changed fd want (w ∷ ws) d = elim (Bool-cases (eq_ℤ w.fd fd)) [
  | inl y ↦ rw y (rewatch_hit fd want w ws y d)
  | inr y ↦
      rw y (
        miss fd (some (wanted want)) w ws y d (rewatch fd want ws) (rewatch-Changed fd want ws d.1))
]
