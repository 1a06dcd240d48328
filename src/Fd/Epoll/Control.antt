-- ===== src/Fd/Epoll/Control.antt =====
-- `epoll_ctl` of sys/mod.rs: its contract on the map of a set.
use house.Prelude.{
  ℕ, ◌<◌, ◌≡◌, refl, ◌∙◌, ◌≢◌, ◌⊎◌, inl, inr, true, false, ◌||◌, Option, none, some, List, [], ◌∷◌,
  arith, leb, if◌then◌else◌, Bool-cases, Option-cases, is_some, ℤ, pos, eq_ℤ, length, length-append,
}
use house.Fd.{Watched}
use house.Fd.Epoll.{ep_cap, watch_of, watches_fd, unwatch, rewatch, ctl}
use house.Fd.Epoll.Watch.{
  watch, IsWatchList, watches_fd-watch, watch-same, watch-append, append-Once, Changed, wanted,
  unwatch-Changed, rewatch-Changed,
}

-- the error number of a change, by the contract of epoll_ctl
abbrev pub refusal : ℤ → ℤ → List Watched → Option ℕ
refusal op fd ws =
    if eq_ℤ op (pos 1)
    then (if leb ep_cap (length ws)
        then some 28
        else if is_some (watch fd ws)
        then some 17
        else none)
    else if eq_ℤ op (pos 2) || eq_ℤ op (pos 3)
    then (if is_some (watch fd ws) then none else some 2)
    else none

-- what is then watched for `fd`
abbrev pub after : ℤ → Option (ℕ × ℕ) → Option (ℕ × ℕ) → Option (ℕ × ℕ)
after op want old =
    if eq_ℤ op (pos 1)
    then some (wanted want)
    else if eq_ℤ op (pos 2)
    then none
    else if eq_ℤ op (pos 3)
    then some (wanted want)
    else old

abbrev pub Controlled : ℤ → ℤ → Option (ℕ × ℕ) → List Watched → List Watched ⊎ ℕ → Type 0
Controlled op fd want ws (inl r) =
    (refusal op fd ws ≡ none)
    × IsWatchList r
    × ((g : ℤ) → watch g r ≡ (if eq_ℤ fd g then after op want (watch fd ws) else watch g ws))
Controlled op fd want ws (inr code) = refusal op fd ws ≡ some code

add-Controlled :
    (op fd : ℤ) (want : Option (ℕ × ℕ)) (ws : List Watched)
    → eq_ℤ op (pos 1) ≡ true
    → IsWatchList ws
    → Controlled op fd want ws (ctl op fd want ws)
unfolding ctl
add-Controlled op fd want ws o d = elim (Bool-cases (leb ep_cap (length ws))) [
  | inl full ↦ rw (o, full) (rw (o, full) refl)
  | inr short ↦ elim (Option-cases (watch fd ws)) [
    | inl new ↦
        let unseen : watches_fd fd ws ≡ false = watches_fd-watch fd ws ∙ rw new refl in
        rw (o, short, unseen)
          (
            rw (o, short, new) refl,
            (
              append-Once (watch_of fd want) ws (watch_of_fd new) d.0,
              omega (arith, length-append ws (watch_of fd want ∷ []), not_leb short),
            ),
            λ g. watch-append g (watch_of fd want) ws (watch_of_fd new) ∙ rw o (added g),
          )
    | inr (v, seen) ↦
        let twice : watches_fd fd ws ≡ true = watches_fd-watch fd ws ∙ rw seen refl in
        rw (o, short, twice) (rw (o, short, seen) refl)
  ]
]
  where
    watch_of_fd : watch fd ws ≡ none → watch (watch_of fd want).fd ws ≡ none
    watch_of_fd n = elim want as (λ w. watch (watch_of fd w).fd ws ≡ none) [ none ↦ n | some v ↦ n ]

    not_leb : leb ep_cap (length ws) ≡ false → length ws < 16
    not_leb h = ground (arith, h)

    added :
        (g : ℤ)
        → (if eq_ℤ (watch_of fd want).fd g
            then some ((watch_of fd want).events, (watch_of fd want).token)
            else watch g ws)
          ≡ (if eq_ℤ fd g then some (wanted want) else watch g ws)
    added g =
        elim want
          as (λ w.
            (if eq_ℤ (watch_of fd w).fd g
              then some ((watch_of fd w).events, (watch_of fd w).token)
              else watch g ws)
            ≡ (if eq_ℤ fd g then some (wanted w) else watch g ws)) [ none ↦ refl | some v ↦ refl ]

change_lem :
    (op fd : ℤ) (want : Option (ℕ × ℕ)) (ws : List Watched) (r : Option (List Watched))
    → eq_ℤ op (pos 1) ≡ false
    → eq_ℤ op (pos 2) || eq_ℤ op (pos 3) ≡ true
    → IsWatchList ws
    → Changed fd (after op want none) ws r
    → Controlled op fd want ws (elim r [ none ↦ inr 2 | some x ↦ inl x ])
change_lem op fd want ws none o1 o2 d c = rw (o1, o2, c) refl
change_lem op fd want ws (some r) o1 o2 d c = (
  rw (o1, o2) (some_lem (watch fd ws) c.0),
  (c.1, omega (arith, c.2, d.1)),
  λ g. rw (same (watch fd ws)) (c.3 g),
)
  where
    some_lem :
        (v : Option (ℕ × ℕ))
        → v ≢ none
        → ◌≡◌ {A = Option ℕ} (if is_some v then none else some 2) none
    some_lem none n = absurd (n refl)
    some_lem (some v) n = refl

    same : (v : Option (ℕ × ℕ)) → after op want v ≡ after op want none
    same v = ground (arith, o1, o2)

-- `epoll_ctl` on a set: the error numbers of ADD, DEL and MOD, and what is then watched; no other
-- descriptor of the set is touched.
pub ctl_lem :
    (op fd : ℤ) (want : Option (ℕ × ℕ)) (ws : List Watched)
    → IsWatchList ws
    → Controlled op fd want ws (ctl op fd want ws)
unfolding ctl
ctl_lem op fd want ws d = elim (Bool-cases (eq_ℤ op (pos 1))) [
  | inl y ↦ add-Controlled op fd want ws y d
  | inr n1 ↦ elim (Bool-cases (eq_ℤ op (pos 2))) [
    | inl y ↦
        rw (n1, y)
          (change_lem op fd want ws (unwatch fd ws) n1 (rw y refl) d
            (rw (n1, y) (unwatch-Changed fd ws d.0)))
    | inr n2 ↦ elim (Bool-cases (eq_ℤ op (pos 3))) [
      | inl y ↦
          rw (n1, n2, y)
            (change_lem op fd want ws (rewatch fd want ws) n1 (rw (n2, y) refl) d
              (rw (n1, n2, y) (rewatch-Changed fd want ws d.0)))
      | inr n3 ↦ rw (n1, n2, n3) (rw (n1, n2, n3) refl, d, λ g. rw (n1, n2, n3) (unchanged g))
    ]
  ]
]
  where
    unchanged : (g : ℤ) → watch g ws ≡ (if eq_ℤ fd g then watch fd ws else watch g ws)
    unchanged g = ground (arith, watch-same fd g ws)
