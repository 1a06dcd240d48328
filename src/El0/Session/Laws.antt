-- ===== src/El0/Session/Laws.antt =====
-- Sessions are registered, found and released by their directory.
use house.Prelude.{
  ℕ, ◌≡◌, refl, ◌∙◌, ◌≢◌, ◌⊎◌, inl, inr, false, Option, none, some, arith, ◌==◌, if◌then◌else◌,
  ==_refl, ==_ne, ℤ, pos, neg, length, length-set,
}
use house.El0.{Slot, el0_n, El0, find_slot, slot, put_slot}
use house.El0.Table.{
  look, Unique, Scanned, find_slot-Scanned, Fits, look-replace, replace-Unique, look_pdir,
}
use house.El0.Session.{rearm, claim, retract, house_el0_register, house_el0_unregister}

pub record IsValid (e : El0) : Type 0 where
  pub full : length e.table ≡ el0_n
  pub unique : Unique e.table

-- the session of a directory
abbrev pub session : El0 → ℕ → Option Slot
session e key = look key e.table

-- No session changes but those of `key`.
abbrev pub Only : ℕ → El0 → El0 → Type 0
Only key e e' = (k : ℕ) → k ≢ 0 → key ≢ k → session e' k ≡ session e k

-- what a lookup finds once `s'` stands in the place of the slot of `key`
abbrev pub put_session : ℕ → Slot → El0 → ℕ → Option Slot
put_session key s' e k = if s'.pdir == k then some s' else if key == k then none else session e k

abbrev pub Put : ℕ → Slot → El0 → El0 → Type 0
Put key s' e e' = IsValid e' × ((k : ℕ) → k ≢ 0 → session e' k ≡ put_session key s' e k)

pub put_slot-Put :
    (key i : ℕ) (s' : Slot) (e : El0)
    → IsValid e
    → Scanned key e.table (some i)
    → Fits key s' e.table
    → Put key s' e (put_slot e i s')
put_slot-Put key i s' e v (a, f) fits = (
  record {
    full = length-set e.table i s' ∙ v.full;
    unique = rw (f s') (replace-Unique key _ s' e.table v.unique a fits);
  },
  λ k nz. rw (f s') (look-replace k key _ s' e.table v.unique a fits nz),
)

-- What `register` does: ENOSPC on a full table, else a session that has neither parked nor exited.
abbrev pub Registered : ℕ → El0 → ℤ × El0 → Type 0
Registered pdir e (r, e') =
    ((r ≡ neg 28) × (e' ≡ e) × (session e pdir ≡ none) × (look 0 e.table ≡ none))
    ⊎ ((s : Slot) × (r ≡ pos 0)
        × (session e' pdir ≡ some s)
        × ((s.parked ≡ false) × (s.exited ≡ false) × (s.exit_code ≡ pos 0) × (s.req ≡ 0))
        × Only pdir e e'
        × IsValid e')

Put-Registered :
    (key pdir : ℕ) (s' : Slot) (e e' : El0)
    → pdir ≢ 0
    → (key ≡ 0) ⊎ (key ≡ pdir)
    → s'.pdir ≡ pdir
    → (s'.parked ≡ false) × (s'.exited ≡ false) × (s'.exit_code ≡ pos 0) × (s'.req ≡ 0)
    → Put key s' e e'
    → Registered pdir e (pos 0, e')
Put-Registered key pdir s' e e' nz kc p fresh (v, at) = inr (
  s',
  refl,
  at pdir nz ∙ rw (p, ==_refl pdir) refl,
  fresh,
  λ k nk ne. at k nk ∙ ground (arith, p, kc, ne, nk),
  v,
)

-- In a well-formed table, registering a directory fails with ENOSPC, and changes nothing, only
-- when the directory has no session and no slot is free. Otherwise it has a session that has
-- neither parked nor exited, every other session is as it was, and the table stays well formed.
pub register_lem :
    (pdir : ℕ) (e : El0) → pdir ≢ 0 → IsValid e → Registered pdir e (house_el0_register pdir e)
unfolding house_el0_register
register_lem pdir e nz v =
    rw (==_ne pdir 0 nz, house_el0_register)
      (go (find_slot pdir e.table 0) (find_slot-Scanned pdir e.table))
  where
    go0 :
        look pdir e.table ≡ none
        → (r : Option ℕ) → Scanned 0 e.table r
        → Registered pdir e
            (elim r [ some i ↦ (pos 0, put_slot e i (claim pdir (slot e i))) | none ↦ (neg 28, e) ])
    go0 new none f = inl (refl, refl, new, f)
    go0 new (some i) f =
        Put-Registered 0 pdir _ e _ nz (inl refl) refl (refl, refl, refl, refl)
          (put_slot-Put 0 i _ e v f (inr (inr new)))

    go :
        (r : Option ℕ)
        → Scanned pdir e.table r
        → Registered pdir e (elim r [
          | some i ↦ (pos 0, put_slot e i (rearm (slot e i)))
          | none ↦ elim (find_slot 0 e.table 0) [
            | some i ↦ (pos 0, put_slot e i (claim pdir (slot e i)))
            | none ↦ (neg 28, e)
          ]
        ])
    go none f = go0 f (find_slot 0 e.table 0) (find_slot-Scanned 0 e.table)
    go (some i) f =
        let p : (slot e i).pdir ≡ pdir = look_pdir pdir e.table (slot e i) f.0 in
        Put-Registered pdir pdir _ e _ nz (inr refl) p (refl, refl, refl, refl)
          (put_slot-Put pdir i _ e v f (inr (inl p)))

abbrev pub Released : ℕ → El0 → El0 → Type 0
Released pdir e e' = (session e' pdir ≡ none) × Only pdir e e' × IsValid e'

-- In a well-formed table, after `unregister` the directory has no session, every other one keeps
-- its own, and the table stays well formed.
pub unregister_lem :
    (pdir : ℕ) (e : El0) → pdir ≢ 0 → IsValid e → Released pdir e (house_el0_unregister pdir e)
unfolding house_el0_unregister
unregister_lem pdir e nz v =
    rw (==_ne pdir 0 nz, house_el0_unregister)
      (go (find_slot pdir e.table 0) (find_slot-Scanned pdir e.table))
  where
    go :
        (r : Option ℕ)
        → Scanned pdir e.table r
        → Released pdir e (elim r [ some i ↦ put_slot e i (retract (slot e i)) | none ↦ e ])
    go none f = (f, λ k nk ne. refl, v)
    go (some i) f =
        let (v', at) = put_slot-Put pdir i (retract (slot e i)) e v f (inl refl) in
        (at pdir nz ∙ ground (arith, nz), λ k nk ne. at k nk ∙ ground (arith, nk, ne), v')
