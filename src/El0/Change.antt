-- ===== src/El0/Change.antt =====
-- One session of the table is changed in place, and the kernel is woken.
use house.El0.{Slot, El0, find_slot, slot, put_slot, made_pipe, poke_write, poke_park}
use house.Prelude.{
  ℕ, ◌≡◌, refl, ap, ◌∙◌, ◌≢◌, inl, inr, true, Option, none, some, arith, ==_refl, length,
}
use house.Fd.Calls.{pipe}
use house.El0.Table.{look, Scanned, find_slot-Scanned, look_pdir}
use house.El0.Session.Laws.{session, Only, Put, put_slot-Put}
use house.El0.Session.Laws.{session, Only, Put, put_slot-Put, IsValid}

pub poke_write-table : (e : El0) → (poke_write e).table ≡ e.table
unfolding poke_write
poke_write-table e = ground arith

-- The wake byte leaves the table and the current directory alone.
pub poke_park-table : (e : El0) → (poke_park e).table ≡ e.table
unfolding poke_park
poke_park-table e = ground (arith, poke_write-table e, poke_write-table made, made_pipe-table)
  where
    made : El0
    made = made_pipe (pipe true e.fds).0 (record e { fds = (pipe true e.fds).1 })

    made_pipe-table : made.table ≡ e.table
    made_pipe-table = ground arith

pub table-Put :
    (key : ℕ) (s' : Slot) (e e1 e2 : El0) → e2.table ≡ e1.table → Put key s' e e1 → Put key s' e e2
table-Put key s' e e1 e2 eq (v, at) = (
  record { full = ap length eq ∙ v.full; unique = rw eq v.unique },
  λ k nz. ap (look k) eq ∙ at k nz,
)

-- what a directory has after its slot is changed in place
abbrev pub Changed : ℕ → Slot → El0 → El0 → Type 0
Changed pdir s' e e' = (session e' pdir ≡ some s') × Only pdir e e' × IsValid e'

pub Put-Changed :
    (pdir : ℕ) (s' : Slot) (e e' : El0)
    → pdir ≢ 0
    → s'.pdir ≡ pdir
    → Put pdir s' e e'
    → Changed pdir s' e e'
Put-Changed pdir s' e e' nz p (v, at) =
    (at pdir nz ∙ rw (p, ==_refl pdir) refl, λ k nk ne. at k nk ∙ ground (arith, p, ne, nk), v)

-- the one slot that a scan finds, changed by `f`, which keeps its directory
pub change_lem :
    (pdir i : ℕ) (s' : Slot) (e : El0)
    → pdir ≢ 0
    → IsValid e
    → s'.pdir ≡ (slot e i).pdir
    → Scanned pdir e.table (some i)
    → Changed pdir s' e (put_slot e i s')
change_lem pdir i s' e nz v keep f =
    let p : s'.pdir ≡ pdir = keep ∙ look_pdir pdir e.table (slot e i) f.0 in
    Put-Changed pdir s' e _ nz p (put_slot-Put pdir i s' e v f (inr (inl p)))

-- a registered session is found at an index
pub find_session :
    (pdir : ℕ) (s : Slot) (e : El0)
    → session e pdir ≡ some s
    → (i : ℕ) × (find_slot pdir e.table 0 ≡ some i) × (slot e i ≡ s) × Scanned pdir e.table (some i)
find_session pdir s e h = go (find_slot pdir e.table 0) refl (find_slot-Scanned pdir e.table)
  where
    go :
        (r : Option ℕ)
        → find_slot pdir e.table 0 ≡ r
        → Scanned pdir e.table r
        → (i : ℕ) × (find_slot pdir e.table 0 ≡ some i)
          × (slot e i ≡ s)
          × Scanned pdir e.table (some i)
    go none q f = absurd (ground (arith, h, f))
    go (some i) q f = (i, q, ground (arith, h, f), f)
