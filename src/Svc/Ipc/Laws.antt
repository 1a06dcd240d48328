-- ===== src/Svc/Ipc/Laws.antt =====
-- An IPC call that parks has words that can be read.
use house.Svc.{Space}
use house.Prelude.{
  ℕ, ◌*◌, ◌%◌, ◌≤◌, ◌≡◌, ◌⊎◌, inl, inr, Bool, true, false, not, ◌&&◌, ◌||◌, arith, ltb, ◌==◌,
  if◌then◌else◌, ==_iff, ℤ, pos, neg, eq_ℤ, eq_ℤ_iff,
}
use house.Svc.Buffer.{validate_user_buffer}
use house.Svc.Buffer.Laws.{Accessible, validate_user_buffer_lem}
use house.Svc.Ipc.{
  ipc_send, ipc_recv, ipc_call, ipc_reply, ipc_grant_map, inline_words_ok, words_gate, validate_ipc,
  house_ipc_should_park,
}

words_cases :
    (a b c : Bool)
    → (if a then neg 22 else if b then pos 0 else if c then pos 0 else neg 14) ≡ pos 0
    → (a ≡ false) × ((b ≡ true) ⊎ (c ≡ true))
words_cases a b c h = ground (arith, h)

small : (n : ℕ) → ltb 8 n ≡ false → n ≤ 8
small n h = ground (arith, h)

-- at most 8 words, all of them accessible
abbrev pub WordsChecked : Space → ℕ → ℕ → Type 0
WordsChecked s va nwords = (nwords ≤ 8) × Accessible s va (nwords * 8)

inline_words-WordsChecked :
    (s : Space) (va nwords : ℕ) → inline_words_ok s va nwords ≡ pos 0 → WordsChecked s va nwords
unfolding inline_words_ok
inline_words-WordsChecked s va nwords y =
    let (a, o) =
      words_cases (ltb 8 nwords) (nwords * 8 == 0)
        (eq_ℤ (validate_user_buffer s va (nwords * 8)) (pos 0)) y in
    (
      small nwords a,
      elim o [
        | inl b ↦ inl ((==_iff (nwords * 8) 0).0 b)
        | inr c ↦ (validate_user_buffer_lem s va (nwords * 8)).0 ((eq_ℤ_iff _ _).0 c)
      ],
    )

words_verdict :
    (a b c : Bool)
    → let r = if a then neg 22 else if b then pos 0 else if c then pos 0 else neg 14 in
      (r ≡ pos 0) ⊎ ((r ≡ neg 22) ⊎ (r ≡ neg 14))
words_verdict a b c = ground arith

gate_cases :
    (r : ℤ)
    → (r ≡ pos 0) ⊎ ((r ≡ neg 22) ⊎ (r ≡ neg 14))
    → (if eq_ℤ r (pos 0) then pos 1 else r) ≡ pos 1
    → r ≡ pos 0
gate_cases r h y = ground (arith, h, y)

words_gate-WordsChecked :
    (s : Space) (va nwords : ℕ) → words_gate s va nwords ≡ pos 1 → WordsChecked s va nwords
unfolding inline_words_ok
words_gate-WordsChecked s va nwords y = inline_words-WordsChecked s va nwords (
    gate_cases (inline_words_ok s va nwords)
      (words_verdict (ltb 8 nwords) (nwords * 8 == 0)
        (eq_ℤ (validate_user_buffer s va (nwords * 8)) (pos 0)))
      y)

ipc_cases :
    (a b c d e f g : Bool) (w : ℤ)
    → (if a
        then w
        else if b
        then (if c then pos 1 else w)
        else if d
        then (if e then neg 22 else if f then neg 22 else if g then neg 38 else neg 14)
        else neg 22)
      ≡ pos 1
    → ((a ≡ true) × (w ≡ pos 1)) ⊎ ((b ≡ true) × ((c ≡ true) ⊎ (w ≡ pos 1)))
ipc_cases a b c d e f g w h = ground (arith, h)

parks_one :
    (r : ℤ)
    → (if eq_ℤ r (pos 1)
        then pos 1
        else if eq_ℤ r (neg 38) || (eq_ℤ r (neg 14) || eq_ℤ r (neg 22))
        then pos 0
        else neg 22)
      ≡ pos 1
    → r ≡ pos 1
parks_one r h = ground (arith, h)

one_of_three :
    (op a b c : ℕ)
    → ((op == a) || ((op == b) || (op == c))) ≡ true
    → (op ≡ a) ⊎ ((op ≡ b) ⊎ (op ≡ c))
one_of_three op a b c h = ground (arith, h)

both_zero : (x y : ℕ) → ((x == 0) && (y == 0)) ≡ true → (x ≡ 0) × (y ≡ 0)
both_zero x y h = ground (arith, h)

-- An IPC call that parks is a send, a call or a reply with at most 8 words, all accessible, or a receive
-- into such words or into none; a grant never parks.
pub ipc_should_park_lem :
    (s : Space) (op x1 x2 : ℕ)
    → house_ipc_should_park s op x1 x2 ≡ pos 1
    → (((op ≡ ipc_send) ⊎ ((op ≡ ipc_call) ⊎ (op ≡ ipc_reply))) × WordsChecked s x1 x2)
      ⊎ ((op ≡ ipc_recv) × (((x1 ≡ 0) × (x2 ≡ 0)) ⊎ WordsChecked s x1 x2))
unfolding house_ipc_should_park validate_ipc
ipc_should_park_lem s op x1 x2 y =
    elim (ipc_cases ((op == ipc_send) || ((op == ipc_call) || (op == ipc_reply))) (op == ipc_recv)
      ((x1 == 0) && (x2 == 0)) (op == ipc_grant_map) (ltb 1 x2) (not (x1 % 4096 == 0))
      (eq_ℤ (validate_user_buffer s x1 4096) (pos 0)) (words_gate s x1 x2)
      (parks_one (validate_ipc s op x1 x2) y)) [
        | inl (a, w) ↦ inl (one_of_three op _ _ _ a, words_gate-WordsChecked s x1 x2 w)
        | inr (b, o) ↦ inr (
          (==_iff op ipc_recv).0 b,
          elim o [
            | inl c ↦ inl (both_zero x1 x2 c)
            | inr w ↦ inr (words_gate-WordsChecked s x1 x2 w)
          ],
        )
      ]
