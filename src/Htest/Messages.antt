-- ===== src/Htest/Messages.antt =====
-- htest/htest.c: the buffer of a message.
use hlibc.Base.{
  ℕ, ◌+◌, ◌≤◌, ◌<◌, ◌≡◌, refl, sym, ap, ◌∙◌, List, [], ◌∷◌, ◌++◌, some, length, length-append,
  length-take, length-drop, take, drop, take_all, ltb, ◌==◌, inl, inr, Bool-cases, arith,
}
use hlibc.Htest.{
  HtestStatus, htest_passed, htest_skipped, htest_failed, TestState, Flow, jumped, copy_msg,
  htest_set_status, with_status, htest_return, htest_pass, htest_skip, htest_fail,
}
use hlibc.Htest.Suite.{text}

-- What stands behind a terminator is not part of the text.
text_terminated : (xs ys : List ℕ) → text (xs ++ 0 ∷ ys) ≡ text xs
text_terminated [] ys = refl
text_terminated (x ∷ xs) ys = elim (Bool-cases (x == 0)) [
  | inl h ↦ rw h refl
  | inr h ↦ rw h (ap (x ∷◌) (text_terminated xs ys))
]

length-copy_msg :
    (buffer msg : List ℕ)
    → length msg < length buffer
    → length (copy_msg buffer msg) ≡ length buffer
length-copy_msg buffer msg l = omega (
  arith,
  length-append msg (0 ∷ drop (length msg + 1) buffer),
  length-drop (length msg + 1) buffer,
)

-- The message in the buffer of the test that is jumped with.
abbrev pub Ends : Flow → HtestStatus → List ℕ → Type 0
Ends flow k msg =
    (t : TestState) × (flow ≡ jumped t)
    × (t.test.status ≡ k)
    × (length t.test.status_msg ≡ 256)
    × (text t.test.status_msg ≡ text (take 255 msg))

-- The message that `htest_set_status` copies.
set_status_msg :
    (t : TestState) (k : HtestStatus) (msg : List ℕ)
    → (htest_set_status t.test k (some msg)).status_msg ≡ copy_msg t.test.status_msg (take 255 msg)
unfolding htest_set_status
set_status_msg t k msg = elim (Bool-cases (ltb 255 (length msg))) [
  | inl h ↦ rw h refl
  | inr h ↦
      (let short : length msg ≤ 255 = ground (arith, h) in
        rw h (
          ap (copy_msg t.test.status_msg)
            (take_all (length msg) msg (omega arith) ∙ sym (take_all 255 msg short))))
]

set_status-Ends :
    (t : TestState) (k : HtestStatus) (msg : List ℕ)
    → length t.test.status_msg ≡ 256
    → Ends (jumped (with_status t k (some msg))) k msg
unfolding htest_set_status
set_status-Ends t k msg l = (
  with_status t k (some msg),
  refl,
  refl,
  ap length (set_status_msg t k msg)
      ∙ length-copy_msg t.test.status_msg (take 255 msg) (omega (arith, length-take 255 msg))
      ∙ l,
  ap text (set_status_msg t k msg)
      ∙ text_terminated (take 255 msg) (drop (length (take 255 msg) + 1) t.test.status_msg),
)

-- `htest_pass`, `htest_skip` and `htest_fail` with a message of any length end the test with their status,
-- the buffer keeps its 256 bytes, and its text is that of the first 255 bytes of the message.
pub htest_pass-htest_fail :
    (t : TestState) (msg : List ℕ)
    → length t.test.status_msg ≡ 256
    → Ends (htest_pass t (some msg)) htest_passed msg
      × Ends (htest_skip t (some msg)) htest_skipped msg
      × Ends (htest_fail t (some msg)) htest_failed msg
unfolding htest_pass htest_skip htest_fail htest_return
htest_pass-htest_fail t msg l = (
  set_status-Ends t htest_passed msg l,
  set_status-Ends t htest_skipped msg l,
  set_status-Ends t htest_failed msg l,
)
