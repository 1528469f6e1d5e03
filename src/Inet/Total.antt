-- ===== src/Inet/Total.antt =====
-- `ipv4_to_bin` on a text that has its terminator.
use hlibc.Base.{
  ℕ, zero, suc, ◌≡◌, refl, Bool, true, false, not, List, [], ◌∷◌, ◌++◌, ◌+◌, ◌*◌, ◌-◌, ltb, Option,
  none, some, ◌==◌, if◌then◌else◌, Outcome, done, ◌>>=◌, Status, arith,
}
use hlibc.Inet.Ipv4.{
  isdigit, third_digit, second_digit, octet_to_bin, store, at_end, at_dot, last_round, middle_round,
  bin_loop, ipv4_to_bin,
}

-- A text with a zero byte in it.
abbrev pub Terminated : List ℕ → Type 0
Terminated [] = ⊥
Terminated (c ∷ src) = (c == 0) ≡ false → Terminated src

pub Terminated-append : (src : List ℕ) → Terminated (src ++ 0 ∷ [])
Terminated-append [] = λ h. absurd (ground (arith, h))
Terminated-append (c ∷ src) = λ h. Terminated-append src

pub data Done {A : Type 0} (P : A → Type 0) : Outcome A → Type 0 where
  is_done : {a : A} → P a → Done P (done a)

module _ {A : Type 0} {P : A → Type 0} where
  pub Done-if :
      {x y : Outcome A}
      → (b : Bool) → (b ≡ true → Done P x)
      → (b ≡ false → Done P y)
      → Done P (if b then x else y)
  Done-if true f g = f refl
  Done-if false f g = g refl

Done-bind :
    {A B : Type 0} {P : A → Type 0} {Q : B → Type 0} {m : Outcome A} {k : A → Outcome B}
    → Done P m
    → ((a : A) → P a → Done Q (k a))
    → Done Q (m >>= k)
Done-bind (is_done p) next = next _ p

abbrev Behind : Option (ℕ × List ℕ) → Type 0
Behind none = Unit
Behind (some (val, pos)) = Terminated pos

abbrev Any : {A : Type 0} → A → Type 0
Any a = Unit

digit_positive : (c : ℕ) → isdigit c ≡ true → (c == 0) ≡ false
digit_positive c h = ground (arith, h)

third_digit-Done : (val : ℕ) (src : List ℕ) → Terminated src → Done Behind (third_digit val src)
unfolding third_digit
third_digit-Done val [] t = absurd t
third_digit-Done val (c ∷ pos) t =
    Done-if (isdigit c)
      (λ h.
        Done-if (ltb 255 (10 * val + c - b'0')) (λ g. is_done tt)
          (λ g. is_done (t (digit_positive c h))))
      (λ h. is_done t)

second_digit-Done : (val : ℕ) (src : List ℕ) → Terminated src → Done Behind (second_digit val src)
unfolding second_digit
second_digit-Done val [] t = absurd t
second_digit-Done val (c ∷ pos) t =
    Done-if (isdigit c) (λ h. third_digit-Done _ pos (t (digit_positive c h))) (λ h. is_done t)

octet_to_bin-Done : (src : List ℕ) → Terminated src → Done Behind (octet_to_bin src)
unfolding octet_to_bin
octet_to_bin-Done [] t = absurd t
octet_to_bin-Done (c ∷ pos) t =
    Done-if (not (isdigit c)) (λ h. is_done tt)
      (λ h.
        let here : Terminated pos = t (ground (arith, h)) in
        Done-if (c == b'0') (λ g. is_done here) (λ g. second_digit-Done _ pos here))

store-Done : (val : ℕ) {m : Outcome (Status × List ℕ)} → Done Any m → Done Any (store val m)
store-Done val (is_done p) = is_done tt

at_end-Done : (src : List ℕ) → Terminated src → Done Any (at_end src)
unfolding at_end
at_end-Done [] t = absurd t
at_end-Done (c ∷ pos) t = is_done tt

at_dot-Done :
    (src : List ℕ) (val : ℕ) (next : List ℕ → Outcome (Status × List ℕ))
    → ((pos : List ℕ) → Terminated pos → Done Any (next pos))
    → Terminated src
    → Done Any (at_dot src val next)
unfolding at_dot
at_dot-Done [] val next h t = absurd t
at_dot-Done (c ∷ pos) val next h t =
    Done-if (not (c == b'.')) (λ g. is_done tt)
      (λ g. store-Done val (h pos (t (ground (arith, g)))))

last_round-Done : (o : Option (ℕ × List ℕ)) → Behind o → Done Any (last_round o)
unfolding last_round
last_round-Done none t = is_done tt
last_round-Done (some (val, pos)) t = store-Done val (at_end-Done pos t)

middle_round-Done :
    (next : List ℕ → Outcome (Status × List ℕ)) (o : Option (ℕ × List ℕ))
    → ((pos : List ℕ) → Terminated pos → Done Any (next pos))
    → Behind o
    → Done Any (middle_round next o)
unfolding middle_round
middle_round-Done next none h t = is_done tt
middle_round-Done next (some (val, pos)) h t = at_dot-Done pos val next h t

bin_loop-Done : (left : ℕ) (src : List ℕ) → Terminated src → Done Any (bin_loop left src)
unfolding bin_loop
bin_loop-Done zero src t = Done-bind (octet_to_bin-Done src t) last_round-Done
bin_loop-Done (suc left) src t =
    Done-bind (octet_to_bin-Done src t)
      (λ o. middle_round-Done (bin_loop left) o (bin_loop-Done left))

-- A text that is terminated is read to its end at most.
pub ipv4_to_bin-Done : (src : List ℕ) → Terminated src → Done Any (ipv4_to_bin src)
unfolding ipv4_to_bin
ipv4_to_bin-Done src t = bin_loop-Done 3 src t
