-- ===== src/Crypto/Siphash/Laws.antt =====
-- hlibc/crypto/siphash.c: the rounds, and what they make of the key.
use hlibc.Base.{
  ℕ, zero, suc, ◌+◌, ◌-◌, ◌%◌, ◌^◌, ◌<◌, ◌≡◌, refl, sym, ap, ◌∙◌, ◌*◌, ◌/◌, ◌≢◌, bit_and, bit_xor,
  List, length, get_or, drop, All-drop, arith,
}
use hlibc.Bits.{shl, bit_or-lt, bit_xor-lt, bit_xor_cancel}
use hlibc.Bit.Bytes.{IsBytes, get_unaligned_le, get_unaligned_le-lt}
use hlibc.Bit.Rotate.{rotl, rotr, rotl-lt, rotr-rotl}
use hlibc.Crypto.Siphash.{
  SipState, plus, first_half, second_half, sip_round, mix_word, word_loop, last_word, sip_init,
  sip_absorb,
}

abbrev IsWord : ℕ → Type 0
IsWord v = v < 2 ^ 64

-- Four words of 64 bits.
abbrev pub IsState : SipState → Type 0
IsState s = IsWord s.v0 × IsWord s.v1 × IsWord s.v2 × IsWord s.v3

-- What `a += b` undoes.
abbrev minus : ℕ → ℕ → ℕ
minus a b = (a + 2 ^ 64 - b) % 2 ^ 64

minus-plus : (a b : ℕ) → IsWord a → IsWord b → minus (plus a b) b ≡ a
minus-plus a b h k = omega arith

plus-lt : (a b : ℕ) → IsWord (plus a b)
plus-lt a b = omega arith

-- `v = rotl64(v, n); v ^= w`, undone.
rotr-xor :
    (v n w : ℕ) → IsWord v → 0 < n → n < 64 → rotr 64 (bit_xor (bit_xor (rotl 64 v n) w) w) n ≡ v
rotr-xor v n w h p l =
    ap (λ t. rotr 64 t n) (bit_xor_cancel (rotl 64 v n) w) ∙ (rotr-rotl 64 v n h p l).0

abbrev undo_first : SipState → SipState
undo_first s =
    let v0 = rotr 64 s.v0 32 in
    let v1 = rotr 64 (bit_xor s.v1 v0) 13 in
    let v3 = rotr 64 (bit_xor s.v3 s.v2) 16 in
    record { v0 = minus v0 v1; v1 = v1; v2 = minus s.v2 v3; v3 = v3 }

state_ext : (s t : SipState) → s.v0 ≡ t.v0 → s.v1 ≡ t.v1 → s.v2 ≡ t.v2 → s.v3 ≡ t.v3 → s ≡ t
state_ext s t a b c d = λ i. record { v0 = a i; v1 = b i; v2 = c i; v3 = d i }

undo_first-first_half : (s : SipState) → IsState s → undo_first (first_half s) ≡ s
unfolding first_half
undo_first-first_half s (h0, h1, h2, h3) =
    let sum =
      (rotr-rotl 64 (plus s.v0 s.v1) 32 (plus-lt s.v0 s.v1) (omega arith) (omega arith)).0 in
    let one = rotr-xor s.v1 13 (plus s.v0 s.v1) h1 (omega arith) (omega arith) in
    let three = rotr-xor s.v3 16 (plus s.v2 s.v3) h3 (omega arith) (omega arith) in
    state_ext _ s (rw (sum, one) (minus-plus s.v0 s.v1 h0 h1)) (rw sum one)
      (rw three (minus-plus s.v2 s.v3 h2 h3)) three

abbrev undo_second : SipState → SipState
undo_second s =
    let v2 = rotr 64 s.v2 32 in
    let v1 = rotr 64 (bit_xor s.v1 v2) 17 in
    let v3 = rotr 64 (bit_xor s.v3 s.v0) 21 in
    record { v0 = minus s.v0 v3; v1 = v1; v2 = minus v2 v1; v3 = v3 }

undo_second-second_half : (s : SipState) → IsState s → undo_second (second_half s) ≡ s
unfolding second_half
undo_second-second_half s (h0, h1, h2, h3) =
    let sum =
      (rotr-rotl 64 (plus s.v2 s.v1) 32 (plus-lt s.v2 s.v1) (omega arith) (omega arith)).0 in
    let one = rotr-xor s.v1 17 (plus s.v2 s.v1) h1 (omega arith) (omega arith) in
    let three = rotr-xor s.v3 21 (plus s.v0 s.v3) h3 (omega arith) (omega arith) in
    state_ext _ s (rw three (minus-plus s.v0 s.v3 h0 h3)) (rw sum one)
      (rw (sum, one) (minus-plus s.v2 s.v1 h2 h1)) three

xor_rotl-lt : (v n w : ℕ) → IsWord v → IsWord w → IsWord (bit_xor (rotl 64 v n) w)
xor_rotl-lt v n w h k = bit_xor-lt 64 (rotl 64 v n) w (rotl-lt 64 v n h) k

first_half-IsState : (s : SipState) → IsState s → IsState (first_half s)
unfolding first_half
first_half-IsState s (h0, h1, h2, h3) = (
  rotl-lt 64 (plus s.v0 s.v1) 32 (plus-lt s.v0 s.v1),
  xor_rotl-lt s.v1 13 (plus s.v0 s.v1) h1 (plus-lt s.v0 s.v1),
  plus-lt s.v2 s.v3,
  xor_rotl-lt s.v3 16 (plus s.v2 s.v3) h3 (plus-lt s.v2 s.v3),
)

second_half-IsState : (s : SipState) → IsState s → IsState (second_half s)
unfolding second_half
second_half-IsState s (h0, h1, h2, h3) = (
  plus-lt s.v0 s.v3,
  xor_rotl-lt s.v1 17 (plus s.v2 s.v1) h1 (plus-lt s.v2 s.v1),
  rotl-lt 64 (plus s.v2 s.v1) 32 (plus-lt s.v2 s.v1),
  xor_rotl-lt s.v3 21 (plus s.v0 s.v3) h3 (plus-lt s.v0 s.v3),
)

sip_round-IsState : (s : SipState) → IsState s → IsState (sip_round s)
unfolding sip_round
sip_round-IsState s h = second_half-IsState (first_half s) (first_half-IsState s h)

sip_round-injective : (s t : SipState) → IsState s → IsState t → sip_round s ≡ sip_round t → s ≡ t
unfolding sip_round
sip_round-injective s t h k e =
    let h' = first_half-IsState s h in
    let k' = first_half-IsState t k in
    let half =
      sym (undo_second-second_half (first_half s) h')
      ∙ ap undo_second e
      ∙ undo_second-second_half (first_half t) k' in
    sym (undo_first-first_half s h) ∙ ap undo_first half ∙ undo_first-first_half t k

-- A word is mixed in.
abbrev xor_v3 : ℕ → SipState → SipState
xor_v3 w s = record s { v3 = bit_xor s.v3 w }

abbrev xor_v0 : ℕ → SipState → SipState
xor_v0 w s = record s { v0 = bit_xor s.v0 w }

xor_v3_twice : (w : ℕ) (s : SipState) → xor_v3 w (xor_v3 w s) ≡ s
xor_v3_twice w s = state_ext _ s refl refl refl (bit_xor_cancel s.v3 w)

xor_v0_twice : (w : ℕ) (s : SipState) → xor_v0 w (xor_v0 w s) ≡ s
xor_v0_twice w s = state_ext _ s (bit_xor_cancel s.v0 w) refl refl refl

xor_v3-IsState : (w : ℕ) (s : SipState) → IsWord w → IsState s → IsState (xor_v3 w s)
xor_v3-IsState w s k (h0, h1, h2, h3) = (h0, h1, h2, bit_xor-lt 64 s.v3 w h3 k)

xor_v0-IsState : (w : ℕ) (s : SipState) → IsWord w → IsState s → IsState (xor_v0 w s)
xor_v0-IsState w s k (h0, h1, h2, h3) = (bit_xor-lt 64 s.v0 w h0 k, h1, h2, h3)

mix_word-IsState : (s : SipState) (w : ℕ) → IsWord w → IsState s → IsState (mix_word s w)
unfolding mix_word
mix_word-IsState s w k h =
    let mixed = xor_v3-IsState w s k h in
    xor_v0-IsState w _ k (sip_round-IsState _ (sip_round-IsState (xor_v3 w s) mixed))

-- With the same word, states that differ go on to states that differ.
mix_word-injective :
    (s t : SipState) (w : ℕ)
    → IsWord w
    → IsState s
    → IsState t
    → mix_word s w ≡ mix_word t w
    → s ≡ t
unfolding mix_word
mix_word-injective s t w k h l e =
    let s1 = xor_v3 w s in
    let t1 = xor_v3 w t in
    let hs = xor_v3-IsState w s k h in
    let ht = xor_v3-IsState w t k l in
    let outer =
      sym (xor_v0_twice w _) ∙ ap (xor_v0 w) e ∙ xor_v0_twice w (sip_round (sip_round t1)) in
    let once =
      sip_round-injective (sip_round s1) (sip_round t1) (sip_round-IsState s1 hs)
        (sip_round-IsState t1 ht) outer in
    let inner = sip_round-injective s1 t1 hs ht once in
    sym (xor_v3_twice w s) ∙ ap (xor_v3 w) inner ∙ xor_v3_twice w t

word_loop-IsState :
    (rounds : ℕ) (pos : List ℕ) (s : SipState)
    → IsBytes pos
    → IsState s
    → IsState (word_loop rounds pos s)
unfolding word_loop
word_loop-IsState zero pos s b h = h
word_loop-IsState (suc rounds) pos s b h =
    word_loop-IsState rounds (drop 8 pos) _ (All-drop _ 8 pos b)
      (mix_word-IsState s _ (get_unaligned_le-lt 8 pos b) h)

word_loop-injective :
    (rounds : ℕ) (pos : List ℕ) (s t : SipState)
    → IsBytes pos
    → IsState s
    → IsState t
    → word_loop rounds pos s ≡ word_loop rounds pos t
    → s ≡ t
unfolding word_loop
word_loop-injective zero pos s t b h k e = e
word_loop-injective (suc rounds) pos s t b h k e =
    let w = get_unaligned_le 8 pos in
    let l = get_unaligned_le-lt 8 pos b in
    let next =
      word_loop-injective rounds (drop 8 pos) (mix_word s w) (mix_word t w) (All-drop _ 8 pos b)
        (mix_word-IsState s w l h) (mix_word-IsState t w l k) e in
    mix_word-injective s t w l h k next

last_word-lt : (n : ℕ) (tail : List ℕ) (last : ℕ) → IsWord last → IsWord (last_word n tail last)
unfolding last_word
last_word-lt zero tail last h = h
last_word-lt (suc n) tail last h =
    last_word-lt n tail _ (bit_or-lt 64 last (shl 64 (get_or tail n 0) (8 * n)) h (omega arith))

xor_const-injective : (a b w : ℕ) → bit_xor a w ≡ bit_xor b w → a ≡ b
xor_const-injective a b w e =
    sym (bit_xor_cancel a w) ∙ ap (λ t. bit_xor t w) e ∙ bit_xor_cancel b w

sip_init-IsState : (k0 k1 : ℕ) → IsWord k0 → IsWord k1 → IsState (sip_init k0 k1)
unfolding sip_init
sip_init-IsState k0 k1 h k = (
  bit_xor-lt 64 k0 0x736F6D6570736575 h (omega arith),
  bit_xor-lt 64 k1 0x646F72616E646F6D k (omega arith),
  bit_xor-lt 64 k0 0x6C7967656E657261 h (omega arith),
  bit_xor-lt 64 k1 0x7465646279746573 k (omega arith),
)

-- Under two keys that differ, the same message of bytes leads to states that differ, before the last
-- rounds.
pub sip_absorb-injective :
    (input : List ℕ) (k0 k1 k0' k1' : ℕ)
    → IsBytes input
    → IsWord k0 × IsWord k1 × IsWord k0' × IsWord k1'
    → ¬ ((k0 ≡ k0') × (k1 ≡ k1'))
    → sip_absorb input k0 k1 ≢ sip_absorb input k0' k1'
unfolding sip_absorb sip_init
sip_absorb-injective input k0 k1 k0' k1' b (h0, h1, l0, l1) differ e =
    let rounds = length input / 8 in
    let last =
      last_word (bit_and (length input) 7) (drop (8 * rounds) input) (shl 64 (length input) 56) in
    let s = sip_init-IsState k0 k1 h0 h1 in
    let t = sip_init-IsState k0' k1' l0 l1 in
    let words =
      mix_word-injective _ _ last (last_word-lt _ _ _ (omega arith))
        (word_loop-IsState rounds input _ b s) (word_loop-IsState rounds input _ b t) e in
    let same = word_loop-injective rounds input _ _ b s t words in
    differ (
      xor_const-injective k0 k0' 0x736F6D6570736575 (ap (λ u. u.v0) same),
      xor_const-injective k1 k1' 0x646F72616E646F6D (ap (λ u. u.v1) same),
    )
