-- ===== src/Crypto/Des.antt =====
-- hlibc/crypto/des.c: the DES block cipher and its ECB mode.
-- A `uint64_t` is a number below 2 ^ 64, a buffer is the list of its bytes.
mod Boxes
mod Permutations
mod KeyTables
pub mod Permute
pub mod Inverse
pub mod Rounds
pub mod Ecb
pub mod EcbLaws
pub mod Complement
mod Examples
use Boxes.{s_table}
use Permutations.{ip_moves, ip_inv_moves, p_moves, e_moves}
use KeyTables.{
  ks_0_moves, ks_1_moves, ks_2_moves, ks_3_moves, ks_4_moves, ks_5_moves, ks_6_moves, ks_7_moves,
  ks_8_moves, ks_9_moves, ks_10_moves, ks_11_moves, ks_12_moves, ks_13_moves, ks_14_moves,
  ks_15_moves,
}
use hlibc.Base.{
  ℕ, zero, suc, ◌+◌, ◌-◌, ◌*◌, ◌/◌, ◌%◌, ◌^◌, bit_and, bit_or, bit_xor, List, [], ◌∷◌, ◌++◌, ltb,
  if◌then◌else◌, get_or, drop, take, map,
}
use hlibc.Bits.{shl, shr}

-- `MOVE_BIT(x, start, end)` on a `uint64_t`.
unfoldable pub move_bit : ℕ → ℕ → ℕ → ℕ
move_bit x start end = shl 64 (bit_and (shr x start) 1) end

-- The `|` of a list of `MOVE_BIT` calls.
unfoldable pub permute : List (ℕ × ℕ) → ℕ → ℕ
permute [] input = 0
permute ((start, end) ∷ moves) input = bit_or (move_bit input start end) (permute moves input)

unfoldable pub ip : ℕ → ℕ
ip input = permute ip_moves input

unfoldable pub ip_inv : ℕ → ℕ
ip_inv input = permute ip_inv_moves input

unfoldable pub p : ℕ → ℕ
p input = permute p_moves input

unfoldable pub e : ℕ → ℕ
e input = permute e_moves input

-- An `int` read as a `uint64_t`: the upper half repeats the sign.
sign_extend : ℕ → ℕ
sign_extend x = if ltb x (2 ^ 31) then x else x + (2 ^ 64 - 2 ^ 32)

-- `S_table[box][index]`.
s_box : ℕ → ℕ → ℕ
s_box box index = get_or (get_or s_table box []) index 0

-- The entries are promoted to `int`, so the shifts and the `|` are those of 32 bits.
unfoldable pub s : ℕ → ℕ
unfolding sign_extend s_box
s input = sign_extend (
    bit_or (shl 32 (s_box 0 (bit_and (shr input 42) 0x3f)) 28) (
      bit_or (shl 32 (s_box 1 (bit_and (shr input 36) 0x3f)) 24) (
        bit_or (shl 32 (s_box 2 (bit_and (shr input 30) 0x3f)) 20) (
          bit_or (shl 32 (s_box 3 (bit_and (shr input 24) 0x3f)) 16) (
            bit_or (shl 32 (s_box 4 (bit_and (shr input 18) 0x3f)) 12) (
              bit_or (shl 32 (s_box 5 (bit_and (shr input 12) 0x3f)) 8) (
                bit_or (shl 32 (s_box 6 (bit_and (shr input 6) 0x3f)) 4)
                  (s_box 7 (bit_and input 0x3f)))))))))

unfoldable pub f : ℕ → ℕ → ℕ
unfolding p s e
f block key = p (s (bit_xor (e block) key))

-- `KS_0` to `KS_15`, in order.
abbrev pub ks_moves : List (List (ℕ × ℕ))
ks_moves =
    ks_0_moves ∷ ks_1_moves ∷ ks_2_moves ∷ ks_3_moves ∷ ks_4_moves ∷ ks_5_moves ∷ ks_6_moves
    ∷ ks_7_moves ∷ ks_8_moves ∷ ks_9_moves ∷ ks_10_moves ∷ ks_11_moves ∷ ks_12_moves ∷ ks_13_moves
    ∷ ks_14_moves ∷ ks_15_moves ∷ []

unfoldable pub key_schedule : ℕ → List ℕ
unfolding permute
key_schedule key = map (λ moves. permute moves key) ks_moves

pub record DesContext : Type 0 where
  pub ks : List ℕ

-- `des_init` writes the whole context; its result is always 0.
unfoldable pub des_init : ℕ → DesContext × ℕ
unfolding key_schedule
des_init key = (record { ks = key_schedule key }, 0)

-- The two halves of the block under work.
pub record Halves : Type 0 where
  pub l : ℕ
  pub r : ℕ

-- `L ^= f(R, ctx->ks[i])` and `R ^= f(L, ctx->ks[i])`.
unfoldable pub mix_left : DesContext → ℕ → Halves → Halves
mix_left ctx i h = record h { l = bit_xor h.l (f h.r (get_or ctx.ks i 0)) }

unfoldable pub mix_right : DesContext → ℕ → Halves → Halves
mix_right ctx i h = record h { r = bit_xor h.r (f h.l (get_or ctx.ks i 0)) }

-- The sixteen statements of the body, by the indices of the round keys in their order.
unfoldable pub rounds : DesContext → List (ℕ × ℕ) → Halves → Halves
rounds ctx [] h = h
rounds ctx ((i, j) ∷ order) h = rounds ctx order (mix_right ctx j (mix_left ctx i h))

abbrev pub encrypt_order : List (ℕ × ℕ)
encrypt_order = (0, 1) ∷ (2, 3) ∷ (4, 5) ∷ (6, 7) ∷ (8, 9) ∷ (10, 11) ∷ (12, 13) ∷ (14, 15) ∷ []

abbrev pub decrypt_order : List (ℕ × ℕ)
decrypt_order = (15, 14) ∷ (13, 12) ∷ (11, 10) ∷ (9, 8) ∷ (7, 6) ∷ (5, 4) ∷ (3, 2) ∷ (1, 0) ∷ []

unfoldable pub split : ℕ → Halves
split block = record { l = shr block 32; r = bit_and block 0xffff_ffff }

-- `(R << 32) | L`.
unfoldable pub join : Halves → ℕ
join h = bit_or (shl 64 h.r 32) h.l

unfoldable pub des_encrypt : DesContext → ℕ → ℕ
des_encrypt ctx block = ip_inv (join (rounds ctx encrypt_order (split (ip block))))

unfoldable pub des_decrypt : DesContext → ℕ → ℕ
des_decrypt ctx block = ip_inv (join (rounds ctx decrypt_order (split (ip block))))
