-- ===== src/Crypto/Md2.antt =====
-- hlibc/crypto/md2.c: MD2. A buffer is the list of its bytes, and so are the two of the context.
pub mod Laws
mod Examples
use hlibc.Base.{
  ℕ, zero, suc, ◌+◌, ◌-◌, ◌%◌, ◌^◌, bit_and, bit_xor, List, [], ◌∷◌, ◌++◌, length, take, drop,
  get_or, replicate, ltb, ◌==◌, if◌then◌else◌, Bool, not, ◌&&◌,
}
use hlibc.Crypto.Stream.{memcpy}

abbrev pub md2_subst : List ℕ
md2_subst =
    0x29 ∷ 0x2E ∷ 0x43 ∷ 0xC9 ∷ 0xA2 ∷ 0xD8 ∷ 0x7C ∷ 0x01 ∷ 0x3D ∷ 0x36 ∷ 0x54 ∷ 0xA1 ∷ 0xEC ∷ 0xF0
    ∷ 0x06 ∷ 0x13 ∷ 0x62 ∷ 0xA7 ∷ 0x05 ∷ 0xF3 ∷ 0xC0 ∷ 0xC7 ∷ 0x73 ∷ 0x8C ∷ 0x98 ∷ 0x93 ∷ 0x2B
    ∷ 0xD9 ∷ 0xBC ∷ 0x4C ∷ 0x82 ∷ 0xCA ∷ 0x1E ∷ 0x9B ∷ 0x57 ∷ 0x3C ∷ 0xFD ∷ 0xD4 ∷ 0xE0 ∷ 0x16
    ∷ 0x67 ∷ 0x42 ∷ 0x6F ∷ 0x18 ∷ 0x8A ∷ 0x17 ∷ 0xE5 ∷ 0x12 ∷ 0xBE ∷ 0x4E ∷ 0xC4 ∷ 0xD6 ∷ 0xDA
    ∷ 0x9E ∷ 0xDE ∷ 0x49 ∷ 0xA0 ∷ 0xFB ∷ 0xF5 ∷ 0x8E ∷ 0xBB ∷ 0x2F ∷ 0xEE ∷ 0x7A ∷ 0xA9 ∷ 0x68
    ∷ 0x79 ∷ 0x91 ∷ 0x15 ∷ 0xB2 ∷ 0x07 ∷ 0x3F ∷ 0x94 ∷ 0xC2 ∷ 0x10 ∷ 0x89 ∷ 0x0B ∷ 0x22 ∷ 0x5F
    ∷ 0x21 ∷ 0x80 ∷ 0x7F ∷ 0x5D ∷ 0x9A ∷ 0x5A ∷ 0x90 ∷ 0x32 ∷ 0x27 ∷ 0x35 ∷ 0x3E ∷ 0xCC ∷ 0xE7
    ∷ 0xBF ∷ 0xF7 ∷ 0x97 ∷ 0x03 ∷ 0xFF ∷ 0x19 ∷ 0x30 ∷ 0xB3 ∷ 0x48 ∷ 0xA5 ∷ 0xB5 ∷ 0xD1 ∷ 0xD7
    ∷ 0x5E ∷ 0x92 ∷ 0x2A ∷ 0xAC ∷ 0x56 ∷ 0xAA ∷ 0xC6 ∷ 0x4F ∷ 0xB8 ∷ 0x38 ∷ 0xD2 ∷ 0x96 ∷ 0xA4
    ∷ 0x7D ∷ 0xB6 ∷ 0x76 ∷ 0xFC ∷ 0x6B ∷ 0xE2 ∷ 0x9C ∷ 0x74 ∷ 0x04 ∷ 0xF1 ∷ 0x45 ∷ 0x9D ∷ 0x70
    ∷ 0x59 ∷ 0x64 ∷ 0x71 ∷ 0x87 ∷ 0x20 ∷ 0x86 ∷ 0x5B ∷ 0xCF ∷ 0x65 ∷ 0xE6 ∷ 0x2D ∷ 0xA8 ∷ 0x02
    ∷ 0x1B ∷ 0x60 ∷ 0x25 ∷ 0xAD ∷ 0xAE ∷ 0xB0 ∷ 0xB9 ∷ 0xF6 ∷ 0x1C ∷ 0x46 ∷ 0x61 ∷ 0x69 ∷ 0x34
    ∷ 0x40 ∷ 0x7E ∷ 0x0F ∷ 0x55 ∷ 0x47 ∷ 0xA3 ∷ 0x23 ∷ 0xDD ∷ 0x51 ∷ 0xAF ∷ 0x3A ∷ 0xC3 ∷ 0x5C
    ∷ 0xF9 ∷ 0xCE ∷ 0xBA ∷ 0xC5 ∷ 0xEA ∷ 0x26 ∷ 0x2C ∷ 0x53 ∷ 0x0D ∷ 0x6E ∷ 0x85 ∷ 0x28 ∷ 0x84
    ∷ 0x09 ∷ 0xD3 ∷ 0xDF ∷ 0xCD ∷ 0xF4 ∷ 0x41 ∷ 0x81 ∷ 0x4D ∷ 0x52 ∷ 0x6A ∷ 0xDC ∷ 0x37 ∷ 0xC8
    ∷ 0x6C ∷ 0xC1 ∷ 0xAB ∷ 0xFA ∷ 0x24 ∷ 0xE1 ∷ 0x7B ∷ 0x08 ∷ 0x0C ∷ 0xBD ∷ 0xB1 ∷ 0x4A ∷ 0x78
    ∷ 0x88 ∷ 0x95 ∷ 0x8B ∷ 0xE3 ∷ 0x63 ∷ 0xE8 ∷ 0x6D ∷ 0xE9 ∷ 0xCB ∷ 0xD5 ∷ 0xFE ∷ 0x3B ∷ 0x00
    ∷ 0x1D ∷ 0x39 ∷ 0xF2 ∷ 0xEF ∷ 0xB7 ∷ 0x0E ∷ 0x66 ∷ 0x58 ∷ 0xD0 ∷ 0xE4 ∷ 0xA6 ∷ 0x77 ∷ 0x72
    ∷ 0xF8 ∷ 0xEB ∷ 0x75 ∷ 0x4B ∷ 0x0A ∷ 0x31 ∷ 0x44 ∷ 0x50 ∷ 0xB4 ∷ 0x8F ∷ 0xED ∷ 0x1F ∷ 0x1A
    ∷ 0xDB ∷ 0x99 ∷ 0x8D ∷ 0x33 ∷ 0x9F ∷ 0x11 ∷ 0x83 ∷ 0x14 ∷ []

pub record Md2Context : Type 0 where
  pub size : ℕ
  pub state : List ℕ
  pub checksum : List ℕ
  pub tail : List ℕ

abbrev pub subst_byte : ℕ → ℕ
subst_byte i = get_or md2_subst i 0

-- The loop of `md2_update_checksum`, on what is left of both.
unfoldable pub checksum_loop : List ℕ → List ℕ → ℕ → List ℕ
checksum_loop [] block last = []
checksum_loop (c ∷ checksum) block last =
    let next = bit_xor c (subst_byte (bit_xor (get_or block 0 0) last)) in
    next ∷ checksum_loop checksum (drop 1 block) next

unfoldable pub md2_update_checksum : Md2Context → List ℕ → Md2Context
md2_update_checksum ctx block = record ctx {
  checksum = checksum_loop ctx.checksum block (get_or ctx.checksum 15 0);
}

-- `x[j] ^= md2_subst[tmp]; tmp = x[j]` over all of `x`: the new bytes and the last `tmp`.
unfoldable pub subst_loop : List ℕ → ℕ → List ℕ × ℕ
subst_loop [] tmp = ([], tmp)
subst_loop (b ∷ bytes) tmp =
    let next = bit_xor b (subst_byte tmp) in
    let (out, end) = subst_loop bytes next in (next ∷ out, end)

-- The rounds from `i` on, with `left` left, and the last loop over the state.
unfoldable pub md2_rounds : ℕ → ℕ → List ℕ → List ℕ → ℕ → List ℕ
md2_rounds zero i state buffer tmp = (subst_loop state tmp).0
md2_rounds (suc left) i state buffer tmp =
    let (state', tmp1) = subst_loop state tmp in
    let (buffer', tmp2) = subst_loop buffer tmp1 in
    md2_rounds left (i + 1) state' buffer' (bit_and (tmp2 + i) 255)

-- `ctx->state[i] ^ data[i]`, for every byte.
unfoldable pub xor_bytes : List ℕ → List ℕ → List ℕ
xor_bytes [] block = []
xor_bytes (s ∷ state) block = bit_xor s (get_or block 0 0) ∷ xor_bytes state (drop 1 block)

unfoldable pub md2_update_state : Md2Context → List ℕ → Md2Context
md2_update_state ctx block =
    let buffer = take 16 block ++ xor_bytes ctx.state block in
    record ctx { state = md2_rounds 17 0 ctx.state buffer 0 }

unfoldable pub md2_init : Md2Context
md2_init = record {
  size = 0;
  state = replicate 16 0;
  checksum = replicate 16 0;
  tail = replicate 16 0;
}

-- The loop over whole blocks and the copy of what is left, with `fuel` rounds at most.
unfoldable pub md2_blocks : ℕ → Md2Context → List ℕ → Md2Context
md2_blocks zero ctx input = record ctx { tail = memcpy ctx.tail 0 input }
md2_blocks (suc fuel) ctx input =
    if ltb (length input) 16
    then record ctx { tail = memcpy ctx.tail 0 input }
    else md2_blocks fuel (md2_update_state (md2_update_checksum ctx input) input) (drop 16 input)

unfoldable pub md2_update : Md2Context → List ℕ → Md2Context
md2_update ctx input =
    let used = bit_and ctx.size 15 in
    let comp = 16 - used in
    let ctx1 : Md2Context = record ctx { size = (ctx.size + length input) % 2 ^ 64 } in
    if used == 0
    then md2_blocks (length input) ctx1 input
    else if ltb (length input) comp
    then record ctx1 { tail = memcpy ctx.tail used input }
    else md2_blocks (length input) (record ctx1 { tail = memcpy ctx.tail used (take comp input) })
        (drop comp input)

unfoldable pub md2_finalize : Md2Context → List ℕ
md2_finalize ctx =
    let used = bit_and ctx.size 15 in
    let comp = 16 - used in
    let padded = memcpy ctx.tail used (replicate comp comp) in
    let ctx1 : Md2Context = md2_update_checksum (record ctx { tail = padded }) padded in
    let ctx2 : Md2Context = md2_update_state ctx1 padded in
    (md2_update_state ctx2 ctx2.checksum).state
