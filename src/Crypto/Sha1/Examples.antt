-- ===== src/Crypto/Sha1/Examples.antt =====
-- hlibc/crypto/sha1.c at concrete messages.
use mathlib.Core.Path.{◌≡◌, refl}
use hlibc.Base.Parsed.{undefined}
use hlibc.Base.{replicate, arith}
use hlibc.Crypto.Sha1.Laws.{sha1_update-undefined}
use hlibc.Crypto.Sha1.{sha1_init, sha1_update, block_loop, sha1_process_block}

-- Eight bytes, of which 64 are read.
of_eight : sha1_update (sha1_init (replicate 64 0)) (replicate 8 1) ≡ undefined
unfolding sha1_update sha1_init block_loop sha1_process_block
of_eight = refl

sha1_update-undefined_example :
    sha1_update (sha1_init (replicate 64 0)) (replicate 200 1) ≡ undefined
unfolding sha1_init
sha1_update-undefined_example =
    sha1_update-undefined (sha1_init (replicate 64 0)) (replicate 200 1) refl (omega arith)
