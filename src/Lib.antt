-- ===== src/Lib.antt =====
-- A verification library for hlibc, a collection of C helpers: byte and bit manipulation, text
-- encodings, addresses, containers, ciphers and hashes. Each part of the program is a few functions
-- over buffers that the caller owns; the ciphers and hashes use the unaligned loads, the stores and
-- the rotations of include/hlibc/bit.h, and the URI parser uses the character classes, `hex_val` and the
-- addresses of hlibc/inet.c. The test framework keeps its resources and its suites in the lists of
-- include/hlibc/list.h.
--
-- The files, and the code that they model:
--   Bit           include/hlibc/bit.h: bit sets in a buffer, rotations, unaligned words, bswap
--   Strings       hlibc/string.c: hexadecimal text and base 64, the memory helpers, and the names of errors
--                 of include/hlibc/string.h
--   Inet          hlibc/inet.c: IPv4 addresses
--   Inet.Ipv6     hlibc/inet.c: IPv6 addresses
--   Uri           hlibc/uri.c: the parser for the parts of a URI, and their normal forms
--   Ctype         hlibc/ctype.c and include/hlibc/ctype.h: character classes by tables
--   Spinlock      hlibc/spinlock.c: the lock, and threads that use it in any interleaving
--   Linked        include/hlibc/list.h: the circular list and the hash list
--   Numbers       hlibc/math.c: gcd and lcm
--   Heap          hlibc/heap.c: the binary heap over an order of the caller's
--   Crypto.Des    hlibc/crypto/des.c: the cipher, the key schedule and the ECB mode
--   Crypto.Stream what hlibc/crypto/md4.c and hlibc/crypto/md5.c have in common
--   Crypto.Md4    hlibc/crypto/md4.c
--   Crypto.Md5    hlibc/crypto/md5.c
--   Crypto.Murmur hlibc/crypto/murmur.c
--   Crypto.Digests what MD4 and MD5 make of messages in one part and in two
--   Crypto.Siphash, Crypto.Md2, Crypto.Sha1  hlibc/crypto/siphash.c, md2.c and sha1.c, with test values
--   Rbtree        hlibc/rbtree.c: the red-black tree
--   Kqueue        hlibc/kqueue.c: the table of changes to a kernel queue
--   Htest         htest/htest.c and include/htest/htest.h: tests, their resources, suites
--   Base, Bits    shared names, lists, outcomes; digits of numbers in base 2
--
-- How the code corresponds to the definitions. A function keeps its name. A w-bit word is a number
-- below 2^w, with its wrap-around written out. A buffer is the list of its bytes; what a function
-- stores through a pointer is part of its result. A C string is a buffer with a zero byte in it; where
-- the text decides how far is read, a read outside the buffer is `fault`. Functions that return 0 or an
-- `errno` value return a `Status`, or the value beside the new state. The tables are those of the
-- source: the permutations of DES are lists of the bits that its `MOVE_BIT` lines move, the S boxes
-- are in the source's order.
--
-- Loops are recursion on what they read, or on a number of rounds that the code fixes. The loops of MD2,
-- MD4, MD5 and SHA-1 over whole blocks run on fuel, the length of the data: every round uses up 16 bytes
-- or more, so that it is enough. The loop of `gcd` runs on fuel too, one more than its divisor, which every round
-- makes smaller; the heap's loops run on the number of cells, and every round moves to a parent or a
-- child. The array of a heap is a function from the index of a cell to its element,
-- and the nodes of a list are numbers with a store of their pointers. `list_for_each` runs on fuel, one
-- more than the nodes behind the head are enough. Signed overflow
-- is a `fault`: in `gcd` and `lcm`, and of the ints that count in `hex_decode`, `b64_decode`, `memswap`,
-- `heapify`, `is_minheap` and `__htest_declare_suites`.
--
-- The parsers of IPv6 addresses and URIs return a value, a refusal, or nothing that C defines (`Parsed`):
-- a read outside the text, a write outside the buffer, a loop without end. A position in a text is what
-- is left of it. The loop of `ipv6_to_bin` runs at most eight rounds, each of which stores two bytes or
-- more; the loop over the digits of `ipv6_to_str_part` has no end in C, and its fuel is any number. The
-- loop of `normalize_with_cset` runs on the length of its text, of which each round reads one character
-- or more. `char` is signed: a byte from 128 on is no index of the tables of hlibc/uri.c.
--
-- The nodes of a red-black tree are numbers with a store of their fields, and 0 is the null pointer; its
-- loops run on fuel, for which the number of nodes is enough, and one more in `rb_insert`. `htest_destroy`
-- runs on fuel, one more than the resources are enough, and the hook of a suite that jumps is called again
-- as often as there is fuel. The int that the hook `init` returns is dropped, as the code drops it. A test that returns and one that jumps are the two results of type `Flow`.
--
-- A little endian machine is assumed (`LITTLE_ENDIAN`), with ints of 32 bits in two's complement.
--
-- Not modelled: input and output (hlibc/io.c, hlibc/sys.c), hlibc/reljmp.c, which jumps by assembler,
-- floating point (`sigmoid`, `prime_count_lower`, `prime_count_upper`), macros that stand for compiler
-- builtins, the log that the test framework writes to, the tests, and the prototypes below etc.
pub mod Base
pub mod Bits
pub mod Bit
pub mod Crypto
pub mod Strings
pub mod Inet
pub mod Ctype
pub mod Spinlock
pub mod Numbers
pub mod Heap
pub mod Uri
pub mod Linked
pub mod Htest
pub mod Rbtree
pub mod Kqueue
