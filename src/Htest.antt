-- ===== src/Htest.antt =====
-- htest/htest.c and include/htest/htest.h: a test, its status and its resources. A function that does not
-- return, because it jumps to where the test was started, has the result `jumped`.
pub mod Resources
pub mod Created
pub mod Suite
pub mod Counts
pub mod Messages
pub mod Asserts
pub mod Globals
mod Examples
use hlibc.Base.{
  ℕ, ◌+◌, ◌-◌, Bool, true, false, not, List, [], ◌∷◌, ◌++◌, Option, none, some, length, take, drop,
  replicate, ltb, ◌==◌, if◌then◌else◌,
}
use hlibc.Linked.{Store, list_node_init, list_add}

pub data HtestStatus : Type 0 where
  htest_passed htest_skipped htest_failed : HtestStatus

-- The resources are a list with the head `resources`, a node of the memory below.
pub record Htest : Type 0 where
  pub name : List ℕ
  pub status : HtestStatus
  pub status_msg : List ℕ
  pub resources : ℕ

-- The nodes of all lists, the data of each handle, and what was destroyed and freed, in that order. A
-- handle is the address of its node.
pub record Memory : Type 0 where
  pub nodes : Store
  pub owned : ℕ → ℕ
  pub destroyed : List ℕ
  pub freed : List ℕ

pub record TestState : Type 0 where
  pub test : Htest
  pub memory : Memory

pub data Flow : Type 0 where
  returned jumped : TestState → Flow

abbrev pub after : Flow → TestState
after (returned t) = t
after (jumped t) = t

-- `memzero` and the assignments behind it; the result of `htest_init` is 0.
unfoldable pub htest_init : Htest → List ℕ → Memory → TestState
htest_init test name memory = record {
  test = record {
    name = name;
    status = htest_passed;
    status_msg = replicate 256 0;
    resources = test.resources;
  };
  memory = record memory { nodes = list_node_init memory.nodes test.resources };
}

-- The bytes that `memcpy` and the assignment of the terminator leave of the message buffer.
abbrev pub copy_msg : List ℕ → List ℕ → List ℕ
copy_msg buffer msg = msg ++ 0 ∷ drop (length msg + 1) buffer

-- The message is the text before its terminator. Of a message that is too long a warning is logged.
unfoldable pub htest_set_status : Htest → HtestStatus → Option (List ℕ) → Htest
htest_set_status test status none = record test { status = status }
htest_set_status test status (some msg) =
    let len = if ltb 255 (length msg) then 255 else length msg in
    record test { status = status; status_msg = copy_msg test.status_msg (take len msg) }

abbrev pub with_status : TestState → HtestStatus → Option (List ℕ) → TestState
with_status t status msg = record t { test = htest_set_status t.test status msg }

unfoldable pub htest_return : TestState → Flow
htest_return t = jumped t

unfoldable pub htest_pass : TestState → Option (List ℕ) → Flow
htest_pass t msg = htest_return (with_status t htest_passed msg)

unfoldable pub htest_skip : TestState → Option (List ℕ) → Flow
htest_skip t msg = htest_return (with_status t htest_skipped msg)

unfoldable pub htest_fail : TestState → Option (List ℕ) → Flow
htest_fail t msg = htest_return (with_status t htest_failed msg)

-- `__htest_assert`, without the lines that it logs.
unfoldable pub htest_assert : TestState → Bool → Flow
htest_assert t result = if not result then htest_fail t none else returned t

-- "Internal error: Could not allocate memory to track resource."
abbrev pub no_memory : List ℕ
no_memory =
    73 ∷ 110 ∷ 116 ∷ 101 ∷ 114 ∷ 110 ∷ 97 ∷ 108 ∷ 32 ∷ 101 ∷ 114 ∷ 114 ∷ 111 ∷ 114 ∷ 58 ∷ 32 ∷ 67
    ∷ 111 ∷ 117 ∷ 108 ∷ 100 ∷ 32 ∷ 110 ∷ 111 ∷ 116 ∷ 32 ∷ 97 ∷ 108 ∷ 108 ∷ 111 ∷ 99 ∷ 97 ∷ 116 ∷ 101
    ∷ 32 ∷ 109 ∷ 101 ∷ 109 ∷ 111 ∷ 114 ∷ 121 ∷ 32 ∷ 116 ∷ 111 ∷ 32 ∷ 116 ∷ 114 ∷ 97 ∷ 99 ∷ 107 ∷ 32
    ∷ 114 ∷ 101 ∷ 115 ∷ 111 ∷ 117 ∷ 114 ∷ 99 ∷ 101 ∷ 46 ∷ []

-- `htest_create_resource`, where `malloc` returned `handle` and `create` returned `content`.
unfoldable pub htest_create_resource : TestState → Option ℕ → ℕ → Flow
htest_create_resource t none content = htest_fail t (some no_memory)
htest_create_resource t (some handle) content =
    let m = t.memory in
    let nodes = list_add (list_node_init m.nodes handle) handle t.test.resources in
    let owned : ℕ → ℕ = λ x. if x == handle then content else m.owned x in
    returned (record t { memory = record m { nodes = nodes; owned = owned } })
