-- ===== src/Kqueue.antt =====
-- hlibc/kqueue.c: the table of changes to a kernel queue. The calls of the system and of the C library are
-- parameters. A block of memory is the list of the events that fit it, and its size is counted in these.
pub mod Changes
mod Examples
use hlibc.Base.{
  ℕ, ◌+◌, ◌*◌, ◌/◌, ◌%◌, ◌^◌, max, Bool, List, Option, none, some, Outcome, done, fault, Status,
  success, enomem, ℤ, pos, negsuc, length, set, ltb, ◌==◌, if◌then◌else◌,
}

pub record Kevent : Type 0 where
  pub ident : ℕ
  pub filter : ℤ
  pub flags : ℕ
  pub fflags : ℕ
  pub data_value : ℤ
  pub udata : ℕ

-- `none` is the null pointer.
pub record KqueueTable : Type 0 where
  pub kq : ℤ
  pub pid : ℕ
  pub nchanges : ℕ
  pub nevents : ℤ
  pub changelist : Option (List Kevent)
  pub eventlist : Option (List Kevent)
  pub changelist_cap : ℕ
  pub eventlist_cap : ℕ

abbrev pub kevent_set : ℕ → ℤ → ℕ → ℕ → ℤ → ℕ → Kevent
kevent_set ident filter flags fflags data_value udata = record {
  ident = ident;
  filter = filter;
  flags = flags;
  fflags = fflags;
  data_value = data_value;
  udata = udata;
}

-- The table in the end, and the result: what `kqueue()` returned if it failed. `eventlist_cap` keeps what
-- was there.
unfoldable pub kqueue_table_init : KqueueTable → ℤ → ℕ → KqueueTable × ℤ
kqueue_table_init kt (negsuc e) pid = (kt, negsuc e)
kqueue_table_init kt (pos kq) pid = (
  record {
    kq = pos kq;
    pid = pid;
    nchanges = 0;
    nevents = pos 0;
    changelist = none;
    eventlist = none;
    changelist_cap = 0;
    eventlist_cap = kt.eventlist_cap;
  },
  pos 0,
)

-- `changelist[nchanges++] = event`, where the place has to be inside the block and the count an int.
unfoldable pub append_change : KqueueTable → Kevent → Outcome (Status × KqueueTable)
append_change kt event = elim kt.changelist [
  | none ↦ fault
  | some block ↦
      if ltb kt.nchanges (length block)
      then if ltb (kt.nchanges + 1) (2 ^ 31)
        then done (
          success,
          record kt { changelist = some (set block kt.nchanges event); nchanges = kt.nchanges + 1 },
        )
        else fault
      else fault
]

abbrev pub next_cap : ℕ → ℕ
next_cap cap = max (cap * 3 % 2 ^ 64 / 2) 2

unfoldable pub kqueue_table_change :
    (Option (List Kevent) → ℕ → Option (List Kevent))
    → KqueueTable
    → Kevent
    → Outcome (Status × KqueueTable)
kqueue_table_change realloc kt event =
    let cap = next_cap kt.changelist_cap in
    if kt.changelist_cap == kt.nchanges
    then elim (realloc kt.changelist cap) [
      | none ↦ done (enomem, record kt { changelist_cap = cap; changelist = none })
      | some b ↦ append_change (record kt { changelist_cap = cap; changelist = some b }) event
    ]
    else append_change kt event

-- `kevent` has the queue, the changes, how many they are, the room for events, and how many fit it.
unfoldable pub kqueue_table_commit :
    (ℤ → Option (List Kevent) → ℕ → Option (List Kevent) → ℤ → ℤ)
    → KqueueTable
    → ℤ
    → KqueueTable × ℤ
kqueue_table_commit kevent kt nevents =
    let n = kevent kt.kq kt.changelist kt.nchanges kt.eventlist nevents in
    (record kt { nevents = n }, n)

-- The blocks that are freed.
abbrev pub kqueue_table_destroy : KqueueTable → Option (List Kevent) × Option (List Kevent)
kqueue_table_destroy kt = (kt.changelist, kt.eventlist)
