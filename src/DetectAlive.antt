-- ===== src/DetectAlive.antt =====
-- detectAlive.c: the addresses that `do_connect` tries and the loop of `worker`, as steps on its
-- counts. What the system answers to `socket`, `connect` and `epoll_wait` is open.
pub mod Counts
pub mod Targets
mod Tests
use mbench.Prelude.{
  ℕ, ◌+◌, ◌-◌, ◌/◌, ◌%◌, ◌≤◌, ◌<◌, ◌≡◌, ◌⊎◌, Option, none, some, if◌then◌else◌, ◌==◌,
}

abbrev pub max_conn_one : ℕ
max_conn_one = 4096

-- 0x0a170000.
abbrev pub max_ip_addr : ℕ
max_ip_addr = 169279488

-- 0x0a030000.
abbrev pub first_addr : ℕ
first_addr = 167968768

abbrev pub total_n : ℕ
total_n = 150000

-- The address that `do_connect` connects to: a last byte 255 is skipped, then a third byte 255, and
-- where the second byte is 0x17 it returns -1 at once.
unfoldable pub target : ℕ → Option ℕ
target ipv4addr =
    let a = if ipv4addr % 256 == 255 then ipv4addr + 13 else ipv4addr in
    let b = if a / 256 % 256 == 255 then a + 256 else a in
    if b / 65536 % 256 == 23 then none else some b

-- Where `worker` is: in the loop that starts, with its `i`; before the test of the outer loop; in
-- the inner loop; or out, by the test or by `return -1`.
pub data Pc : Type 0 where
  starting : ℕ → Pc
  testing : Pc
  refilling : Pc
  finished : Pc
  failed : Pc

pub record Worker : Type 0 where
  pub pc : Pc
  pub ipv4addr : ℕ
  pub nconn : ℕ
  pub nclose : ℕ
  pub open_fds : ℕ  -- the sockets that the epoll instance watches
  pub leaked : ℕ  -- the sockets left open that it does not watch

abbrev pub init : Worker
init = record {
  pc = Pc.starting 0;
  ipv4addr = first_addr;
  nconn = 0;
  nclose = 0;
  open_fds = 0;
  leaked = 0;
}

-- How `do_connect` ends: with 0, and a socket that is watched; with -1 and no socket; or with -1
-- and a socket left open, where `connect` or `epoll_ctl` fails.
pub data Connect : Type 0 where
  made : Connect
  refused : Connect
  lost : Connect

abbrev pub made_one : Connect → ℕ
made_one made = 1
made_one refused = 0
made_one lost = 0

abbrev pub lost_one : Connect → ℕ
lost_one made = 0
lost_one refused = 0
lost_one lost = 1

-- `if(do_connect(epollfd, ipv4addr) == 0) nconn++; ipv4addr++;`
abbrev pub attempt : Worker → Connect → Pc → Worker
attempt s result pc = record {
  pc = pc;
  ipv4addr = s.ipv4addr + 1;
  nconn = s.nconn + made_one result;
  nclose = s.nclose;
  open_fds = s.open_fds + made_one result;
  leaked = s.leaked + lost_one result;
}

-- `(nconn < total_n) || (nclose < nconn) || (ipv4addr < MAX_IP_ADDR)`.
abbrev pub Continues : Worker → Type 0
Continues s = (s.nconn < total_n) ⊎ ((s.nclose < s.nconn) ⊎ (s.ipv4addr < max_ip_addr))

abbrev pub Leaves : Worker → Type 0
Leaves s = (total_n ≤ s.nconn) × (s.nconn ≤ s.nclose) × (max_ip_addr ≤ s.ipv4addr)

-- Each call of `do_connect` is a step, and so is each call of `epoll_wait` with the closes behind
-- it. `epoll_wait` reports sockets that it watches, each once, at most 4096 of them; a socket that
-- is closed is no longer watched.
pub data Step (s : Worker) : Worker → Type 0 where
  start_connect :
      (i : ℕ) (result : Connect)
      → s.pc ≡ Pc.starting i
      → i < max_conn_one
      → s.nconn ≤ total_n
      → (target s.ipv4addr ≡ none → result ≡ refused)
      → Step s (attempt s result (Pc.starting (i + 1)))
  start_done :
      (i : ℕ)
      → s.pc ≡ Pc.starting i
      → (max_conn_one ≤ i) ⊎ (total_n < s.nconn)
      → Step s (record s { pc = Pc.testing })
  wait :
      (nfds : ℕ)
      → s.pc ≡ Pc.testing
      → Continues s
      → nfds ≤ s.open_fds
      → nfds ≤ max_conn_one
      → s.ipv4addr ≤ max_ip_addr
      → Step s
          (record s { pc = Pc.refilling; nclose = s.nclose + nfds; open_fds = s.open_fds - nfds })
  wait_only :
      (nfds : ℕ)
      → s.pc ≡ Pc.testing
      → Continues s
      → nfds ≤ s.open_fds
      → nfds ≤ max_conn_one
      → max_ip_addr < s.ipv4addr
      → Step s (record s { nclose = s.nclose + nfds; open_fds = s.open_fds - nfds })
  wait_fails : s.pc ≡ Pc.testing → Continues s → Step s (record s { pc = Pc.failed })
  refill :
      (result : Connect)
      → s.pc ≡ Pc.refilling
      → s.nconn < max_conn_one + s.nclose
      → s.nconn < total_n
      → (target s.ipv4addr ≡ none → result ≡ refused)
      → Step s (attempt s result Pc.refilling)
  refill_done :
      s.pc ≡ Pc.refilling
      → (max_conn_one + s.nclose ≤ s.nconn) ⊎ (total_n ≤ s.nconn)
      → Step s (record s { pc = Pc.testing })
  leave : s.pc ≡ Pc.testing → Leaves s → Step s (record s { pc = Pc.finished })

-- The states after some steps.
pub data Steps (s : Worker) : Worker → Type 0 where
  here : Steps s s
  after : (t u : Worker) → Steps s t → Step t u → Steps s u
