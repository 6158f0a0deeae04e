-- ===== src/Servers/EasyServer.antt =====
-- `Kernel Modules/hw6/easyserver`: `print_info` of `sysinfo.c`, and `easy_server.c`, which sends its text
-- to each client. `decimal` is what `printf` writes for a number. (`none`: undefined behaviour.)
pub mod Report
pub mod Runs
use c_advanced_problems.Prelude.{
  ℕ, ◌+◌, suc, Bool, Option, none, some, List, [], ◌∷◌, ◌++◌, if◌then◌else◌, ltb, length, take,
  drop,
}
use c_advanced_problems.Driver.User.{codes}
use c_advanced_problems.Servers.Text.{string_at}
use c_advanced_problems.Servers.World.{◌>>=◌}

-- bufsize
abbrev pub buffer_size : ℕ
buffer_size = 2048

-- What `sysinfo` reports.
pub record Info : Type 0 where
  pub uptime : ℕ
  pub procs : ℕ
  pub totalram : ℕ
  pub freeram : ℕ
  pub mem_unit : ℕ

-- `tx_buffer` and `tx_size`.
pub record Tx : Type 0 where
  pub memory : List ℕ
  pub size : ℕ

-- `*size += sprintf(&buffer[*size], ...)`, for the text that is formatted, with its NUL.
pub sprintf_at : (text : List ℕ) → Tx → Option Tx
sprintf_at text t =
    if ltb (t.size + length text) (length t.memory)
    then some (record {
      memory = take t.size t.memory ++ (text ++ 0 ∷ drop (suc (t.size + length text)) t.memory);
      size = t.size + length text;
    })
    else none

-- The calls of `sprintf` in their order.
pub sprintf_all : (texts : List (List ℕ)) → Tx → Option Tx
sprintf_all [] t = some t
sprintf_all (text ∷ texts) t = sprintf_at text t >>= sprintf_all texts

-- A label, a value, and what follows it, with the newline.
abbrev pub text_line : (label : List ℕ) (value : List ℕ) (unit : List ℕ) → List ℕ
text_line label value unit = label ++ (value ++ (unit ++ 10 ∷ []))

-- One round: the answers of `listen`, `accept`, `recv`, `sysinfo` and `gethostname`, and the memory
-- behind `rx_buffer`.
pub record Client : Type 0 where
  pub listening : Bool
  pub accepted : Bool
  pub received : Option (List ℕ)
  pub info : Option Info
  pub name : Option (List ℕ)
  pub beyond : List ℕ

-- The two buffers, and what was sent.
pub record Server : Type 0 where
  pub rx : List ℕ
  pub tx : List ℕ
  pub sent : List (List ℕ)

-- Waiting for the next round, or behind `exit(1)`.
pub data Status : Type 0 where
  serving : Server → Status
  exited : Server → Status

-- `recv`, whose answer is not used.
abbrev pub received_into : Option (List ℕ) → (rx : List ℕ) → List ℕ
received_into none rx = rx
received_into (some bytes) rx = bytes ++ drop (length bytes) rx

module _ (decimal : ℕ → List ℕ) where
  abbrev pub lines : Info → (name : List ℕ) → List (List ℕ)
  lines info name =
      text_line (codes "Hostname: ") name []
      ∷ text_line (codes "Uptime: ") (decimal info.uptime) (codes " second(s)")
      ∷ text_line (codes "Process count: ") (decimal info.procs) []
      ∷ text_line (codes "Total RAM: ") (decimal info.totalram) (codes " Byte(s)")
      ∷ text_line (codes "Free RAM: ") (decimal info.freeram) (codes " Byte(s)")
      ∷ text_line (codes "Page size: ") (decimal info.mem_unit) (codes " Byte(s)")
      ∷ []

  -- `print_info`, with its return code, by the answers of `sysinfo` and `gethostname`.
  pub print_info : Option Info → Option (List ℕ) → (memory : List ℕ) → Option (Tx × ℕ)
  print_info none name memory = some (record { memory = memory; size = 0 }, 1)
  print_info (some info) none memory = some (record { memory = memory; size = 0 }, 2)
  print_info (some info) (some name) memory = do
    t ← sprintf_all (lines info name) (record { memory = memory; size = 0 })
    some (t, 0)

  -- From `recv` to `close`; the return code of `print_info` is not used.
  pub attend : Client → Server → Option Server
  attend c s = do
    text ← string_at (received_into c.received s.rx ++ c.beyond)
    (t, code) ← print_info c.info c.name s.tx
    some (record {
      rx = received_into c.received s.rx;
      tx = t.memory;
      sent = s.sent ++ take t.size t.memory ∷ [];
    })

  -- `main`
  pub main : List Client → Server → Option Status
  main [] s = some (serving s)
  main (c ∷ cs) s =
      if c.listening
      then if c.accepted then attend c s >>= main cs else some (exited s)
      else some (exited s)
