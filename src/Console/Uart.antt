-- ===== src/Console/Uart.antt =====
-- The transmit buffer of initial-xv6/src/kernel/uart.c. The device takes `ready` more characters before it
-- is busy, and `sent` lists those that it took, the last one first.
use cpu_scheduling_algos.Prelude.{
  ℕ, zero, suc, ◌+◌, ◌%◌, ◌==◌, if◌then◌else◌, Option, some, List, [], ◌∷◌, update,
}
use cpu_scheduling_algos.Prelude.Int.{pos}
use cpu_scheduling_algos.Proc.{Kernel, Chan}
use cpu_scheduling_algos.Waiting.{wakeup, fall_asleep}
use cpu_scheduling_algos.Pipe.{Progress, returned, asleep}
use cpu_scheduling_algos.Console.{Cons, consoleintr}

abbrev pub uart_tx_buf_size : ℕ
uart_tx_buf_size = 32

-- The transmit buffer with its 64-bit counters `uart_tx_w` and `uart_tx_r`, and the device.
pub record Uart : Type 0 where
  pub buf : ℕ → ℕ
  pub w : ℕ
  pub r : ℕ
  pub ready : ℕ
  pub sent : List ℕ

abbrev pub up64 : ℕ → ℕ
up64 n = (n + 1) % 18446744073709551616

-- `int c = uart_tx_buf[uart_tx_r % UART_TX_BUF_SIZE]; uart_tx_r += 1; … WriteReg(THR, c);`
abbrev pub send : ℕ → Uart → Uart
send left u = record u {
  r = up64 u.r;
  ready = left;
  sent = u.buf (u.r % uart_tx_buf_size) ∷ u.sent;
}

-- The loop of uartstart with a device that takes `ready` characters. `chan` is `&uart_tx_r`.
unfoldable pub start_loop : Chan → Option ℕ → ℕ → Uart → Kernel → Uart × Kernel
start_loop chan me zero u k = (u, k)
start_loop chan me (suc ready) u k =
    let rest = start_loop chan me ready (send ready u) (wakeup me chan k) in
    if u.w == u.r then (u, k) else rest

-- uartstart()
unfoldable pub uartstart : Chan → Option ℕ → Uart → Kernel → Uart × Kernel
uartstart chan me u k = start_loop chan me u.ready u k

-- `uart_tx_buf[uart_tx_w % UART_TX_BUF_SIZE] = c; uart_tx_w += 1;`
abbrev pub put_tx : ℕ → Uart → Uart
put_tx c u = record u { buf = update u.buf (u.w % uart_tx_buf_size) (c % 256); w = up64 u.w }

-- uartputc(c) up to its first sleep, with no panic before.
unfoldable pub uartputc : Chan → ℕ → ℕ → Uart → Kernel → Progress × Uart × Kernel
uartputc chan me c u k =
    let (u', k') = uartstart chan (some me) (put_tx c u) k in
    if u.w == (u.r + uart_tx_buf_size) % 18446744073709551616
    then (asleep 0, u, fall_asleep me chan k)
    else (returned (pos 0), u', k')

-- The first loop of uartintr over the characters that uartgetc() has waiting, with their echoes.
unfoldable pub receive : Chan → Option ℕ → List ℕ → Cons → Kernel → Cons × Kernel
receive chan me [] c k = (c, k)
receive chan me (ch ∷ cs) c k =
    let (echo, c', k') = consoleintr chan me ch c k in receive chan me cs c' k'

-- uartintr() with the characters that have arrived. The channels are `&cons.r` and `&uart_tx_r`.
unfoldable pub uartintr :
    Chan → Chan → Option ℕ → List ℕ → Cons → Uart → Kernel → Cons × Uart × Kernel
uartintr cons_chan chan me input c u k =
    let (c', k1) = receive cons_chan me input c k in
    let (u', k2) = uartstart chan me u k1 in (c', u', k2)
