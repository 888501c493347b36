-- ===== src/Io.antt =====
-- main/barrier/barrier_io.c: big-endian reads and writes. A pointer `&buf[p]` is the array and `p`.
pub mod Laws
use esp32_deskflow.Prelude.{ℕ, ◌+◌, List, set, bit_and, bit_or, u8, ◌<<<◌, ◌>>>◌, ℤ}
use esp32_deskflow.Prelude.{int16_of_u16, int8_of_u8, u16_of_int}
use esp32_deskflow.Esp.{Outcome, done, load, ◌>>=◌}

unfoldable pub io_read_u32_be : List ℕ → ℕ → Outcome ℕ
io_read_u32_be buf p = do
  b0 ← load buf p
  b1 ← load buf (p + 1)
  b2 ← load buf (p + 2)
  b3 ← load buf (p + 3)
  done (bit_or (bit_or (bit_or (b0 <<< 24) (b1 <<< 16)) (b2 <<< 8)) b3)

unfoldable pub io_read_u16_be : List ℕ → ℕ → Outcome ℕ
io_read_u16_be buf p = do b0 ← load buf p; b1 ← load buf (p + 1); done (bit_or (b0 <<< 8) b1)

unfoldable pub io_read_i16_be : List ℕ → ℕ → Outcome ℤ
unfolding io_read_u16_be
io_read_i16_be buf p = do v ← io_read_u16_be buf p; done (int16_of_u16 v)

unfoldable pub io_read_i8 : List ℕ → ℕ → Outcome ℤ
io_read_i8 buf p = do b ← load buf p; done (int8_of_u8 b)

unfoldable pub io_write_u32_be : List ℕ → ℕ → ℕ → List ℕ
io_write_u32_be buf p val =
    let buf = set buf p (u8 (bit_and (val >>> 24) 0xff)) in
    let buf = set buf (p + 1) (u8 (bit_and (val >>> 16) 0xff)) in
    let buf = set buf (p + 2) (u8 (bit_and (val >>> 8) 0xff)) in
    set buf (p + 3) (u8 (bit_and val 0xff))

unfoldable pub io_write_u16_be : List ℕ → ℕ → ℕ → List ℕ
io_write_u16_be buf p val =
    let buf = set buf p (u8 (bit_and (val >>> 8) 0xff)) in set buf (p + 1) (u8 (bit_and val 0xff))

unfoldable pub io_write_i16_be : List ℕ → ℕ → ℤ → List ℕ
unfolding io_write_u16_be
io_write_i16_be buf p val = io_write_u16_be buf p (u16_of_int val)
