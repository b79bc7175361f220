-- ===== src/MemLat/Loops.antt =====
-- The measured loops of mem_lat.c: `measure_rnd_read` and `measure_rnd_fill`, with the macros
-- that unroll them. The clock readings around the loops are left out.
pub mod Read
pub mod Fill
mod Tests
use mbench.Prelude.{ℕ, zero, suc, ◌+◌, Mem, store}

-- `RD_ONE` to `RD_HUNDRED`.
abbrev pub rd_one : Mem → ℕ → ℕ
rd_one m p = m p

pub rd_five : Mem → ℕ → ℕ
rd_five m p = rd_one m (rd_one m (rd_one m (rd_one m (rd_one m p))))

pub rd_ten : Mem → ℕ → ℕ
rd_ten m p = rd_five m (rd_five m p)

pub rd_fifty : Mem → ℕ → ℕ
rd_fifty m p = rd_ten m (rd_ten m (rd_ten m (rd_ten m (rd_ten m p))))

pub rd_hundred : Mem → ℕ → ℕ
rd_hundred m p = rd_fifty m (rd_fifty m p)

-- `for (i = 0; i < itr2; i++) RD_HUNDRED`
pub read_inner : Mem → ℕ → ℕ → ℕ
read_inner m zero p = p
read_inner m (suc n) p = read_inner m n (rd_hundred m p)

-- `while (itr1-- > 0)`
pub read_outer : Mem → ℕ → ℕ → ℕ → ℕ
read_outer m zero itr2 p = p
read_outer m (suc itr1) itr2 p = read_outer m itr1 itr2 (read_inner m itr2 p)

-- The new `*paddr`: one more load, against the optimiser.
pub measure_rnd_read : Mem → ℕ → ℕ → ℕ → ℕ
measure_rnd_read m paddr itr1 itr2 = m (read_outer m itr1 itr2 paddr)

-- Memory and `q`, where a loop writes.
abbrev pub Walk : Type 0
Walk = Mem × ℕ

-- `q[1] = 1; q = *q`, and its repetitions, for links that are 16 bytes apart or more: with fewer
-- bytes the store also changes a part of the next link.
unfoldable pub wr_one : Walk → Walk
wr_one (m, q) = (store m (q + 8) 1, store m (q + 8) 1 q)

pub wr_five : Walk → Walk
wr_five w = wr_one (wr_one (wr_one (wr_one (wr_one w))))

pub wr_ten : Walk → Walk
wr_ten w = wr_five (wr_five w)

pub wr_fifty : Walk → Walk
wr_fifty w = wr_ten (wr_ten (wr_ten (wr_ten (wr_ten w))))

pub wr_hundred : Walk → Walk
wr_hundred w = wr_fifty (wr_fifty w)

pub fill_inner : ℕ → Walk → Walk
fill_inner zero w = w
fill_inner (suc n) w = fill_inner n (wr_hundred w)

pub fill_outer : ℕ → ℕ → Walk → Walk
fill_outer zero itr2 w = w
fill_outer (suc itr1) itr2 w = fill_outer itr1 itr2 (fill_inner itr2 w)

-- The memory afterwards, and the new `*paddr`, which is `q` itself here.
pub measure_rnd_fill : Mem → ℕ → ℕ → ℕ → Walk
measure_rnd_fill m paddr itr1 itr2 = fill_outer itr1 itr2 (m, paddr)
