-- ===== src/MemLat/Loops/Read.antt =====
-- `measure_rnd_read` makes exactly the loads that the reported average divides by.
use mbench.Prelude.{ℕ, zero, suc, ◌+◌, ◌*◌, ◌%◌, ◌≡◌, refl, ap, sym, ◌∙◌, arith, Mem, chase}
use mbench.Ring.{Period, Period-mod, chase-add}
use mbench.MemLat.Loops.{
  rd_five, rd_ten, rd_fifty, rd_hundred, read_inner, read_outer, measure_rnd_read,
}

-- Loads can be taken at the start as well as at the end.
rd_hundred_lem : (m : Mem) (p : ℕ) → rd_hundred m p ≡ chase m 100 p
unfolding rd_five rd_ten rd_fifty rd_hundred
rd_hundred_lem m p = refl

read_inner_lem : (m : Mem) (n p : ℕ) → read_inner m n p ≡ chase m (n * 100) p
unfolding read_inner
read_inner_lem m zero p = refl
read_inner_lem m (suc n) p =
    let e : suc n * 100 ≡ n * 100 + 100 = omega arith in
    read_inner_lem m n (rd_hundred m p)
    ∙ ap (chase m (n * 100)) (rd_hundred_lem m p)
    ∙ sym (chase-add m (n * 100) 100 p)
    ∙ ap (λ k. chase m k p) (sym e)

read_outer_lem :
    (m : Mem) (itr1 itr2 p : ℕ) → read_outer m itr1 itr2 p ≡ chase m (itr1 * (itr2 * 100)) p
unfolding read_outer
read_outer_lem m zero itr2 p = let e : 0 ≡ 0 * (itr2 * 100) = omega arith in ap (λ k. chase m k p) e
read_outer_lem m (suc itr1) itr2 p =
    let e : suc itr1 * (itr2 * 100) ≡ itr1 * (itr2 * 100) + itr2 * 100 = omega arith in
    read_outer_lem m itr1 itr2 (read_inner m itr2 p)
    ∙ ap (chase m (itr1 * (itr2 * 100))) (read_inner_lem m itr2 p)
    ∙ sym (chase-add m (itr1 * (itr2 * 100)) (itr2 * 100) p)
    ∙ ap (λ k. chase m k p) (sym e)

-- On a ring of period `p` through `a` the loops end at the address that is `itr1 * itr2 * 100`
-- loads after `a`, counted modulo `p`, and what the call leaves in `*paddr` is one load further.
pub measure_rnd_read_ring :
    (m : Mem) (a p itr1 itr2 : ℕ)
    → Period m a p
    → (read_outer m itr1 itr2 a ≡ chase m (itr1 * itr2 * 100 % p) a)
      × (measure_rnd_read m a itr1 itr2 ≡ chase m ((itr1 * itr2 * 100 + 1) % p) a)
unfolding measure_rnd_read
measure_rnd_read_ring m a p itr1 itr2 per = (
  loads ∙ Period-mod m a p _ per,
  ap m loads ∙ ap (λ k. chase m k a) one_more ∙ Period-mod m a p (itr1 * itr2 * 100 + 1) per,
)
  where
    count : itr1 * (itr2 * 100) ≡ itr1 * itr2 * 100
    count = grind arith

    loads : read_outer m itr1 itr2 a ≡ chase m (itr1 * itr2 * 100) a
    loads = read_outer_lem m itr1 itr2 a ∙ ap (λ k. chase m k a) count

    one_more : suc (itr1 * itr2 * 100) ≡ itr1 * itr2 * 100 + 1
    one_more = omega arith
