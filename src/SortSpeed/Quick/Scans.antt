-- ===== src/SortSpeed/Quick/Scans.antt =====
-- The scans and the swap of `scalar_partition_epi32`.
use mbench.Prelude.{ℕ, zero, suc, ◌+◌, ◌-◌, ◌≤◌, ◌<◌, ◌≡◌, ◌≢◌, some, Mem, store, dec_lt, arith}
use mbench.SortSpeed.Items.{SameItems}
use mbench.SortSpeed.Windows.{cells, tally-store}
use mbench.SortSpeed.Quick.{scan_up, scan_down, swap, exchange}

-- The scan stops at the first element that is not below the pivot; `stop` is one that it meets.
pub scan_up_ends :
    (steps : ℕ) (m : Mem) (pivot a stop : ℕ)
    → a ≤ stop
    → stop < a + steps
    → pivot ≤ m stop
    → (b : ℕ) × (scan_up steps m pivot a ≡ some b)
      × (a ≤ b)
      × (b ≤ stop)
      × (pivot ≤ m b)
      × ((c : ℕ) → a ≤ c → c < b → m c < pivot)
unfolding scan_up
scan_up_ends zero m pivot a stop le lt big = absurd (omega arith)
scan_up_ends (suc steps) m pivot a stop le lt big = elim (dec_lt (m a) pivot) [
  | yes small ↦
      let ne : a ≢ stop = λ e. grind arith in
      let (b, found, low, high, ge, below) =
        scan_up_ends steps m pivot (a + 1) stop (omega (arith, ne)) (omega arith) big in
      (
        b,
        grind arith,
        omega arith,
        high,
        ge,
        λ c le' lt'. elim (dec_lt a c) [
          | yes up ↦ below c (omega arith) lt'
          | no here ↦ grind arith
        ],
      )
  | no large ↦
      (a, ground arith, omega arith, le, omega (arith, large), λ c le' lt'. absurd (omega arith))
]

pub scan_down_ends :
    (steps : ℕ) (m : Mem) (pivot a stop : ℕ)
    → stop ≤ a
    → a < stop + steps
    → m stop ≤ pivot
    → (b : ℕ) × (scan_down steps m pivot a ≡ some b)
      × (b ≤ a)
      × (stop ≤ b)
      × (m b ≤ pivot)
      × ((c : ℕ) → b < c → c ≤ a → pivot < m c)
unfolding scan_down
scan_down_ends zero m pivot a stop le lt small = absurd (omega arith)
scan_down_ends (suc steps) m pivot a stop le lt small = elim (dec_lt pivot (m a)) [
  | yes big ↦
      let ne : a ≢ stop = λ e. grind arith in
      let (b, found, low, high, ge, above) =
        scan_down_ends steps m pivot (a - 1) stop (omega (arith, ne)) (omega (arith, ne)) small in
      (
        b,
        grind arith,
        omega arith,
        high,
        ge,
        λ c lt' le'. elim (dec_lt c a) [
          | yes up ↦ above c lt' (omega arith)
          | no here ↦ grind arith
        ],
      )
  | no large ↦
      (a, ground arith, omega arith, le, omega (arith, large), λ c lt' le'. absurd (omega arith))
]

pub swap-SameItems :
    (a b first n : ℕ) (m : Mem)
    → first ≤ a
    → a ≤ b
    → b < first + n
    → SameItems (cells (swap a b m) first n) (cells m first n)
unfolding swap
swap-SameItems a b first n m le le' lt p =
    let one = tally-store p (store m a (m b)) b (m a) first n (omega arith) lt in
    let two = tally-store p m a (m b) first n le (omega arith) in grind arith

pub swap-other : (a b c : ℕ) (m : Mem) → c ≢ a → c ≢ b → swap a b m c ≡ m c
unfolding swap
swap-other a b c m ne ne' = grind arith

pub swap_first : (a b : ℕ) (m : Mem) → swap a b m a ≡ m b
unfolding swap
swap_first a b m = grind arith

pub swap_second : (a b : ℕ) (m : Mem) → swap a b m b ≡ m a
unfolding swap
swap_second a b m = grind arith

pub exchange_swaps :
    (r l : ℕ) (m : Mem)
    → r ≤ l
    → exchange r l m ≡ record { right = r + 1; left = l - 1; mem = swap r l m }
unfolding exchange
exchange_swaps r l m le = ground arith

pub exchange_stops :
    (r l : ℕ) (m : Mem) → l < r → exchange r l m ≡ record { right = r; left = l; mem = m }
unfolding exchange
exchange_stops r l m lt = ground arith
