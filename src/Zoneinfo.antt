-- ===== src/Zoneinfo.antt =====
-- getAvaiFreeMem.c, and getMemoryInfo.c, which has the same code: the free memory of the normal
-- zones, from the lines of /proc/zoneinfo as `fgets` returns them.
pub mod Scan
pub mod Nodes
pub mod Decimal
pub mod Steps
pub mod Lines
pub mod Blocks
mod Tests
use mbench.Prelude.{
  ℕ, ◌-◌, ◌++◌, true, false, ◌+◌, ◌^◌, ◌%◌, Bool, ◌&&◌, Option, none, some, List, [], ◌∷◌, ltb, leb,
  ◌==◌, if◌then◌else◌, to_int,
}
use mbench.Zoneinfo.Scan.{codes, contains, strstr, scan, skip_blanks}

-- What is printed for a zone. A `long long` is its 64-bit pattern.
pub record Report : Type 0 where
  pub node : ℕ
  pub free : ℕ
  pub low : ℕ
  pub inact : ℕ
  pub avlb : ℕ

-- The variables of the loop over the lines of a zone.
pub record Zone : Type 0 where
  pub zoneid : ℕ
  pub free_page : ℕ
  pub low : ℕ
  pub nr_inactive_file : ℕ
  pub cnt_got : ℕ

abbrev pub negative : ℕ → Bool
negative x = leb (2 ^ 63) x

-- The header of a normal zone: its node.
unfoldable pub header : List ℕ → Option ℕ
header linebuf = elim (scan (codes "Node ") linebuf) [
  | none ↦ none
  | some n ↦ if contains (codes "Normal") linebuf then some (to_int n) else none
]

-- `zoneid` and the initial values, with -1 for the inactive pages.
abbrev pub opened : ℕ → Zone
opened n = record { zoneid = n; free_page = 0; low = 0; nr_inactive_file = 2 ^ 64 - 1; cnt_got = 0 }

-- One of the two tests for the inactive pages, for the name in the line.
unfoldable pub count_inactive : List ℕ → List ℕ → Zone → Zone
count_inactive name ptr z =
    if negative z.nr_inactive_file && contains name ptr
    then elim (scan (name ++ codes " ") ptr) [
      | none ↦ z
      | some v ↦ record z { nr_inactive_file = v; cnt_got = z.cnt_got + 1 }
    ]
    else z

unfoldable pub count_both : List ℕ → Zone → Zone
count_both ptr z =
    count_inactive (codes "nr_inactive_file") ptr
      (count_inactive (codes "nr_zone_inactive_file") ptr z)

unfoldable pub report : Zone → Report
report z = record {
  node = z.zoneid;
  free = z.free_page;
  low = z.low;
  inact = z.nr_inactive_file;
  avlb = (z.free_page + z.nr_inactive_file + (2 ^ 64 - z.low)) % 2 ^ 64;
}

-- The end of a turn: the check for two counts, then `while (cnt_got < 2 && ...)`.
pub data Next : Type 0 where
  reported : Next
  again : Next
  leave : Next

abbrev pub decide : Zone → Next
decide z = if z.cnt_got == 2 then reported else if ltb z.cnt_got 2 then again else leave

-- The low mark in a line.
unfoldable pub low_of : List ℕ → Option ℕ
low_of linebuf = elim (strstr (codes "low") linebuf) [
  | none ↦ none
  | some ptr ↦ scan (codes "low ") ptr
]

unfoldable mutual
  -- The loop over the file.
  pub core_process : List (List ℕ) → List Report
  core_process [] = []
  core_process (l ∷ lines) = elim (header l) [
    | none ↦ core_process lines
    | some n ↦ zone (opened n) lines
  ]

  -- The loop over the lines of a zone.
  pub zone : Zone → List (List ℕ) → List Report
  zone z [] = []
  zone z (l ∷ lines) =
      let ptr = skip_blanks l in
      let z' = count_both ptr z in
      elim (contains (codes "pages free") ptr) [
        | true ↦ elim (scan (codes "pages free ") ptr) [
          | none ↦ core_process lines
          | some v ↦ lows (record z' { free_page = v }) 3 lines
        ]
        | false ↦ elim (decide z') [
          | reported ↦ report z' ∷ core_process lines
          | again ↦ zone z' lines
          | leave ↦ core_process lines
        ]
      ]

  -- The loop over the `left` lines that may have the low mark; `left` is not 0.
  pub lows : Zone → ℕ → List (List ℕ) → List Report
  lows z left [] = elim (decide z) [ reported ↦ report z ∷ [] | again ↦ [] | leave ↦ [] ]
  lows z left (l ∷ lines) = elim (low_of l) [
    | some v ↦
        let z' = record z { low = v; cnt_got = z.cnt_got + 1 } in
        elim (decide z') [
          | reported ↦ report z' ∷ core_process lines
          | again ↦ zone z' lines
          | leave ↦ core_process lines
        ]
    | none ↦ elim (leb left 1) [
      | false ↦ lows z (left - 1) lines
      | true ↦ elim (decide z) [
        | reported ↦ report z ∷ core_process lines
        | again ↦ zone z lines
        | leave ↦ core_process lines
      ]
    ]
  ]

-- What `getopt` returns for the string "n:memNode": `n` with what `atoi` makes of its argument, an
-- `int` as its 32-bit pattern, or a letter that ends in `usage`; `v` and `h` are among these.
pub data Opt : Type 0 where
  n : ℕ → Opt
  other : Opt

-- `memNode`; `none` is `usage`.
unfoldable pub set_options : ℕ → List Opt → Option ℕ
set_options mem_node [] = some mem_node
set_options mem_node (Opt.n v ∷ os) = set_options (if leb (2 ^ 31) v then 0 else v) os
set_options mem_node (Opt.other ∷ os) = none

-- `none` is the exit from `usage`. What `fopen` returns is `none` where it fails; `memNode` is used
-- nowhere.
unfoldable pub main : List Opt → Option (List (List ℕ)) → Option (List Report)
main os file = elim (set_options 0 os) [
  | none ↦ none
  | some mem_node ↦ elim file [ none ↦ some [] | some lines ↦ some (core_process lines) ]
]
