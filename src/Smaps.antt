-- ===== src/Smaps.antt =====
-- `parse` of tlbShootDownBench.c, which adds up the fields of /proc/self/smaps.
pub mod Totals
mod Tests
use mbench.Prelude.{
  get_elem?, ℕ, suc, ◌+◌, ◌^◌, ◌%◌, Bool, true, false, ◌&&◌, Option, none, some, List, [], ◌∷◌,
  ◌==◌, if◌then◌else◌, to_int, update,
}
use mbench.Zoneinfo.Scan.{codes, is_space, skip_spaces, number}

abbrev pub field_name : List (List ℕ)
field_name =
    codes "Size:"
    ∷ codes "KernelPageSize:"
    ∷ codes "MMUPageSize:"
    ∷ codes "Rss:"
    ∷ codes "Pss:"
    ∷ codes "Shared_Clean:"
    ∷ codes "Shared_Dirty:"
    ∷ codes "Private_Clean:"
    ∷ codes "Private_Dirty:"
    ∷ codes "Referenced:"
    ∷ codes "Anonymous:"
    ∷ codes "LazyFree:"
    ∷ codes "AnonHugePages:"
    ∷ codes "ShmemPmdMapped:"
    ∷ codes "Shared_Hugetlb:"
    ∷ codes "Private_Hugetlb:"
    ∷ codes "Swap:"
    ∷ codes "SwapPss:"
    ∷ codes "Locked:"
    ∷ []

-- `strcmp(a, b) == 0`
unfoldable pub same_text : List ℕ → List ℕ → Bool
same_text [] [] = true
same_text [] (y ∷ ys) = false
same_text (x ∷ xs) [] = false
same_text (x ∷ xs) (y ∷ ys) = (x == y) && same_text xs ys

-- The word that `%s` takes, and the text after it.
unfoldable pub word : List ℕ → List ℕ × List ℕ
word [] = ([], [])
word (c ∷ cs) = let (w, rest) = word cs in if is_space c then ([], c ∷ cs) else (c ∷ w, rest)

-- `sscanf(linebuf, "%s%d", _name, &_value) == 2`; an `int` is its 32-bit pattern.
unfoldable pub name_value : List ℕ → Option (List ℕ × ℕ)
name_value linebuf =
    let (name, rest) = word (skip_spaces linebuf) in
    elim name [
      | [] ↦ none
      | c ∷ cs ↦ elim (number rest) [ none ↦ none | some v ↦ some (c ∷ cs, to_int v) ]
    ]

-- The loop over the fields' names, from index `j` on.
unfoldable pub find_field : ℕ → List (List ℕ) → List ℕ → Option ℕ
find_field j [] name = none
find_field j (x ∷ xs) name =
    let later = find_field (suc j) xs name in if same_text name x then some j else later

-- One turn of the loop over the file, on `fields`, whose entries wrap at 2^32.
unfoldable pub add_line : (ℕ → ℕ) → List ℕ → ℕ → ℕ
add_line fields linebuf = elim (name_value linebuf) [
  | none ↦ fields
  | some found ↦ elim (find_field 0 field_name found.0) [
    | none ↦ fields
    | some j ↦ update fields j ((fields j + found.1) % 2 ^ 32)
  ]
]

unfoldable pub add_lines : (ℕ → ℕ) → List (List ℕ) → ℕ → ℕ
add_lines fields [] = fields
add_lines fields (l ∷ lines) = add_lines (add_line fields l) lines

-- `none` is an `fopen` that fails, which leaves `fields` alone.
unfoldable pub parse : Option (List (List ℕ)) → (ℕ → ℕ) → ℕ → ℕ
parse none fields = fields
parse (some lines) fields = add_lines (λ j. 0) lines

-- The names of the indices.
pub data FieldType : Type 0 where
  size : FieldType
  kps : FieldType
  mmu : FieldType
  rss : FieldType
  pss : FieldType
  shrc : FieldType
  shrd : FieldType
  pric : FieldType
  prid : FieldType
  ref : FieldType
  anon : FieldType
  lzf : FieldType
  anonp : FieldType
  shmap : FieldType
  shhu : FieldType
  prhu : FieldType
  swap : FieldType
  swpss : FieldType
  lockd : FieldType

unfoldable pub index : FieldType → ℕ
index size = 0
index kps = 1
index mmu = 2
index rss = 3
index pss = 4
index shrc = 5
index shrd = 6
index pric = 7
index prid = 8
index ref = 9
index anon = 10
index lzf = 11
index anonp = 12
index shmap = 13
index shhu = 14
index prhu = 15
index swap = 16
index swpss = 17
index lockd = 18

-- What `get_rss_basic` prints: the name of the field and its entry after `parse`.
unfoldable pub get_rss_basic : Option (List (List ℕ)) → (ℕ → ℕ) → Option (List ℕ) × ℕ
get_rss_basic file fields = (get_elem? field_name (index rss), parse file fields (index rss))
