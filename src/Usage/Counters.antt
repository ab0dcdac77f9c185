-- ===== src/Usage/Counters.antt =====
-- The counters of the interfaces in gowan/src/usage.go: `read_proc_net_dev`, from the lines of
-- /proc/net/dev, none if it cannot be opened.
use luci_app_gowan.Common.{
  ℕ, ◌-◌, Option, none, some, List, [], ◌∷◌, Bytes, Dict, insert, cut, is_space, is_blank,
  trim_space, u64, saturate, get_elem?, if◌then◌else◌,
}

-- A field that has begun stands first, blank before its first byte.
gather : ℕ → List Bytes → List Bytes
gather c [] = (c ∷ []) ∷ []
gather c (w ∷ ws) = (c ∷ w) ∷ ws

end_field : List Bytes → List Bytes
end_field [] = [] ∷ []
end_field (w ∷ ws) = if is_blank w then w ∷ ws else [] ∷ w ∷ ws

open_fields : Bytes → List Bytes
unfolding gather end_field
open_fields [] = [] ∷ []
open_fields (c ∷ s) =
    let rest = open_fields s in if is_space c then end_field rest else gather c rest

drop_blank : List Bytes → List Bytes
drop_blank [] = []
drop_blank (w ∷ ws) = if is_blank w then ws else w ∷ ws

-- `strings.Fields`
unfoldable pub fields : Bytes → List Bytes
unfolding open_fields drop_blank
fields s = drop_blank (open_fields s)

-- `strconv.ParseUint(s, 10, 64)` without its error: the greatest uint64 for a number that is too large.
unfoldable pub parse_uint : Bytes → ℕ
unfolding saturate
parse_uint s = saturate (u64 - 1) s

-- `fields[0]` and `fields[8]`, none where there are fewer than nine.
counters_of : List Bytes → Option (ℕ × ℕ)
unfolding parse_uint
counters_of ws = elim (get_elem? ws 8) [
  | none ↦ none
  | some sent ↦ elim (get_elem? ws 0) [
    | none ↦ none
    | some received ↦ some (parse_uint received, parse_uint sent)
  ]
]

store : Bytes → Option (ℕ × ℕ) → Dict (ℕ × ℕ) → Dict (ℕ × ℕ)
store dev none out = out
store dev (some c) out = insert dev c out

read_line : Bytes → Dict (ℕ × ℕ) → Dict (ℕ × ℕ)
unfolding fields counters_of store
read_line line out = elim (cut b':' line) [
  | none ↦ out
  | some (dev, rest) ↦ store (trim_space dev) (counters_of (fields rest)) out
]

read_lines : List Bytes → Dict (ℕ × ℕ) → Dict (ℕ × ℕ)
unfolding read_line
read_lines [] out = out
read_lines (line ∷ lines) out = read_lines lines (read_line line out)

unfoldable pub read_proc_net_dev : Option (List Bytes) → Dict (ℕ × ℕ)
unfolding read_lines
read_proc_net_dev none = []
read_proc_net_dev (some lines) = read_lines lines []
