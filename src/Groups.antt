-- ===== src/Groups.antt =====
-- src/groups.rs: repeating groups of a parsed message, with nested groups.
-- The loops run over the field entries from `idx` on, and count `idx` along; what is pushed on a
-- vector is put in front of what the rest of the loop pushes. `Vec::with_capacity` panics where the
-- entries would take more than `isize::MAX` bytes; that memory can run out before is not modelled.
pub mod Shape
pub mod Conforms
pub mod Depth
pub mod Flat
pub mod Wire
pub mod Tests
use Prim.Native.Nat.{max}
use mathlib.Core.Option
use fix_engine.Base.{
  Bool, Bytes, List, Option, Outcome, [], drop, false, if◌then◌else◌, length, ltb, none, panics,
  returns, some, suc, zero, ℕ, ◌%◌, ◌*◌, ◌+◌, ◌-◌, ◌==◌, ◌>>=◌, ◌^◌, ◌||◌, ◌∷◌,
}
use fix_engine.Message.{FieldEntry, entry_value, not_digit, neg64}

mutual
  pub data GroupDef : Type 0 where
    group_def : ℕ → ℕ → List ℕ → GroupDefs → GroupDef

  pub data GroupDefs : Type 0 where
    no_defs : GroupDefs
    and_def : GroupDef → GroupDefs → GroupDefs

abbrev pub count_tag : GroupDef → ℕ
count_tag (group_def c d tags nested) = c

abbrev pub delimiter_tag : GroupDef → ℕ
delimiter_tag (group_def c d tags nested) = d

abbrev pub member_tags : GroupDef → List ℕ
member_tags (group_def c d tags nested) = tags

abbrev pub nested_groups : GroupDef → GroupDefs
nested_groups (group_def c d tags nested) = nested

mutual
  pub data RepeatingGroup : Type 0 where
    group : ℕ → ℕ → GroupEntries → RepeatingGroup

  pub data GroupEntries : Type 0 where
    no_entries : GroupEntries
    and_entry : GroupEntry → GroupEntries → GroupEntries

  pub data GroupEntry : Type 0 where
    entry : List (ℕ × Bytes) → RepeatingGroups → GroupEntry

  pub data RepeatingGroups : Type 0 where
    no_groups : RepeatingGroups
    and_group : RepeatingGroup → RepeatingGroups → RepeatingGroups

abbrev pub tag_of : RepeatingGroup → ℕ
tag_of (group tag n es) = tag

unfoldable pub count : RepeatingGroup → ℕ
count (group tag n es) = n

-- `entries.len()`.
abbrev pub entry_count : GroupEntries → ℕ
entry_count no_entries = 0
entry_count (and_entry e es) = suc (entry_count es)

-- `GroupDef::new`.
unfoldable pub new : ℕ → ℕ → List ℕ → GroupDef
new c d tags = group_def c d tags no_defs

abbrev push_def : GroupDefs → GroupDef → GroupDefs
push_def no_defs nested = and_def nested no_defs
push_def (and_def g gs) nested = and_def g (push_def gs nested)

unfoldable pub with_nested : GroupDef → GroupDef → GroupDef
with_nested (group_def c d tags gs) nested = group_def c d tags (push_def gs nested)

-- `contains` of a vector of tags.
abbrev pub contains_tag : List ℕ → ℕ → Bool
contains_tag [] tag = false
contains_tag (t ∷ ts) tag = t == tag || contains_tag ts tag

unfoldable pub is_member : GroupDef → ℕ → Bool
is_member def tag = contains_tag (member_tags def) tag

unfoldable pub find_def : GroupDefs → ℕ → Option GroupDef
find_def no_defs tag = none
find_def (and_def g gs) tag = if count_tag g == tag then some g else find_def gs tag

unfoldable pub find_nested : GroupDef → ℕ → Option GroupDef
unfolding find_def
find_nested def tag = find_def (nested_groups def) tag

-- The entries from `idx` on.
pub record Cursor : Type 0 where
  pub idx : ℕ
  pub rest : List FieldEntry

abbrev pub tail : List FieldEntry → List FieldEntry
tail [] = []
tail (e ∷ es) = es

abbrev pub advance : Cursor → Cursor
advance c = record { idx = c.idx + 1; rest = tail c.rest }

-- `parse_usize_from_buf`, on the value; the arithmetic wraps.
unfoldable pub parse_usize : Bytes → ℕ → Option ℕ
parse_usize [] result = some result
parse_usize (b ∷ bs) result =
    let rest = parse_usize bs ((result * 10 + (b - b'0')) % 2 ^ 64) in
    if not_digit b then none else rest

-- What the loop over the fields of an entry has pushed, and where it stands.
abbrev pub Members : Type 0
Members = List (ℕ × Bytes) × RepeatingGroups × Cursor

abbrev pub Nested : Type 0
Nested = GroupDef → Cursor → Outcome (Option (RepeatingGroup × Cursor))

-- The parse of a nested group is a parameter here.
module _ (parse_nested : Nested) (buffer : Bytes) (def : GroupDef) where
  -- A member is consumed; anything else ends the entry.
  unfoldable pub member_or_done : (Cursor → Outcome Members) → FieldEntry → Cursor → Outcome Members
  unfolding is_member entry_value
  member_or_done more e c =
      if is_member def e.tag
      then (entry_value buffer e >>= λ v.
          more (advance c) >>= λ m. returns ((e.tag, v) ∷ m.0, m.1, m.2))
      else returns ([], no_groups, c)

  unfoldable pub after_nested :
      (Cursor → Outcome Members)
      → FieldEntry
      → Cursor
      → Option (RepeatingGroup × Cursor)
      → Outcome Members
  unfolding member_or_done
  after_nested more e c none = member_or_done more e c
  after_nested more e c (some (g, next)) = more next >>= λ m. returns (m.0, and_group g m.1, m.2)

  unfoldable pub try_nested :
      (Cursor → Outcome Members) → FieldEntry → Cursor → Option GroupDef → Outcome Members
  unfolding after_nested
  try_nested more e c none = member_or_done more e c
  try_nested more e c (some nested_def) = parse_nested nested_def c >>= after_nested more e c

  -- A turn of the loop over the fields of an entry.
  unfoldable pub member_turn :
      (Cursor → Outcome Members) → Cursor → List FieldEntry → Outcome Members
  unfolding try_nested find_nested
  member_turn more c [] = returns ([], no_groups, c)
  member_turn more c (e ∷ es) =
      if e.tag == delimiter_tag def
      then returns ([], no_groups, c)
      else try_nested more e c (find_nested def e.tag)

  -- Each turn consumes a field, so their number is enough fuel.
  unfoldable pub members : ℕ → Cursor → Outcome Members
  unfolding member_turn
  members zero c = returns ([], no_groups, c)
  members (suc fuel) c = member_turn (λ d. members fuel d) c c.rest

  -- A turn of the loop over the entries, which begins with a delimiter field.
  unfoldable pub entry_turn :
      (Cursor → Outcome (GroupEntries × Cursor))
      → Cursor
      → List FieldEntry
      → Outcome (GroupEntries × Cursor)
  unfolding members entry_value
  entry_turn more c [] = returns (no_entries, c)
  entry_turn more c (e ∷ es) =
      if e.tag == delimiter_tag def
      then (entry_value buffer e >>= λ v. members (length es) (advance c) >>= λ m.
          more m.2 >>= λ r. returns (and_entry (entry ((e.tag, v) ∷ m.0) m.1) r.0, r.1))
      else returns (no_entries, c)

  unfoldable pub entries : ℕ → Cursor → Outcome (GroupEntries × Cursor)
  unfolding entry_turn
  entries zero c = returns (no_entries, c)
  entries (suc n) c = entry_turn (λ d. entries n d) c c.rest

  -- The group, for what the count says.
  unfoldable pub counted : Cursor → Option ℕ → Outcome (Option (RepeatingGroup × Cursor))
  unfolding entries
  counted c none = returns none
  counted c (some n) =
      if n == 0
      then returns (some (group (count_tag def) 0 no_entries, advance c))
      else if ltb (2 ^ 63 - 1) (n * 48)
      then panics
      else (entries n (advance c) >>= λ r.
          returns (some (group (count_tag def) (entry_count r.0) r.0, r.1)))

  unfoldable pub parse_turn : Cursor → List FieldEntry → Outcome (Option (RepeatingGroup × Cursor))
  unfolding counted parse_usize entry_value
  parse_turn c [] = returns none
  parse_turn c (e ∷ es) =
      if e.tag == count_tag def
      then (entry_value buffer e >>= λ v. counted c (parse_usize v 0))
      else returns none

-- `RepeatingGroup::parse` to a depth of nesting.
unfoldable pub parse_to : ℕ → Bytes → Nested
unfolding parse_turn
parse_to zero buffer def c = returns none
parse_to (suc depth) buffer def c = parse_turn (parse_to depth buffer) buffer def c c.rest

-- How deep the definitions nest.
unfoldable mutual
  pub height : GroupDef → ℕ
  height (group_def c d tags gs) = suc (heights gs)

  pub heights : GroupDefs → ℕ
  heights no_defs = 0
  heights (and_def g gs) = max (height g) (heights gs)

-- The field index behind the group.
abbrev pub with_index : Option (RepeatingGroup × Cursor) → Option (RepeatingGroup × ℕ)
with_index none = none
with_index (some (g, c)) = some (g, c.idx)

-- `RepeatingGroup::parse`. The group's height is enough depth.
unfoldable pub parse :
    Bytes → List FieldEntry → ℕ → GroupDef → Outcome (Option (RepeatingGroup × ℕ))
unfolding parse_to height
parse buffer fields start def =
    parse_to (height def) buffer def (record { idx = start; rest = drop start fields }) >>= λ r.
    returns (with_index r)

abbrev nth_entry : GroupEntries → ℕ → Option GroupEntry
nth_entry no_entries i = none
nth_entry (and_entry e es) zero = some e
nth_entry (and_entry e es) (suc i) = nth_entry es i

unfoldable pub get_entry : RepeatingGroup → ℕ → Option GroupEntry
get_entry (group tag n es) index = nth_entry es index

abbrev pub find_field : List (ℕ × Bytes) → ℕ → Option Bytes
find_field [] tag = none
find_field ((t, v) ∷ fs) tag = if t == tag then some v else find_field fs tag

unfoldable pub get_field : GroupEntry → ℕ → Option Bytes
get_field (entry fs gs) tag = find_field fs tag

-- `parse_i64_bytes`, on the bit pattern of an `i64`; `b"-"` is zero.
unfoldable pub parse_i64 : Bytes → Option ℕ
unfolding parse_usize
parse_i64 [] = none
parse_i64 (b ∷ bs) =
    if b == b'-' then Option.map neg64 (parse_usize bs 0) else parse_usize (b ∷ bs) 0

unfoldable pub get_field_i64 : GroupEntry → ℕ → Option ℕ
unfolding get_field parse_i64
get_field_i64 e tag = elim (get_field e tag) [ none ↦ none | some v ↦ parse_i64 v ]

abbrev find_group : RepeatingGroups → ℕ → Option RepeatingGroup
find_group no_groups tag = none
find_group (and_group g gs) tag = if tag_of g == tag then some g else find_group gs tag

unfoldable pub get_nested : GroupEntry → ℕ → Option RepeatingGroup
get_nested (entry fs gs) tag = find_group gs tag

-- The standard groups: market data entries, legs and fills.
abbrev pub md_entries_group : GroupDef
md_entries_group = group_def 268 269 (269 ∷ (270 ∷ (271 ∷ (279 ∷ [])))) no_defs

abbrev pub legs_group : GroupDef
legs_group = group_def 555 600 (600 ∷ (624 ∷ (687 ∷ []))) no_defs

abbrev pub fills_group : GroupDef
fills_group = group_def 1_362 1_363 (1_363 ∷ (1_364 ∷ (1_365 ∷ []))) no_defs
