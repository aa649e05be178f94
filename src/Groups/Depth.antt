-- ===== src/Groups/Depth.antt =====
-- src/groups.rs: the recursion into nested groups and the loop over the fields of an entry end.
use fix_engine.Base.{
  Bool, Bool-cases, Bytes, List, Option, Outcome, [], ap, arith, false, if_false, if_true,
  if◌then◌else◌, inl, inr, length, length-drop, none, panics, refl, returns, some, some-injective,
  suc, sym, true, zero, ℕ, ◌<◌, ◌==◌, ◌>>=◌, ◌∙◌, ◌∷◌, ◌≡◌, ◌≤◌,
}
use fix_engine.Message.{FieldEntry}
use fix_engine.Groups.{
  GroupDef, find_def, no_defs, and_def, group_def, Nested, Members, height, parse_to, find_nested,
  Cursor, members, GroupDefs, entries, parse_turn, member_turn, try_nested, counted, entry_turn,
  after_nested, delimiter_tag, count_tag, GroupEntries, RepeatingGroup, advance, heights,
  entry_value, parse_usize, member_or_done, tail, no_groups,
}
use fix_engine.Groups.Conforms.{Sound, parse_to-Sound, size_pos}
use fix_engine.Groups.Shape.{size}
use mathlib.Core.Path.{fun_ext}

-- The same first call, and rests that agree on what it gives.
>>=-agree {ℓ κ} :
    {A : Type ℓ} {B : Type κ} (m : Outcome A) {f g : A → Outcome B}
    → ((a : A) → m ≡ returns a → f a ≡ g a)
    → (m >>= f) ≡ (m >>= g)
>>=-agree (returns a) h = h a refl
>>=-agree panics h = refl

if-agree {ℓ} :
    {A : Type ℓ} (b : Bool) (x : A) {y z : A}
    → (b ≡ false → y ≡ z)
    → (if b then x else y) ≡ (if b then x else z)
if-agree true x h = refl
if-agree false x h = h refl

module _ (p q : Nested) (buffer : Bytes) (def : GroupDef)
    (same : (tag : ℕ) (nested : GroupDef) (c : Cursor)
      → find_nested def tag ≡ some nested
      → p nested c ≡ q nested c) where
  after_nested-agree :
      (more : Cursor → Outcome Members) (e : FieldEntry) (c : Cursor)
      (r : Option (RepeatingGroup × Cursor))
      → after_nested p buffer def more e c r ≡ after_nested q buffer def more e c r
  unfolding after_nested
  after_nested-agree more e c none = refl
  after_nested-agree more e c (some (g, next)) = refl

  try_nested-agree :
      (more : Cursor → Outcome Members) (e : FieldEntry) (c : Cursor) (o : Option GroupDef)
      → find_nested def e.tag ≡ o
      → try_nested p buffer def more e c o ≡ try_nested q buffer def more e c o
  unfolding try_nested
  try_nested-agree more e c none found = refl
  try_nested-agree more e c (some nested) found =
      ap (λ m. m >>= after_nested p buffer def more e c) (same e.tag nested c found)
      ∙ >>=-agree (q nested c) (λ r _. after_nested-agree more e c r)

  member_turn-agree :
      (more : Cursor → Outcome Members) (c : Cursor) (es : List FieldEntry)
      → member_turn p buffer def more c es ≡ member_turn q buffer def more c es
  unfolding member_turn
  member_turn-agree more c [] = refl
  member_turn-agree more c (e ∷ es) =
      if-agree (e.tag == delimiter_tag def) _
        (λ _. try_nested-agree more e c (find_nested def e.tag) refl)

  members-agree : (n : ℕ) (c : Cursor) → members p buffer def n c ≡ members q buffer def n c
  unfolding members
  members-agree zero c = refl
  members-agree (suc n) c =
      ap (λ more. member_turn p buffer def more c c.rest) (fun_ext (members-agree n))
      ∙ member_turn-agree (λ d. members q buffer def n d) c c.rest

  entry_turn-agree :
      (more : Cursor → Outcome (GroupEntries × Cursor)) (c : Cursor) (es : List FieldEntry)
      → entry_turn p buffer def more c es ≡ entry_turn q buffer def more c es
  unfolding entry_turn
  entry_turn-agree more c [] = refl
  entry_turn-agree more c (e ∷ es) = rw (members-agree (length es) (advance c)) refl

  entries-agree : (n : ℕ) (c : Cursor) → entries p buffer def n c ≡ entries q buffer def n c
  unfolding entries
  entries-agree zero c = refl
  entries-agree (suc n) c =
      ap (λ more. entry_turn p buffer def more c c.rest) (fun_ext (entries-agree n))
      ∙ entry_turn-agree (λ d. entries q buffer def n d) c c.rest

  counted-agree : (c : Cursor) (o : Option ℕ) → counted p buffer def c o ≡ counted q buffer def c o
  unfolding counted
  counted-agree c none = refl
  counted-agree c (some n) = rw (entries-agree n (advance c)) refl

  parse_turn-agree :
      (c : Cursor) (es : List FieldEntry)
      → parse_turn p buffer def c es ≡ parse_turn q buffer def c es
  unfolding parse_turn
  parse_turn-agree c [] = refl
  parse_turn-agree c (e ∷ es) =
      ap (λ m. if e.tag == count_tag def then m else returns none)
        (>>=-agree (entry_value buffer e) (λ v _. counted-agree c (parse_usize v 0)))

find_def-height :
    (gs : GroupDefs) (tag : ℕ) (def : GroupDef)
    → find_def gs tag ≡ some def
    → height def ≤ heights gs
unfolding find_def height
find_def-height no_defs tag def h = ground arith
find_def-height (and_def g gs) tag def h = elim (Bool-cases (count_tag g == tag)) [
  | inl e ↦ let same = ap height (some-injective (if_true _ h e)) in omega (arith, same)
  | inr e ↦ omega (arith, find_def-height gs tag def (if_false _ h e))
]

find_nested-height :
    (def : GroupDef) (tag : ℕ) (nested : GroupDef)
    → find_nested def tag ≡ some nested
    → height nested < height def
unfolding find_nested height
find_nested-height (group_def c d tags gs) tag nested h =
    omega (arith, find_def-height gs tag nested h)

height_pos : (def : GroupDef) → 1 ≤ height def
unfolding height
height_pos (group_def c d tags gs) = omega arith

-- The depth that a parse needs is the height of the definition.
parse_to-agree :
    (n m : ℕ) (buffer : Bytes) (def : GroupDef) (c : Cursor)
    → height def ≤ n
    → height def ≤ m
    → parse_to n buffer def c ≡ parse_to m buffer def c
unfolding parse_to
parse_to-agree zero m buffer def c h k = absurd (omega (arith, height_pos def))
parse_to-agree (suc n) zero buffer def c h k = absurd (omega (arith, height_pos def))
parse_to-agree (suc n) (suc m) buffer def c h k =
    parse_turn-agree (parse_to n buffer) (parse_to m buffer) buffer def
      (λ tag nested d found.
        parse_to-agree n m buffer nested d (omega (arith, find_nested-height def tag nested found))
          (omega (arith, find_nested-height def tag nested found)))
      c c.rest

module _ (p : Nested) (sound : Sound p) (buffer : Bytes) (def : GroupDef) where
  -- Two ways to go on that agree behind the field that stands first.
  abbrev Later : (Cursor → Outcome Members) → (Cursor → Outcome Members) → List FieldEntry → Type 0
  Later more next es = (d : Cursor) → length d.rest ≤ length es → more d ≡ next d

  member_or_done-Later :
      (more next : Cursor → Outcome Members) (e : FieldEntry) (es : List FieldEntry) (c : Cursor)
      → c.rest ≡ e ∷ es
      → Later more next es
      → member_or_done p buffer def more e c ≡ member_or_done p buffer def next e c
  unfolding member_or_done
  member_or_done-Later more next e es c here h =
      rw (h (advance c) (omega (arith, ap (λ fs. length (tail fs)) here))) refl

  after_nested-Later :
      (more next : Cursor → Outcome Members) (e : FieldEntry) (es : List FieldEntry) (c : Cursor)
      (nested : GroupDef) (r : Option (RepeatingGroup × Cursor))
      → c.rest ≡ e ∷ es
      → Later more next es
      → p nested c ≡ returns r
      → after_nested p buffer def more e c r ≡ after_nested p buffer def next e c r
  unfolding after_nested
  after_nested-Later more next e es c nested none here h got =
      member_or_done-Later more next e es c here h
  after_nested-Later more next e es c nested (some (g, d)) here h got =
      let moves = (sound nested c d g got).moves in
      let one = size_pos g in
      let shorter : length d.rest ≤ length es =
        omega (arith, one, ap length moves.by_rest, ap length here, length-drop (size g) c.rest) in
      rw (h d shorter) refl

  try_nested-Later :
      (more next : Cursor → Outcome Members) (e : FieldEntry) (es : List FieldEntry) (c : Cursor)
      (o : Option GroupDef)
      → c.rest ≡ e ∷ es
      → Later more next es
      → try_nested p buffer def more e c o ≡ try_nested p buffer def next e c o
  unfolding try_nested
  try_nested-Later more next e es c none here h = member_or_done-Later more next e es c here h
  try_nested-Later more next e es c (some nested) here h =
      >>=-agree (p nested c) (λ r got. after_nested-Later more next e es c nested r here h got)

  member_turn-Later :
      (more next : Cursor → Outcome Members) (c : Cursor) (es : List FieldEntry)
      → c.rest ≡ es
      → Later more next (tail es)
      → member_turn p buffer def more c es ≡ member_turn p buffer def next c es
  unfolding member_turn
  member_turn-Later more next c [] here h = refl
  member_turn-Later more next c (e ∷ es) here h =
      if-agree (e.tag == delimiter_tag def) _
        (λ _. try_nested-Later more next e es c (find_nested def e.tag) here h)

  member_turn-nil :
      (more : Cursor → Outcome Members) (c : Cursor) (es : List FieldEntry)
      → length es ≤ 0
      → member_turn p buffer def more c es ≡ returns ([], no_groups, c)
  unfolding member_turn
  member_turn-nil more c [] h = refl
  member_turn-nil more c (e ∷ es) h = absurd (omega arith)

  length-tail : (es : List FieldEntry) (n : ℕ) → length es ≤ suc n → length (tail es) ≤ n
  length-tail [] n h = omega arith
  length-tail (e ∷ es) n h = omega arith

  members-fuel :
      (n m : ℕ) (c : Cursor)
      → length c.rest ≤ n
      → length c.rest ≤ m
      → members p buffer def n c ≡ members p buffer def m c
  unfolding members
  members-fuel zero zero c h k = refl
  members-fuel zero (suc m) c h k = sym (member_turn-nil (λ d. members p buffer def m d) c c.rest h)
  members-fuel (suc n) zero c h k = member_turn-nil (λ d. members p buffer def n d) c c.rest k
  members-fuel (suc n) (suc m) c h k = member_turn-Later _ _ c c.rest refl (λ d l.
      members-fuel n m d (omega (arith, length-tail c.rest n h))
        (omega (arith, length-tail c.rest m k)))

-- The parse does not run out: a depth of nesting that is at least the height of the definition gives
-- the same group as any other such depth, and in it the loop over the fields of an entry gives the
-- same with any two numbers of turns that are at least the number of fields.
pub parse_to-enough :
    (n m k l : ℕ) (buffer : Bytes) (def : GroupDef) (c : Cursor)
    → height def ≤ n
    → height def ≤ m
    → length c.rest ≤ k
    → length c.rest ≤ l
    → (parse_to n buffer def c ≡ parse_to m buffer def c)
      × (members (parse_to n buffer) buffer def k c ≡ members (parse_to m buffer) buffer def l c)
unfolding parse_to height
parse_to-enough n m k l buffer def c deep also_deep high also_high = (
  parse_to-agree n m buffer def c deep also_deep,
  members-fuel (parse_to n buffer) (parse_to-Sound n buffer) buffer def k l c high also_high
      ∙ members-agree (parse_to n buffer) (parse_to m buffer) buffer def
          (λ tag nested d found.
            parse_to-agree n m buffer nested d
              (omega (arith, find_nested-height def tag nested found))
              (omega (arith, find_nested-height def tag nested found)))
          l c,
)
