-- ===== src/Groups/Shape.antt =====
-- src/groups.rs: the shape of a group, and the fields that a parse takes up.
use fix_engine.Base.{
  ==_iff, All, Bool-cases, Bytes, List, [], ap, arith, drop, drop-drop, if_false, if_true, inl, inr,
  length, length-drop, refl, some, some-injective, suc, sym, true, ℕ, ◌+◌, ◌==◌, ◌∙◌, ◌∷◌, ◌≡◌, ◌≢◌,
  ◌≤◌,
}
use fix_engine.Message.{FieldEntry}
use fix_engine.Groups.{
  no_defs, and_def, GroupDef, RepeatingGroup, GroupEntries, GroupEntry, RepeatingGroups, group,
  no_entries, Cursor, is_member, and_entry, find_def, count_tag, delimiter_tag, tag_of, entry_count,
  GroupDefs, entry, no_groups, Members, advance, and_def, find_nested, and_group,
}

-- A field behind the delimiter: a member, and no delimiter.
abbrev pub IsMember : GroupDef → ℕ × Bytes → Type 0
IsMember def f = (is_member def f.0 ≡ true) × (f.0 ≢ delimiter_tag def)

-- The fields of an entry: a delimiter, then members.
abbrev pub Headed : GroupDef → List (ℕ × Bytes) → Type 0
Headed def [] = ⊥
Headed def (f ∷ fs) = (f.0 ≡ delimiter_tag def) × All (IsMember def) fs

-- The shape that a definition asks for, also of the nested groups.
unfoldable mutual
  pub Conforms : GroupDef → RepeatingGroup → Type 0
  Conforms def (group tag n es) =
      (tag ≡ count_tag def) × (n ≡ entry_count es) × ConformsEntries def es

  pub ConformsEntries : GroupDef → GroupEntries → Type 0
  ConformsEntries def no_entries = Unit
  ConformsEntries def (and_entry e es) = ConformsEntry def e × ConformsEntries def es

  pub ConformsEntry : GroupDef → GroupEntry → Type 0
  ConformsEntry def (entry fs gs) = Headed def fs × ConformsGroups def gs

  pub ConformsGroups : GroupDef → RepeatingGroups → Type 0
  ConformsGroups def no_groups = Unit
  ConformsGroups def (and_group g gs) =
      ((nested : GroupDef) × (find_nested def (tag_of g) ≡ some nested) × Conforms nested g)
      × ConformsGroups def gs

-- The number of fields that a group holds, its count included.
unfoldable mutual
  pub size : RepeatingGroup → ℕ
  size (group tag n es) = suc (size_entries es)

  pub size_entries : GroupEntries → ℕ
  size_entries no_entries = 0
  size_entries (and_entry e es) = size_entry e + size_entries es

  pub size_entry : GroupEntry → ℕ
  size_entry (entry fs gs) = length fs + size_groups gs

  pub size_groups : RepeatingGroups → ℕ
  size_groups no_groups = 0
  size_groups (and_group g gs) = size g + size_groups gs

-- The cursor moves over `k` fields.
pub record Moves (c : Cursor) (k : ℕ) (d : Cursor) : Type 0 where
  pub by_index : d.idx ≡ c.idx + k
  pub by_rest : d.rest ≡ drop k c.rest
  pub within : k ≤ length c.rest

pub Moves-stay : (c : Cursor) → Moves c 0 c
Moves-stay c = record { by_index = omega arith; by_rest = refl; within = omega arith }

pub Moves-advance :
    (c : Cursor) {e : FieldEntry} {es : List FieldEntry} → c.rest ≡ e ∷ es → Moves c 1 (advance c)
Moves-advance c h = record { by_index = refl; by_rest = rw h refl; within = rw h (omega arith) }

pub Moves-trans : {c d f : Cursor} (k l n : ℕ) → n ≡ k + l → Moves c k d → Moves d l f → Moves c n f
Moves-trans {c} k l n e m o = record {
  by_index = omega (arith, m.by_index, o.by_index);
  by_rest = o.by_rest ∙ ap (drop l) m.by_rest ∙ drop-drop n k l c.rest e;
  within = omega (arith, m.within, o.within, ap length m.by_rest, length-drop k c.rest);
}

-- What the loop over the fields of an entry has pushed.
pub record Part (def : GroupDef) (c : Cursor) (m : Members) : Type 0 where
  pub inner : All (IsMember def) m.0
  pub groups : ConformsGroups def m.1
  pub moves : Moves c (length m.0 + size_groups m.1) m.2

-- What a parse gives.
pub record Parsed (def : GroupDef) (c : Cursor) (g : RepeatingGroup) (d : Cursor) : Type 0 where
  pub conforms : Conforms def g
  pub moves : Moves c (size g) d

pub Part-stay : (def : GroupDef) (c : Cursor) → Part def c ([], no_groups, c)
unfolding size Conforms
Part-stay def c = record { inner = tt; groups = tt; moves = Moves-stay c }

pub Part-field :
    (def : GroupDef) (c d : Cursor) (f : ℕ × Bytes) (m : Members)
    → IsMember def f
    → Moves c 1 d
    → Part def d m
    → Part def c (f ∷ m.0, m.1, m.2)
Part-field def c d f m i v p = record {
  inner = (i, p.inner);
  groups = p.groups;
  moves = Moves-trans 1 (length m.0 + size_groups m.1) _ (omega arith) v p.moves;
}

pub Part-group :
    (def nested : GroupDef) (c d : Cursor) (g : RepeatingGroup) (m : Members)
    → find_nested def (tag_of g) ≡ some nested
    → Parsed nested c g d
    → Part def d m
    → Part def c (m.0, and_group g m.1, m.2)
unfolding size Conforms
Part-group def nested c d g m found q p = record {
  inner = p.inner;
  groups = ((nested, found, q.conforms), p.groups);
  moves = Moves-trans (size g) (length m.0 + size_groups m.1) _ (omega arith) q.moves p.moves;
}

pub find_def-tag :
    (gs : GroupDefs) (tag : ℕ) (def : GroupDef) → find_def gs tag ≡ some def → count_tag def ≡ tag
unfolding find_def
find_def-tag no_defs tag def h = ground arith
find_def-tag (and_def g gs) tag def h = elim (Bool-cases (count_tag g == tag)) [
  | inl e ↦ ap count_tag (sym (some-injective (if_true _ h e))) ∙ (==_iff (count_tag g) tag).0 e
  | inr e ↦ find_def-tag gs tag def (if_false _ h e)
]

pub Conforms-tag : (def : GroupDef) (g : RepeatingGroup) → Conforms def g → tag_of g ≡ count_tag def
unfolding Conforms
Conforms-tag def (group tag n es) h = h.0
