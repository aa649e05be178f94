-- ===== src/Groups/Conforms.antt =====
-- src/groups.rs: what is parsed has the shape of its definition, and takes up the fields it holds.
use fix_engine.Base.{
  ==_iff, >>=-eq-returns, Bool-cases, Bytes, List, Option, Outcome, [], ap, arith, drop, if_false,
  if_true, inl, inr, length, length-drop, ltb, none, panics, refl, returns, returns-injective, some,
  some-injective, suc, sym, zero, ℕ, ◌*◌, ◌+◌, ◌-◌, ◌==◌, ◌^◌, ◌∙◌, ◌∷◌, ◌≡◌, ◌≢◌, ◌≤◌,
}
use fix_engine.Message.{FieldEntry}
use fix_engine.Groups.{
  GroupDef, RepeatingGroup, GroupEntries, group, no_entries, Cursor, is_member, and_entry, Nested,
  count_tag, delimiter_tag, tag_of, members, member_turn, entry, member_or_done, Members, advance,
  after_nested, try_nested, entry_value, find_nested, nested_groups, parse_to, entries, parse_turn,
  parse, entry_turn, counted, height, parse_usize, with_index,
}
use fix_engine.Groups.Shape.{
  Conforms, ConformsEntries, size, size_entries, size_groups, Moves, Moves-stay, Moves-advance,
  Moves-trans, Part, Parsed, Part-stay, Part-field, Part-group, find_def-tag, Conforms-tag,
}

-- A parse of nested groups that gives only what is parsed.
abbrev pub Sound : Nested → Type 0
Sound parse_nested =
    (def : GroupDef) (c d : Cursor) (g : RepeatingGroup)
    → parse_nested def c ≡ returns (some (g, d))
    → Parsed def c g d

module _ (parse_nested : Nested) (sound : Sound parse_nested) (buffer : Bytes)
    (def : GroupDef) where
  abbrev Rest : (Cursor → Outcome Members) → Type 0
  Rest more = (c : Cursor) (m : Members) → more c ≡ returns m → Part def c m

  member_or_done-Part :
      (more : Cursor → Outcome Members) (e : FieldEntry) (es : List FieldEntry) (c : Cursor)
      (m : Members)
      → Rest more
      → c.rest ≡ e ∷ es
      → e.tag ≢ delimiter_tag def
      → member_or_done parse_nested buffer def more e c ≡ returns m
      → Part def c m
  unfolding member_or_done
  member_or_done-Part more e es c m rest here ne h = elim (Bool-cases (is_member def e.tag)) [
    | inl k ↦
        let (v, _, h1) = >>=-eq-returns (entry_value buffer e) _ (if_true _ h k) in
        let (n, h2, h3) = >>=-eq-returns (more (advance c)) _ h1 in
        rw (sym (returns-injective h3)) (
          Part-field def c (advance c) (e.tag, v) n (k, ne) (Moves-advance c here)
            (rest (advance c) n h2))
    | inr k ↦ rw (sym (returns-injective (if_false _ h k))) (Part-stay def c)
  ]

  after_nested-Part :
      (more : Cursor → Outcome Members) (e : FieldEntry) (es : List FieldEntry) (c : Cursor)
      (m : Members) (nested : GroupDef) (r : Option (RepeatingGroup × Cursor))
      → Rest more
      → c.rest ≡ e ∷ es
      → e.tag ≢ delimiter_tag def
      → find_nested def e.tag ≡ some nested
      → parse_nested nested c ≡ returns r
      → after_nested parse_nested buffer def more e c r ≡ returns m
      → Part def c m
  unfolding after_nested find_nested
  after_nested-Part more e es c m nested none rest here ne found got h =
      member_or_done-Part more e es c m rest here ne h
  after_nested-Part more e es c m nested (some (g, d)) rest here ne found got h =
      let (n, h1, h2) = >>=-eq-returns (more d) _ h in
      let q = sound nested c d g got in
      let tag : tag_of g ≡ e.tag =
        Conforms-tag nested g q.conforms ∙ find_def-tag (nested_groups def) e.tag nested found in
      rw (sym (returns-injective h2))
        (Part-group def nested c d g n (ap (find_nested def) tag ∙ found) q (rest d n h1))

  try_nested-Part :
      (more : Cursor → Outcome Members) (e : FieldEntry) (es : List FieldEntry) (c : Cursor)
      (m : Members) (o : Option GroupDef)
      → Rest more
      → c.rest ≡ e ∷ es
      → e.tag ≢ delimiter_tag def
      → find_nested def e.tag ≡ o
      → try_nested parse_nested buffer def more e c o ≡ returns m
      → Part def c m
  unfolding try_nested
  try_nested-Part more e es c m none rest here ne found h =
      member_or_done-Part more e es c m rest here ne h
  try_nested-Part more e es c m (some nested) rest here ne found h =
      let (r, got, h1) = >>=-eq-returns (parse_nested nested c) _ h in
      after_nested-Part more e es c m nested r rest here ne found got h1

  member_turn-Part :
      (more : Cursor → Outcome Members) (c : Cursor) (es : List FieldEntry) (m : Members)
      → Rest more
      → c.rest ≡ es
      → member_turn parse_nested buffer def more c es ≡ returns m
      → Part def c m
  unfolding member_turn
  member_turn-Part more c [] m rest here h = rw (sym (returns-injective h)) (Part-stay def c)
  member_turn-Part more c (e ∷ es) m rest here h = elim (Bool-cases (e.tag == delimiter_tag def)) [
    | inl k ↦ rw (sym (returns-injective (if_true _ h k))) (Part-stay def c)
    | inr k ↦
        try_nested-Part more e es c m (find_nested def e.tag) rest here (ground arith) refl
          (if_false _ h k)
  ]

  members-Part :
      (n : ℕ) (c : Cursor) (m : Members)
      → members parse_nested buffer def n c ≡ returns m
      → Part def c m
  unfolding members
  members-Part zero c m h = rw (sym (returns-injective h)) (Part-stay def c)
  members-Part (suc n) c m h = member_turn-Part _ c c.rest m (members-Part n) refl h

  -- What the loop over the entries has pushed.
  record EntriesPart (c : Cursor) (es : GroupEntries) (d : Cursor) : Type 0 where
    shapes : ConformsEntries def es
    moves : Moves c (size_entries es) d

  EntriesPart-stay : (c : Cursor) → EntriesPart c no_entries c
  unfolding size Conforms
  EntriesPart-stay c = record { shapes = tt; moves = Moves-stay c }

  EntriesPart-entry :
      (c a : Cursor) (t : ℕ) (v : Bytes) (m : Members) (es : GroupEntries) (d : Cursor)
      → t ≡ delimiter_tag def
      → Moves c 1 a
      → Part def a m
      → EntriesPart m.2 es d
      → EntriesPart c (and_entry (entry ((t, v) ∷ m.0) m.1) es) d
  unfolding size Conforms
  EntriesPart-entry c a t v m es d tag first p r = record {
    shapes = (((tag, p.inner), p.groups), r.shapes);
    moves =
        Moves-trans (suc (length m.0 + size_groups m.1)) (size_entries es) _ (omega arith)
          (Moves-trans 1 (length m.0 + size_groups m.1) _ (omega arith) first p.moves) r.moves;
  }

  EntriesPart-returned :
      (c : Cursor) {p q : GroupEntries × Cursor}
      → returns p ≡ returns q
      → EntriesPart c p.0 p.1
      → EntriesPart c q.0 q.1
  EntriesPart-returned c {p} {q} h k = rw (sym (returns-injective h)) k

  entry_turn-EntriesPart :
      (more : Cursor → Outcome (GroupEntries × Cursor)) (c : Cursor) (fs : List FieldEntry)
      (es : GroupEntries) (d : Cursor)
      → ((a : Cursor) (es : GroupEntries) (d : Cursor)
          → more a ≡ returns (es, d)
          → EntriesPart a es d)
      → c.rest ≡ fs
      → entry_turn parse_nested buffer def more c fs ≡ returns (es, d)
      → EntriesPart c es d
  unfolding entry_turn
  entry_turn-EntriesPart more c [] es d rest here h =
      let e = returns-injective h in
      rw (sym (ap (λ p. p.0) e), sym (ap (λ p. p.1) e)) (EntriesPart-stay c)
  entry_turn-EntriesPart more c (f ∷ fs) es d rest here h =
      elim (Bool-cases (f.tag == delimiter_tag def)) [
        | inl k ↦
            let (v, _, h1) = >>=-eq-returns (entry_value buffer f) _ (if_true _ h k) in
            let (m, h2, h3) =
              >>=-eq-returns (members parse_nested buffer def (length fs) (advance c)) _ h1 in
            let ((es', d'), h4, h5) = >>=-eq-returns (more m.2) _ h3 in
            let tag : f.tag ≡ delimiter_tag def = (==_iff f.tag (delimiter_tag def)).0 k in
            EntriesPart-returned c h5 (
              EntriesPart-entry c (advance c) f.tag v m es' d' tag (Moves-advance c here)
                (members-Part (length fs) (advance c) m h2) (rest m.2 es' d' h4))
        | inr k ↦ EntriesPart-returned c (if_false _ h k) (EntriesPart-stay c)
      ]

  entries-EntriesPart :
      (n : ℕ) (c : Cursor) (es : GroupEntries) (d : Cursor)
      → entries parse_nested buffer def n c ≡ returns (es, d)
      → EntriesPart c es d
  unfolding entries
  entries-EntriesPart zero c es d h =
      let e = returns-injective h in
      rw (sym (ap (λ p. p.0) e), sym (ap (λ p. p.1) e)) (EntriesPart-stay c)
  entries-EntriesPart (suc n) c es d h =
      entry_turn-EntriesPart _ c c.rest es d (entries-EntriesPart n) refl h

  counted-Parsed :
      (c : Cursor) (e : FieldEntry) (fs : List FieldEntry) (o : Option ℕ) (d : Cursor)
      (g : RepeatingGroup)
      → c.rest ≡ e ∷ fs
      → counted parse_nested buffer def c o ≡ returns (some (g, d))
      → Parsed def c g d
  unfolding counted Conforms size
  counted-Parsed c e fs none d g here h = ground arith
  counted-Parsed c e fs (some n) d g here h = elim (Bool-cases (n == 0)) [
    | inl k ↦
        let same = some-injective (returns-injective (if_true _ h k)) in
        rw (sym (ap (λ p. p.0) same), sym (ap (λ p. p.1) same))
          (record { conforms = (refl, refl, tt); moves = Moves-advance c here })
    | inr k ↦ elim (Bool-cases (ltb (2 ^ 63 - 1) (n * 48))) [
      | inl l ↦ absurd (impossible (if_true _ (if_false _ h k) l))
      | inr l ↦
          let ((es, d'), h1, h2) =
            >>=-eq-returns (entries parse_nested buffer def n (advance c)) _
              (if_false _ (if_false _ h k) l) in
          let same = some-injective (returns-injective h2) in
          let p = entries-EntriesPart n (advance c) es d' h1 in
          rw (sym (ap (λ p. p.0) same), sym (ap (λ p. p.1) same))
            (record {
              conforms = (refl, refl, p.shapes);
              moves =
                  Moves-trans 1 (size_entries es) _ (omega arith) (Moves-advance c here) p.moves;
            })
    ]
  ]
    where
      impossible :
          ◌≢◌ {A = Outcome (Option (RepeatingGroup × Cursor))} panics (returns (some (g, d)))
      impossible x = ground arith

  parse_turn-Parsed :
      (c : Cursor) (fs : List FieldEntry) (d : Cursor) (g : RepeatingGroup)
      → c.rest ≡ fs
      → parse_turn parse_nested buffer def c fs ≡ returns (some (g, d))
      → Parsed def c g d
  unfolding parse_turn
  parse_turn-Parsed c [] d g here h = ground arith
  parse_turn-Parsed c (e ∷ fs) d g here h = elim (Bool-cases (e.tag == count_tag def)) [
    | inl k ↦
        let (v, _, h1) = >>=-eq-returns (entry_value buffer e) _ (if_true _ h k) in
        counted-Parsed c e fs (parse_usize v 0) d g here h1
    | inr k ↦ absurd (missing (if_false _ h k))
  ]
    where
      missing :
          ◌≢◌ {A = Outcome (Option (RepeatingGroup × Cursor))}
            (returns none)
            (returns (some (g, d)))
      missing x = ground arith

pub parse_to-Sound : (depth : ℕ) (buffer : Bytes) → Sound (parse_to depth buffer)
unfolding parse_to
parse_to-Sound zero buffer def c d g h = ground arith
parse_to-Sound (suc depth) buffer def c d g h =
    parse_turn-Parsed (parse_to depth buffer) (parse_to-Sound depth buffer) buffer def c c.rest d g
      refl h

pub size_pos : (g : RepeatingGroup) → 1 ≤ size g
unfolding size
size_pos (group tag n es) = omega arith

-- A group that `parse` gives has the shape of its definition: its count is the number of its
-- entries, each entry begins with the delimiter and goes on with members that are no delimiter, and
-- the nested groups have the shapes of the nested definitions, at any depth. It stands right behind
-- as many fields as it holds, within the message.
pub parse-Conforms :
    (buffer : Bytes) (fields : List FieldEntry) (start : ℕ) (def : GroupDef) (g : RepeatingGroup)
    (next : ℕ)
    → parse buffer fields start def ≡ returns (some (g, next))
    → Conforms def g × (next ≡ start + size g) × (next ≤ length fields)
unfolding parse
parse-Conforms buffer fields start def g next h =
    let (r, e, k) =
      >>=-eq-returns
        (parse_to (height def) buffer def (record { idx = start; rest = drop start fields })) _ h in
    indexed r e (returns-injective k)
  where
    indexed :
        (r : Option (RepeatingGroup × Cursor))
        → parse_to (height def) buffer def (record { idx = start; rest = drop start fields })
          ≡ returns r
        → with_index r ≡ some (g, next)
        → Conforms def g × (next ≡ start + size g) × (next ≤ length fields)
    indexed none e k = ground arith
    indexed (some (f, d)) e k =
        let p = parse_to-Sound (height def) buffer def _ d f e in
        let same = some-injective k in
        let index = ap (λ q. q.1) same in
        let one = size_pos f in
        rw (sym (ap (λ q. q.0) same)) (
          p.conforms,
          sym index ∙ p.moves.by_index,
          omega (arith, index, p.moves.by_index, p.moves.within, one, length-drop start fields),
        )
