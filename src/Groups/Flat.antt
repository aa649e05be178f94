-- ===== src/Groups/Flat.antt =====
-- src/groups.rs on a group without nested ones, as it stands in a message.
use fix_engine.Message.Numbers.{le-value, value-decimal, decimal_digits}
use fix_engine.Decimal.{decimal}
use fix_engine.Base.{
  ==_iff, All, Bool-cases, Bytes, IsDigit, List, Outcome, [], ap, append_assoc, arith, drop, false,
  inl, inr, length, length-append, le→not_ltb, ltb, ne→not_eq, refl, returns, some, suc, sym, true,
  value, zero, ℕ, ◌%◌, ◌*◌, ◌++◌, ◌+◌, ◌-◌, ◌<◌, ◌==◌, ◌>>=◌, ◌^◌, ◌∙◌, ◌∷◌, ◌≡◌, ◌≢◌, ◌≤◌, ◌⊎◌,
}
use fix_engine.Message.{FieldEntry, entry_value}
use fix_engine.Groups.{
  GroupDef, group_def, no_defs, Nested, Members, GroupEntries, group, no_entries, members,
  member_turn, delimiter_tag, and_entry, entry, Cursor, is_member, find_nested, advance, no_groups,
  tail, entries, parse_turn, parse_usize, counted, entry_count, entry_turn, parse, height, parse_to,
  with_index,
}
use fix_engine.Groups.Shape.{IsMember}
use fix_engine.Parser.View.{Field}

-- The entries of a message hold these fields.
abbrev pub Holds : Bytes → List FieldEntry → List Field → Type 0
Holds buffer [] [] = Unit
Holds buffer [] (f ∷ fs) = ⊥
Holds buffer (e ∷ es) [] = ⊥
Holds buffer (e ∷ es) (f ∷ fs) =
    (e.tag ≡ f.0) × (entry_value buffer e ≡ returns f.1) × Holds buffer es fs

Holds-nil : (buffer : Bytes) (es : List FieldEntry) → Holds buffer es [] → es ≡ []
Holds-nil buffer [] h = refl
Holds-nil buffer (e ∷ es) h = absurd h

Holds-cons :
    (buffer : Bytes) (es : List FieldEntry) (f : Field) (fs : List Field)
    → Holds buffer es (f ∷ fs)
    → (e : FieldEntry) × (later : List FieldEntry) × (es ≡ e ∷ later)
      × (e.tag ≡ f.0)
      × (entry_value buffer e ≡ returns f.1)
      × Holds buffer later fs
Holds-cons buffer [] f fs h = absurd h
Holds-cons buffer (e ∷ es) f fs (tag, v, h) = (e, es, refl, tag, v, h)

pub Holds-drop :
    (buffer : Bytes) (es : List FieldEntry) (before fs : List Field)
    → Holds buffer es (before ++ fs)
    → Holds buffer (drop (length before) es) fs
Holds-drop buffer es [] fs h = h
Holds-drop buffer [] (f ∷ before) fs h = absurd h
Holds-drop buffer (e ∷ es) (f ∷ before) fs (_, _, h) = Holds-drop buffer es before fs h

-- An entry to be written: the value of its delimiter, and the fields behind it.
abbrev pub Item : Type 0
Item = Bytes × List Field

abbrev pub texts : ℕ → List Item → List Field
texts delimiter [] = []
texts delimiter ((v, fs) ∷ items) = (delimiter, v) ∷ (fs ++ texts delimiter items)

abbrev pub as_entries : ℕ → List Item → GroupEntries
as_entries delimiter [] = no_entries
as_entries delimiter ((v, fs) ∷ items) =
    and_entry (entry ((delimiter, v) ∷ fs) no_groups) (as_entries delimiter items)

-- The field behind an entry, if there is one, does not belong to the entry.
abbrev pub Stops : GroupDef → List Field → Type 0
Stops def [] = Unit
Stops def (f ∷ fs) = (f.0 ≡ delimiter_tag def) ⊎ (is_member def f.0 ≡ false)

-- The count's own loop reads decimal prints back.
parse_usize-value :
    (bs : Bytes) (n : ℕ)
    → All IsDigit bs
    → value n bs < 2 ^ 64
    → parse_usize bs n ≡ some (value n bs)
unfolding parse_usize
parse_usize-value [] n h fits = refl
parse_usize-value (b ∷ bs) n (hb, hs) fits =
    let m = n * 10 + (b - b'0') in
    let small : m % 2 ^ 64 ≡ m = omega (arith, le-value bs m) in
    rw small (ground (arith, parse_usize-value bs m hs fits))

parse_usize-decimal : (n : ℕ) → n < 2 ^ 64 → parse_usize (decimal n) 0 ≡ some n
parse_usize-decimal n h =
    let v = value-decimal n h in
    parse_usize-value (decimal n) 0 (decimal_digits n) (omega arith) ∙ ap some v

module _ (p : Nested) (buffer : Bytes) (ct dt : ℕ) (tags : List ℕ) where
  abbrev def : GroupDef
  def = group_def ct dt tags no_defs

  member_turn-stop :
      (more : Cursor → Outcome Members) (c : Cursor) (es : List FieldEntry) (later : List Field)
      → Holds buffer es later
      → Stops def later
      → member_turn p buffer def more c es ≡ returns ([], no_groups, c)
  unfolding member_turn find_nested
  member_turn-stop more c [] later h s = refl
  member_turn-stop more c (e ∷ es) [] h s = absurd h
  member_turn-stop more c (e ∷ es) (f ∷ fs) (tag, v, h) (inl d) =
      rw ((==_iff e.tag dt).1 (tag ∙ d)) refl
  member_turn-stop more c (e ∷ es) (f ∷ fs) (tag, v, h) (inr out) =
      let no : is_member def e.tag ≡ false = ap (is_member def) tag ∙ out in
      elim (Bool-cases (e.tag == dt)) [ inl k ↦ rw k refl | inr k ↦ rw (k, no) refl ]

  members-stop :
      (n : ℕ) (c : Cursor) (later : List Field)
      → Holds buffer c.rest later
      → Stops def later
      → members p buffer def n c ≡ returns ([], no_groups, c)
  unfolding members
  members-stop zero c later h s = refl
  members-stop (suc n) c later h s =
      member_turn-stop (λ d. members p buffer def n d) c c.rest later h s

  member_turn-field :
      (more : Cursor → Outcome Members) (c : Cursor) (e : FieldEntry) (es : List FieldEntry)
      (f : Field) (m : Members)
      → e.tag ≡ f.0
      → entry_value buffer e ≡ returns f.1
      → IsMember def f
      → more (advance c) ≡ returns m
      → member_turn p buffer def more c (e ∷ es) ≡ returns (f ∷ m.0, m.1, m.2)
  unfolding member_turn find_nested
  member_turn-field more c e es f m tag v (inside, ne) later =
      let yes_member : is_member def e.tag ≡ true = ap (is_member def) tag ∙ inside in
      let other : (e.tag == dt) ≡ false = ne→not_eq e.tag dt (λ k. ne (sym tag ∙ k)) in
      rw (other, yes_member, v, later) (ap (λ t. returns ((t, f.1) ∷ m.0, m.1, m.2)) tag)

  -- The loop over the fields of an entry takes the members, and stops behind them.
  members-flat :
      (fs later : List Field) (n : ℕ) (c : Cursor)
      → All (IsMember def) fs
      → Stops def later
      → Holds buffer c.rest (fs ++ later)
      → length c.rest ≤ n
      → (d : Cursor) × (members p buffer def n c ≡ returns (fs, no_groups, d))
        × (d.idx ≡ c.idx + length fs)
        × Holds buffer d.rest later
  unfolding members
  members-flat [] later n c inner s h high = (c, members-stop n c later h s, omega arith, h)
  members-flat (f ∷ fs) later zero c inner s h high =
      let (e, es, here, _, _, _) = Holds-cons buffer c.rest f (fs ++ later) h in
      absurd (omega (arith, ap length here))
  members-flat (f ∷ fs) later (suc n) c (one, inner) s h high =
      let (e, es, here, tag, v, h') = Holds-cons buffer c.rest f (fs ++ later) h in
      let next : tail c.rest ≡ es = ap tail here in
      let (d, run, idx, rest) =
        members-flat fs later n (advance c) inner s (rw next h')
          (omega (arith, ap length here, ap length next)) in
      (
        d,
        ap (member_turn p buffer def (λ a. members p buffer def n a) c) here
            ∙ member_turn-field (λ a. members p buffer def n a) c e es f (fs, no_groups, d) tag v
                one run,
        omega (arith, idx),
        rest,
      )

  -- Every item goes on with members.
  abbrev Items : List Item → Type 0
  Items = All (λ i. All (IsMember def) i.1)

  Stops-texts :
      (items : List Item) (later : List Field)
      → Stops def later
      → Stops def (texts dt items ++ later)
  Stops-texts [] later s = s
  Stops-texts (i ∷ items) later s = inl refl

  entries-flat :
      (items : List Item) (later : List Field) (c : Cursor)
      → Items items
      → Stops def later
      → Holds buffer c.rest (texts dt items ++ later)
      → (d : Cursor) × (entries p buffer def (length items) c ≡ returns (as_entries dt items, d))
        × (d.idx ≡ c.idx + length (texts dt items))
        × Holds buffer d.rest later
  unfolding entries
  entries-flat [] later c inner s h = (c, refl, omega arith, h)
  entries-flat ((v, fs) ∷ items) later c (one, inner) s h =
      let (e, es, here, tag, held, h') =
        Holds-cons buffer c.rest (dt, v) ((fs ++ texts dt items) ++ later) h in
      let next : tail c.rest ≡ es = ap tail here in
      let behind : Holds buffer es (fs ++ (texts dt items ++ later)) =
        rw (sym (append_assoc fs (texts dt items) later)) h' in
      let (d, run, idx, rest) =
        members-flat fs (texts dt items ++ later) (length es) (advance c) one
          (Stops-texts items later s) (rw next behind) (omega (arith, ap length next)) in
      let (f, more, idx', rest') = entries-flat items later d inner s rest in
      (
        f,
        ap (entry_turn p buffer def (λ a. entries p buffer def (length items) a) c) here
            ∙ entry_turn-item (λ a. entries p buffer def (length items) a) c e es v
                (fs, no_groups, d) (as_entries dt items, f) tag held run more,
        omega (arith, idx, idx', length-append fs (texts dt items)),
        rest',
      )
    where
      entry_turn-item :
          (more : Cursor → Outcome (GroupEntries × Cursor)) (c : Cursor) (e : FieldEntry)
          (es : List FieldEntry) (v : Bytes) (m : Members) (r : GroupEntries × Cursor)
          → e.tag ≡ dt
          → entry_value buffer e ≡ returns v
          → members p buffer def (length es) (advance c) ≡ returns m
          → more m.2 ≡ returns r
          → entry_turn p buffer def more c (e ∷ es)
            ≡ returns (and_entry (entry ((dt, v) ∷ m.0) m.1) r.0, r.1)
      entry_turn-item more c e es v m r tag held run later =
          rw ((==_iff e.tag dt).1 tag, held, run, later)
            (ap (λ t. returns (and_entry (entry ((t, v) ∷ m.0) m.1) r.0, r.1)) tag)

  entry_count-as_entries : (items : List Item) → entry_count (as_entries dt items) ≡ length items
  entry_count-as_entries [] = refl
  entry_count-as_entries (i ∷ items) = ap suc (entry_count-as_entries items)

  counted-many :
      (n : ℕ) (c : Cursor) (r : GroupEntries × Cursor)
      → n ≢ 0
      → n * 48 < 2 ^ 63
      → entries p buffer def n (advance c) ≡ returns r
      → counted p buffer def c (some n) ≡ returns (some (group ct (entry_count r.0) r.0, r.1))
  unfolding counted
  counted-many n c r ne room run =
      let small : ltb (2 ^ 63 - 1) (n * 48) ≡ false =
        le→not_ltb (2 ^ 63 - 1) (n * 48) (omega arith) in
      rw (ne→not_eq n 0 ne, small, run) refl

  counted-flat :
      (items : List Item) (later : List Field) (c : Cursor) (e : FieldEntry) (es : List FieldEntry)
      → Items items
      → Stops def later
      → c.rest ≡ e ∷ es
      → Holds buffer es (texts dt items ++ later)
      → length items * 48 < 2 ^ 63
      → (d : Cursor) × (counted p buffer def c (some (length items))
          ≡ returns (some (group ct (length items) (as_entries dt items), d)))
        × (d.idx ≡ c.idx + 1 + length (texts dt items))
  unfolding counted
  counted-flat [] later c e es inner s here h room = (advance c, refl, omega arith)
  counted-flat (i ∷ items) later c e es inner s here h room =
      let (d, run, idx, _) =
        entries-flat (i ∷ items) later (advance c) inner s (rw (ap tail here) h) in
      let n = length (i ∷ items) in
      let all = as_entries dt (i ∷ items) in
      let last : returns (some (group ct (entry_count all) all, d))
          ≡ returns (some (group ct n all, d)) =
        ap (λ (k : ℕ). returns (some (group ct k all, d))) (entry_count-as_entries (i ∷ items)) in
      (d, counted-many n c (all, d) (omega arith) (omega arith) run ∙ last, omega (arith, idx))

  parse_turn-flat :
      (items : List Item) (later : List Field) (c : Cursor)
      → Items items
      → Stops def later
      → Holds buffer c.rest ((ct, decimal (length items)) ∷ (texts dt items ++ later))
      → length items * 48 < 2 ^ 63
      → (d : Cursor) × (parse_turn p buffer def c c.rest
          ≡ returns (some (group ct (length items) (as_entries dt items), d)))
        × (d.idx ≡ c.idx + 1 + length (texts dt items))
  unfolding parse_turn
  parse_turn-flat items later c inner s h room =
      let (e, es, here, tag, held, h') =
        Holds-cons buffer c.rest (ct, decimal (length items)) (texts dt items ++ later) h in
      let (d, run, idx) = counted-flat items later c e es inner s here h' room in
      let number = parse_usize-decimal (length items) (omega arith) in
      (d, ap (parse_turn p buffer def c) here ∙ rw ((==_iff e.tag ct).1 tag, held, number) run, idx)

-- A group without nested ones that stands in a message, as its count in decimal and the items one
-- behind another, is parsed to exactly these items, whatever field follows that does not belong to
-- the last of them (fewer items than fill the address space).
pub parse-flat :
    (buffer : Bytes) (fields : List FieldEntry) (start ct dt : ℕ) (tags : List ℕ)
    (items : List Item) (later : List Field)
    → All (λ i. All (IsMember (group_def ct dt tags no_defs)) i.1) items
    → Stops (group_def ct dt tags no_defs) later
    → Holds buffer (drop start fields) ((ct, decimal (length items)) ∷ (texts dt items ++ later))
    → length items * 48 < 2 ^ 63
    → parse buffer fields start (group_def ct dt tags no_defs)
      ≡ returns (
          some (group ct (length items) (as_entries dt items), start + 1 + length (texts dt items)))
unfolding parse height parse_to
parse-flat buffer fields start ct dt tags items later inner s h room =
    let c : Cursor = record { idx = start; rest = drop start fields } in
    let (d, run, idx) =
      parse_turn-flat (parse_to 0 buffer) buffer ct dt tags items later c inner s h room in
    ap (λ m. m >>= λ r. returns (with_index r)) run
    ∙ ap (λ (n : ℕ). returns (some (group ct (length items) (as_entries dt items), n))) idx
