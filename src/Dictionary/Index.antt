-- ===== src/Dictionary/Index.antt =====
-- src/dict_compiler.rs: the index gives the last definition of a tag.
use fix_engine.Base.{
  ==_iff, All, List, Option, [], ap, append_assoc, arith, dec_lt, get_or, get_or-set_ne,
  get_or-set_self, if◌then◌else◌, length, length-append, length-replicate, length-set, le→not_ltb,
  lt→ltb, ne→not_eq, none, refl, replicate, returns, set, some, suc, sym, zero, ℕ, ℕ_discrete, ◌++◌,
  ◌+◌, ◌<◌, ◌==◌, ◌∙◌, ◌∷◌, ◌≡◌, ◌≤◌,
}
use fix_engine.Dictionary.{
  CompiledDictionary, CompiledFieldDef, field_at, fill_index, build_tag_index, max_tag, indexed,
  lookup_field,
}

-- The last definition of the tag, and `found` where there is none.
unfoldable pub last_def :
    List CompiledFieldDef → ℕ → Option CompiledFieldDef → Option CompiledFieldDef
last_def [] tag found = found
last_def (f ∷ fs) tag found = last_def fs tag (if f.tag == tag then some f else found)

field_at-append :
    (pre : List CompiledFieldDef) (f : CompiledFieldDef) (fs : List CompiledFieldDef)
    → field_at (pre ++ (f ∷ fs)) (length pre) ≡ returns f
unfolding field_at
field_at-append [] f fs = refl
field_at-append (p ∷ pre) f fs = field_at-append pre f fs

module _ (all : List CompiledFieldDef) (tag : ℕ) where
  -- From the i-th field on, the index is filled so that the entry of the tag leads to its last
  -- definition so far.
  fill_index-last :
      (pre fs : List CompiledFieldDef) (i : ℕ) (index : List (Option ℕ))
      (found : Option CompiledFieldDef)
      → all ≡ pre ++ fs
      → i ≡ length pre
      → All (λ f. f.tag < length index) fs
      → indexed all (get_or index tag none) ≡ returns found
      → (filled : List (Option ℕ)) × (fill_index fs i index ≡ returns filled)
        × (length filled ≡ length index)
        × (indexed all (get_or filled tag none) ≡ returns (last_def fs tag found))
  unfolding fill_index last_def
  fill_index-last pre [] i index found whole e h k = (index, refl, refl, k)
  fill_index-last pre (f ∷ fs) i index found whole idx (h, hs) k =
      let (filled, done, same, leads) =
        fill_index-last (pre ++ (f ∷ [])) fs (i + 1) (set index f.tag (some i))
          (if f.tag == tag then some f else found) (whole ∙ sym (append_assoc pre (f ∷ []) fs))
          (omega (arith, length-append pre (f ∷ []))) (rw (length-set index f.tag (some i)) hs)
          (entry (ℕ_discrete f.tag tag)) in
      (
        filled,
        rw (lt→ltb f.tag (length index) h) done,
        same ∙ length-set index f.tag (some i),
        leads,
      )
    where
      entry :
          Dec (f.tag ≡ tag)
          → indexed all (get_or (set index f.tag (some i)) tag none)
            ≡ returns (if f.tag == tag then some f else found)
      entry (yes e) =
          let here : get_or (set index f.tag (some i)) tag none ≡ some i =
            ap (λ t. get_or (set index f.tag (some i)) t none) (sym e)
            ∙ get_or-set_self index f.tag (some i) none h in
          let at : field_at all i ≡ returns f = rw (whole, idx) (field_at-append pre f fs) in
          rw (here, (==_iff f.tag tag).1 e, at) refl
      entry (no ne) = rw (get_or-set_ne index f.tag tag (some i) none ne, ne→not_eq f.tag tag ne) k

get_or-outside : (xs : List (Option ℕ)) (i : ℕ) → length xs ≤ i → get_or xs i none ≡ none
get_or-outside [] i h = refl
get_or-outside (x ∷ xs) zero h = absurd (omega arith)
get_or-outside (x ∷ xs) (suc i) h = get_or-outside xs i (omega arith)

get_or-replicate : (n i : ℕ) → ◌≡◌ {A = Option ℕ} (get_or (replicate n none) i none) none
get_or-replicate zero i = refl
get_or-replicate (suc n) zero = refl
get_or-replicate (suc n) (suc i) = get_or-replicate n i

max_tag-bounds : (fs : List CompiledFieldDef) (m : ℕ) → max_tag fs ≤ m → All (λ f. f.tag < m + 1) fs
unfolding max_tag
max_tag-bounds [] m h = tt
max_tag-bounds (f ∷ fs) m h = (ground arith, max_tag-bounds fs m (ground arith))

-- The index that is built for a list of fields exists: no write to it is out of its range. Looking a
-- tag up in a dictionary with these fields and this index gives the last definition of the tag, and
-- nothing where no field has it.
pub lookup_field-last :
    (d : CompiledDictionary) (tag : ℕ)
    → (index : List (Option ℕ)) × (build_tag_index d.fields ≡ returns index)
      × (lookup_field (record d { tag_index = index }) tag ≡ returns (last_def d.fields tag none))
unfolding build_tag_index lookup_field
lookup_field-last d tag =
    let (index, built, same, leads) =
      fill_index-last d.fields tag [] d.fields 0 (replicate (max_tag d.fields + 1) none) none refl
        refl
        (rw (length-replicate {A = Option ℕ} (max_tag d.fields + 1) none)
          (max_tag-bounds d.fields (max_tag d.fields) (omega arith)))
        (rw (get_or-replicate (max_tag d.fields + 1) tag) refl) in
    (
      index,
      built,
      elim (dec_lt tag (length index)) [
        | yes h ↦ rw (lt→ltb tag (length index) h) leads
        | no h ↦
            rw (le→not_ltb tag (length index) (omega arith))
              (rw (get_or-outside index tag (omega arith)) at leads)
      ],
    )
