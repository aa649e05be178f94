-- ===== src/Dictionary.antt =====
-- src/dict_compiler.rs: the compiled dictionary, its lookups and its index.
-- A `String` is its bytes.
pub mod Standard
pub mod Scan
pub mod Compile
pub mod Index
pub mod Valid
pub mod Loops
pub mod Messages
pub mod Tests
use fix_engine.Base.{
  Bool, Bytes, List, Option, Outcome, [], bytes_eq, codes, false, get_or, if◌then◌else◌, length,
  ltb, none, panics, replicate, returns, set, some, suc, zero, ℕ, ◌++◌, ◌+◌, ◌==◌, ◌>>=◌, ◌||◌, ◌∷◌,
}
use fix_engine.Decimal.{decimal}

pub record CompiledFieldDef : Type 0 where
  pub tag : ℕ
  pub name : Bytes
  pub field_type : Bytes
  pub values : List (Bytes × Bytes)

pub data MessageCategory : Type 0 where
  admin application : MessageCategory

pub record CompiledMessageDef : Type 0 where
  pub msg_type : Bytes
  pub name : Bytes
  pub category : MessageCategory
  pub required_fields : List ℕ
  pub optional_fields : List ℕ

pub data DictError : Type 0 where
  parse_error missing_attribute invalid_format : Bytes → DictError

-- `Display`.
unfoldable pub show_error : DictError → Bytes
show_error (parse_error s) = codes "parse error: " ++ s
show_error (missing_attribute s) = codes "missing attribute: " ++ s
show_error (invalid_format s) = codes "invalid format: " ++ s

pub record CompiledDictionary : Type 0 where
  pub fix_version : Bytes
  pub fields : List CompiledFieldDef
  pub messages : List CompiledMessageDef
  pub tag_index : List (Option ℕ)

-- `&fields[i]`.
unfoldable pub field_at : List CompiledFieldDef → ℕ → Outcome CompiledFieldDef
field_at [] i = panics
field_at (f ∷ fs) zero = returns f
field_at (f ∷ fs) (suc i) = field_at fs i

abbrev pub indexed : List CompiledFieldDef → Option ℕ → Outcome (Option CompiledFieldDef)
indexed fs none = returns none
indexed fs (some i) = field_at fs i >>= λ f. returns (some f)

-- The entry of the index where there is one.
unfoldable pub lookup_field : CompiledDictionary → ℕ → Outcome (Option CompiledFieldDef)
unfolding field_at
lookup_field d tag =
    if ltb tag (length d.tag_index)
    then indexed d.fields (get_or d.tag_index tag none)
    else returns none

unfoldable pub find_message : List CompiledMessageDef → Bytes → Option CompiledMessageDef
unfolding bytes_eq
find_message [] msg_type = none
find_message (m ∷ ms) msg_type =
    let later = find_message ms msg_type in if bytes_eq m.msg_type msg_type then some m else later

abbrev pub lookup_message : CompiledDictionary → Bytes → Option CompiledMessageDef
lookup_message d msg_type = find_message d.messages msg_type

-- `present_tags.contains(tag)`.
unfoldable pub present : List ℕ → ℕ → Bool
present [] tag = false
present (t ∷ ts) tag = (t == tag) || present ts tag

abbrev pub name_or_unknown : Option CompiledFieldDef → Bytes
name_or_unknown none = codes "Unknown"
name_or_unknown (some f) = f.name

abbrev pub complaint : ℕ → Option CompiledFieldDef → Bytes
complaint tag f =
    codes "missing required field: "
    ++ (name_or_unknown f ++ (codes " (tag " ++ (decimal tag ++ codes ")")))

unfoldable pub missing_fields : CompiledDictionary → List ℕ → List ℕ → Outcome (List Bytes)
unfolding present lookup_field
missing_fields d [] tags = returns []
missing_fields d (tag ∷ required) tags =
    let rest = missing_fields d required tags in
    if present tags tag
    then rest
    else (lookup_field d tag >>= λ f. rest >>= λ errors. returns (complaint tag f ∷ errors))

abbrev pub validated :
    CompiledDictionary → Bytes → List ℕ → Option CompiledMessageDef → Outcome (List Bytes)
validated d msg_type tags none = returns ((codes "unknown message type: " ++ msg_type) ∷ [])
validated d msg_type tags (some m) = missing_fields d m.required_fields tags

unfoldable pub validate_message : CompiledDictionary → Bytes → List ℕ → Outcome (List Bytes)
unfolding find_message missing_fields
validate_message d msg_type tags = validated d msg_type tags (lookup_message d msg_type)

abbrev pub field_count : CompiledDictionary → ℕ
field_count d = length d.fields

abbrev pub message_count : CompiledDictionary → ℕ
message_count d = length d.messages

-- `.map(|f| f.tag).max().unwrap_or(0)`.
unfoldable pub max_tag : List CompiledFieldDef → ℕ
max_tag [] = 0
max_tag (f ∷ fs) = let m = max_tag fs in if ltb m f.tag then f.tag else m

-- `index[field.tag] = Some(i)`, from the i-th field on.
unfoldable pub fill_index : List CompiledFieldDef → ℕ → List (Option ℕ) → Outcome (List (Option ℕ))
fill_index [] i index = returns index
fill_index (f ∷ fs) i index =
    let filled = fill_index fs (i + 1) (set index f.tag (some i)) in
    if ltb f.tag (length index) then filled else panics

unfoldable pub build_tag_index : List CompiledFieldDef → Outcome (List (Option ℕ))
unfolding max_tag fill_index
build_tag_index fields = fill_index fields 0 (replicate (max_tag fields + 1) none)
