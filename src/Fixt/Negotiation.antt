-- ===== src/Fixt/Negotiation.antt =====
-- src/fixt.rs: the negotiation at Logon, on its own and with a peer's message off the wire.
use fix_engine.Parser.Strict.{parse-message}
use fix_engine.Base.{
  ==_refl, All, All-append, Bool-cases, Bytes, Lacks, List, Option, Option-cases, [], ap,
  append_assoc, arith, codes, err, false, inl, inr, length, length-append, none, ok, refl, returns,
  some, sym, true, ℕ, ◌++◌, ◌∙◌, ◌∷◌, ◌≡◌, ◌≢◌, ◌≤◌, ◌⊎◌,
}
use fix_engine.Message.{MessageView, get_field}
use fix_engine.Session
use fix_engine.Fixt.{
  ApplVerId, FixtSession, FixtError, as_bytes, contains, supported_version, negotiate,
  negotiate_field, on_logon_received, default_appl_ver_id, missing_default_appl_ver_id,
  unsupported_appl_ver_id, invalid_appl_ver_id, missing_appl_ver_id, from_bytes, LogonField,
  build_logon_fields,
}
use fix_engine.Parser
use fix_engine.Parser.{parse}
use fix_engine.Parser.Framed.{sum_field, body, message_fields}
use fix_engine.Parser.Parsed.{parsed_view}
use fix_engine.Parser.View.{Field, lookup}
use fix_engine.Parser.Wire.{IsInner}
use fix_engine.Serializer.Finalize.{message}
use fix_engine.Fixt.{fixt_begin_string}
use fix_engine.Fixt.Versions.{supported_version_iff, appl_ver_id_iff}

-- The session that has negotiated `v`.
abbrev pub agreed : FixtSession → ApplVerId → ℕ → FixtSession
agreed s v now = record s { negotiated_version = some v; base = Session.on_logon s.base now }

-- What makes a Logon refused with an error, for what `get_field` finds.
abbrev pub Refused : FixtSession → Option Bytes → FixtError → Type 0
Refused s f missing_default_appl_ver_id = f ≡ none
Refused s f (invalid_appl_ver_id bs) = (f ≡ some bs) × ((v : ApplVerId) → bs ≢ as_bytes v)
Refused s f (unsupported_appl_ver_id bs) =
    (f ≡ some bs)
    × ((v : ApplVerId) × (bs ≡ as_bytes v) × (contains s.config.supported_versions v ≡ false))
Refused s f missing_appl_ver_id = ⊥

none-some : {v : ApplVerId} → none ≢ some v
none-some h = ground arith

supported_version-cases :
    (s : FixtSession) (bs : Bytes)
    → ((v : ApplVerId) × (supported_version s bs ≡ ok v))
      ⊎ ((e : FixtError) × (supported_version s bs ≡ err e) × Refused s (some bs) e)
unfolding supported_version
supported_version-cases s bs = elim (Option-cases (from_bytes bs)) [
  | inl e ↦
      let other : (v : ApplVerId) → bs ≢ as_bytes v =
        λ v k. none-some (sym e ∙ (appl_ver_id_iff bs v).1 k) in
      let why : Refused s (some bs) (invalid_appl_ver_id bs) = (refl, other) in
      inr (invalid_appl_ver_id bs, rw e refl, why)
  | inr (w, e) ↦ elim (Bool-cases (contains s.config.supported_versions w)) [
    | inl c ↦ inl (w, rw (e, c) refl)
    | inr c ↦
        let why : Refused s (some bs) (unsupported_appl_ver_id bs) =
          (refl, (w, (appl_ver_id_iff bs w).0 e, c)) in
        inr (unsupported_appl_ver_id bs, rw (e, c) refl, why)
  ]
]

-- A Logon message is accepted exactly when it has a field `DefaultApplVerID` with the wire form of
-- a version that the session supports; the session is then active with that version. Otherwise the
-- session stays as it was, and the error says that the field is missing, that no version has these
-- bytes, or that the version is not supported.
pub on_logon_received-decides :
    (s : FixtSession) (msg : MessageView) (now : ℕ) (f : Option Bytes)
    → get_field msg default_appl_ver_id ≡ returns f
    → ((v : ApplVerId) × (f ≡ some (as_bytes v))
        × (contains s.config.supported_versions v ≡ true)
        × (on_logon_received s msg now ≡ returns (agreed s v now, ok tt)))
      ⊎ ((e : FixtError) × Refused s f e × (on_logon_received s msg now ≡ returns (s, err e)))
unfolding on_logon_received negotiate negotiate_field
on_logon_received-decides s msg now none found =
    inr (missing_default_appl_ver_id, refl, rw found refl)
on_logon_received-decides s msg now (some bs) found = elim (supported_version-cases s bs) [
  | inl (v, e) ↦
      let (form, c) = (supported_version_iff s bs v).0 e in
      inl (v, ap some form, c, rw (found, e) refl)
  | inr (e, e', why) ↦ inr (e, why, rw (found, e') refl)
]

-- The fields of a Logon on the wire.
abbrev pub as_fields : List LogonField → List Field
as_fields [] = []
as_fields (f ∷ fs) = (f.tag, f.value) ∷ as_fields fs

lookup-append :
    (t : ℕ) (v : Bytes) (fs rest : List Field)
    → lookup t fs ≡ none
    → lookup t (fs ++ ((t, v) ∷ rest)) ≡ some v
lookup-append t v [] rest h = rw (==_refl t) refl
lookup-append t v ((tag, w) ∷ fs) rest h = let ih = lookup-append t v fs rest in ground (arith, ih)

-- The fields of a Logon of `s`, with those of the negotiation last.
abbrev pub logon_fields : List Field → FixtSession → List Field
logon_fields fs s = fs ++ as_fields (build_logon_fields s)

as_bytes-Lacks : (v : ApplVerId) → Lacks 1 (as_bytes v)
unfolding as_bytes
as_bytes-Lacks v = ground arith

accepts :
    (b : FixtSession) (msg : MessageView) (now : ℕ) (v : ApplVerId)
    → get_field msg default_appl_ver_id ≡ returns (some (as_bytes v))
    → contains b.config.supported_versions v ≡ true
    → on_logon_received b msg now ≡ returns (agreed b v now, ok tt)
unfolding on_logon_received negotiate negotiate_field
accepts b msg now v found c = rw (found, (supported_version_iff b (as_bytes v) v).1 (refl, c)) refl

-- Two sessions: the Logon of the first, written by the serializer with the fields that
-- `build_logon_fields` gives behind at most 507 others that do not have its tag and that the wire can
-- carry, in 65536 bytes at most with what follows it, is parsed by the peer, and a peer that supports
-- the version accepts it and is active with the default version of the first.
pub negotiation :
    (a b : FixtSession) (trailing : Bytes) (fs : List Field) (now : ℕ)
    → All IsInner fs
    → lookup default_appl_ver_id fs ≡ none
    → length fs ≤ 507
    → contains b.config.supported_versions a.config.default_appl_ver_id ≡ true
    → length (
        message fixt_begin_string (body fixt_begin_string (codes "A") (logon_fields fs a))
        ++ trailing)
      ≤ 65_536
    → let out =
        message fixt_begin_string (body fixt_begin_string (codes "A") (logon_fields fs a)) in
      let view =
        parsed_view
          (out ++ trailing)
          (message_fields fixt_begin_string (codes "A") (logon_fields fs a)) in
      (parse Parser.new (out ++ trailing) ≡ ok (view, length out))
      × (on_logon_received b view now ≡ returns (agreed b a.config.default_appl_ver_id now, ok tt))
unfolding build_logon_fields
negotiation a b trailing fs now inner missing few supported fits =
    let v = as_bytes a.config.default_appl_ver_id in
    let all = logon_fields fs a in
    let last = (default_appl_ver_id, v) ∷ [] in
    let inner_all : All IsInner all =
      All-append IsInner fs last inner
        ((omega arith, as_bytes-Lacks a.config.default_appl_ver_id, omega arith), tt) in
    let (parsed, found) =
      parse-message fixt_begin_string (codes "A") trailing all default_appl_ver_id (ground arith)
        (ground arith) inner_all (omega (arith, length-append fs last)) fits in
    let sum = sum_field fixt_begin_string (codes "A") all in
    let looked : lookup default_appl_ver_id (all ++ ((10, sum) ∷ [])) ≡ some v =
      ap (lookup default_appl_ver_id) (append_assoc fs last ((10, sum) ∷ []))
      ∙ lookup-append default_appl_ver_id v fs ((10, sum) ∷ []) missing in
    (parsed, accepts b _ now a.config.default_appl_ver_id (found ∙ ap returns looked) supported)
