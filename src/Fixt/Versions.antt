-- ===== src/Fixt/Versions.antt =====
-- src/fixt.rs: the wire forms of the application versions, and the supported ones.
use fix_engine.Base.{
  Bool-cases, Bytes, Option, ap, arith, bytes_eq, bytes_eq_iff, if◌then◌else◌, inl, inr, none, ok,
  refl, some, true, ◌↔◌, ◌∙◌, ◌≡◌,
}
use fix_engine.Fixt.{
  ApplVerId, FixtSession, as_bytes, from_bytes, contains, supported_version, supported_as, fix27,
  fix30, fix40, fix41, fix42, fix43, fix44, fix50, fix50_sp1, fix50_sp2,
}

-- Whatever version `o` is, `bs` is its wire form.
abbrev IsForm : Bytes → Option ApplVerId → Type 0
IsForm bs o = (v : ApplVerId) → o ≡ some v → bs ≡ as_bytes v

tested :
    (w : ApplVerId) (bs : Bytes) {o : Option ApplVerId}
    → IsForm bs o
    → IsForm bs (if bytes_eq bs (as_bytes w) then some w else o)
tested w bs {o} k v e = elim (Bool-cases (bytes_eq bs (as_bytes w))) [
  | inl same_bytes ↦ (let same = bytes_eq_iff bs (as_bytes w) in ground arith)
  | inr differs ↦ k v (ground arith)
]

from_bytes-IsForm : (bs : Bytes) → IsForm bs (from_bytes bs)
unfolding from_bytes as_bytes
from_bytes-IsForm bs = tested fix27 bs (
    tested fix30 bs (
      tested fix40 bs (
        tested fix41 bs (
          tested fix42 bs (
            tested fix43 bs (
              tested fix44 bs (
                tested fix50 bs
                  (tested fix50_sp1 bs (tested fix50_sp2 bs (λ v e. absurd (ground arith)))))))))))

form_read : (v : ApplVerId) → from_bytes (as_bytes v) ≡ some v
form_read fix27 = unfold from_bytes as_bytes in refl
form_read _ = unfold from_bytes as_bytes in refl

-- Exactly the wire form of a version is read as that version.
pub appl_ver_id_iff : (bs : Bytes) (v : ApplVerId) → (from_bytes bs ≡ some v) ↔ (bs ≡ as_bytes v)
appl_ver_id_iff bs v = ((λ h. from_bytes-IsForm bs v h), (λ e. ap from_bytes e ∙ form_read v))

-- Reading a version from the bytes of a field, whatever `from_bytes` gives for them.
supported_as_iff :
    (s : FixtSession) (bs : Bytes) (o : Option ApplVerId) (v : ApplVerId)
    → (supported_as s bs o ≡ ok v)
      ↔ ((o ≡ some v) × (contains s.config.supported_versions v ≡ true))
supported_as_iff s bs none v = ground arith
supported_as_iff s bs (some w) v = ground arith

-- A field holds a version that a session supports exactly when its bytes are the wire form of a
-- version in the session's list.
pub supported_version_iff :
    (s : FixtSession) (bs : Bytes) (v : ApplVerId)
    → (supported_version s bs ≡ ok v)
      ↔ ((bs ≡ as_bytes v) × (contains s.config.supported_versions v ≡ true))
unfolding supported_version
supported_version_iff s bs v =
    let read = supported_as_iff s bs (from_bytes bs) v in
    let form = appl_ver_id_iff bs v in
    ((λ h. let (e, c) = read.0 h in (form.0 e, c)), (λ h. read.1 (form.1 h.0, h.1)))
