-- ===== src/Fixt/Invariant.antt =====
-- src/fixt.rs: what holds of a session whatever its methods are called on.
use fix_engine.Fixt.Versions.{supported_version_iff}
use fix_engine.Base.{
  ==_refl, >>=-eq-returns, Bool-cases, Bytes, List, Option, Result, [], ap, arith, if_false,
  if_true, inl, inr, none, ok, ok-injective, refl, returns, returns-injective, some, some-injective,
  sym, true, ℕ, ◌++◌, ◌>>=◌, ◌∙◌, ◌∷◌, ◌≡◌, ◌≢◌,
}
use fix_engine.Message.{MessageView, get_field}
use fix_engine.Session
use fix_engine.Fixt.{
  ApplVerId, FixtSession, FixtSessionConfig, FixtError, new, completed, contains, fixt_begin_string,
  on_logon_received, validate_appl_ver, discriminant, on_connected, on_logon, validate_inbound_seq,
  on_gap_filled, on_logout_sent, on_disconnected, check_heartbeat, on_message_sent,
  on_message_received, on_reconnect_attempt, reset_sequences, next_outbound_seq_num,
  check_rate_limit, version_field, unwrap_or, msg_type_enum, session_message, negotiated,
}
use fix_engine.Fixt.Negotiation.{on_logon_received-decides, agreed}
use fix_engine.Fixt.{appl_ver_id, default_appl_ver_id}

-- The session is reached from a new one, by any calls of its methods.
pub data Reached (c : FixtSessionConfig) : FixtSession → Type 0 where
  created : (now : ℕ) → Reached c (new c now)
  logon :
      {t u : FixtSession} {r : Result (Unit {0}) FixtError} (msg : MessageView) (now : ℕ)
      → on_logon_received t msg now ≡ returns (u, r)
      → Reached c t
      → Reached c u
  connected : {t : FixtSession} (a b : ℕ) → Reached c t → Reached c (on_connected t a b)
  logged_on : {t : FixtSession} (now : ℕ) → Reached c t → Reached c (on_logon t now)
  sequenced :
      {t : FixtSession} (seq now : ℕ) → Reached c t → Reached c ((validate_inbound_seq t seq now).0)
  filled : {t : FixtSession} (seq : ℕ) → Reached c t → Reached c (on_gap_filled t seq)
  logout : {t : FixtSession} → Reached c t → Reached c (on_logout_sent t)
  dropped : {t : FixtSession} → Reached c t → Reached c (on_disconnected t)
  polled : {t : FixtSession} (now : ℕ) → Reached c t → Reached c ((check_heartbeat t now).0)
  sent : {t : FixtSession} (now : ℕ) → Reached c t → Reached c (on_message_sent t now)
  received : {t : FixtSession} (now : ℕ) → Reached c t → Reached c (on_message_received t now)
  attempted : {t : FixtSession} → Reached c t → Reached c (on_reconnect_attempt t)
  reset : {t : FixtSession} → Reached c t → Reached c (reset_sequences t)
  numbered : {t : FixtSession} → Reached c t → Reached c ((next_outbound_seq_num t).0)
  limited : {t : FixtSession} (now : ℕ) → Reached c t → Reached c ((check_rate_limit t now).0)

-- The configuration is the one that `new` completes, also in the wrapped session, and the
-- negotiated version is a supported one.
pub record FixtInv (c : FixtSessionConfig) (s : FixtSession) : Type 0 where
  pub kept : s.config ≡ completed c
  pub wrapped : s.base.config ≡ (completed c).base
  pub agreed :
      (v : ApplVerId)
      → s.negotiated_version ≡ some v
      → contains (completed c).supported_versions v ≡ true

-- A call that changes the wrapped session only, and not its configuration.
on_base :
    {c : FixtSessionConfig} {s : FixtSession} (base : Session.Session)
    → base.config ≡ s.base.config
    → FixtInv c s
    → FixtInv c (record s { base = base })
on_base base e i = record { kept = i.kept; wrapped = e ∙ i.wrapped; agreed = i.agreed }

missing : {v : ApplVerId} → none ≢ some v
missing h = ground arith

on_logon_received-FixtInv :
    {c : FixtSessionConfig} (s : FixtSession) (msg : MessageView) (now : ℕ) {u : FixtSession}
    {r : Result (Unit {0}) FixtError}
    → on_logon_received s msg now ≡ returns (u, r)
    → FixtInv c s
    → FixtInv c u
unfolding on_logon_received Session.on_logon
on_logon_received-FixtInv s msg now {u} e i =
    let (f, found, _) = >>=-eq-returns (get_field msg default_appl_ver_id) _ e in
    elim (on_logon_received-decides s msg now f found) [
      | inl (v, form, c, e') ↦
          let same : u ≡ agreed s v now = ap (λ p. p.0) (returns-injective (sym e ∙ e')) in
          rw same (record {
            kept = i.kept;
            wrapped = i.wrapped;
            agreed = λ w h. rw (sym i.kept, sym (some-injective h)) c;
          })
      | inr (w, why, e') ↦
          let same : u ≡ s = ap (λ p. p.0) (returns-injective (sym e ∙ e')) in rw same i
    ]

Reached-FixtInv : (c : FixtSessionConfig) {s : FixtSession} → Reached c s → FixtInv c s
unfolding on_connected on_logon validate_inbound_seq on_gap_filled on_logout_sent on_disconnected
    check_heartbeat on_message_sent on_message_received on_reconnect_attempt reset_sequences
    next_outbound_seq_num check_rate_limit new Session.on_connected Session.on_logon
    Session.validate_inbound_seq Session.on_gap_filled Session.on_logout_sent
    Session.on_disconnected Session.check_heartbeat Session.on_message_sent
    Session.on_message_received Session.on_reconnect_attempt Session.reset_sequences
    Session.next_outbound_seq_num Session.check_rate_limit
Reached-FixtInv c (created now) = record {
  kept = refl;
  wrapped = refl;
  agreed = λ v h. absurd (missing h);
}
Reached-FixtInv c (logon msg now e r) = on_logon_received-FixtInv _ msg now e (Reached-FixtInv c r)
Reached-FixtInv c (connected a b r) = on_base _ (ground arith) (Reached-FixtInv c r)
Reached-FixtInv c (logged_on now r) = on_base _ (ground arith) (Reached-FixtInv c r)
Reached-FixtInv c (sequenced seq now r) = on_base _ (ground arith) (Reached-FixtInv c r)
Reached-FixtInv c (filled seq r) = on_base _ (ground arith) (Reached-FixtInv c r)
Reached-FixtInv c (logout r) = on_base _ (ground arith) (Reached-FixtInv c r)
Reached-FixtInv c (dropped r) =
    let i = Reached-FixtInv c r in
    record { kept = i.kept; wrapped = i.wrapped; agreed = λ v h. absurd (missing h) }
Reached-FixtInv c (polled now r) = on_base _ (ground arith) (Reached-FixtInv c r)
Reached-FixtInv c (sent now r) = on_base _ (ground arith) (Reached-FixtInv c r)
Reached-FixtInv c (received now r) = on_base _ (ground arith) (Reached-FixtInv c r)
Reached-FixtInv c (attempted r) = on_base _ (ground arith) (Reached-FixtInv c r)
Reached-FixtInv c (reset r) = on_base _ (ground arith) (Reached-FixtInv c r)
Reached-FixtInv c (numbered r) = on_base _ (ground arith) (Reached-FixtInv c r)
Reached-FixtInv c (limited now r) = on_base _ (ground arith) (Reached-FixtInv c r)

contains-append : (vs : List ApplVerId) (v : ApplVerId) → contains (vs ++ (v ∷ [])) v ≡ true
unfolding contains
contains-append [] v = rw (==_refl (discriminant v)) refl
contains-append (w ∷ vs) v = let ih = contains-append vs v in ground (arith, ih)

default_supported :
    (c : FixtSessionConfig) → contains (completed c).supported_versions c.default_appl_ver_id ≡ true
unfolding completed
default_supported c = elim (Bool-cases (contains c.supported_versions c.default_appl_ver_id)) [
  | inl e ↦ rw (e, e) refl
  | inr e ↦ rw e (contains-append c.supported_versions c.default_appl_ver_id)
]

-- What the invariant says of the configuration that the session holds itself.
Reached-supported :
    (c : FixtSessionConfig) {s : FixtSession}
    → Reached c s
    → (s.config.base.fix_version ≡ fixt_begin_string)
      × (s.base.config ≡ s.config.base)
      × (contains s.config.supported_versions s.config.default_appl_ver_id ≡ true)
      × ((v : ApplVerId)
          → s.negotiated_version ≡ some v
          → contains s.config.supported_versions v ≡ true)
unfolding completed
Reached-supported c {s} r =
    let i = Reached-FixtInv c r in
    (
      ap (λ k. k.base.fix_version) i.kept,
      i.wrapped ∙ ap (λ k. k.base) (sym i.kept),
      rw i.kept (default_supported c),
      λ v h. rw i.kept (i.agreed v h),
    )

-- Of every session that is reached from a new one by any calls of its methods and has negotiated a
-- version: the begin string is `FIXT.1.1`, the wrapped session has the same configuration, and both
-- the default version and the negotiated one are among the supported ones.
pub Reached-negotiated :
    (c : FixtSessionConfig) {s : FixtSession} (v : ApplVerId)
    → Reached c s
    → s.negotiated_version ≡ some v
    → (s.config.base.fix_version ≡ fixt_begin_string)
      × (s.base.config ≡ s.config.base)
      × (contains s.config.supported_versions s.config.default_appl_ver_id ≡ true)
      × (contains s.config.supported_versions v ≡ true)
Reached-negotiated c v r e =
    let (begin, same, default, all) = Reached-supported c r in (begin, same, default, all v e)

unwrap_or-supported :
    (vs : List ApplVerId) (o : Option ApplVerId) (d v : ApplVerId)
    → contains vs d ≡ true
    → ((w : ApplVerId) → o ≡ some w → contains vs w ≡ true)
    → unwrap_or o d ≡ v
    → contains vs v ≡ true
unwrap_or-supported vs none d v default all e = rw (sym e) default
unwrap_or-supported vs (some w) d v default all e = all v (ap some e)

negotiated-some : (o : Option ApplVerId) (v : ApplVerId) → negotiated o ≡ ok v → o ≡ some v
unfolding negotiated
negotiated-some none v e = ground arith
negotiated-some (some w) v e = ground arith

version_field-supported :
    (s : FixtSession) (f : Option Bytes) (v : ApplVerId)
    → ((w : ApplVerId)
        → s.negotiated_version ≡ some w
        → contains s.config.supported_versions w ≡ true)
    → version_field s f ≡ ok v
    → contains s.config.supported_versions v ≡ true
unfolding version_field negotiated
version_field-supported s none v all e = all v (negotiated-some s.negotiated_version v e)
version_field-supported s (some bs) v all e = ((supported_version_iff s bs v).0 e).1

-- For a session that is reached from a new one, the version that `validate_appl_ver` gives for a
-- message, if it gives one, is among the supported ones, whatever the message holds.
pub validate_appl_ver-supported :
    (c : FixtSessionConfig) {s : FixtSession} (msg : MessageView) (v : ApplVerId)
    → Reached c s
    → validate_appl_ver s msg ≡ returns (ok v)
    → contains s.config.supported_versions v ≡ true
unfolding validate_appl_ver
validate_appl_ver-supported c {s} msg v r e =
    let (_, _, default, all) = Reached-supported c r in
    let (mt, _, e1) = >>=-eq-returns (msg_type_enum msg) _ e in
    elim (Bool-cases (session_message mt)) [
      | inl k ↦
          unwrap_or-supported s.config.supported_versions s.negotiated_version
            s.config.default_appl_ver_id v default all
            (ok-injective (returns-injective (if_true _ e1 k)))
      | inr k ↦
          let e2 : (get_field msg appl_ver_id >>= λ f. returns (version_field s f))
              ≡ returns (ok v) =
            if_false _ e1 k in
          let (f, _, e3) = >>=-eq-returns (get_field msg appl_ver_id) _ e2 in
          version_field-supported s f v all (returns-injective e3)
    ]
