-- ===== src/Engine/Fuel.antt =====
-- src/engine.rs: the inner loop over the receive buffer ends.
use fix_engine.Base.{
  Bool, Bytes, List, Option, Option-cases, Outcome, ap, arith, drop, false, inl, inr, length,
  length-drop, none, refl, returns, returns-injective, some, suc, sym, take, true, zero, ℕ, ◌≡◌,
  ◌≢◌, ◌≤◌,
}
use fix_engine.Engine.{App, FixEngine, and_then}
use fix_engine.Engine.Loop.{handle_message, process, take_message}
use fix_engine.Parser
use fix_engine.Parser.{find_message_boundary, parse}
use fix_engine.Parser.Boundary.{find_message_boundary-bounds}
use fix_engine.Engine.Keeps.{Keeps, kept, gone, handled-Keeps}

module _ {A : Type 0} (app : App A) (accepts : List Bytes → Bytes → Bool) (clock wall : ℕ → ℕ) where
  -- Two calls of the rest that agree where the buffer is short agree behind a message.
  and_then-agree :
      (k l : FixEngine A → Outcome (FixEngine A × Bool)) (r : Bytes)
      {m : Outcome (FixEngine A × Bool)}
      → Keeps r m
      → ((f : FixEngine A) → f.recv ≡ r → k f ≡ l f)
      → and_then m k ≡ and_then m l
  and_then-agree k l r (kept {f = f} {b = true} h) g = g f h
  and_then-agree k l r (kept {b = false} h) g = refl
  and_then-agree k l r gone g = refl

  process-step :
      (n m : ℕ) (e : FixEngine A) (b : Option ℕ)
      → find_message_boundary e.recv ≡ b
      → length e.recv ≤ suc n
      → length e.recv ≤ suc m
      → ((f : FixEngine A)
          → length f.recv ≤ n
          → length f.recv ≤ m
          → process app accepts clock wall n f ≡ process app accepts clock wall m f)
      → take_message app accepts clock wall (λ f. process app accepts clock wall n f) e b
        ≡ take_message app accepts clock wall (λ f. process app accepts clock wall m f) e b
  unfolding take_message handle_message
  process-step n m e none found h k ih = refl
  process-step n m e (some b) found h k ih =
      let (low, high) = find_message_boundary-bounds e.recv b found in
      let rest : FixEngine A = record e { recv = drop b e.recv } in
      let left = length-drop b e.recv in
      and_then-agree _ _ (drop b e.recv)
        (handled-Keeps app accepts clock wall rest (parse Parser.new (take b e.recv)))
        (λ f same. ih f (omega (arith, ap length same, left)) (omega (arith, ap length same, left)))

  no_boundary : (e : FixEngine A) → length e.recv ≤ 0 → find_message_boundary e.recv ≡ none
  no_boundary e h = elim (Option-cases (find_message_boundary e.recv)) [
    | inl found ↦ found
    | inr (b, found) ↦
        let (low, high) = find_message_boundary-bounds e.recv b found in absurd (omega arith)
  ]

  and_then-done :
      (k : FixEngine A → Outcome (FixEngine A × Bool)) (r : Bytes)
      {m : Outcome (FixEngine A × Bool)} {f : FixEngine A}
      → Keeps r m
      → and_then m k ≡ returns (f, true)
      → (g : FixEngine A) × (g.recv ≡ r) × (k g ≡ returns (f, true))
  and_then-done k r (kept {f = g} {b = true} h) e = (g, h, e)
  and_then-done k r (kept {b = false} h) e = absurd (wrong (ap (λ p. p.1) (returns-injective e)))
    where
      wrong : false ≢ true
      wrong h = ground arith
  and_then-done k r gone e = cc

  -- With at least as many turns as the buffer has bytes, the inner loop gives the same result as with
  -- any other such number of turns: it does not run out of them.
  process-agree :
      (n m : ℕ) (e : FixEngine A)
      → length e.recv ≤ n
      → length e.recv ≤ m
      → process app accepts clock wall n e ≡ process app accepts clock wall m e
  unfolding process take_message
  process-agree zero zero e h k = refl
  process-agree zero (suc m) e h k = rw (no_boundary e h) refl
  process-agree (suc n) zero e h k = rw (no_boundary e k) refl
  process-agree (suc n) (suc m) e h k =
      process-step n m e (find_message_boundary e.recv) refl h k (process-agree n m)

  drained :
      (n : ℕ) (e f : FixEngine A) (b : Option ℕ)
      → find_message_boundary e.recv ≡ b
      → length e.recv ≤ suc n
      → take_message app accepts clock wall (λ g. process app accepts clock wall n g) e b
        ≡ returns (f, true)
      → ((g f : FixEngine A)
          → length g.recv ≤ n
          → process app accepts clock wall n g ≡ returns (f, true)
          → find_message_boundary f.recv ≡ none)
      → find_message_boundary f.recv ≡ none
  unfolding take_message handle_message
  drained n e f none found h done ih =
      let same : e ≡ f = ap (λ p. p.0) (returns-injective done) in rw (sym same) found
  drained n e f (some b) found h done ih =
      let (low, high) = find_message_boundary-bounds e.recv b found in
      let rest : FixEngine A = record e { recv = drop b e.recv } in
      let left = length-drop b e.recv in
      let (g, kept_g, more) =
        and_then-done (λ g. process app accepts clock wall n g) (drop b e.recv)
          (handled-Keeps app accepts clock wall rest (parse Parser.new (take b e.recv))) done in
      ih g f (omega (arith, ap length kept_g, left)) more

  -- With at least as many turns as the buffer has bytes, an inner loop that no failed send or
  -- callback ends leaves a buffer in which no complete message is found.
  pub process-drained :
      (n : ℕ) (e f : FixEngine A)
      → length e.recv ≤ n
      → process app accepts clock wall n e ≡ returns (f, true)
      → find_message_boundary f.recv ≡ none
  unfolding process
  process-drained zero e f h done =
      let same : e ≡ f = ap (λ p. p.0) (returns-injective done) in rw (sym same) (no_boundary e h)
  process-drained (suc n) e f h done =
      drained n e f (find_message_boundary e.recv) refl h done (process-drained n)
