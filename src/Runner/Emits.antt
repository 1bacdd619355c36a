-- ===== src/Runner/Emits.antt =====
-- Code that emits events and may fail: a result and the events, those before an error too.
use cursor_cli_byok.Base.{◌≡◌, refl, none, some, [], ◌∷◌, ◌++◌, Result, ok, err, Error}
use cursor_cli_byok.Runner.Events.{AgentEvent, Log, Environment}

abbrev pub Emits {ℓ} : Type ℓ → Type ℓ
Emits A = Log → Result A × Log

module _ {ℓ} {A : Type ℓ} where
  abbrev pub pure : A → Emits A
  pure a log = (ok a, log)

  abbrev pub fail : Error → Emits A
  fail e log = (err e, log)

  -- A computation that emits nothing.
  abbrev pub lift : Result A → Emits A
  lift r log = (r, log)

module _ {ℓ κ} {A : Type ℓ} {B : Type κ} where
  abbrev pub continue : Result A → (A → Emits B) → Emits B
  continue (ok a) f log = f a log
  continue (err e) f log = (err e, log)

  infixl 5 ◌>>=◌
  abbrev pub ◌>>=◌ : Emits A → (A → Emits B) → Emits B
  ◌>>=◌ m f log = continue (m log).0 f (m log).1

abbrev pub ◌>>◌ {ℓ} : {B : Type ℓ} → Emits (Unit {0}) → Emits B → Emits B
m >> k = m >>= λ _. k

infixl 5 ◌>>◌
-- The callback: the event is logged, whatever the callback answers.
unfoldable pub emit : Environment → AgentEvent → Emits (Unit {0})
emit env event log =
    (elim (env.emit log event) [ none ↦ ok tt | some e ↦ err e ], log ++ event ∷ [])

-- What a successful `m >>= f` went through.
pub bind-eq-ok {ℓ κ} :
    {A : Type ℓ} {B : Type κ} (m : Emits A) (f : A → Emits B) (log : Log) {b : B} {log' : Log}
    → (m >>= f) log ≡ (ok b, log')
    → (a : A) × (mid : Log) × (m log ≡ (ok a, mid)) × (f a mid ≡ (ok b, log'))
bind-eq-ok {A = A} {B = B} m f log {b} {log'} e = go (m log) refl e
  where
    go :
        (r : Result A × Log)
        → m log ≡ r
        → continue r.0 f r.1 ≡ (ok b, log')
        → (a : A) × (mid : Log) × (m log ≡ (ok a, mid)) × (f a mid ≡ (ok b, log'))
    go (ok a, mid) q h = (a, mid, q, h)
    go (err x, mid) q h = absurd (cc h)
