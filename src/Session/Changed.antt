-- ===== src/Session/Changed.antt =====
-- What any step of a session changes of what its streams read.
use cursor_cli_byok.Base.{
  ℕ, ◌≡◌, refl, ◌⊎◌, inl, inr, Bool, true, false, not, Option, none, List, [], ◌∷◌, ◌++◌, Bytes,
  Error, Result, Outcome, on_both, Option-cases, if◌then◌else◌,
}
use cursor_cli_byok.Runner.Events.{RunRequest}
use cursor_cli_byok.Session.{
  Session, start, publish, finish, subscribe, unsubscribe, context_err, same_run, payloads,
}
use cursor_cli_byok.Session.Stream.{
  Changes, starts, publishes, finishes, queues, subscribes, unsubscribes,
}

-- What a change of a session can do to its events and its end.
pub data Extends (s t : Session) : Type 0 where
  grows :
      (new : List Bytes)
      → s.done ≡ false
      → t.events ≡ s.events ++ new
      → t.notified ≡ true
      → Extends s t
  stays :
      t.events ≡ s.events
      → t.done ≡ s.done
      → t.error_code ≡ s.error_code
      → t.error_message ≡ s.error_message
      → (t.notified ≡ true) ⊎ (t.notified ≡ s.notified)
      → Extends s t

Extends-refl : (s : Session) → Extends s s
Extends-refl s = stays refl refl refl refl (inr refl)

start-Extends : (request : RunRequest) (s : Session) → Extends s (start request s).1
unfolding start
start-Extends request s =
    let P : Result Bool × Session → Type 0 = λ r. Extends s r.1 in
    on_both P s.started
      (λ y. on_both P (not (same_run s.run request)) (λ d. Extends-refl s) (λ d. Extends-refl s))
      (λ n. on_both P s.done (λ d. Extends-refl s) (λ d. stays refl refl refl refl (inl refl)))

publish-Extends :
    (parent : Option Error) (payload : Bytes) (s : Session) → Extends s (publish parent payload s).1
unfolding publish
publish-Extends parent payload s =
    on_both (λ (r : Outcome × Session). Extends s r.1) s.done (λ y. Extends-refl s)
      (λ n. elim (Option-cases (if s.started then context_err parent s else none)) [
        | inl q ↦ rw q (grows (payload ∷ []) n refl refl)
        | inr (e, q) ↦ rw q (Extends-refl s)
      ])

pub finish-Extends :
    (now : ℕ) (payload code message : Bytes) (s : Session)
    → Extends s (finish now payload code message s)
unfolding finish
finish-Extends now payload code message s =
    on_both (Extends s) s.done (λ y. Extends-refl s) (λ n. grows (payloads payload) n refl refl)

pub Changes-Extends : {s t : Session} → Changes s t → Extends s t
Changes-Extends (starts {s} request) = start-Extends request s
Changes-Extends (publishes {s} parent payload) = publish-Extends parent payload s
Changes-Extends (finishes {s} now payload code message) = finish-Extends now payload code message s
Changes-Extends (queues payloads d) = grows payloads d refl refl
Changes-Extends subscribes = unfold subscribe in stays refl refl refl refl (inr refl)
Changes-Extends unsubscribes = unfold unsubscribe in stays refl refl refl refl (inr refl)
