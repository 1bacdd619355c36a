-- ===== src/Session/Scan.antt =====
-- The pruning and the scan of internal/server/agent.go over the sessions of a handler.
use cursor_cli_byok.Base.{
  ℕ, ◌≡◌, ◌≢◌, ◌⊎◌, inl, inr, refl, ◌∙◌, true, false, ◌||◌, Option, none, some, [], ◌∷◌, Bytes,
  if◌then◌else◌, ltb, All, arith, Bool-cases, Option-cases, on_both,
}
use cursor_cli_byok.Go.Strings.{is_empty, same, same_iff, same_self}
use cursor_cli_byok.Go.Table.{Table, lookup, IsTable}
use cursor_cli_byok.Session.{Session}
use cursor_cli_byok.Session.Retained.{
  terminal_time, is_past, prune_expired_sessions, earlier, oldest_terminal,
}

pub terminal_time_running : (s : Session) → s.done ≡ false → terminal_time s ≡ none
unfolding terminal_time
terminal_time_running s h = ground (arith, h)

terminal_time_done : (s : Session) {t : ℕ} → terminal_time s ≡ some t → s.done ≡ true
unfolding terminal_time
terminal_time_done s {t} h = elim (Bool-cases s.done) [
  | inl y ↦ y
  | inr n ↦ absurd (ground (arith, n, h))
]

module _ (retention now : ℕ) where
  -- The round of the pruning on one session.
  prune-cons :
      (k : Bytes) (d : Session) (m : Table Session)
      → prune_expired_sessions retention now ((k, d) ∷ m) ≡ (
          if is_past retention now (terminal_time d)
          then prune_expired_sessions retention now m
          else (k, d) ∷ prune_expired_sessions retention now m)
  unfolding prune_expired_sessions
  prune-cons k d m = refl

  pub lookup-prune_running :
      (j : Bytes) (m : Table Session) {s : Session}
      → s.done ≡ false
      → lookup j m ≡ some s
      → lookup j (prune_expired_sessions retention now m) ≡ some s
  unfolding lookup
  lookup-prune_running j [] h q = absurd (cc q)
  lookup-prune_running j ((k, d) ∷ m) {s} h q = rw prune-cons (elim (Bool-cases (same k j)) [
    | inl y ↦
        let e : d ≡ s = ground (arith, y, q) in
        let stays : terminal_time d ≡ none = rw e (terminal_time_running s h) in
        rw stays (ground (arith, y, q))
    | inr n ↦
        on_both (λ t. lookup j t ≡ some s) (is_past retention now (terminal_time d))
          (λ past. lookup-prune_running j m h (rw n at q))
          (λ present. rw n (lookup-prune_running j m h (rw n at q)))
  ])

  pub lookup-prune_none :
      (j : Bytes) (m : Table Session)
      → lookup j m ≡ none
      → lookup j (prune_expired_sessions retention now m) ≡ none
  unfolding lookup
  lookup-prune_none j [] q = unfold prune_expired_sessions in refl
  lookup-prune_none j ((k, d) ∷ m) q = rw prune-cons (elim (Bool-cases (same k j)) [
    | inl y ↦ absurd (ground (arith, y, q))
    | inr n ↦
        on_both (λ t. lookup j t ≡ none) (is_past retention now (terminal_time d))
          {x = prune_expired_sessions retention now m}
          {y = (k, d) ∷ prune_expired_sessions retention now m}
          (λ past. lookup-prune_none j m (rw n at q))
          (λ present. rw n (lookup-prune_none j m (rw n at q)))
  ])

  pub prune-IsTable :
      (m : Table Session) → IsTable m → IsTable (prune_expired_sessions retention now m)
  prune-IsTable [] t = unfold prune_expired_sessions in tt
  prune-IsTable ((k, d) ∷ m) t = rw prune-cons (
      on_both (λ t. IsTable t) (is_past retention now (terminal_time d))
        (λ past. prune-IsTable m t.2)
        (λ present. (t.0, lookup-prune_none k m t.1, prune-IsTable m t.2)))

-- What a scan has found: nothing new, or a session of the table that is over.
pub data Found (found : Bytes × ℕ) (m : Table Session) (now : Bytes × ℕ) : Type 0 where
  old : now ≡ found → Found found m now
  over : (s : Session) → lookup now.0 m ≡ some s → s.done ≡ true → Found found m now

earlier_cases :
    (found : Bytes × ℕ) (k : Bytes) (t : Option ℕ)
    → (earlier found k t ≡ found) ⊎ ((at : ℕ) × (t ≡ some at) × (earlier found k t ≡ (k, at)))
earlier_cases found k none = inl refl
earlier_cases (oldest, at) k (some t) = elim (Bool-cases (is_empty oldest || ltb t at)) [
  | inl y ↦ inr (t, refl, rw y refl)
  | inr n ↦ inl (rw n refl)
]

pub oldest_terminal-Found :
    (found : Bytes × ℕ) (m : Table Session) → IsTable m → Found found m (oldest_terminal found m)
unfolding oldest_terminal lookup
oldest_terminal-Found found [] t = old refl
oldest_terminal-Found found ((k, d) ∷ m) t =
    let id = (oldest_terminal (earlier found k (terminal_time d)) m).0 in
    elim (oldest_terminal-Found (earlier found k (terminal_time d)) m t.2) [
      | over s q d' ↦
          over s
            (elim (Bool-cases (same k id)) [
              | inl y ↦ absurd (ground (arith, (same_iff k id).0 y, t.1, q))
              | inr n ↦ rw n q
            ])
            d'
      | old q ↦ elim (earlier_cases found k (terminal_time d)) [
        | inl e ↦ old (q ∙ e)
        | inr (at, there, e) ↦
            over d (rw q (rw e (rw (same_self k) refl))) (terminal_time_done d there)
      ]
    ]

-- No session has an end.
abbrev pub AllRunning : Table Session → Type 0
AllRunning = All (λ e. terminal_time e.1 ≡ none)

earlier_named :
    (found : Bytes × ℕ) (k : Bytes) (t : Option ℕ)
    → k ≢ []
    → found.0 ≢ []
    → (earlier found k t).0 ≢ []
earlier_named found k t ne named = elim (earlier_cases found k t) [
  | inl e ↦ rw e named
  | inr (at, there, e) ↦ rw e ne
]

oldest_terminal_named :
    (found : Bytes × ℕ) (m : Table Session)
    → IsTable m
    → found.0 ≢ []
    → (oldest_terminal found m).0 ≢ []
unfolding oldest_terminal
oldest_terminal_named found [] t named = named
oldest_terminal_named found ((k, d) ∷ m) t named =
    oldest_terminal_named (earlier found k (terminal_time d)) m t.2
      (earlier_named found k (terminal_time d) t.0 named)

-- Where a scan finds no name, no session is over.
pub oldest_terminal-AllRunning :
    (m : Table Session) → IsTable m → (oldest_terminal ([], 0) m).0 ≡ [] → AllRunning m
unfolding oldest_terminal
oldest_terminal-AllRunning [] t h = tt
oldest_terminal-AllRunning ((k, d) ∷ m) t h = elim (Option-cases (terminal_time d)) [
  | inl q ↦ (q, oldest_terminal-AllRunning m t.2 (rw (q, oldest_terminal) at h))
  | inr (at, q) ↦ absurd (oldest_terminal_named (k, at) m t.2 t.0 (rw (q, oldest_terminal) at h))
]
