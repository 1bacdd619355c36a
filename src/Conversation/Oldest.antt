-- ===== src/Conversation/Oldest.antt =====
-- The scan of `evictInactiveLocked`: the idle conversation that was used least recently.
use cursor_cli_byok.Base.{
  ℕ, ◌≤◌, ◌<◌, ◌≡◌, ◌≢◌, ◌⊎◌, inl, inr, refl, sym, ap, ◌∙◌, subst, not, none, some, [], ◌∷◌, Bytes,
  arith, All, Bool-cases, ltb, ◌==◌,
}
use cursor_cli_byok.Go.Strings.{same, same_iff, same_self}
use cursor_cli_byok.Go.Table.{Table, lookup, IsTable}
use cursor_cli_byok.Conversation.{Conversation, older, oldest}

-- Every conversation is in use.
abbrev pub AllActive : Table Conversation → Type 0
AllActive = All (λ e. 0 < e.1.active)

-- No idle conversation was used before `s`.
abbrev pub UsedSince : ℕ → Table Conversation → Type 0
UsedSince s = All (λ e. e.1.active ≡ 0 → s ≤ e.1.last_used)

pub UsedSince-lookup :
    (s : ℕ) (m : Table Conversation) (k : Bytes) {c : Conversation}
    → UsedSince s m
    → lookup k m ≡ some c
    → c.active ≡ 0
    → s ≤ c.last_used
unfolding lookup
UsedSince-lookup s [] k h e z = absurd (cc e)
UsedSince-lookup s ((j, d) ∷ m) k {c} h e z = elim (Bool-cases (same j k)) [
  | inl y ↦ ground (arith, y, e, h.0)
  | inr n ↦ UsedSince-lookup s m k h.1 (rw n at e) z
]

oldest-cons :
    (found : Bytes × ℕ) (e : Bytes × Conversation) (m : Table Conversation)
    → oldest found (e ∷ m) ≡ oldest (older found e) m
unfolding oldest
oldest-cons found e m = refl

oldest-nil : (found : Bytes × ℕ) → oldest found [] ≡ found
unfolding oldest
oldest-nil found = refl

lookup_head :
    (k : Bytes) (c : Conversation) (m : Table Conversation) → lookup k ((k, c) ∷ m) ≡ some c
unfolding lookup
lookup_head k c m = rw (same_self k)

-- The entry is passed over as busy, taken, or passed over as used later.
data Round (found : Bytes × ℕ) (k : Bytes) (c : Conversation) : Type 0 where
  busy : 0 < c.active → older found (k, c) ≡ found → Round found k c
  taken :
      c.active ≡ 0
      → (found.0 ≡ []) ⊎ (c.last_used < found.1)
      → older found (k, c) ≡ (k, c.last_used)
      → Round found k c
  later :
      c.active ≡ 0
      → found.0 ≢ []
      → found.1 ≤ c.last_used
      → older found (k, c) ≡ found
      → Round found k c

older-Round : (found : Bytes × ℕ) (k : Bytes) (c : Conversation) → Round found k c
unfolding older
older-Round ([], s) k c = elim (Bool-cases (not (c.active == 0))) [
  | inl b ↦ busy (ground arith) (rw (b, older))
  | inr i ↦ taken (ground arith) (inl refl) (rw (i, older))
]
older-Round (b ∷ id, s) k c = elim (Bool-cases (not (c.active == 0))) [
  | inl b ↦ busy (ground arith) (rw (b, older))
  | inr i ↦ elim (Bool-cases (ltb c.last_used s)) [
    | inl less ↦ taken (ground arith) (inr (ground arith)) (rw (i, older) (rw less))
    | inr more ↦ later (ground arith) (λ e. cc) (ground arith) (rw (i, older) (rw more))
  ]
]

-- The scan finds nothing only if all are in use.
pub oldest_none :
    (found : Bytes × ℕ) (m : Table Conversation)
    → IsTable m
    → (oldest found m).0 ≡ []
    → (found.0 ≡ []) × AllActive m
oldest_none found [] t h = (rw oldest-nil at h, tt)
oldest_none found ((k, c) ∷ m) t h = elim (older-Round found k c) [
  | busy active e ↦
      let h' : (oldest found m).0 ≡ [] = rw e at (rw oldest-cons at h) in
      let r = oldest_none found m t.2 h' in (r.0, (active, r.1))
  | taken idle why e ↦
      let h' : (oldest (k, c.last_used) m).0 ≡ [] = rw e at (rw oldest-cons at h) in
      absurd (t.0 (oldest_none (k, c.last_used) m t.2 h').0)
  | later idle ne le e ↦
      let h' : (oldest found m).0 ≡ [] = rw e at (rw oldest-cons at h) in
      absurd (ne (oldest_none found m t.2 h').0)
]

moved :
    (found : Bytes × ℕ) {next : Bytes × ℕ} (k : Bytes) (c : Conversation) (m : Table Conversation)
    → older found (k, c) ≡ next
    → oldest next m ≡ oldest found ((k, c) ∷ m)
moved found k c m e = sym (oldest-cons found (k, c) m ∙ ap (λ f. oldest f m) e)

-- The sequence is at most that of every idle conversation, and of what the scan was given.
abbrev pub IsLeast : Bytes × ℕ → Table Conversation → ℕ → Type 0
IsLeast found m s = UsedSince s m × (found.0 ≢ [] → s ≤ found.1)

-- What the scan finds is the minimum of what it was given and of the idle conversations.
pub oldest_minimal :
    (found : Bytes × ℕ) (m : Table Conversation) → IsTable m → IsLeast found m (oldest found m).1
oldest_minimal found [] t = (tt, λ h. rw oldest-nil (omega arith))
oldest_minimal found ((k, c) ∷ m) t = elim (older-Round found k c) [
  | busy active e ↦
      let r = oldest_minimal found m t.2 in
      subst (λ p. IsLeast found ((k, c) ∷ m) p.1) (moved found k c m e)
        (((λ z. absurd (omega arith)), r.0), r.1)
  | taken idle why e ↦
      let r = oldest_minimal (k, c.last_used) m t.2 in
      subst (λ p. IsLeast found ((k, c) ∷ m) p.1) (moved found k c m e)
        (
          ((λ z. r.1 t.0), r.0),
          λ ne. elim why [ inl q ↦ absurd (ne q) | inr q ↦ omega (arith, r.1 t.0) ],
        )
  | later idle ne le e ↦
      let r = oldest_minimal found m t.2 in
      subst (λ p. IsLeast found ((k, c) ∷ m) p.1) (moved found k c m e)
        (((λ z. omega (arith, r.1 ne)), r.0), r.1)
]

-- An idle conversation of the table under that ID, last used then.
abbrev pub IsIdleAt : Bytes × ℕ → Table Conversation → Type 0
IsIdleAt found m =
    (c : Conversation) × (lookup found.0 m ≡ some c) × (c.active ≡ 0) × (c.last_used ≡ found.1)

IsIdleAt-cons :
    (found : Bytes × ℕ) (k : Bytes) (d : Conversation) (m : Table Conversation)
    → lookup k m ≡ none
    → IsIdleAt found m
    → IsIdleAt found ((k, d) ∷ m)
unfolding lookup
IsIdleAt-cons found k d m free (c, q, z, u) = elim (Bool-cases (same k found.0)) [
  | inl y ↦ absurd (cc (free, q, (same_iff k found.0).0 y))
  | inr n ↦ (c, rw n q, z, u)
]

-- The scan returns what it was given, or an idle conversation of the table.
pub oldest_found :
    (found : Bytes × ℕ) (m : Table Conversation)
    → IsTable m
    → (oldest found m ≡ found) ⊎ IsIdleAt (oldest found m) m
oldest_found found [] t = inl (oldest-nil found)
oldest_found found ((k, c) ∷ m) t = elim (older-Round found k c) [
  | busy active e ↦ rw oldest-cons (
      rw e (elim (oldest_found found m t.2) [
        | inl q ↦ inl q
        | inr q ↦ inr (IsIdleAt-cons (oldest found m) k c m t.1 q)
      ]))
  | taken idle why e ↦ rw oldest-cons (
      rw e (elim (oldest_found (k, c.last_used) m t.2) [
        | inl q ↦ rw q (inr (c, lookup_head k c m, idle, refl))
        | inr q ↦ inr (IsIdleAt-cons (oldest (k, c.last_used) m) k c m t.1 q)
      ]))
  | later idle ne le e ↦ rw oldest-cons (
      rw e (elim (oldest_found found m t.2) [
        | inl q ↦ inl q
        | inr q ↦ inr (IsIdleAt-cons (oldest found m) k c m t.1 q)
      ]))
]
