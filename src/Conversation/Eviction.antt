-- ===== src/Conversation/Eviction.antt =====
-- `evictInactiveLocked`: what goes, what stays, and when it stops.
use cursor_cli_byok.Base.{
  ℕ, zero, suc, ◌≤◌, ◌<◌, ◌≡◌, ◌⊎◌, inl, inr, refl, sym, ap, ◌∙◌, true, false, none, some, [], ◌∷◌,
  Bytes, arith, length, Bool-cases, ltb,
}
use cursor_cli_byok.Go.Strings.{same, same_iff, is_empty}
use cursor_cli_byok.Go.Table.{
  Table, lookup, remove, lookup-remove, length-remove, length-remove_one,
}
use cursor_cli_byok.Conversation.{Conversation, Registry, oldest, evict_loop, evict_inactive}
use cursor_cli_byok.Conversation.Oldest.{
  AllActive, UsedSince-lookup, oldest_none, oldest_minimal, oldest_found,
}
use cursor_cli_byok.Go.Table.{IsTable, IsTable-remove}

-- What eviction does to the conversations of a registry.
pub record Evicted (maximum : ℕ) (before after : Table Conversation) : Type 0 where
  pub table : IsTable after
  -- conversations in use are kept as they were
  pub keeps_active :
      (id : Bytes) (c : Conversation)
      → lookup id before ≡ some c
      → 0 < c.active
      → lookup id after ≡ some c
  -- nothing is added or changed
  pub from_before :
      (id : Bytes) (c : Conversation) → lookup id after ≡ some c → lookup id before ≡ some c
  -- it stops at the bound, or with every conversation in use
  pub stops : (length after ≤ maximum) ⊎ AllActive after
  -- it does not pass the bound: no conversation goes, or as many stay as the bound lets
  pub no_more : (after ≡ before) ⊎ (maximum ≤ length after)
  -- what went was used before every idle conversation that stayed
  pub least_recent :
      (id j : Bytes) (c d : Conversation)
      → lookup id before ≡ some c
      → lookup id after ≡ none
      → lookup j after ≡ some d
      → d.active ≡ 0
      → c.last_used ≤ d.last_used

Evicted-refl :
    (maximum : ℕ) (m : Table Conversation)
    → IsTable m
    → (length m ≤ maximum) ⊎ AllActive m
    → Evicted maximum m m
Evicted-refl maximum m t stop = record {
  table = t;
  keeps_active = λ id c q a. q;
  from_before = λ id c q. q;
  stops = stop;
  no_more = inl refl;
  least_recent = λ id j c d q gone stay z. absurd (cc (q, gone));
}

-- One round: the entry under `id` is idle and was used least recently.
module _ (maximum : ℕ) (m after : Table Conversation) (id : Bytes) {c : Conversation}
    (found : lookup id m ≡ some c) (idle : c.active ≡ 0)
    (least : (j : Bytes) (d : Conversation)
      → lookup j m ≡ some d
      → d.active ≡ 0
      → c.last_used ≤ d.last_used)
    (t : IsTable m) (over : maximum < length m) (rest : Evicted maximum (remove id m) after) where
  other : (j : Bytes) → same id j ≡ false → lookup j (remove id m) ≡ lookup j m
  other j ne = rw lookup-remove (rw ne)

  keeps :
      (j : Bytes) (d : Conversation) → lookup j m ≡ some d → 0 < d.active → lookup j after ≡ some d
  keeps j d q a = elim (Bool-cases (same id j)) [
    | inl y ↦ let e : id ≡ j = (same_iff id j).0 y in absurd (ground (arith, found, q, e, idle, a))
    | inr n ↦ rest.keeps_active j d (other j n ∙ q) a
  ]

  from : (j : Bytes) (d : Conversation) → lookup j after ≡ some d → lookup j m ≡ some d
  from j d q = elim (Bool-cases (same id j)) [
    | inl y ↦ absurd (ground (arith, rest.from_before j d q, lookup-remove id j m, y))
    | inr n ↦ sym (other j n) ∙ rest.from_before j d q
  ]

  least_of_all :
      (i j : Bytes) (b d : Conversation)
      → lookup i m ≡ some b
      → lookup i after ≡ none
      → lookup j after ≡ some d
      → d.active ≡ 0
      → b.last_used ≤ d.last_used
  least_of_all i j b d q gone stay z = elim (Bool-cases (same id i)) [
    | inl y ↦
        let e : id ≡ i = (same_iff id i).0 y in
        let le : c.last_used ≤ d.last_used = least j d (from j d stay) z in
        ground (arith, found, q, e, le)
    | inr n ↦ rest.least_recent i j b d (other i n ∙ q) gone stay z
  ]

  not_past : (after ≡ m) ⊎ (maximum ≤ length after)
  not_past = elim rest.no_more [
    | inl e ↦ inr (omega (arith, over, length-remove_one id m t, ap length e))
    | inr enough ↦ inr enough
  ]

  Evicted-round : Evicted maximum m after
  Evicted-round = record {
    table = rest.table;
    keeps_active = keeps;
    from_before = from;
    stops = rest.stops;
    no_more = not_past;
    least_recent = least_of_all;
  }

evict_loop_over :
    (fuel maximum : ℕ) (m : Table Conversation)
    → ltb maximum (length m) ≡ true
    → is_empty (oldest ([], 0) m).0 ≡ false
    → evict_loop (suc fuel) maximum m ≡ evict_loop fuel maximum (remove (oldest ([], 0) m).0 m)
unfolding evict_loop
evict_loop_over fuel maximum m over named = rw over (rw named)

evict_loop_stuck :
    (fuel maximum : ℕ) (m : Table Conversation)
    → is_empty (oldest ([], 0) m).0 ≡ true
    → evict_loop (suc fuel) maximum m ≡ m
unfolding evict_loop
evict_loop_stuck fuel maximum m stuck = ground (arith, stuck)

evict_loop_within :
    (fuel maximum : ℕ) (m : Table Conversation)
    → ltb maximum (length m) ≡ false
    → evict_loop fuel maximum m ≡ m
unfolding evict_loop
evict_loop_within zero maximum m within = refl
evict_loop_within (suc fuel) maximum m within = rw within

empty_iff : (id : Bytes) → is_empty id ≡ true → id ≡ []
empty_iff [] h = refl
empty_iff (b ∷ id) h = cc

evict_loop-Evicted :
    (fuel maximum : ℕ) (m : Table Conversation)
    → IsTable m
    → length m ≤ fuel
    → Evicted maximum m (evict_loop fuel maximum m)
evict_loop-Evicted zero maximum m t enough =
    rw (evict_loop_within 0 maximum m (ground arith)) (Evicted-refl maximum m t (inl (omega arith)))
evict_loop-Evicted (suc fuel) maximum m t enough = elim (Bool-cases (ltb maximum (length m))) [
  | inr within ↦
      rw (evict_loop_within (suc fuel) maximum m within)
        (Evicted-refl maximum m t (inl (ground arith)))
  | inl over ↦ elim (Bool-cases (is_empty (oldest ([], 0) m).0)) [
    | inl stuck ↦
        rw (evict_loop_stuck fuel maximum m stuck)
          (Evicted-refl maximum m t (inr (oldest_none ([], 0) m t (empty_iff _ stuck)).1))
    | inr named ↦ rw (evict_loop_over fuel maximum m over named) (elim (oldest_found ([], 0) m t) [
      | inl q ↦ absurd (ground (arith, q, named))
      | inr (c, at, idle, u) ↦
          let id = (oldest ([], 0) m).0 in
          Evicted-round maximum m (evict_loop fuel maximum (remove id m)) id at idle
            (λ j d q z. omega (arith, u, UsedSince-lookup _ m j (oldest_minimal ([], 0) m t).0 q z))
            t (ground (arith, over))
            (evict_loop-Evicted fuel maximum (remove id m) (IsTable-remove id m t)
              (omega (arith, length-remove id m at)))
    ])
  ]
]

-- Eviction on a well-formed map keeps every conversation in use, adds and changes none, goes on
-- until the bound is met or every conversation is in use and never past the bound (nothing goes, or
-- at least max_conversations stay), and drops no conversation that was used after an idle one that
-- stays.
pub evict_inactive-Evicted :
    (r : Registry)
    → IsTable r.conversations
    → Evicted r.max_conversations r.conversations (evict_inactive r).conversations
unfolding evict_inactive
evict_inactive-Evicted r t =
    evict_loop-Evicted (length r.conversations) r.max_conversations r.conversations t (omega arith)
