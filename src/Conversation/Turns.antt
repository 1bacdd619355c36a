-- ===== src/Conversation/Turns.antt =====
-- `appendTurnLocked` of internal/agent/conversation.go and the turns that it keeps.
use cursor_cli_byok.Base.{
  ℕ, zero, suc, ◌-◌, ◌≤◌, ◌≡◌, refl, ap, some, List, [], ◌∷◌, ◌++◌, Bytes, arith, length,
  length-drop, drop, take, inl, inr, Bool-cases, ltb, if◌then◌else◌,
}
use cursor_cli_byok.Go.Strings.{same}
use cursor_cli_byok.Go.Table.{lookup, lookup-put}
use cursor_cli_byok.Conversation.{Turn, Conversation, Registry, keep_last, append_turn}

-- The list is a front part and the kept part; all is kept while there is room, and `maximum` turns
-- otherwise.
pub record KeepsLast (maximum : ℕ) (turns kept : List Turn) : Type 0 where
  pub dropped : List Turn
  pub splits : turns ≡ dropped ++ kept
  pub length_is : length kept ≡ (if ltb maximum (length turns) then maximum else length turns)

take-drop : (n : ℕ) (turns : List Turn) → turns ≡ take n turns ++ drop n turns
take-drop zero turns = refl
take-drop (suc n) [] = refl
take-drop (suc n) (t ∷ turns) = ap (◌∷◌ t) (take-drop n turns)

pub keep_last-KeepsLast :
    (maximum : ℕ) (turns : List Turn) → KeepsLast maximum turns (keep_last maximum turns)
unfolding keep_last
keep_last-KeepsLast maximum turns = elim (Bool-cases (ltb maximum (length turns))) [
  | inl over ↦ rw over (record {
    dropped = take (length turns - maximum) turns;
    splits = take-drop (length turns - maximum) turns;
    length_is = rw over (ground (arith, length-drop (length turns - maximum) turns));
  })
  | inr within ↦ rw within (record { dropped = []; splits = refl; length_is = rw within refl })
]

pub keep_last_le : (maximum : ℕ) (turns : List Turn) → length (keep_last maximum turns) ≤ maximum
unfolding keep_last
keep_last_le maximum turns = elim (Bool-cases (ltb maximum (length turns))) [
  | inl over ↦ rw over (ground (arith, length-drop (length turns - maximum) turns))
  | inr within ↦ rw within (ground arith)
]

-- After a turn is appended to a conversation of the registry, it holds its old turns and the new
-- one, or the last `max_turns` of them if they are more; its holders and every other conversation
-- are as before.
pub append_turn-KeepsLast :
    (id : Bytes) (messages : Turn) (r : Registry) {c : Conversation}
    → lookup id r.conversations ≡ some c
    → (c' : Conversation) × (c'.active ≡ c.active)
      × KeepsLast r.max_turns (c.turns ++ messages ∷ []) c'.turns
      × ((j : Bytes)
          → lookup j (append_turn id messages r).conversations
            ≡ (if same id j then some c' else lookup j r.conversations))
unfolding append_turn
append_turn-KeepsLast id messages r {c} held =
    let c' = record c { turns = keep_last r.max_turns (c.turns ++ messages ∷ []) } in
    (
      c',
      refl,
      keep_last-KeepsLast r.max_turns (c.turns ++ messages ∷ []),
      λ j. rw (held, append_turn) (lookup-put id j c' r.conversations),
    )
