-- ===== src/Conversation.antt =====
-- internal/agent/conversation.go: the registry of conversations, with its bound on turns and its
-- eviction of the least recently used idle conversation.
--
-- The map is an association list, walked in its order where Go's `range` takes any. A pointer to a
-- conversation is its ID: what `acquire` returns is used only while `active` counts it. Each stretch
-- of code under the registry's lock is one step; the messages are values, so their clones are the
-- messages.
pub mod Turns
pub mod Oldest
pub mod Eviction
pub mod Held
pub mod Tests
use cursor_cli_byok.Base.{
  ℕ, zero, suc, ◌+◌, ◌-◌, ◌%◌, ◌^◌, Bool, true, false, not, ◌&&◌, ◌||◌, Option, none, some, List,
  [], ◌∷◌, ◌++◌, ◌==◌, ltb, Bytes, Result, ok, err, new, if◌then◌else◌, length, drop,
}
use cursor_cli_byok.Go.Strings.{same, is_empty}
use cursor_cli_byok.Provider.{Message}
use cursor_cli_byok.Go.Table.{Table, lookup, put, remove}

-- `conversationTurn`
abbrev pub Turn : Type 0
Turn = List Message

-- `conversationState`
pub record Conversation : Type 0 where
  pub turns : List Turn
  pub active : ℕ
  pub last_used : ℕ

abbrev pub fresh_conversation : Conversation
fresh_conversation = record { turns = []; active = 0; last_used = 0 }

-- `ConversationRegistry`
pub record Registry : Type 0 where
  pub max_turns : ℕ
  pub max_conversations : ℕ
  pub sequence : ℕ
  pub conversations : Table Conversation

abbrev pub default_max_conversations : ℕ
default_max_conversations = 256

-- `NewConversationRegistry`; the argument is an `int` that is not negative.
unfoldable pub new_registry : ℕ → Result Registry
new_registry max_turns =
    if max_turns == 0
    then err (new "create conversation registry: max turns must be positive")
    else ok (record {
      max_turns = max_turns;
      max_conversations = default_max_conversations;
      sequence = 0;
      conversations = [];
    })

-- `touchLocked` on the conversation of that ID; the sequence is a uint64.
unfoldable pub touch : Bytes → Conversation → Registry → Registry
touch id conversation registry =
    let sequence = (registry.sequence + 1) % 2 ^ 64 in
    record registry {
      sequence = sequence;
      conversations = put id (record conversation { last_used = sequence }) registry.conversations;
    }

-- One round of the inner loop of `evictInactiveLocked`: the ID and the sequence found so far.
unfoldable pub older : Bytes × ℕ → Bytes × Conversation → Bytes × ℕ
older (id, sequence) (id', c) =
    if not (c.active == 0)
    then (id, sequence)
    else if is_empty id || ltb c.last_used sequence
    then (id', c.last_used)
    else (id, sequence)

unfoldable pub oldest : Bytes × ℕ → Table Conversation → Bytes × ℕ
oldest found [] = found
oldest found (entry ∷ rest) = oldest (older found entry) rest

-- The loop of `evictInactiveLocked`, with fuel for its rounds.
unfoldable pub evict_loop : ℕ → ℕ → Table Conversation → Table Conversation
evict_loop zero maximum table = table
evict_loop (suc fuel) maximum table =
    let id = (oldest ([], 0) table).0 in
    let rest = evict_loop fuel maximum (remove id table) in
    if ltb maximum (length table) then (if is_empty id then table else rest) else table

-- The fuel is the number of the entries: each round deletes one.
unfoldable pub evict_inactive : Registry → Registry
evict_inactive registry = record registry {
  conversations =
      evict_loop (length registry.conversations) registry.max_conversations registry.conversations;
}

-- `registry.conversations[id]`, made where `create` is set
unfoldable pub find_or_create : Bytes → Bool → Registry → Option Conversation
find_or_create id create registry = elim (lookup id registry.conversations) [
  | none ↦ if create then some fresh_conversation else none
  | some c ↦ some c
]

-- `acquireConversationState` up to `registry.mu.Unlock()`; `none` is the nil conversation.
unfoldable pub acquire : Bytes → Bool → Registry → Option Registry
acquire id create registry = elim (find_or_create id create registry) [
  | none ↦ none
  | some c ↦ some (evict_inactive (touch id (record c { active = c.active + 1 }) registry))
]

-- The function that `acquireConversationState` returns.
unfoldable pub release : Bytes → Registry → Registry
release id registry = elim (lookup id registry.conversations) [
  | none ↦ registry
  | some c ↦ evict_inactive (touch id (record c { active = c.active - 1 }) registry)
]

-- The tail of `appendTurnLocked`: `copy` moves the last `maximum` turns to the front.
unfoldable pub keep_last : ℕ → List Turn → List Turn
keep_last maximum turns =
    if ltb maximum (length turns) then drop (length turns - maximum) turns else turns

-- `appendTurnLocked`, on the conversation that the caller holds.
unfoldable pub append_turn : Bytes → Turn → Registry → Registry
append_turn id messages registry = elim (lookup id registry.conversations) [
  | none ↦ registry
  | some c ↦ record registry {
    conversations =
        put id (record c { turns = keep_last registry.max_turns (c.turns ++ messages ∷ []) })
          registry.conversations;
  }
]

-- `messagesLocked`
unfoldable pub messages : List Turn → List Message
messages [] = []
messages (turn ∷ turns) = turn ++ messages turns

-- `Snapshot`: the messages, and the registry after the release.
unfoldable pub snapshot : Bytes → Registry → List Message × Registry
snapshot id registry = elim (acquire id false registry) [
  | none ↦ ([], registry)
  | some held ↦ (
    elim (lookup id held.conversations) [ none ↦ [] | some c ↦ messages c.turns ],
    release id held,
  )
]
