-- ===== src/Conversation/Tests.antt =====
-- The registry on concrete conversations.
use cursor_cli_byok.Base.{
  ℕ, ◌≤◌, ◌<◌, ◌≡◌, ◌⊎◌, refl, true, some, List, [], ◌∷◌, ◌++◌, Bytes, ok, arith, length,
  if◌then◌else◌,
}
use cursor_cli_byok.Go.Strings.{same}
use cursor_cli_byok.Go.Table.{lookup, put, remove}
use cursor_cli_byok.Provider.{user}
use cursor_cli_byok.Conversation.{
  Turn, Conversation, Registry, new_registry, touch, older, oldest, evict_loop, evict_inactive,
  find_or_create, acquire, keep_last, append_turn, messages, snapshot,
}
use cursor_cli_byok.Conversation.Oldest.{AllActive}
use cursor_cli_byok.Go.Table.{IsTable}
use cursor_cli_byok.Conversation.Turns.{KeepsLast, append_turn-KeepsLast}
use cursor_cli_byok.Conversation.Eviction.{Evicted, evict_inactive-Evicted}
use cursor_cli_byok.Conversation.Held.{
  World, Reach, acquires, appends, here, next, count, new_world, held_conversations_stay,
  conversations_stay_bounded,
}

abbrev id_a : Bytes
id_a = 97 ∷ []

abbrev turn_of : Bytes → Turn
turn_of content = record { role = user; content = content; tool_calls = []; tool_call_id = [] } ∷ []

abbrev idle : ℕ → List Turn → Conversation
idle at turns = record { turns = turns; active = 0; last_used = at }

-- Three idle conversations, where the bound is one.
abbrev crowded : Registry
crowded = record {
  max_turns = 2;
  max_conversations = 1;
  sequence = 3;
  conversations = (97 ∷ [], idle 2 []) ∷ (98 ∷ [], idle 1 []) ∷ (99 ∷ [], idle 3 []) ∷ [];
}

-- The conversation used last stays.
crowded_left : (evict_inactive crowded).conversations ≡ (99 ∷ [], idle 3 []) ∷ []
unfolding evict_inactive evict_loop oldest older remove same
crowded_left = refl

crowded-IsTable : IsTable crowded.conversations
unfolding lookup same
crowded-IsTable = ((λ e. cc), refl, ((λ e. cc), refl, ((λ e. cc), refl, tt)))

evict_inactive-Evicted_example :
    Evicted 1 crowded.conversations (evict_inactive crowded).conversations
evict_inactive-Evicted_example = evict_inactive-Evicted crowded crowded-IsTable

abbrev fresh : Registry
fresh = record { max_turns = 2; max_conversations = 256; sequence = 0; conversations = [] }

abbrev held_a : List Turn → Registry
held_a turns = record {
  max_turns = 2;
  max_conversations = 256;
  sequence = 1;
  conversations = (id_a, record { turns = turns; active = 1; last_used = 1 }) ∷ [];
}

fresh_is_new : new_registry 2 ≡ ok fresh
unfolding new_registry
fresh_is_new = refl

abbrev world_a : World
world_a = record { registry = held_a []; holders = id_a ∷ [] }

-- One holder acquires a conversation and appends a turn.
abbrev after_turn : World
after_turn = record {
  registry = append_turn id_a (turn_of (104 ∷ [])) (held_a []);
  holders = id_a ∷ [];
}

acquires_a : acquire id_a true fresh ≡ some (held_a [])
unfolding acquire find_or_create touch evict_inactive evict_loop oldest older lookup put remove same
acquires_a = refl

a_is_held : 0 < count id_a (id_a ∷ [])
unfolding same
a_is_held = omega arith

reaches_turn : Reach (new_world fresh) after_turn
reaches_turn =
    next (next here (acquires id_a true (held_a []) (λ e. cc) acquires_a))
      (appends {w = world_a} id_a (turn_of (104 ∷ [])) a_is_held)

held_conversations_stay_example :
    (c : Conversation) × (lookup id_a after_turn.registry.conversations ≡ some c)
    × (c.active ≡ count id_a after_turn.holders)
    × (length c.turns ≤ after_turn.registry.max_turns)
held_conversations_stay_example =
    held_conversations_stay 2 fresh {w = after_turn} id_a fresh_is_new reaches_turn a_is_held

conversations_stay_bounded_example :
    (length after_turn.registry.conversations ≤ after_turn.registry.max_conversations)
    ⊎ AllActive after_turn.registry.conversations
conversations_stay_bounded_example =
    conversations_stay_bounded 2 fresh {w = after_turn} fresh_is_new reaches_turn

abbrev two_turns : List Turn
two_turns = turn_of (49 ∷ []) ∷ turn_of (50 ∷ []) ∷ []

finds_two :
    lookup id_a (held_a two_turns).conversations
    ≡ some (record { turns = two_turns; active = 1; last_used = 1 })
unfolding lookup same
finds_two = refl

append_turn-KeepsLast_example :
    (c' : Conversation) × (c'.active ≡ 1)
    × KeepsLast 2 (two_turns ++ turn_of (51 ∷ []) ∷ []) c'.turns
    × ((j : Bytes)
        → lookup j (append_turn id_a (turn_of (51 ∷ [])) (held_a two_turns)).conversations
          ≡ (if same id_a j then some c' else lookup j (held_a two_turns).conversations))
append_turn-KeepsLast_example =
    append_turn-KeepsLast id_a (turn_of (51 ∷ [])) (held_a two_turns) finds_two

-- The bound of two turns drops the first.
third_turn :
    messages (keep_last 2 (two_turns ++ turn_of (51 ∷ []) ∷ []))
    ≡ turn_of (50 ∷ []) ++ turn_of (51 ∷ [])
unfolding messages keep_last
third_turn = refl

-- A snapshot of what is not there is empty and makes no conversation.
nothing_there : snapshot id_a fresh ≡ ([], fresh)
unfolding snapshot acquire find_or_create lookup
nothing_there = refl
