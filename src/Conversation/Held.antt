-- ===== src/Conversation/Held.antt =====
-- Any interleaving of acquiring, appending and releasing the conversations of
-- internal/agent/conversation.go, whose holders are counted by their ID.
use cursor_cli_byok.Base.{
  ℕ, ◌+◌, ◌-◌, ◌≤◌, ◌<◌, ◌≡◌, ◌≢◌, ◌⊎◌, inl, inr, refl, sym, ◌∙◌, Bool, Option, none, some, List,
  [], ◌∷◌, ◌++◌, Bytes, arith, length, Bool-cases, Option-cases, ltb, if◌then◌else◌, ok,
}
use cursor_cli_byok.Go.Strings.{same, same_iff, same_self}
use cursor_cli_byok.Go.Table.{Table, lookup, put, lookup-put, put-cons, length-put}
use cursor_cli_byok.Conversation.{
  Turn, Conversation, Registry, new_registry, touch, evict_inactive, find_or_create, acquire,
  release, append_turn, keep_last,
}
use cursor_cli_byok.Conversation.Oldest.{AllActive}
use cursor_cli_byok.Go.Table.{IsTable}
use cursor_cli_byok.Conversation.Eviction.{Evicted, evict_inactive-Evicted}
use cursor_cli_byok.Conversation.Turns.{keep_last_le}

-- How often an ID is held.
abbrev pub count : Bytes → List Bytes → ℕ
count id [] = 0
count id (h ∷ hs) = (if same h id then 1 else 0) + count id hs

-- The holder that releases goes.
unfoldable pub erase : Bytes → List Bytes → List Bytes
erase id [] = []
erase id (h ∷ hs) = let rest = erase id hs in if same h id then hs else h ∷ rest

-- The registry, and the IDs of the conversations that are held, once for each holder.
pub record World : Type 0 where
  pub registry : Registry
  pub holders : List Bytes

pub data Step : World → World → Type 0 where
  acquires :
      {w : World} (id : Bytes) (create : Bool) (r : Registry)
      → id ≢ []
      → acquire id create w.registry ≡ some r
      → Step w (record { registry = r; holders = id ∷ w.holders })
  appends :
      {w : World} (id : Bytes) (turn : Turn)
      → 0 < count id w.holders
      → Step w (record w { registry = append_turn id turn w.registry })
  releases :
      {w : World} (id : Bytes)
      → 0 < count id w.holders
      → Step w (record { registry = release id w.registry; holders = erase id w.holders })

pub data Reach (start : World) : World → Type 0 where
  here : Reach start start
  next : {v w : World} → Reach start v → Step v w → Reach start w

-- `active` of the conversation in the map; zero if there is none.
abbrev pub active_of : Option Conversation → ℕ
active_of none = 0
active_of (some c) = c.active

abbrev pub active_in : Table Conversation → Bytes → ℕ
active_in m id = active_of (lookup id m)

pub record IsSound (w : World) : Type 0 where
  pub table : IsTable w.registry.conversations
  pub counted : (id : Bytes) → active_in w.registry.conversations id ≡ count id w.holders
  pub bounded :
      (length w.registry.conversations ≤ w.registry.max_conversations)
      ⊎ AllActive w.registry.conversations
  pub turns_le :
      (id : Bytes) (c : Conversation)
      → lookup id w.registry.conversations ≡ some c
      → length c.turns ≤ w.registry.max_turns

IsTable-put :
    (id : Bytes) (c : Conversation) (m : Table Conversation)
    → id ≢ []
    → IsTable m
    → IsTable (put id c m)
IsTable-put id c [] ne t = unfold put in unfold lookup in (ne, refl, tt)
IsTable-put id c ((k, d) ∷ m) ne t = elim (Bool-cases (same k id)) [
  | inl y ↦ let e : k ≡ id = (same_iff k id).0 y in rw put-cons (rw y (ne, rw (← e) t.1, t.2))
  | inr n ↦ rw put-cons (
      rw n (
        t.0,
        rw (lookup-put id k c m) (elim (Bool-cases (same id k)) [
          | inl y ↦ absurd (ground (arith, (same_iff id k).0 y, same_self k, n))
          | inr n' ↦ rw n' t.1
        ]),
        IsTable-put id c m ne t.2,
      ))
]

AllActive-lookup :
    (m : Table Conversation) (id : Bytes) {c : Conversation}
    → AllActive m
    → lookup id m ≡ some c
    → 0 < c.active
unfolding lookup
AllActive-lookup [] id h q = absurd (cc q)
AllActive-lookup ((k, d) ∷ m) id h q = elim (Bool-cases (same k id)) [
  | inl y ↦ ground (arith, h.0, q, y)
  | inr n ↦ AllActive-lookup m id h.1 (rw n at q)
]

AllActive-put :
    (id : Bytes) (c : Conversation) (m : Table Conversation)
    → AllActive m
    → 0 < c.active
    → AllActive (put id c m)
AllActive-put id c [] h a = unfold put in (a, tt)
AllActive-put id c ((k, d) ∷ m) h a = elim (Bool-cases (same k id)) [
  | inl y ↦ rw put-cons (rw y (a, h.1))
  | inr n ↦ rw put-cons (rw n (h.0, AllActive-put id c m h.1 a))
]

active_in-Evicted :
    {maximum : ℕ} {before after : Table Conversation}
    → Evicted maximum before after
    → (id : Bytes) → active_in after id ≡ active_in before id
active_in-Evicted {maximum} {before} {after} e id = elim (Option-cases (lookup id after)) [
  | inr (c, q) ↦ rw q (rw (e.from_before id c q))
  | inl gone ↦ elim (Option-cases (lookup id before)) [
    | inl q ↦ rw gone (rw q)
    | inr (c, q) ↦ elim (Bool-cases (ltb 0 c.active)) [
      | inl busy ↦ absurd (cc (gone, e.keeps_active id c q (ground arith)))
      | inr idle ↦ rw gone (rw q (ground arith))
    ]
  ]
]

count-erase :
    (id j : Bytes) (hs : List Bytes)
    → 0 < count id hs
    → count j (erase id hs) + (if same id j then 1 else 0) ≡ count j hs
unfolding erase
count-erase id j [] h = absurd (omega arith)
count-erase id j (k ∷ hs) h = elim (Bool-cases (same k id)) [
  | inl y ↦ rw y (ground (arith, (same_iff k id).0 y))
  | inr n ↦ rw n (ground (arith, n, h, count-erase id j hs))
]

-- What `acquire` and `release` have in common: the conversation is put back and touched, and idle
-- ones are evicted.
module _ (id : Bytes) (c : Conversation) (r : Registry) (ne : id ≢ [])
    (t : IsTable r.conversations) where
  settled : Registry
  settled = evict_inactive (touch id c r)

  touch-IsTable : IsTable (touch id c r).conversations
  unfolding touch
  touch-IsTable = IsTable-put id _ r.conversations ne t

  settled-Evicted :
      Evicted (touch id c r).max_conversations (touch id c r).conversations settled.conversations
  unfolding settled
  settled-Evicted = evict_inactive-Evicted (touch id c r) touch-IsTable

  active_in-touch :
      (j : Bytes)
      → active_in (touch id c r).conversations j
        ≡ (if same id j then c.active else active_in r.conversations j)
  unfolding touch
  active_in-touch j =
      rw (lookup-put id j) (elim (Bool-cases (same id j)) [ inl y ↦ rw y | inr n ↦ rw n ])

  active_in-settled :
      (j : Bytes)
      → active_in settled.conversations j
        ≡ (if same id j then c.active else active_in r.conversations j)
  active_in-settled j = active_in-Evicted settled-Evicted j ∙ active_in-touch j

  settled_bounded :
      (length settled.conversations ≤ settled.max_conversations) ⊎ AllActive settled.conversations
  unfolding settled touch evict_inactive
  settled_bounded = settled-Evicted.stops

  settled_turns_le :
      length c.turns ≤ r.max_turns
      → ((j : Bytes) (d : Conversation)
          → lookup j r.conversations ≡ some d
          → length d.turns ≤ r.max_turns)
      → (j : Bytes) (d : Conversation) → lookup j settled.conversations ≡ some d
      → length d.turns ≤ settled.max_turns
  unfolding settled touch evict_inactive
  settled_turns_le small all j d q = ground (
    arith,
    settled-Evicted.from_before j d q,
    lookup-put id j (record c { last_used = (touch id c r).sequence }) r.conversations,
    all j d,
  )

-- The registry after the conversation is put back with that count of holders.
settled-IsSound :
    {w : World} (id : Bytes) (c : Conversation) (holders : List Bytes)
    → id ≢ []
    → (s : IsSound w) → length c.turns ≤ w.registry.max_turns
    → ((j : Bytes) → count j holders ≡ (if same id j then c.active else count j w.holders))
    → IsSound (record { registry = evict_inactive (touch id c w.registry); holders = holders })
settled-IsSound {w} id c holders ne s small counts =
    unfold settled in
    record {
      table = (settled-Evicted id c w.registry ne s.table).table;
      counted =
          λ j. active_in-settled id c w.registry ne s.table j ∙ rw (s.counted j) (sym (counts j));
      bounded = settled_bounded id c w.registry ne s.table;
      turns_le = settled_turns_le id c w.registry ne s.table small s.turns_le;
    }

find_or_create_lem :
    (id : Bytes) (create : Bool) (r : Registry) {c : Conversation}
    → ((j : Bytes) (d : Conversation)
        → lookup j r.conversations ≡ some d
        → length d.turns ≤ r.max_turns)
    → find_or_create id create r ≡ some c
    → (active_in r.conversations id ≡ c.active) × (length c.turns ≤ r.max_turns)
unfolding find_or_create
find_or_create_lem id create r {c} all e = elim (Option-cases (lookup id r.conversations)) [
  | inl q ↦ (ground (arith, q, e), ground (arith, q, e))
  | inr (d, q) ↦ (ground (arith, q, e), ground (arith, q, e, all id d q))
]

acquire-IsSound :
    {w : World} (id : Bytes) (create : Bool) (r : Registry)
    → id ≢ []
    → acquire id create w.registry ≡ some r
    → IsSound w
    → IsSound (record { registry = r; holders = id ∷ w.holders })
acquire-IsSound {w} id create r ne e s = elim (Option-cases (find_or_create id create w.registry)) [
  | inl q ↦ absurd (unfold acquire in cc (rw (q, acquire) at e))
  | inr (c, q) ↦
      let c' = record c { active = c.active + 1 } in
      let (active, small) = find_or_create_lem id create w.registry s.turns_le q in
      let same_r : evict_inactive (touch id c' w.registry) ≡ r =
        unfold acquire in cc (rw (q, acquire) at e) in
      rw (← same_r) (
        settled-IsSound id c' (id ∷ w.holders) ne s small (λ j. elim (Bool-cases (same id j)) [
          | inl y ↦ rw y (ground (arith, active, s.counted id, (same_iff id j).0 y))
          | inr n ↦ rw n (omega arith)
        ]))
]

-- Who is held has an ID, and a conversation in the map with that many holders.
held_found :
    {w : World} (id : Bytes)
    → IsSound w
    → 0 < count id w.holders
    → (c : Conversation) × (lookup id w.registry.conversations ≡ some c)
      × (c.active ≡ count id w.holders)
held_found {w} id s h = elim (Option-cases (lookup id w.registry.conversations)) [
  | inl q ↦ absurd (ground (arith, q, s.counted id))
  | inr (c, q) ↦ (c, q, ground (arith, q, s.counted id))
]

lookup_ne_nil :
    (m : Table Conversation) (id : Bytes) {c : Conversation}
    → IsTable m
    → lookup id m ≡ some c
    → id ≢ []
unfolding lookup
lookup_ne_nil [] id t q = absurd (cc q)
lookup_ne_nil ((k, d) ∷ m) id t q = elim (Bool-cases (same k id)) [
  | inl y ↦ rw (← (same_iff k id).0 y) t.0
  | inr n ↦ lookup_ne_nil m id t.2 (rw n at q)
]

release-IsSound :
    {w : World} (id : Bytes)
    → 0 < count id w.holders
    → IsSound w
    → IsSound (record { registry = release id w.registry; holders = erase id w.holders })
release-IsSound {w} id h s =
    let (c, q, active) = held_found id s h in
    let c' = record c { active = c.active - 1 } in
    let e : release id w.registry ≡ evict_inactive (touch id c' w.registry) =
      unfold release in rw (q, release) in
    rw e (
      settled-IsSound id c' (erase id w.holders)
        (lookup_ne_nil w.registry.conversations id s.table q) s (s.turns_le id c q)
        (λ j. elim (Bool-cases (same id j)) [
          | inl y ↦
              rw y (ground (arith, active, h, count-erase id j w.holders h, y, (same_iff id j).0 y))
          | inr n ↦ rw n (ground (arith, n, h, count-erase id j w.holders h))
        ]))

append_turn-IsSound :
    {w : World} (id : Bytes) (turn : Turn)
    → 0 < count id w.holders
    → IsSound w
    → IsSound (record w { registry = append_turn id turn w.registry })
append_turn-IsSound {w} id turn h s =
    let (c, q, active) = held_found id s h in
    let m = w.registry.conversations in
    let c' = record c { turns = keep_last w.registry.max_turns (c.turns ++ turn ∷ []) } in
    let e : append_turn id turn w.registry ≡ record (w.registry) { conversations = put id c' m } =
      unfold append_turn in rw (q, append_turn) in
    rw e (record {
      table = IsTable-put id c' m (lookup_ne_nil m id s.table q) s.table;
      counted = λ j. rw (lookup-put id j c' m) (elim (Bool-cases (same id j)) [
        | inl y ↦ rw y (active ∙ rw ((same_iff id j).0 y))
        | inr n ↦ rw n (s.counted j)
      ]);
      bounded = elim s.bounded [
        | inl le ↦ inl (rw (length-put id c' m q) le)
        | inr all ↦ inr (AllActive-put id c' m all (AllActive-lookup m id all q))
      ];
      turns_le = λ j d p. elim (Bool-cases (same id j)) [
        | inl y ↦ ground (
          arith,
          lookup-put id j c' m,
          y,
          p,
          keep_last_le w.registry.max_turns (c.turns ++ turn ∷ []),
        )
        | inr n ↦ s.turns_le j d (rw n at (rw (lookup-put id j c' m) at p))
      ];
    })

Step-IsSound : {v w : World} → Step v w → IsSound v → IsSound w
Step-IsSound (acquires id create r ne e) s = acquire-IsSound id create r ne e s
Step-IsSound (appends id turn h) s = append_turn-IsSound id turn h s
Step-IsSound (releases id h) s = release-IsSound id h s

pub Reach-IsSound : {v w : World} → IsSound v → Reach v w → IsSound w
Reach-IsSound s here = s
Reach-IsSound s (next r st) = Step-IsSound st (Reach-IsSound s r)

abbrev pub new_world : Registry → World
new_world r = record { registry = r; holders = [] }

IsSound-empty : (r : Registry) → r.conversations ≡ [] → IsSound (new_world r)
IsSound-empty r e = record {
  table = rw e tt;
  counted = λ id. rw e (unfold lookup in refl);
  bounded = inl (rw e (omega arith));
  turns_le = λ id c q. absurd (unfold lookup in cc (rw e at q));
}

new_registry-nil :
    (max_turns : ℕ) (r : Registry) → new_registry max_turns ≡ ok r → r.conversations ≡ []
unfolding new_registry
new_registry-nil max_turns r e = ground arith

-- Whatever is acquired, appended and released, in any interleaving, from a new registry: a
-- conversation that is held is in the map, with as many active holders as hold it and at most
-- `max_turns` turns.
pub held_conversations_stay :
    (max_turns : ℕ) (r : Registry) {w : World} (id : Bytes)
    → new_registry max_turns ≡ ok r
    → Reach (new_world r) w
    → 0 < count id w.holders
    → (c : Conversation) × (lookup id w.registry.conversations ≡ some c)
      × (c.active ≡ count id w.holders)
      × (length c.turns ≤ w.registry.max_turns)
held_conversations_stay max_turns r id e reach h =
    let s = Reach-IsSound (IsSound-empty r (new_registry-nil max_turns r e)) reach in
    let (c, q, active) = held_found id s h in (c, q, active, s.turns_le id c q)

-- Whatever is acquired, appended and released, in any interleaving, from a new registry: the map
-- is within its bound, or every conversation in it is in use.
pub conversations_stay_bounded :
    (max_turns : ℕ) (r : Registry) {w : World}
    → new_registry max_turns ≡ ok r
    → Reach (new_world r) w
    → (length w.registry.conversations ≤ w.registry.max_conversations)
      ⊎ AllActive w.registry.conversations
conversations_stay_bounded max_turns r e reach =
    (Reach-IsSound (IsSound-empty r (new_registry-nil max_turns r e)) reach).bounded
