-- ===== src/Sse/Size.antt =====
-- The size of the events that the reader of server-sent events hands to its callback.
use cursor_cli_byok.Base.{
  ℕ, suc, ◌+◌, ◌≤◌, ◌≡◌, refl, ap, subst, Bool-cases, ◌⊎◌, inl, inr, List, [], ◌∷◌, ◌++◌, Bytes,
  Error, Result-cases, Outcome, ok, bind-eq-ok, ok_eq, ltb, ◌==◌, length, length-append, arith, All,
  All-append,
}
use cursor_cli_byok.Go.Strings.{is_empty, same, same_iff, text}
use cursor_cli_byok.Go.Words.{join_with}
use cursor_cli_byok.Protocol.Schema.Counted.{past, passed}
use cursor_cli_byok.Sse.{
  SseEvent, Reading, Handed, Source, no_event, read_sse_line, count_line, cut_colon, trim_one,
  store, absorb, dispatch, process_line, finish_input, is_eof, read_end, read_line, read_lines,
  read_sse,
}

-- The bytes of the lines that data were read from, at least.
weight : List Bytes → ℕ
weight [] = 0
weight (line ∷ lines) = suc (length line + weight lines)

weight-snoc :
    (lines : List Bytes) (line : Bytes)
    → weight (lines ++ line ∷ []) ≡ weight lines + suc (length line)
unfolding weight
weight-snoc [] line = omega arith
weight-snoc (l ∷ lines) line = omega (arith, weight-snoc lines line)

join_weight : (lines : List Bytes) → length (join_with (10 ∷ []) lines) ≤ weight lines
unfolding weight join_with
join_weight [] = omega arith
join_weight (line ∷ []) = omega arith
join_weight (line ∷ next ∷ lines) = omega (
  arith,
  join_weight (next ∷ lines),
  length-append line ((10 ∷ []) ++ join_with (10 ∷ []) (next ∷ lines)),
)

cut_colon-length : (s : Bytes) → length (cut_colon s).0 + length (cut_colon s).1 ≤ length s
unfolding cut_colon
cut_colon-length [] = omega arith
cut_colon-length (b ∷ s) = elim (Bool-cases (b == 58)) [
  | inl colon ↦ rw (colon, cut_colon) (omega arith)
  | inr other ↦ rw (other, cut_colon) (omega (arith, cut_colon-length s))
]

trim_one-length : (s : Bytes) → length (trim_one s) ≤ length s
unfolding trim_one
trim_one-length [] = omega arith
trim_one-length (b ∷ s) = ground arith

-- The name and the data are from bytes that are counted, within the limit.
record IsCounted (max_event_bytes : ℕ) (s : Reading) : Type 0 where
  counted : length s.name + weight s.data_lines ≤ s.event_bytes
  within : s.event_bytes ≤ max_event_bytes

-- An event of the size that is allowed.
pub record IsSmall (max_event_bytes : ℕ) (event : SseEvent) : Type 0 where
  pub fits : length event.name + length event.data_text ≤ max_event_bytes

-- The name and the data take at most `k` bytes more, the count is the same.
record Grows (k : ℕ) (s t : Reading) : Type 0 where
  heavier : length t.name + weight t.data_lines ≤ length s.name + weight s.data_lines + k
  same_count : t.event_bytes ≡ s.event_bytes

data_length : length (text "data") ≡ 4
unfolding text
data_length = refl

store-Grows :
    (field value : Bytes) (s : Reading)
    → Grows (length field + length value) s (store field value s)
unfolding store
store-Grows field value s = elim (Bool-cases (same field (text "event"))) [
  | inl q ↦ rw (q, store) (record { heavier = omega arith; same_count = refl })
  | inr q ↦ elim (Bool-cases (same field (text "data"))) [
    | inl r ↦
        rw (q, r, store)
          (record {
            heavier = omega (
              arith,
              weight-snoc s.data_lines value,
              data_length,
              ap length ((same_iff field (text "data")).0 r),
            );
            same_count = refl;
          })
    | inr r ↦ rw (q, r, store) (record { heavier = omega arith; same_count = refl })
  ]
]

absorb-Grows : (line : Bytes) (s : Reading) → Grows (length line) s (absorb line s)
unfolding absorb
absorb-Grows [] s = record { heavier = omega arith; same_count = refl }
absorb-Grows (b ∷ line) s = elim (Bool-cases (b == 58)) [
  | inl q ↦ rw (q, absorb) (record { heavier = omega arith; same_count = refl })
  | inr q ↦
      let parts = cut_colon (b ∷ line) in
      let grows = store-Grows parts.0 (trim_one parts.1) s in
      rw (q, absorb)
        (record {
          heavier =
              omega (arith, grows.heavier, cut_colon-length (b ∷ line), trim_one-length parts.1);
          same_count = grows.same_count;
        })
]

no_event-IsCounted : (max_event_bytes : ℕ) → IsCounted max_event_bytes no_event
unfolding weight
no_event-IsCounted max_event_bytes = record { counted = omega arith; within = omega arith }

-- Variables and events as they stand when a line is done.
record IsHanded (max_event_bytes : ℕ) (h : Handed) : Type 0 where
  counted : IsCounted max_event_bytes h.reading
  small : All (IsSmall max_event_bytes) h.events

lines-cases :
    (lines : List Bytes)
    → (lines ≡ []) ⊎ ((line : Bytes) × (rest : List Bytes) × (lines ≡ line ∷ rest))
lines-cases [] = inl refl
lines-cases (line ∷ rest) = inr (line, rest, refl)

module _ (handle : List SseEvent → SseEvent → Outcome) (max_event_bytes : ℕ) where
  dispatch-IsHanded :
      (events : List SseEvent) (s : Reading)
      → All (IsSmall max_event_bytes) events
      → IsCounted max_event_bytes s
      → IsHanded max_event_bytes (dispatch handle events s)
  unfolding dispatch
  dispatch-IsHanded events s small c = elim (lines-cases s.data_lines) [
    | inl q ↦
        rw (q, dispatch) (record { counted = no_event-IsCounted max_event_bytes; small = small })
    | inr (line, lines, q) ↦
        rw (q, dispatch)
          (record {
            counted = no_event-IsCounted max_event_bytes;
            small = All-append (IsSmall max_event_bytes) events _ small (
              record {
                fits = omega (arith, c.counted, c.within, ap weight q, join_weight (line ∷ lines));
              },
              tt,
            );
          })
  ]

  process_line-IsHanded :
      (line : Bytes) (events : List SseEvent) (s s' : Reading)
      → All (IsSmall max_event_bytes) events
      → IsCounted max_event_bytes s
      → count_line max_event_bytes line s ≡ ok s'
      → IsHanded max_event_bytes (process_line handle line events s')
  unfolding process_line count_line
  process_line-IsHanded line events s s' small c e =
      let big = ltb max_event_bytes (s.event_bytes + length line) in
      let room : s.event_bytes + length line ≤ max_event_bytes = ground (arith, passed big _ _ e) in
      subst (λ t. IsHanded max_event_bytes (process_line handle line events t))
        (ok_eq (past big _ e))
        (elim (Bool-cases (is_empty line)) [
          | inl q ↦
              rw (q, process_line)
                (dispatch-IsHanded events (record s { event_bytes = s.event_bytes + length line })
                  small (record { counted = omega (arith, c.counted); within = room }))
          | inr q ↦
              let t : Reading = record s { event_bytes = s.event_bytes + length line } in
              let grows = absorb-Grows line t in
              rw (q, process_line)
                (record {
                  counted = record {
                    counted = omega (arith, c.counted, grows.heavier, grows.same_count);
                    within = omega (arith, room, grows.same_count);
                  };
                  small = small;
                })
        ])

  finish_input-IsSmall :
      (h : Handed)
      → IsHanded max_event_bytes h
      → All (IsSmall max_event_bytes) (finish_input handle h).0
  unfolding finish_input
  finish_input-IsSmall h done = elim (Result-cases h.outcome) [
    | inr (e, p) ↦ rw (p, finish_input) done.small
    | inl (_, p) ↦ elim (lines-cases h.reading.data_lines) [
      | inl q ↦ rw (p, q, finish_input) done.small
      | inr (line, lines, q) ↦
          rw (p, q, finish_input)
            (dispatch-IsHanded h.events h.reading done.small done.counted).small
    ]
  ]

  module _ (context : ℕ → Outcome) where
    read_line-IsHanded :
        (fragments : List Bytes) (events : List SseEvent) (s : Reading) {h : Handed}
        → All (IsSmall max_event_bytes) events
        → IsCounted max_event_bytes s
        → read_line handle context max_event_bytes fragments events s ≡ ok h
        → IsHanded max_event_bytes h
    unfolding read_line
    read_line-IsHanded fragments events s small c e =
        let (line, read, e1) =
          bind-eq-ok (read_sse_line max_event_bytes s.event_bytes fragments) _ e in
        let (s', counted, e2) = bind-eq-ok (count_line max_event_bytes line s) _ e1 in
        subst (IsHanded max_event_bytes) (ok_eq e2)
          (process_line-IsHanded line events s s' small c counted)

    read_end-IsSmall :
        (round : ℕ) (tail : List Bytes) (last : Error) (events : List SseEvent) (s : Reading)
        → All (IsSmall max_event_bytes) events
        → IsCounted max_event_bytes s
        → All
            (IsSmall max_event_bytes)
            (read_end handle context max_event_bytes round tail last events s).0
    unfolding read_end
    read_end-IsSmall round tail last events s small c = elim (Result-cases (context round)) [
      | inr (e, q) ↦ rw (q, read_end) small
      | inl (_, q) ↦ elim (Result-cases (read_sse_line max_event_bytes s.event_bytes tail)) [
        | inr (e, r) ↦ rw (q, r, read_end) small
        | inl (line, r) ↦ elim (Bool-cases (is_eof last)) [
          | inr p ↦ rw (q, r, p, read_end) small
          | inl p ↦ elim (Result-cases (count_line max_event_bytes line s)) [
            | inr (e, k) ↦ rw (q, r, p, k, read_end) small
            | inl (s', k) ↦
                rw (q, r, p, k, read_end)
                  (finish_input-IsSmall (process_line handle line events s')
                    (process_line-IsHanded line events s s' small c k))
          ]
        ]
      ]
    ]

    read_lines-IsSmall :
        (round : ℕ) (lines : List (List Bytes)) (tail : List Bytes) (last : Error)
        (events : List SseEvent) (s : Reading)
        → All (IsSmall max_event_bytes) events
        → IsCounted max_event_bytes s
        → All
            (IsSmall max_event_bytes)
            (read_lines handle context max_event_bytes round lines tail last events s).0
    unfolding read_lines
    read_lines-IsSmall round [] tail last events s small c =
        read_end-IsSmall round tail last events s small c
    read_lines-IsSmall round (fragments ∷ lines) tail last events s small c =
        elim (Result-cases (context round)) [
          | inr (e, q) ↦ rw (q, read_lines) small
          | inl (_, q) ↦
              elim (Result-cases (read_line handle context max_event_bytes fragments events s)) [
                | inr (e, r) ↦ rw (q, r, read_lines) small
                | inl (h, r) ↦
                    let done = read_line-IsHanded fragments events s small c r in
                    elim (Result-cases h.outcome) [
                      | inr (e, p) ↦ rw (q, r, p, read_lines) done.small
                      | inl (_, p) ↦
                          rw (q, r, p, read_lines)
                            (read_lines-IsSmall (suc round) lines tail last h.events h.reading
                              done.small done.counted)
                    ]
              ]
        ]

    -- Whatever the source, the context and the callback do: the name and the data of an event that
    -- the callback is handed are together at most the bytes that an event may have.
    pub read_sse-IsSmall :
        (source : Source)
        → All (IsSmall max_event_bytes) (read_sse handle context max_event_bytes source).0
    unfolding read_sse
    read_sse-IsSmall source = elim (Bool-cases (max_event_bytes == 0)) [
      | inl q ↦ rw (q, read_sse) tt
      | inr q ↦
          rw (q, read_sse)
            (read_lines-IsSmall 0 source.lines source.tail source.last [] no_event tt
              (no_event-IsCounted max_event_bytes))
    ]
