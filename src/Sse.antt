-- ===== src/Sse.antt =====
-- The reader of server-sent events in internal/provider/openai/sse.go.
pub mod Size
pub mod Tests
use cursor_cli_byok.Base.{
  ℕ, suc, ◌+◌, ◌-◌, Bool, true, false, List, [], ◌∷◌, ◌++◌, Bytes, Error, eof, wrap, Result,
  Outcome, ok, err, new, ◌>>=◌, ◌>>◌, refuse_if, ltb, ◌==◌, length, if◌then◌else◌,
}
use cursor_cli_byok.Go.Strings.{is_empty, same, text}
use cursor_cli_byok.Go.Words.{join_with}

pub record SseEvent : Type 0 where
  pub name : Bytes
  pub data_text : Bytes

-- The variables of `readSSE`.
pub record Reading : Type 0 where
  pub name : Bytes
  pub data_lines : List Bytes
  pub event_bytes : ℕ

abbrev pub no_event : Reading
no_event = record { name = []; data_lines = []; event_bytes = 0 }

-- What `bufio.Reader.ReadLine` returns, call after call: the fragments of each line, those of a line
-- that the end cuts off, and the error at the end.
pub record Source : Type 0 where
  pub lines : List (List Bytes)
  pub tail : List Bytes
  pub last : Error

-- `errors.Is(err, io.EOF)`
unfoldable pub is_eof : Error → Bool
is_eof eof = true
is_eof (wrap s e) = is_eof e
is_eof _ = false

abbrev too_large : Error
too_large = new "read SSE: event is too large"

-- The loop of `readSSELine`. The error at the end comes with no fragment, and its test is that of
-- the fragment before.
unfoldable pub read_fragments : ℕ → List Bytes → Bytes → Result Bytes
read_fragments remaining [] line = ok line
read_fragments remaining (fragment ∷ fragments) line =
    refuse_if (ltb remaining (length line + length fragment)) too_large
    >> read_fragments remaining fragments (line ++ fragment)

-- `readSSELine` with `maxEventBytes-eventBytes`, which may be negative.
unfoldable pub read_sse_line : ℕ → ℕ → List Bytes → Result Bytes
read_sse_line max_event_bytes event_bytes fragments =
    refuse_if (ltb max_event_bytes event_bytes) too_large
    >> read_fragments (max_event_bytes - event_bytes) fragments []

-- The bytes of a line, counted.
unfoldable pub count_line : ℕ → Bytes → Reading → Result Reading
count_line max_event_bytes line s =
    refuse_if (ltb max_event_bytes (s.event_bytes + length line)) too_large
    >> ok (record s { event_bytes = s.event_bytes + length line })

-- `strings.Cut` at a colon; without one, the field is the line and the value is empty.
unfoldable pub cut_colon : Bytes → Bytes × Bytes
cut_colon [] = ([], [])
cut_colon (b ∷ s) = elim (b == 58) [
  | true ↦ ([], s)
  | false ↦ let (field, value) = cut_colon s in (b ∷ field, value)
]

-- `strings.TrimPrefix` of a space.
unfoldable pub trim_one : Bytes → Bytes
trim_one [] = []
trim_one (b ∷ s) = if b == 32 then s else b ∷ s

-- The switch on the field.
unfoldable pub store : Bytes → Bytes → Reading → Reading
store field value s =
    if same field (text "event")
    then record s { name = value }
    else if same field (text "data")
    then record s { data_lines = s.data_lines ++ value ∷ [] }
    else s

-- A line that is not empty; a comment starts with a colon.
unfoldable pub absorb : Bytes → Reading → Reading
absorb [] s = s
absorb (b ∷ line) s = elim (b == 58) [
  | true ↦ s
  | false ↦ let (field, value) = cut_colon (b ∷ line) in store field (trim_one value) s
]

-- What is left when a line is done: the events handed to the callback, what it said, the variables.
pub record Handed : Type 0 where
  pub events : List SseEvent
  pub outcome : Outcome
  pub reading : Reading

-- The callback sees an event after those that it was handed before.
module _ (handle : List SseEvent → SseEvent → Outcome) where
  -- `dispatch`
  unfoldable pub dispatch : List SseEvent → Reading → Handed
  dispatch events s = elim s.data_lines [
    | [] ↦ record { events = events; outcome = ok tt; reading = no_event }
    | line ∷ lines ↦
        let event : SseEvent = record {
          name = s.name;
          data_text = join_with (10 ∷ []) (line ∷ lines);
        } in
        record { events = events ++ event ∷ []; outcome = handle events event; reading = no_event }
  ]

  -- An empty line ends the event.
  unfoldable pub process_line : Bytes → List SseEvent → Reading → Handed
  process_line line events s =
      if is_empty line
      then dispatch events s
      else record { events = events; outcome = ok tt; reading = absorb line s }

  -- The event that the end of the input cuts off.
  unfoldable pub finish_input : Handed → List SseEvent × Outcome
  finish_input h = elim h.outcome [
    | err e ↦ (h.events, err e)
    | ok _ ↦ elim h.reading.data_lines [
      | [] ↦ (h.events, ok tt)
      | line ∷ lines ↦
          let last : Handed = dispatch h.events h.reading in (last.events, last.outcome)
    ]
  ]

  module _ (context : ℕ → Outcome) (max_event_bytes : ℕ) where
    -- The last round of the loop of `readSSE`.
    unfoldable pub read_end :
        ℕ → List Bytes → Error → List SseEvent → Reading → List SseEvent × Outcome
    read_end round tail last events s = elim (context round) [
      | err e ↦ (events, err e)
      | ok _ ↦ elim (read_sse_line max_event_bytes s.event_bytes tail) [
        | err e ↦ (events, err e)
        | ok line ↦ elim (is_eof last) [
          | false ↦ (events, err last)
          | true ↦ elim (count_line max_event_bytes line s) [
            | err e ↦ (events, err e)
            | ok s' ↦ finish_input (process_line line events s')
          ]
        ]
      ]
    ]

    -- A line of the loop of `readSSE`.
    unfoldable pub read_line : List Bytes → List SseEvent → Reading → Result Handed
    read_line fragments events s = read_sse_line max_event_bytes s.event_bytes fragments >>= λ line.
        count_line max_event_bytes line s >>= λ s'. ok (process_line line events s')

    -- The loop of `readSSE`, its rounds counted for the context.
    unfoldable pub read_lines :
        ℕ
        → List (List Bytes)
        → List Bytes
        → Error
        → List SseEvent
        → Reading
        → List SseEvent × Outcome
    read_lines round [] tail last events s = read_end round tail last events s
    read_lines round (fragments ∷ lines) tail last events s = elim (context round) [
      | err e ↦ (events, err e)
      | ok _ ↦ elim (read_line fragments events s) [
        | err e ↦ (events, err e)
        | ok h ↦ elim h.outcome [
          | err e ↦ (h.events, err e)
          | ok _ ↦ read_lines (suc round) lines tail last h.events h.reading
        ]
      ]
    ]

    -- `readSSE`, with the arguments there.
    unfoldable pub read_sse : Source → List SseEvent × Outcome
    read_sse source = elim (max_event_bytes == 0) [
      | true ↦ ([], err (new "read SSE: maximum event size must be positive"))
      | false ↦ read_lines 0 source.lines source.tail source.last [] no_event
    ]
