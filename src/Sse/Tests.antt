-- ===== src/Sse/Tests.antt =====
-- The reader of server-sent events on a short stream.
use cursor_cli_byok.Base.{◌≡◌, refl, [], ◌∷◌, All, eof, ok, err, new}
use cursor_cli_byok.Go.Strings.{same, text}
use cursor_cli_byok.Go.Words.{join_with}
use cursor_cli_byok.Sse.{
  Source, read_fragments, read_sse_line, count_line, cut_colon, trim_one, store, absorb, dispatch,
  process_line, finish_input, is_eof, read_end, read_line, read_lines, read_sse,
}
use cursor_cli_byok.Sse.Size.{IsSmall, read_sse-IsSmall}

-- `event: x`, a comment, `data: h` in two fragments, `data:i` and an empty line; then `data` without
-- a value, which the end cuts off.
abbrev greeting : Source
greeting = record {
  lines =
      ((101 ∷ 118 ∷ 101 ∷ 110 ∷ 116 ∷ 58 ∷ 32 ∷ 120 ∷ []) ∷ [])
      ∷ ((58 ∷ 104 ∷ []) ∷ [])
      ∷ ((100 ∷ 97 ∷ 116 ∷ []) ∷ (97 ∷ 58 ∷ 32 ∷ 104 ∷ []) ∷ [])
      ∷ ((100 ∷ 97 ∷ 116 ∷ 97 ∷ 58 ∷ 105 ∷ []) ∷ [])
      ∷ ([] ∷ [])
      ∷ [];
  tail = (100 ∷ 97 ∷ 116 ∷ 97 ∷ []) ∷ [];
  last = eof;
}

reads_greeting : read_sse (λ events event. ok tt) (λ round. ok tt) 32 greeting ≡ (
  record { name = 120 ∷ []; data_text = 104 ∷ 10 ∷ 105 ∷ [] }
      ∷ record { name = []; data_text = [] }
      ∷ [],
  ok tt,
)
unfolding read_sse read_lines read_line read_end finish_input process_line dispatch absorb store
    trim_one cut_colon count_line read_sse_line read_fragments is_eof join_with same text
reads_greeting = refl

-- The comment is counted: 22 bytes are too few.
refuses_greeting :
    read_sse (λ events event. ok tt) (λ round. ok tt) 22 greeting
    ≡ ([], err (new "read SSE: event is too large"))
unfolding read_sse read_lines read_line read_end finish_input process_line dispatch absorb store
    trim_one cut_colon count_line read_sse_line read_fragments is_eof join_with same text
refuses_greeting = refl

read_sse-IsSmall_example :
    All (IsSmall 32) (read_sse (λ events event. ok tt) (λ round. ok tt) 32 greeting).0
read_sse-IsSmall_example = read_sse-IsSmall (λ events event. ok tt) 32 (λ round. ok tt) greeting
