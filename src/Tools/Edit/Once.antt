-- ===== src/Tools/Edit/Once.antt =====
-- What `ApplyEditArguments` of internal/protocol/tool_edit.go makes of a content.
use cursor_cli_byok.Base.{
  ℕ, ◌≤◌, ◌≡◌, refl, subst, Bool, true, false, not, ◌&&◌, ◌||◌, [], ◌∷◌, Bytes, ok, bind-eq-ok,
  ok_eq, ltb, ◌==◌, arith, if◌then◌else◌,
}
use cursor_cli_byok.Go.Strings.{is_empty}
use cursor_cli_byok.Go.Words.{count, replace_first, replace_all}
use cursor_cli_byok.Go.Pieces.{IsCut, replace_first-all, replace_all-IsCut}
use cursor_cli_byok.Protocol.Schema.Counted.{past, passed}
use cursor_cli_byok.Tools.Json.{ToolJson, EditArguments, decode_strict_tool_arguments}
use cursor_cli_byok.Tools.Arguments.{bad_path, decode_edit_arguments}
use cursor_cli_byok.Tools.Edit.{matches_for_replacement, apply_edit_arguments}

-- The content and the count after an edit: the pieces between the leftmost occurrences of the old
-- string are joined by the new one, there is an occurrence, and only one if not all are to be
-- replaced.
pub record IsEdited (old new : Bytes) (all : Bool) (content : Bytes) (out : Bytes × ℕ)
    : Type 0 where
  pub cut : IsCut old content new out.0 out.1
  pub found : 1 ≤ out.1
  pub once : all ≡ false → out.1 ≡ 1

or_right : (a b : Bool) → a || b ≡ false → b ≡ false
or_right false b h = h
or_right true b h = absurd (cc h)

-- The new content and the count.
abbrev replaced : Bytes → Bytes → Bool → Bytes → Bytes × ℕ
replaced old new all content = (
  if all then replace_all content old new else replace_first content old new,
  matches_for_replacement (count content old) all,
)

replaced-IsEdited :
    (old new : Bytes) (all : Bool) (content : Bytes)
    → is_empty old ≡ false
    → (count content old == 0) ≡ false
    → ltb 1 (count content old) && not all ≡ false
    → IsEdited old new all content (replaced old new all content)
unfolding matches_for_replacement
replaced-IsEdited [] new all content filled found single = absurd (cc filled)
replaced-IsEdited (o ∷ old) new true content filled found single = record {
  cut = replace_all-IsCut o old content new;
  found = ground arith;
  once = λ e. absurd (cc e);
}
replaced-IsEdited (o ∷ old) new false content filled found single =
    let one : count content (o ∷ old) ≡ 1 = ground arith in
    record {
      cut = rw (replace_first-all o old content new one) (
          subst (λ (n : ℕ). IsCut (o ∷ old) content new (replace_all content (o ∷ old) new) n) one
            (replace_all-IsCut o old content new));
      found = omega arith;
      once = λ e. refl;
    }

module _ ⦃j : ToolJson⦄ where
  decode_edit_arguments-filled :
      (raw : Bytes) {arguments : EditArguments}
      → decode_edit_arguments raw ≡ ok arguments
      → is_empty arguments.old_string ≡ false
  unfolding decode_edit_arguments
  decode_edit_arguments-filled raw {arguments} e =
      let (read, strict, e1) = bind-eq-ok (decode_strict_tool_arguments j.decode_edit _ raw) _ e in
      let Filled = λ (a : EditArguments). is_empty a.old_string ≡ false in
      let bad = bad_path read.path || is_empty read.old_string in
      subst Filled (ok_eq (past bad _ e1))
        (or_right (bad_path read.path) (is_empty read.old_string) (passed bad _ _ e1))

  -- An edit that succeeds replaces the old string where it stands: the content is pieces joined
  -- by the old string, of which each occurrence is the leftmost one behind the one before and
  -- the last piece has none; the new content is the same pieces joined by the new string; the
  -- count is that of these occurrences, one at least, and just one unless all are to be
  -- replaced.
  pub apply_edit_arguments-IsEdited :
      (raw content : Bytes) {arguments : EditArguments} {out : Bytes × ℕ}
      → decode_edit_arguments raw ≡ ok arguments
      → apply_edit_arguments raw content ≡ ok out
      → IsEdited arguments.old_string arguments.new_string arguments.replace_all content out
  unfolding apply_edit_arguments
  apply_edit_arguments-IsEdited raw content {arguments} {out} d e =
      let e1 = rw d at e in
      let old = arguments.old_string in
      let none = count content old == 0 in
      let many = ltb 1 (count content old) && not arguments.replace_all in
      let e2 = past none _ e1 in
      subst (IsEdited old arguments.new_string arguments.replace_all content)
        (ok_eq (past many _ e2))
        (replaced-IsEdited old arguments.new_string arguments.replace_all content
          (decode_edit_arguments-filled raw d) (passed none _ _ e1) (passed many _ _ e2))
