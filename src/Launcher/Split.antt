-- ===== src/Launcher/Split.antt =====
-- What `SplitModelArgument` of internal/cursorcli/launch.go takes out of the arguments.
use cursor_cli_byok.Base.{
  ◌≡◌, refl, ap, sym, Bool, Bool-cases, inl, inr, true, false, not, ◌&&◌, ◌||◌, List, [], ◌∷◌, ◌++◌,
  append-nil, append_assoc, Bytes, ok, arith, drop-append_length,
}
use cursor_cli_byok.Go.Strings.{is_empty, same, text, has_prefix, has_control}
use cursor_cli_byok.Launcher.{
  separator, model_flag, model_prefix, Splitting, select_model, finish_split, split_loop,
  split_model_argument,
}

-- An argument that names a model.
abbrev pub is_model_argument : Bytes → Bool
is_model_argument argument = same argument model_flag || has_prefix argument model_prefix

-- An argument in front of the separator names a model.
unfoldable pub mentions_model : List Bytes → Bool
mentions_model [] = false
mentions_model (argument ∷ args) =
    not (same argument separator) && (is_model_argument argument || mentions_model args)

-- Arguments that are neither the separator nor name a model.
unfoldable pub are_plain : List Bytes → Bool
are_plain [] = true
are_plain (argument ∷ args) =
    not (same argument separator) && (not (is_model_argument argument) && are_plain args)

are_plain-append :
    (xs ys : List Bytes) → are_plain xs ≡ true → mentions_model (xs ++ ys) ≡ mentions_model ys
unfolding are_plain mentions_model
are_plain-append [] ys h = refl
are_plain-append (x ∷ xs) ys h = ground (arith, are_plain-append xs ys)

are_plain-snoc :
    (xs : List Bytes) (x : Bytes)
    → are_plain xs ≡ true
    → same x separator ≡ false
    → is_model_argument x ≡ false
    → are_plain (xs ++ x ∷ []) ≡ true
unfolding are_plain
are_plain-snoc [] x h p q = ground arith
are_plain-snoc (y ∷ xs) x h p q = ground (arith, are_plain-snoc xs x)

abbrev forwarding : Splitting → List Bytes → Splitting
forwarding s args = record s { forwarded = s.forwarded ++ args }

-- Plain arguments are forwarded.
split_loop-plain :
    (xs rest : List Bytes) (s : Splitting)
    → are_plain xs ≡ true
    → split_loop false (xs ++ rest) s ≡ split_loop false rest (forwarding s xs)
unfolding are_plain split_loop
split_loop-plain [] rest s h =
    ap (λ (args : List Bytes). split_loop false rest (record s { forwarded = args }))
      (sym (append-nil s.forwarded))
split_loop-plain (x ∷ xs) rest s h =
    let p : same x separator ≡ false = ground arith in
    let q : same x model_flag ≡ false = ground arith in
    let r : has_prefix x model_prefix ≡ false = ground arith in
    let h' : are_plain xs ≡ true = ground arith in
    rw (p, split_loop)
      (rw q (
        rw r (
          rw (split_loop-plain xs rest (forwarding s (x ∷ [])) h')
            (rw (append_assoc s.forwarded (x ∷ []) xs) refl))))

-- Arguments that name no model are forwarded to the end.
split_loop-rest :
    (args : List Bytes) (s : Splitting)
    → mentions_model args ≡ false
    → split_loop false args s ≡ finish_split (forwarding s args)
unfolding mentions_model split_loop
split_loop-rest [] s h =
    ap (λ (args : List Bytes). finish_split (record s { forwarded = args }))
      (sym (append-nil s.forwarded))
split_loop-rest (x ∷ args) s h = elim (Bool-cases (same x separator)) [
  | inl p ↦ rw (p, split_loop) refl
  | inr p ↦
      let q : same x model_flag ≡ false = ground arith in
      let r : has_prefix x model_prefix ≡ false = ground arith in
      let h' : mentions_model args ≡ false = ground arith in
      rw (p, split_loop)
        (rw q (
          rw r (
            rw (split_loop-rest args (forwarding s (x ∷ [])) h')
              (rw (append_assoc s.forwarded (x ∷ []) args) refl))))
]

has_prefix-append : (s t : Bytes) → has_prefix (s ++ t) s ≡ true
unfolding has_prefix
has_prefix-append [] [] = refl
has_prefix-append [] (b ∷ t) = refl
has_prefix-append (a ∷ s) t = ground (arith, has_prefix-append s t)

-- A valid model that stands once, in front of the separator, as an argument of its own or behind
-- `--model=`, is selected whatever the default is, and every other argument is forwarded in its
-- place.
pub split_model_argument-insert :
    (default_model model : Bytes) (before after : List Bytes)
    → are_plain before ≡ true
    → mentions_model after ≡ false
    → is_empty model || has_control model ≡ false
    → (split_model_argument default_model (before ++ model_flag ∷ model ∷ after)
        ≡ ok (model, before ++ after))
      × (split_model_argument default_model (before ++ (model_prefix ++ model) ∷ after)
          ≡ ok (model, before ++ after))
unfolding split_model_argument split_loop select_model finish_split text same has_prefix
split_model_argument-insert default_model model before after plain rest valid =
    let start : Splitting = record {
      selected_model = default_model;
      selection_found = false;
      forwarded = [];
    } in
    let chosen : Splitting = record {
      selected_model = model;
      selection_found = true;
      forwarded = before;
    } in
    let ended : split_loop false after chosen ≡ ok (model, before ++ after) =
      rw (split_loop-rest after chosen rest) (rw valid refl) in
    (
      rw (split_loop-plain before (model_flag ∷ model ∷ after) start plain) (rw valid ended),
      rw (split_loop-plain before ((model_prefix ++ model) ∷ after) start plain) (
          rw (has_prefix-append model_prefix model)
            (rw (drop-append_length model_prefix model) (rw valid ended))),
    )
