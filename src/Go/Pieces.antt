-- ===== src/Go/Pieces.antt =====
-- `strings.Count` and `strings.Replace` as the pieces between the occurrences.
use cursor_cli_byok.Base.{
  ℕ, zero, suc, ◌≤◌, ◌≡◌, refl, sym, ap, ◌≢◌, true, false, Bool-cases, inl, inr, List, [], ◌∷◌,
  ◌++◌, subst, Bytes, length, drop, length-drop, arith,
}
use cursor_cli_byok.Go.Strings.{has_prefix}
use cursor_cli_byok.Go.Words.{
  count_from, count, replace_first, replace_from, replace_all, join_with,
}

has_prefix-split : (s t : Bytes) → has_prefix s t ≡ true → s ≡ t ++ drop (length t) s
unfolding has_prefix
has_prefix-split s [] h = refl
has_prefix-split [] (b ∷ t) h = absurd (cc h)
has_prefix-split (a ∷ s) (b ∷ t) h = ground (arith, has_prefix-split s t)

has_prefix-append : (t s : Bytes) → has_prefix (t ++ s) t ≡ true
unfolding has_prefix
has_prefix-append [] s = refl
has_prefix-append (a ∷ t) s = ground (arith, has_prefix-append t s)

count_from-drop : (k : ℕ) (old s : Bytes) → count_from k old s ≡ count (drop k s) old
unfolding count_from
count_from-drop zero old s = refl
count_from-drop (suc k) old [] = refl
count_from-drop (suc k) old (a ∷ s) = count_from-drop k old s

replace_from-drop :
    (k : ℕ) (s old new : Bytes) → replace_from k s old new ≡ replace_all (drop k s) old new
unfolding replace_from
replace_from-drop zero s old new = refl
replace_from-drop (suc k) [] old new = refl
replace_from-drop (suc k) (a ∷ s) old new = replace_from-drop k s old new

-- A text without an occurrence is left as it is.
replace_all-none : (s old new : Bytes) → count s old ≡ 0 → replace_all s old new ≡ s
unfolding count_from replace_from
replace_all-none [] old new h = refl
replace_all-none (a ∷ s) old new h = ground (arith, replace_all-none s old new)

-- `old` does not occur in the text.
abbrev pub IsFreeOf : Bytes → Bytes → Type 0
IsFreeOf old s = (before after : Bytes) → s ≢ before ++ (old ++ after)

-- No occurrence of `old` in the text starts in front of the place.
abbrev pub StartsAt : Bytes → Bytes → ℕ → Type 0
StartsAt old s place = (before after : Bytes) → s ≡ before ++ (old ++ after) → place ≤ length before

-- Behind each piece but the last stands the first occurrence of `old` in what the pieces from there
-- on make, and the last piece has none.
abbrev pub AreLeftmost : Bytes → List Bytes → Type 0
AreLeftmost old [] = Unit
AreLeftmost old (p ∷ []) = IsFreeOf old p
AreLeftmost old (p ∷ q ∷ pieces) =
    StartsAt old (join_with old (p ∷ q ∷ pieces)) (length p) × AreLeftmost old (q ∷ pieces)

-- The pieces of a text between the occurrences of `old`, each the leftmost behind the one before,
-- and what they make joined by `new`.
pub record IsCut (old s new out : Bytes) (matches : ℕ) : Type 0 where
  pub pieces : List Bytes
  pub content_is : s ≡ join_with old pieces
  pub leftmost : AreLeftmost old pieces
  pub out_is : out ≡ join_with new pieces
  pub one_more_piece : length pieces ≡ suc matches

module _ (o : ℕ) (old : Bytes) where
  -- With one occurrence, the first is all of them.
  pub replace_first-all :
      (s new : Bytes)
      → count s (o ∷ old) ≡ 1
      → replace_first s (o ∷ old) new ≡ replace_all s (o ∷ old) new
  unfolding count_from replace_from replace_first
  replace_first-all [] new h = refl
  replace_first-all (a ∷ s) new h = elim (Bool-cases (has_prefix (a ∷ s) (o ∷ old))) [
    | inr q ↦
        rw (q, replace_first)
          (rw (q, replace_from) (ap (◌∷◌ a) (replace_first-all s new (rw (q, count_from) at h))))
    | inl q ↦
        let h' = rw (q, count_from) at h in
        let none : count (drop (length old) s) (o ∷ old) ≡ 0 =
          omega (arith, count_from-drop (length old) (o ∷ old) s, h') in
        rw (q, replace_first)
          (rw (q, replace_from)
            (rw (replace_from-drop (length old) s (o ∷ old) new)
              (rw (replace_all-none (drop (length old) s) (o ∷ old) new none) refl)))
  ]

  -- A byte in front of the first piece.
  longer_piece : ℕ → List Bytes → List Bytes
  longer_piece a [] = (a ∷ []) ∷ []
  longer_piece a (p ∷ ps) = (a ∷ p) ∷ ps

  join_with-longer_piece :
      (separator : Bytes) (a : ℕ) (pieces : List Bytes)
      → join_with separator (longer_piece a pieces) ≡ a ∷ join_with separator pieces
  unfolding longer_piece join_with
  join_with-longer_piece separator a [] = refl
  join_with-longer_piece separator a (p ∷ []) = refl
  join_with-longer_piece separator a (p ∷ q ∷ ps) = refl

  length-longer_piece :
      (a : ℕ) (pieces : List Bytes) (n : ℕ)
      → length pieces ≡ suc n
      → length (longer_piece a pieces) ≡ suc n
  unfolding longer_piece
  length-longer_piece a [] n h = absurd (omega arith)
  length-longer_piece a (p ∷ ps) n h = h

  empty-IsFreeOf : IsFreeOf (o ∷ old) []
  empty-IsFreeOf [] after = λ e. cc
  empty-IsFreeOf (b ∷ before) after = λ e. cc

  -- Where `old` is no prefix, an occurrence starts one place later in what is behind.
  occurs_behind :
      (a : ℕ) (s before after : Bytes)
      → has_prefix (a ∷ s) (o ∷ old) ≡ false
      → a ∷ s ≡ before ++ ((o ∷ old) ++ after)
      → (rest : Bytes) × (length before ≡ suc (length rest)) × (s ≡ rest ++ ((o ∷ old) ++ after))
  occurs_behind a s [] after q e = absurd (cc (q, e, has_prefix-append (o ∷ old) after))
  occurs_behind a s (b ∷ before) after q e = (before, refl, cc)

  AreLeftmost-longer_piece :
      (a : ℕ) (pieces : List Bytes)
      → has_prefix (a ∷ join_with (o ∷ old) pieces) (o ∷ old) ≡ false
      → AreLeftmost (o ∷ old) pieces
      → AreLeftmost (o ∷ old) (longer_piece a pieces)
  unfolding longer_piece join_with
  AreLeftmost-longer_piece a [] q h = λ before after e.
      let (rest, _, e') = occurs_behind a [] before after q e in empty-IsFreeOf rest after e'
  AreLeftmost-longer_piece a (p ∷ []) q h =
      λ before after e. let (rest, _, e') = occurs_behind a p before after q e in h rest after e'
  AreLeftmost-longer_piece a (p ∷ next ∷ pieces) q h = (
    λ before after e.
        let (rest, longer, e') =
          occurs_behind a (join_with (o ∷ old) (p ∷ next ∷ pieces)) before after q e in
        omega (arith, longer, h.0 rest after e'),
    h.1,
  )

  IsCut-behind :
      (a : ℕ) {s new out : Bytes} {n : ℕ}
      → has_prefix (a ∷ s) (o ∷ old) ≡ false
      → IsCut (o ∷ old) s new out n
      → IsCut (o ∷ old) (a ∷ s) new (a ∷ out) n
  IsCut-behind a {new = new} q c = record {
    pieces = longer_piece a c.pieces;
    content_is = rw (join_with-longer_piece (o ∷ old) a c.pieces) (ap (◌∷◌ a) c.content_is);
    leftmost =
        AreLeftmost-longer_piece a c.pieces
          (subst (λ (t : Bytes). has_prefix (a ∷ t) (o ∷ old) ≡ false) c.content_is q) c.leftmost;
    out_is = rw (join_with-longer_piece new a c.pieces) (ap (◌∷◌ a) c.out_is);
    one_more_piece = length-longer_piece a c.pieces _ c.one_more_piece;
  }

  join_with-empty :
      (separator : Bytes) (pieces : List Bytes) {n : ℕ}
      → length pieces ≡ suc n
      → join_with separator ([] ∷ pieces) ≡ separator ++ join_with separator pieces
  unfolding join_with
  join_with-empty separator [] h = absurd (omega arith)
  join_with-empty separator (p ∷ ps) h = refl

  AreLeftmost-empty :
      (pieces : List Bytes) {n : ℕ}
      → length pieces ≡ suc n
      → AreLeftmost (o ∷ old) pieces
      → AreLeftmost (o ∷ old) ([] ∷ pieces)
  AreLeftmost-empty [] h k = absurd (omega arith)
  AreLeftmost-empty (p ∷ pieces) h k = (λ before after e. omega arith, k)

  IsCut-here :
      {s new out : Bytes} {n : ℕ}
      → IsCut (o ∷ old) s new out n
      → IsCut (o ∷ old) ((o ∷ old) ++ s) new (new ++ out) (suc n)
  IsCut-here {new = new} c = record {
    pieces = [] ∷ c.pieces;
    content_is =
        rw (join_with-empty (o ∷ old) c.pieces c.one_more_piece) (ap (◌++◌ (o ∷ old)) c.content_is);
    leftmost = AreLeftmost-empty c.pieces c.one_more_piece c.leftmost;
    out_is = rw (join_with-empty new c.pieces c.one_more_piece) (ap (◌++◌ new) c.out_is);
    one_more_piece = ap suc c.one_more_piece;
  }

  IsCut-up_to :
      (n : ℕ) (s new : Bytes)
      → length s ≤ n
      → IsCut (o ∷ old) s new (replace_all s (o ∷ old) new) (count s (o ∷ old))
  unfolding count_from replace_from
  IsCut-up_to n [] new h = record {
    pieces = [] ∷ [];
    content_is = unfold join_with in refl;
    leftmost = empty-IsFreeOf;
    out_is = unfold join_with in refl;
    one_more_piece = refl;
  }
  IsCut-up_to zero (a ∷ s) new h = absurd (omega arith)
  IsCut-up_to (suc n) (a ∷ s) new h = elim (Bool-cases (has_prefix (a ∷ s) (o ∷ old))) [
    | inr q ↦
        rw (q, count_from)
          (rw (q, replace_from) (IsCut-behind a q (IsCut-up_to n s new (omega arith))))
    | inl q ↦
        let rest = drop (length old) s in
        let here =
          IsCut-here (IsCut-up_to n rest new (omega (arith, length-drop (length old) s))) in
        let split : (o ∷ old) ++ rest ≡ a ∷ s = sym (has_prefix-split (a ∷ s) (o ∷ old) q) in
        rw (q, count_from)
          (rw (q, replace_from)
            (rw (count_from-drop (length old) (o ∷ old) s) (
              rw (replace_from-drop (length old) s (o ∷ old) new) (
                subst
                  (λ (t : Bytes).
                    IsCut (o ∷ old) t new (new ++ replace_all rest (o ∷ old) new)
                      (suc (count rest (o ∷ old))))
                  split here))))
  ]

  pub replace_all-IsCut :
      (s new : Bytes) → IsCut (o ∷ old) s new (replace_all s (o ∷ old) new) (count s (o ∷ old))
  replace_all-IsCut s new = IsCut-up_to (length s) s new (omega arith)
