-- ===== src/Shell/Args.antt =====
-- `parse_args` of user/shell/src/input.rs against the pieces of a line between its spaces.
use vyper.Prelude.{
  ℕ, zero, suc, ◌≡◌, refl, ap, sym, ◌∙◌, true, false, List, [], ◌∷◌, Bytes, ◌==◌, if◌then◌else◌,
  take, inl, inr, Bool-cases,
}
use vyper.Shell.{space, skip_spaces, take_word, parse_args}

-- `c` before the first piece.
abbrev pub cons_first : ℕ → List Bytes → List Bytes
cons_first c [] = (c ∷ []) ∷ []
cons_first c (piece ∷ pieces) = (c ∷ piece) ∷ pieces

-- The pieces of a line between its spaces, which may be empty.
pub pieces : Bytes → List Bytes
pieces [] = [] ∷ []
pieces (c ∷ line) = if c == space then [] ∷ pieces line else cons_first c (pieces line)

abbrev pub not_empty : List Bytes → List Bytes
not_empty [] = []
not_empty ([] ∷ ps) = not_empty ps
not_empty ((c ∷ p) ∷ ps) = (c ∷ p) ∷ not_empty ps

abbrev pub words : Bytes → List Bytes
words line = not_empty (pieces line)

module _ (c : ℕ) (line : Bytes) where
  pieces_at_blank : (c == space) ≡ true → pieces (c ∷ line) ≡ [] ∷ pieces line
  unfolding pieces
  pieces_at_blank e = rw (e, pieces) refl

  pieces_goes_on : (c == space) ≡ false → pieces (c ∷ line) ≡ cons_first c (pieces line)
  unfolding pieces
  pieces_goes_on e = rw (e, pieces) refl

  take_word_at_blank : (c == space) ≡ true → take_word (c ∷ line) ≡ ([], c ∷ line)
  unfolding take_word
  take_word_at_blank e = rw (e, take_word) refl

  take_word_goes_on :
      (c == space) ≡ false → take_word (c ∷ line) ≡ (c ∷ (take_word line).0, (take_word line).1)
  unfolding take_word
  take_word_goes_on e = rw (e, take_word) refl

  skip_blank : (c == space) ≡ true → skip_spaces (c ∷ line) ≡ skip_spaces line
  unfolding skip_spaces
  skip_blank e = rw (e, skip_spaces) refl

  skip_stops : (c == space) ≡ false → skip_spaces (c ∷ line) ≡ c ∷ line
  unfolding skip_spaces
  skip_stops e = rw (e, skip_spaces) refl

words_skip : (line : Bytes) → words (skip_spaces line) ≡ words line
unfolding skip_spaces
words_skip [] = refl
words_skip (c ∷ line) = elim (Bool-cases (c == space)) [
  | inl e ↦
      ap words (skip_blank c line e)
      ∙ words_skip line
      ∙ sym (ap not_empty (pieces_at_blank c line e))
  | inr e ↦ ap words (skip_stops c line e)
]

-- The pieces begin with the word, and the words of the rest are the others.
pieces_word :
    (line : Bytes)
    → (ps : List Bytes) × (pieces line ≡ (take_word line).0 ∷ ps)
      × (words (take_word line).1 ≡ not_empty ps)
unfolding pieces take_word
pieces_word [] = ([], refl, refl)
pieces_word (c ∷ line) = elim (Bool-cases (c == space)) [
  | inl e ↦
      let taken = take_word_at_blank c line e in
      (
        pieces line,
        pieces_at_blank c line e ∙ ap (λ t. t.0 ∷ pieces line) (sym taken),
        ap (λ t. words t.1) taken ∙ ap not_empty (pieces_at_blank c line e),
      )
  | inr e ↦
      let (ps, first, others) = pieces_word line in
      let taken = take_word_goes_on c line e in
      (
        ps,
        pieces_goes_on c line e ∙ ap (cons_first c) first ∙ ap (λ t. t.0 ∷ ps) (sym taken),
        ap (λ t. words t.1) taken ∙ others,
      )
]

-- After the spaces stands another character.
skip_first : (line : Bytes) (c : ℕ) (cs : Bytes) → skip_spaces line ≡ c ∷ cs → (c == space) ≡ false
unfolding skip_spaces
skip_first [] c cs e = cc
skip_first (d ∷ line) c cs e = elim (Bool-cases (d == space)) [
  | inl h ↦ skip_first line c cs (sym (skip_blank d line h) ∙ e)
  | inr h ↦
      let here : d ∷ line ≡ c ∷ cs = sym (skip_stops d line h) ∙ e in
      let same : d ≡ c = cc here in rw (← same) h
]

-- A line that does not begin with a space gives its word, then the words of the rest.
words_word :
    (c : ℕ) (cs : Bytes)
    → (c == space) ≡ false
    → words (c ∷ cs) ≡ (take_word (c ∷ cs)).0 ∷ words (take_word (c ∷ cs)).1
words_word c cs e =
    let (ps, first, others) = pieces_word (c ∷ cs) in
    let taken : (take_word (c ∷ cs)).0 ≡ c ∷ (take_word cs).0 =
      ap (λ t. t.0) (take_word_goes_on c cs e) in
    ap not_empty first
    ∙ ap (λ w. not_empty (w ∷ ps)) taken
    ∙ ap (λ ws. (c ∷ (take_word cs).0) ∷ ws) (sym others)
    ∙ ap (λ w. w ∷ words (take_word (c ∷ cs)).1) (sym taken)

-- `parse_args` gives the words of a line, that is, its pieces between spaces that are not empty, in
-- their order, and no more than it has slots for.
pub parse_args_lem : (line : Bytes) (slots : ℕ) → parse_args line slots ≡ take slots (words line)
unfolding parse_args pieces
parse_args_lem line zero = refl
parse_args_lem line (suc slots) = from (λ rest. parse_args_lem rest slots) (skip_spaces line) refl
  where
    from :
        ((rest : Bytes) → parse_args rest slots ≡ take slots (words rest))
        → (rest : Bytes) → skip_spaces line ≡ rest
        → parse_args line (suc slots) ≡ take (suc slots) (words line)
    from later [] e =
        rw (e, parse_args) (ap (take (suc slots)) (ap words (sym e) ∙ words_skip line))
    from later (c ∷ cs) e =
        rw (e, parse_args)
          (ap (λ ws. (take_word (c ∷ cs)).0 ∷ ws) (later (take_word (c ∷ cs)).1)
            ∙ ap (take (suc slots)) (
                sym (words_word c cs (skip_first line c cs e))
                ∙ ap words (sym e)
                ∙ words_skip line))
