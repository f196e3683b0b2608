-- ===== src/Checks/Teal/Lines.antt =====
-- What the check does not depend on, and what its scan of a line keeps.
use trelyan_falcon_inscripti.Prelude.{
  inr, inl, Option-cases, ℕ, ◌≡◌, ◌≢◌, refl, ap, ◌∙◌, false, Option, none, some, List, [], ◌∷◌,
  ◌++◌, arith, ◌==◌, if◌then◌else◌,
}
use trelyan_falcon_inscripti.Prelude.Bytes.{Bytes, All}
use trelyan_falcon_inscripti.Prelude.Text.{starts_with_lf}
use trelyan_falcon_inscripti.Prelude.Result.{Result, ok, or_raise, ◌>>=◌}
use trelyan_falcon_inscripti.Checks.{Failure, check_error}
use trelyan_falcon_inscripti.Checks.Teal.{
  embedded_spec, agrees_with, Artifact, approval_teal, arc56, artifacts, normalise, code, quoted,
  cut_comment, Drift, Tools, Tree, Spec, instructions, assert_pragma_matches, compare,
  check_artifacts, client_spec_matches, main, exit_code,
}

-- A checkout with the line endings of Windows.
abbrev pub to_crlf : Bytes → Bytes
to_crlf [] = []
to_crlf (c ∷ s) = if c == 10 then 13 ∷ 10 ∷ to_crlf s else c ∷ to_crlf s

crlf-lf : (c : ℕ) (s : Bytes) → c ≢ 13 → starts_with_lf (to_crlf (c ∷ s)) ≡ false
crlf-lf c s n = ground arith

-- Normalising a checkout with the line endings of Windows gives back a text without carriage returns.
pub normalise-to_crlf : (s : Bytes) → All (λ c. c ≢ 13) s → normalise (to_crlf s) ≡ s
unfolding normalise
normalise-to_crlf [] h = refl
normalise-to_crlf (c ∷ s) h =
    let rest = normalise-to_crlf s h.1 in let n = h.0 in ground (arith, rest)

-- The same file, or none, up to line endings.
pub data SameText : Option Bytes → Option Bytes → Type 0 where
  absent : SameText none none
  present : (c d : Bytes) → normalise c ≡ normalise d → SameText (some c) (some d)

module _ {V : Type 0} (tools : Tools V) (tree tree' : Tree) where
  pragma_same :
      (o o' : Option Bytes)
      → SameText o o'
      → assert_pragma_matches tools tree o ≡ assert_pragma_matches tools tree' o'
  unfolding assert_pragma_matches
  pragma_same _ _ absent = refl
  pragma_same _ _ (present c d e) = rw e refl

  compare_same :
      (name : Artifact) (c d f : Bytes)
      → normalise c ≡ normalise d
      → compare tools tree name c f ≡ compare tools tree' name d f
  unfolding compare instructions
  compare_same name c d f e = rw e refl

  one_same :
      (name : Artifact) (o o' f : Option Bytes) (rest : Result Failure (List Drift))
      → SameText o o'
      → (do
        c ← or_raise o check_error
        d ← or_raise f check_error
        drifts ← rest
        ok (compare tools tree name c d ∷ drifts))
        ≡ (do
          c ← or_raise o' check_error
          d ← or_raise f check_error
          drifts ← rest
          ok (compare tools tree' name c d ∷ drifts))
  one_same name _ _ f rest absent = refl
  one_same name _ _ none rest (present c d e) = refl
  one_same name _ _ (some f) rest (present c d e) =
      let add : Drift → Result Failure (List Drift) =
        λ drift. rest >>= λ drifts. ok (drift ∷ drifts) in
      ap add (compare_same name c d f e)

  check_artifacts_same :
      (fresh : Artifact → Option Bytes) (names : List Artifact)
      → ((name : Artifact) → SameText (tree.committed name) (tree'.committed name))
      → check_artifacts tools tree fresh names ≡ check_artifacts tools tree' fresh names
  unfolding check_artifacts
  check_artifacts_same fresh [] h = refl
  check_artifacts_same fresh (name ∷ names) h =
      one_same name (tree.committed name) (tree'.committed name) (fresh name)
        (check_artifacts tools tree fresh names) (h name)
      ∙ ap
          (λ rest. (do
            c ← or_raise (tree'.committed name) check_error
            d ← or_raise (fresh name) check_error
            drifts ← rest
            ok (compare tools tree' name c d ∷ drifts)))
          (check_artifacts_same fresh names h)

  agrees_same :
      (embedded : Option (Spec V)) (o o' : Option Bytes)
      → ((c d : Bytes) → normalise c ≡ normalise d → tools.json_loads c ≡ tools.json_loads d)
      → SameText o o'
      → agrees_with tools tree embedded o ≡ agrees_with tools tree' embedded o'
  unfolding agrees_with
  agrees_same none o o' j same = refl
  agrees_same (some embedded) _ _ j absent = refl
  agrees_same (some embedded) _ _ j (present c d e) = rw (j c d e) refl

module _ {V : Type 0} (tools : Tools V) (tree : Tree) (other : Artifact → Option Bytes) where
  abbrev checkout : Tree
  checkout = record tree { committed = other }

  -- If two trees differ in the line endings of the committed artifacts at most, and json.loads does not
  -- tell such texts apart, then the check exits with the same code on both: its verdict does not depend on
  -- the line endings of the checkout.
  pub exit_code_ignores_line_endings :
      ((name : Artifact) → SameText (tree.committed name) (other name))
      → ((c d : Bytes) → normalise c ≡ normalise d → tools.json_loads c ≡ tools.json_loads d)
      → exit_code tools tree ≡ exit_code tools (record tree { committed = other })
  unfolding exit_code main client_spec_matches embedded_spec
  exit_code_ignores_line_endings h j =
      let pragma =
        pragma_same tools tree checkout (tree.committed approval_teal) (other approval_teal)
          (h approval_teal) in
      let client =
        agrees_same tools tree checkout (embedded_spec tools tree) (tree.committed arc56)
          (other arc56) j (h arc56) in
      elim (Option-cases tools.compile) [
        | inl missing ↦ ground (arith, pragma, missing)
        | inr (fresh, found) ↦
            let drifts = check_artifacts_same tools tree checkout fresh artifacts h in
            ground (arith, pragma, client, found, drifts)
      ]

quoted_kept :
    (body line : Bytes)
    → All (λ c. (c ≢ 34) × (c ≢ 92)) body
    → cut_comment quoted (body ++ 34 ∷ line) ≡ body ++ 34 ∷ cut_comment code line
unfolding cut_comment
quoted_kept [] line h = refl
quoted_kept (c ∷ body) line h =
    let rest = quoted_kept body line h.1 in let n = h.0.0 in let m = h.0.1 in ground (arith, rest)

-- A string literal with no quote and no backslash inside is kept whole, whatever else it holds, and the scan
-- goes on behind it; so `//` in a literal begins no comment.
pub cut_comment-literal :
    (body line : Bytes)
    → All (λ c. (c ≢ 34) × (c ≢ 92)) body
    → cut_comment code (34 ∷ (body ++ 34 ∷ line)) ≡ 34 ∷ (body ++ 34 ∷ cut_comment code line)
unfolding cut_comment
cut_comment-literal body line h = ap (λ t. 34 ∷ t) (quoted_kept body line h)
