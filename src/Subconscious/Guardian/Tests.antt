-- ===== src/Subconscious/Guardian/Tests.antt =====
-- A vector is its similarity to the message. Four anchors are constraints, and two are open loops.
use mnemostroma.Prelude.{
  ℕ, String, ◌≡◌, refl, none, some, List, [], ◌∷◌, inl, arith, string_eq, map, All,
}
use mnemostroma.Prelude.Text.{codes}
use mnemostroma.Prelude.Dict.{Dict, get, put}
use mnemostroma.Prelude.SortDown.{Any}
use mnemostroma.Subconscious.Guardian.{
  Watched, Warning, anchor_guardian, keyword_anchor_check, keyword_warning, scan_open_loops,
  merge_warnings,
}
use mnemostroma.Subconscious.Guardian.Silence.{Scan, run_scan, run_scans, IsAbout, warned_once}

abbrev anchor : String → String → ℕ → Watched ℕ
anchor anchor_id brief similarity = record {
  anchor_id = anchor_id;
  anchor_type = "constraint";
  brief = codes brief;
  decay_level = 0;
  outcome = none;
  embedding = some similarity;
}

abbrev four : List (Watched ℕ)
four =
    anchor "a" "never deploy" 10
    ∷ anchor "b" "deploy slowly" 90
    ∷ anchor "c" "deploy twice" 80
    ∷ anchor "d" "deploy at night" 20
    ∷ []

abbrev same : {A : Type 0} → A → A
same x = x

abbrev check : List (Warning ℕ) × Dict String ℕ
check = keyword_anchor_check same (codes "we deploy now") 60 100 four []

three_told : map (λ (w : Warning ℕ). w.anchor.anchor_id) check.0 ≡ "a" ∷ "b" ∷ "c" ∷ []
unfolding keyword_anchor_check put get
three_told = refl

-- The fourth is not told, and yet silent.
fourth_silenced : (keyword_anchor_check same (codes "we deploy now") 60 159 four check.1).0 ≡ []
unfolding keyword_anchor_check put get
fourth_silenced = refl

abbrev scan : List (Warning ℕ) × Dict String ℕ
scan = anchor_guardian same same 72 60 100 four []

similar_told : map (λ (w : Warning ℕ). w.anchor.anchor_id) scan.0 ≡ "b" ∷ "c" ∷ []
unfolding anchor_guardian put get
similar_told = refl

abbrev first_scan : Scan ℕ
first_scan = Scan.semantic same same 72 60 100 four

told_b : Any (IsAbout "b") (run_scan first_scan []).0
unfolding anchor_guardian put get
told_b = inl refl

abbrev later_scans : List (Scan ℕ)
later_scans =
    Scan.keyword same (codes "we deploy now") 60 130 four
    ∷ Scan.semantic same same 72 60 159 four
    ∷ []

warned_once_example :
    All (All (λ w. ¬ IsAbout "b" w)) (run_scans later_scans (run_scan first_scan []).1)
warned_once_example = warned_once first_scan later_scans [] "b" told_b (omega arith)

abbrev open_loop : String → ℕ → Watched ℕ
open_loop anchor_id similarity = record (anchor anchor_id "x" similarity) {
  anchor_type = "decision";
}

abbrev loops : List (Watched ℕ)
loops = open_loop "a" 80 ∷ open_loop "b" 90 ∷ []

best_loop :
    map (λ (w : Warning ℕ). w.anchor.anchor_id) (scan_open_loops same same 75 60 1 100 loops []).0
    ≡ "b" ∷ []
unfolding scan_open_loops put get
best_loop = refl

abbrev layer1 : List (Warning ℕ)
layer1 = keyword_warning (anchor "a" "x" 1) ∷ keyword_warning (anchor "b" "x" 1) ∷ []

abbrev layer2 : List (Warning ℕ)
layer2 = record (keyword_warning (anchor "b" "x" 1)) { similarity = some 80; layer = some 2 } ∷ []

merged_layers :
    map (λ (w : Warning ℕ). w.layer) (merge_warnings layer1 layer2) ≡ some 2 ∷ some 1 ∷ []
unfolding merge_warnings put keyword_warning
merged_layers = refl
