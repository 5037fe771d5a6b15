-- ===== src/Editor/Loading.antt =====
-- loadQueues: what an editor loads before it is shown, in the order in which the callbacks run.
use study_tech.Base.{
  ℕ, suc, ◌≡◌, refl, List, [], ◌∷◌, ◌++◌, Bool, true, false, not, ◌&&◌, ◌||◌, if◌then◌else◌, ◌==◌,
  ==_iff, &&-eq-true, arith,
}

pub data Script : Type 0 where
  codemirror modes addons marked prettify raphael underscore flowchart : Script
  jquery_flowchart sequence_diagram : Script

pub data Style : Type 0 where
  codemirror_style dialog_style matches_style fold_style : Style

pub data Action : Type 0 where
  load_css : Style → Action
  load_script : Script → Action
  set_code_mirror set_toolbar loaded_display : Action

-- The settings that decide.
pub record Queue : Type 0 where
  pub is_ie8 : Bool
  pub markdown : Bool
  pub search_replace : Bool
  pub read_only : Bool
  pub code_fold : Bool
  pub preview_code_highlight : Bool
  pub flow_chart : Bool
  pub sequence : Bool

-- loadFlowChartOrSequenceDiagram; a script is loaded in the callback of the one before it.
unfoldable pub load_diagrams : Queue → List Action
load_diagrams q =
    if q.is_ie8
    then loaded_display ∷ []
    else if q.flow_chart || q.sequence
    then load_script raphael
      ∷ load_script underscore
      ∷ (if not q.flow_chart && q.sequence
          then load_script sequence_diagram ∷ loaded_display ∷ []
          else if q.flow_chart && not q.sequence
          then load_script flowchart ∷ load_script jquery_flowchart ∷ loaded_display ∷ []
          else if q.flow_chart && q.sequence
          then load_script flowchart
            ∷ load_script jquery_flowchart
            ∷ load_script sequence_diagram
            ∷ loaded_display
            ∷ []
          else [])
    else loaded_display ∷ []

unfoldable pub load_queues : Queue → List Action
load_queues q =
    load_css codemirror_style
    ∷ ((if q.search_replace && not q.read_only
          then load_css dialog_style ∷ load_css matches_style ∷ []
          else [])
        ++ (if q.code_fold then load_css fold_style ∷ [] else [])
        ++ load_script codemirror
          ∷ load_script modes
          ∷ load_script addons
          ∷ set_code_mirror
          ∷ (if not q.markdown
              then loaded_display ∷ []
              else set_toolbar
                ∷ load_script marked
                ∷ (if q.preview_code_highlight
                    then load_script prettify ∷ load_diagrams q
                    else load_diagrams q)))

unfoldable pub displays : List Action → ℕ
displays [] = 0
displays (loaded_display ∷ rest) = suc (displays rest)
displays (a ∷ rest) = displays rest

unfoldable pub ends_in_display : List Action → Bool
ends_in_display [] = false
ends_in_display (loaded_display ∷ []) = true
ends_in_display (a ∷ rest) = ends_in_display rest

unfoldable pub loads : (Script → Bool) → List Action → Bool
loads p [] = false
loads p (load_script s ∷ rest) = p s || loads p rest
loads p (a ∷ rest) = loads p rest

abbrev pub is_sequence : Script → Bool
is_sequence sequence_diagram = true
is_sequence _ = false

abbrev pub is_flowchart : Script → Bool
is_flowchart flowchart = true
is_flowchart _ = false

-- Whether the settings ask for a diagram's script, and the editor can have it.
abbrev pub wanted : Bool → Queue → Bool
wanted b q = q.markdown && not q.is_ie8 && b

abbrev same_bool : Bool → Bool → Bool
same_bool true b = b
same_bool false b = not b

same_bool-eq : (a b : Bool) → same_bool a b ≡ true → a ≡ b
same_bool-eq a b h = ground arith

all_bools : (Bool → Bool) → Bool
all_bools p = p true && p false

all_bools-at : (p : Bool → Bool) (b : Bool) → all_bools p ≡ true → p b ≡ true
unfolding all_bools
all_bools-at p true h = (&&-eq-true (p true) (p false) h).0
all_bools-at p false h = (&&-eq-true (p true) (p false) h).1

checked : Queue → Bool
checked q =
    let l = load_queues q in
    (displays l == 1)
    && (ends_in_display l
        && (same_bool (loads is_sequence l) (wanted q.sequence q)
            && same_bool (loads is_flowchart l) (wanted q.flow_chart q)))

checked_at : Bool → Bool → Bool → Bool → Bool → Bool → Bool → Bool → Bool
checked_at b0 b1 b2 b3 b4 b5 b6 b7 = checked (record {
  is_ie8 = b0;
  markdown = b1;
  search_replace = b2;
  read_only = b3;
  code_fold = b4;
  preview_code_highlight = b5;
  flow_chart = b6;
  sequence = b7;
})

every_setting :
    all_bools (λ b0. all_bools (λ b1. all_bools (λ b2. all_bools (λ b3. all_bools (λ b4.
      all_bools (λ b5. all_bools (λ b6. all_bools (λ b7. checked_at b0 b1 b2 b3 b4 b5 b6 b7))))))))
    ≡ true
unfolding checked_at checked all_bools load_queues load_diagrams displays ends_in_display loads
every_setting = refl

all_checked : (q : Queue) → checked q ≡ true
unfolding checked_at
all_checked q =
    all_bools-at
      (λ b7.
        checked_at q.is_ie8 q.markdown q.search_replace q.read_only q.code_fold
          q.preview_code_highlight q.flow_chart b7)
      q.sequence
      (all_bools-at
        (λ b6. all_bools (λ b7.
          checked_at q.is_ie8 q.markdown q.search_replace q.read_only q.code_fold
            q.preview_code_highlight b6 b7))
        q.flow_chart
        (all_bools-at
          (λ b5. all_bools (λ b6. all_bools (λ b7.
            checked_at q.is_ie8 q.markdown q.search_replace q.read_only q.code_fold b5 b6 b7)))
          q.preview_code_highlight
          (all_bools-at
            (λ b4. all_bools (λ b5. all_bools (λ b6.
              all_bools
                (λ b7. checked_at q.is_ie8 q.markdown q.search_replace q.read_only b4 b5 b6 b7))))
            q.code_fold
            (all_bools-at
              (λ b3. all_bools (λ b4. all_bools (λ b5. all_bools (λ b6.
                all_bools (λ b7. checked_at q.is_ie8 q.markdown q.search_replace b3 b4 b5 b6 b7)))))
              q.read_only
              (all_bools-at
                (λ b2. all_bools (λ b3. all_bools (λ b4. all_bools (λ b5.
                  all_bools
                    (λ b6. all_bools (λ b7. checked_at q.is_ie8 q.markdown b2 b3 b4 b5 b6 b7))))))
                q.search_replace
                (all_bools-at
                  (λ b1. all_bools (λ b2. all_bools (λ b3. all_bools (λ b4. all_bools (λ b5.
                    all_bools
                      (λ b6. all_bools (λ b7. checked_at q.is_ie8 b1 b2 b3 b4 b5 b6 b7)))))))
                  q.markdown
                  (all_bools-at
                    (λ b0. all_bools (λ b1. all_bools (λ b2. all_bools (λ b3. all_bools (λ b4.
                      all_bools (λ b5.
                        all_bools (λ b6. all_bools (λ b7. checked_at b0 b1 b2 b3 b4 b5 b6 b7))))))))
                    q.is_ie8 (every_setting))))))))

-- Whatever the settings are, loadedDisplay runs once, and last; the script of a diagram is loaded
-- exactly if its setting is on, the mode is Markdown and the browser is not IE 8.
pub displays-load_queues :
    (q : Queue)
    → (displays (load_queues q) ≡ 1)
      × (ends_in_display (load_queues q) ≡ true)
      × (loads is_sequence (load_queues q) ≡ wanted q.sequence q)
      × (loads is_flowchart (load_queues q) ≡ wanted q.flow_chart q)
unfolding checked
displays-load_queues q =
    let l = load_queues q in
    let (one, rest) = &&-eq-true (displays l == 1) _ (all_checked q) in
    let (end, scripts) = &&-eq-true (ends_in_display l) _ rest in
    let (sequence, flow) =
      &&-eq-true _ (same_bool (loads is_flowchart l) (wanted q.flow_chart q)) scripts in
    ((==_iff _ 1).0 one, end, same_bool-eq _ _ sequence, same_bool-eq _ _ flow)
