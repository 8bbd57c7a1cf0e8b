-- ===== src/Terminal/State/Walking.antt =====
-- packages/protocol/src/terminal-policy.ts: the walk of `cloneTerminalState` beside the recursive
-- clone.
use loop_platform_zhb.Base.{
  ℕ, zero, suc, ◌+◌, ◌≡◌, refl, sym, ap, ◌∙◌, inl, inr, JsString, true, false, List, [], ◌∷◌,
  length, ltb, arith, Bool-cases, ◌⊎◌,
}
use loop_platform_zhb.Terminal.{is_pg_representable_text}
use loop_platform_zhb.Terminal.State.{
  JsValue, null, boolean, number, string, other, array, object, Items, nil, cons, hole, Props, end,
  prop, TerminalStateFailure, not_json, too_large, terminal_state_max_compact_utf8_bytes,
  array_frame, object_frame, Pending, element, property, Walk, visiting, resuming, failed,
  overflows, attach, visit, comma, resume, step, run, turns, item_turns, prop_turns,
}
use loop_platform_zhb.Terminal.State.Direct.{
  Clone, fails, gives, absorb, key_bytes, clone, clone_items, clone_props,
}

-- What the walk does with a clone.
abbrev pub proceed : Clone → List Pending → Walk
proceed (fails f) frames = failed f
proceed (gives c b) frames = attach c b frames

run_failed : (n : ℕ) (f : TerminalStateFailure) → run n (failed f) ≡ failed f
unfolding run step
run_failed zero f = refl
run_failed (suc n) f = run_failed n f

run_plus : (a b : ℕ) (w : Walk) → run (a + b) w ≡ run b (run a w)
unfolding run
run_plus zero b w = let none_more : 0 + b ≡ b = omega arith in ap (λ n. run n w) none_more
run_plus (suc a) b w =
    let more : suc a + b ≡ suc (a + b) = omega arith in
    ap (λ n. run n w) more ∙ run_plus a b (step w)

-- A child is visited, absorbed, and the frame below goes on.
absorb_element :
    (c : Clone) (rest : Items) (index : ℕ) (done : List JsValue) (used n : ℕ)
    (frames : List Pending)
    → ((v : JsValue) (b : ℕ)
        → run n (resuming (array_frame rest index (v ∷ done) b) frames)
          ≡ proceed (clone_items rest index (v ∷ done) b) frames)
    → run n (proceed c (element rest index done used ∷ frames))
      ≡ proceed (absorb c used (λ v b. clone_items rest index (v ∷ done) b)) frames
unfolding attach
absorb_element (fails f) rest index done used n frames go = run_failed n f
absorb_element (gives v b) rest index done used n frames go = elim (Bool-cases (overflows b used)) [
  | inl over ↦ rw over (run_failed n too_large)
  | inr fits ↦ rw fits (go v (used + b))
]

absorb_property :
    (c : Clone) (key : JsString) (rest : Props) (index : ℕ) (done : List (JsString × JsValue))
    (used n : ℕ) (frames : List Pending)
    → ((v : JsValue) (b : ℕ)
        → run n (resuming (object_frame rest index ((key, v) ∷ done) b) frames)
          ≡ proceed (clone_props rest index ((key, v) ∷ done) b) frames)
    → run n (proceed c (property key rest index done used ∷ frames))
      ≡ proceed (absorb c used (λ v b. clone_props rest index ((key, v) ∷ done) b)) frames
unfolding attach
absorb_property (fails f) key rest index done used n frames go = run_failed n f
absorb_property (gives v b) key rest index done used n frames go =
    elim (Bool-cases (overflows b used)) [
      | inl over ↦ rw over (run_failed n too_large)
      | inr fits ↦ rw fits (go v (used + b))
    ]

-- One turn at an element, and the clone of it.
module _ (v : JsValue) (rest : Items) (index : ℕ) (done : List JsValue) (used : ℕ)
    (frames : List Pending) where
  pub resume_element-over :
      overflows (comma index) used ≡ true
      → (resume (array_frame (cons v rest) index done used) frames ≡ failed too_large)
        × (clone_items (cons v rest) index done used ≡ fails too_large)
  unfolding resume clone_items
  resume_element-over h = (rw (h, resume) refl, rw (h, clone_items) refl)

  pub resume_element-fits :
      overflows (comma index) used ≡ false
      → (resume (array_frame (cons v rest) index done used) frames
          ≡ visiting v (element rest (suc index) done (used + comma index) ∷ frames))
        × (clone_items (cons v rest) index done used
            ≡ absorb
                (clone v)
                (used + comma index)
                (λ c b. clone_items rest (suc index) (c ∷ done) b))
  unfolding resume clone_items
  resume_element-fits h = (rw (h, resume) refl, rw (h, clone_items) refl)

-- The same at a property: the key is refused, with what failure, or admitted.
module _ (key : JsString) (v : JsValue) (rest : Props) (index : ℕ)
    (done : List (JsString × JsValue)) (used : ℕ) (frames : List Pending) where
  abbrev pub Refuses : TerminalStateFailure → Type 0
  Refuses f =
      (resume (object_frame (prop key v rest) index done used) frames ≡ failed f)
      × (clone_props (prop key v rest) index done used ≡ fails f)

  abbrev pub Admits : Type 0
  Admits =
      (resume (object_frame (prop key v rest) index done used) frames
        ≡ visiting v (property key rest (suc index) done (used + key_bytes key index) ∷ frames))
      × (clone_props (prop key v rest) index done used
          ≡ absorb (clone v) (used + key_bytes key index)
              (λ c b. clone_props rest (suc index) ((key, c) ∷ done) b))

  pub resume_property-cases : ((f : TerminalStateFailure) × Refuses f) ⊎ Admits
  unfolding resume clone_props
  resume_property-cases = elim (Bool-cases (is_pg_representable_text key)) [
    | inr foreign ↦ inl (not_json, (rw (foreign, resume) refl, rw (foreign, clone_props) refl))
    | inl fine ↦ elim (Bool-cases (ltb terminal_state_max_compact_utf8_bytes (length key))) [
      | inl long ↦
          inl (too_large, (rw (fine, long, resume) refl, rw (fine, long, clone_props) refl))
      | inr short ↦ elim (Bool-cases (overflows (key_bytes key index) used)) [
        | inl over ↦ inl (
          too_large,
          (rw (fine, short, over, resume) refl, rw (fine, short, over, clone_props) refl),
        )
        | inr fits ↦
            inr (rw (fine, short, fits, resume) refl, rw (fine, short, fits, clone_props) refl)
      ]
    ]
  ]

-- A turn that fails, whatever turns are left.
failing :
    (n : ℕ) (w : Walk) (c : Clone) (f : TerminalStateFailure) (frames : List Pending)
    → w ≡ failed f
    → c ≡ fails f
    → run n w ≡ proceed c frames
failing n w c f frames h k = ap (run n) h ∙ run_failed n f ∙ ap (λ x. proceed x frames) (sym k)

mutual
  unfolding run step visit resume attach clone turns

  pub visit_runs :
      (v : JsValue) (frames : List Pending)
      → run (turns v) (visiting v frames) ≡ proceed (clone v) frames
  visit_runs null frames = refl
  visit_runs (boolean b) frames = refl
  visit_runs (string s) frames = elim (Bool-cases (is_pg_representable_text s)) [
    | inr foreign ↦ rw foreign refl
    | inl fine ↦ elim (Bool-cases (ltb terminal_state_max_compact_utf8_bytes (length s))) [
      | inl long ↦ rw (fine, long) refl
      | inr short ↦ rw (fine, short) refl
    ]
  ]
  visit_runs (number true text) frames = refl
  visit_runs (number false text) frames = refl
  visit_runs other frames = refl
  visit_runs (array items) frames = items_run items 0 [] 2 frames
  visit_runs (object true props) frames = props_run props 0 [] 2 frames
  visit_runs (object false props) frames = run_failed (prop_turns props) not_json

  items_run :
      (xs : Items) (index : ℕ) (done : List JsValue) (used : ℕ) (frames : List Pending)
      → run (item_turns xs) (resuming (array_frame xs index done used) frames)
        ≡ proceed (clone_items xs index done used) frames
  items_run nil index done used frames = refl
  items_run (hole rest) index done used frames = elim (Bool-cases (overflows (comma index) used)) [
    | inl over ↦ rw over refl
    | inr fits ↦ rw fits refl
  ]
  items_run (cons v rest) index done used frames =
      elim (Bool-cases (overflows (comma index) used)) [
        | inl over ↦
            let (turn, all) = resume_element-over v rest index done used frames over in
            failing (turns v + item_turns rest) _ _ too_large frames turn all
        | inr fits ↦
            let (turn, all) = resume_element-fits v rest index done used frames fits in
            let below = element rest (suc index) done (used + comma index) ∷ frames in
            ap (run (turns v + item_turns rest)) turn
            ∙ run_plus (turns v) (item_turns rest) (visiting v below)
            ∙ ap (run (item_turns rest)) (visit_runs v below)
            ∙ absorb_element (clone v) rest (suc index) done (used + comma index) (item_turns rest)
                frames (λ u b. items_run rest (suc index) (u ∷ done) b frames)
            ∙ ap (λ c. proceed c frames) (sym all)
      ]

  props_run :
      (ps : Props) (index : ℕ) (done : List (JsString × JsValue)) (used : ℕ) (frames : List Pending)
      → run (prop_turns ps) (resuming (object_frame ps index done used) frames)
        ≡ proceed (clone_props ps index done used) frames
  props_run end index done used frames = refl
  props_run (prop key v rest) index done used frames =
      let n = turns v + prop_turns rest in
      elim (resume_property-cases key v rest index done used frames) [
        | inl (f, both) ↦ failing n _ _ f frames both.0 both.1
        | inr (turn, all) ↦
            let below = property key rest (suc index) done (used + key_bytes key index) ∷ frames in
            ap (run n) turn
            ∙ run_plus (turns v) (prop_turns rest) (visiting v below)
            ∙ ap (run (prop_turns rest)) (visit_runs v below)
            ∙ absorb_property (clone v) key rest (suc index) done (used + key_bytes key index)
                (prop_turns rest) frames
                (λ u b. props_run rest (suc index) ((key, u) ∷ done) b frames)
            ∙ ap (λ c. proceed c frames) (sym all)
      ]
