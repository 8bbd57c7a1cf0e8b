-- ===== src/Terminal/State/Accepted.antt =====
-- packages/protocol/src/terminal-policy.ts: the accepted terminal states.
use loop_platform_zhb.Terminal.State.Direct.{
  Clone, fails, gives, absorb, key_bytes, key_clone, clone, clone_items, clone_props,
}
use loop_platform_zhb.Terminal.State.Walking.{resume_element-fits, visit_runs, proceed}
use loop_platform_zhb.Base.{
  ℕ, suc, ◌+◌, ◌≤◌, ◌≡◌, ◌≢◌, refl, sym, ap, ◌∙◌, JsString, Bool, true, false, List, [], ◌∷◌,
  length, arith,
}
use loop_platform_zhb.Terminal.{is_pg_representable_text}
use loop_platform_zhb.Terminal.State.{
  JsValue, null, boolean, number, string, other, array, object, Items, nil, cons, hole, Props, end,
  prop, terminal_state_max_compact_utf8_bytes, string_bytes, items_onto, props_onto, overflows,
  comma,
}
use loop_platform_zhb.Base.{◌↔◌}
use loop_platform_zhb.Terminal.Unicode.{length-le-utf8_length}
use loop_platform_zhb.Terminal.State.{
  TerminalStateValidation, ok, rejected, unfinished, outcome, attach, clone_terminal_state,
  validate_terminal_state,
}
use loop_platform_zhb.Terminal.State.Compact.{
  bytes, item_bytes, prop_bytes, is_json, items_json, props_json, props-Faithful,
}

length-le-string_bytes : (s : JsString) → length s ≤ string_bytes s
unfolding string_bytes
length-le-string_bytes s = omega (arith, length-le-utf8_length s)

absorbed :
    (cl : Clone) (v : JsValue) (n used : ℕ) (k : JsValue → ℕ → Clone)
    → cl ≡ gives v n
    → used + n ≤ terminal_state_max_compact_utf8_bytes
    → absorb cl used k ≡ k v (used + n)
absorbed cl v n used k h fits =
    let room : overflows n used ≡ false = ground arith in rw (h, room) refl

key_fits :
    (key : JsString) (index used : ℕ) (rest : Clone)
    → is_pg_representable_text key ≡ true
    → used + key_bytes key index ≤ terminal_state_max_compact_utf8_bytes
    → key_clone key index used rest ≡ rest
key_fits key index used rest fine fits = ground (arith, length-le-string_bytes key)

string_fits :
    (s : JsString)
    → is_pg_representable_text s ≡ true
    → string_bytes s ≤ terminal_state_max_compact_utf8_bytes
    → clone (string s) ≡ gives (string s) (string_bytes s)
unfolding clone
string_fits s fine fits = ground (arith, length-le-string_bytes s)

mutual
  unfolding bytes is_json clone

  clone_complete :
      (v : JsValue)
      → is_json v ≡ true
      → bytes v ≤ terminal_state_max_compact_utf8_bytes
      → clone v ≡ gives v (bytes v)
  clone_complete null h k = refl
  clone_complete (boolean b) h k = refl
  clone_complete (number true text) h k = refl
  clone_complete (number false text) h k = cc
  clone_complete (string s) h k = string_fits s h k
  clone_complete other h k = cc
  clone_complete (array items) h k = items_complete items 0 [] 2 h k
  clone_complete (object true props) h k = props_complete props 0 [] 2 h k
  clone_complete (object false props) h k = cc

  items_complete :
      (xs : Items) (index : ℕ) (done : List JsValue) (used : ℕ)
      → items_json xs ≡ true
      → used + item_bytes xs index ≤ terminal_state_max_compact_utf8_bytes
      → clone_items xs index done used
        ≡ gives (array (items_onto done xs)) (used + item_bytes xs index)
  items_complete nil index done used h k = ap (gives (array (items_onto done nil))) (omega arith)
  items_complete (hole rest) index done used h k = cc
  items_complete (cons v rest) index done used h k =
      let room : overflows (comma index) used ≡ false = ground arith in
      let go : JsValue → ℕ → Clone = λ u n. clone_items rest (suc index) (u ∷ done) n in
      (resume_element-fits v rest index done used [] room).1
      ∙ absorbed (clone v) v (bytes v) (used + comma index) go
          (clone_complete v (ground arith) (omega arith)) (omega arith)
      ∙ items_complete rest (suc index) (v ∷ done) (used + comma index + bytes v) (ground arith)
          (omega arith)
      ∙ ap (gives (array (items_onto done (cons v rest)))) (omega arith)

  props_complete :
      (ps : Props) (index : ℕ) (done : List (JsString × JsValue)) (used : ℕ)
      → props_json ps ≡ true
      → used + prop_bytes ps index ≤ terminal_state_max_compact_utf8_bytes
      → clone_props ps index done used
        ≡ gives (object true (props_onto done ps)) (used + prop_bytes ps index)
  props_complete end index done used h k =
      ap (gives (object true (props_onto done end))) (omega arith)
  props_complete (prop key v rest) index done used h k =
      let go : JsValue → ℕ → Clone = λ u n. clone_props rest (suc index) ((key, u) ∷ done) n in
      key_fits key index used (absorb (clone v) (used + key_bytes key index) go) (ground arith)
        (omega arith)
      ∙ absorbed (clone v) v (bytes v) (used + key_bytes key index) go
          (clone_complete v (ground arith) (omega arith)) (omega arith)
      ∙ props_complete rest (suc index) ((key, v) ∷ done) (used + key_bytes key index + bytes v)
          (ground arith) (omega arith)
      ∙ ap (gives (object true (props_onto done (prop key v rest)))) (omega arith)

clone_terminal_state-proceeds :
    (v : JsValue) → clone_terminal_state v ≡ outcome (proceed (clone v) [])
unfolding clone_terminal_state
clone_terminal_state-proceeds v = ap outcome (visit_runs v [])

-- The result that the recursive description stands for: never `unfinished`.
abbrev pub answer : Clone → TerminalStateValidation
answer (fails f) = rejected f
answer (gives c b) = ok c

outcome-answer : (c : Clone) → outcome (proceed c []) ≡ answer c
unfolding outcome attach
outcome-answer (fails f) = refl
outcome-answer (gives c b) = refl

answer_ended : (c : Clone) → answer c ≢ unfinished
answer_ended (fails f) h = cc
answer_ended (gives c b) h = cc

-- The iterative walk with its explicit frames, run for the turns allotted to a value, always ends,
-- and its result is the clone or the first failure that the recursive description computes.
pub clone_terminal_state-clone :
    (v : JsValue)
    → (clone_terminal_state v ≢ unfinished) × (clone_terminal_state v ≡ answer (clone v))
clone_terminal_state-clone v =
    let same = clone_terminal_state-proceeds v ∙ outcome-answer (clone v) in
    (λ h. answer_ended (clone v) (sym same ∙ h), same)

answer-ok : (cl : Clone) (c : JsValue) → answer cl ≡ ok c → (b : ℕ) × (cl ≡ gives c b)
answer-ok (fails f) c h = cc
answer-ok (gives v b) c h = (b, cc)

abbrev pub is_object : JsValue → Bool
is_object (object plain props) = true
is_object _ = false

-- A state that may be stored.
pub record IsState (v : JsValue) : Type 0 where
  pub shape : is_object v ≡ true
  pub json : is_json v ≡ true
  pub fits : bytes v ≤ terminal_state_max_compact_utf8_bytes

object_accepted :
    (plain : Bool) (props : Props) (c : JsValue)
    → clone_terminal_state (object plain props) ≡ ok c
    → (c ≡ object plain props) × IsState (object plain props)
unfolding clone bytes is_json
object_accepted false props c h =
    let (b, e) =
      answer-ok (clone (object false props)) c
        (sym (clone_terminal_state-clone (object false props)).1 ∙ h) in
    absurd (cc)
object_accepted true props c h =
    let (b, e) =
      answer-ok (clone (object true props)) c
        (sym (clone_terminal_state-clone (object true props)).1 ∙ h) in
    let (same, size, json, bound) = props-Faithful props 0 [] 2 c b e in
    (same, record { shape = refl; json = json; fits = ground (arith, bound (omega arith)) })

object_stored :
    (plain : Bool) (props : Props)
    → IsState (object plain props)
    → clone_terminal_state (object plain props) ≡ ok (object plain props)
object_stored plain props s =
    (clone_terminal_state-clone (object plain props)).1
    ∙ ap answer (clone_complete (object plain props) s.json s.fits)

no_object : (v c : JsValue) → is_object v ≡ false → ¬ ((c ≡ v) × IsState v)
no_object v c h s = ground (arith, s.1.shape)

-- A terminal state is accepted exactly when it is an object of JSON data (finite numbers, no holes,
-- plain objects, texts without NUL or unpaired surrogates) whose compact text is at most 65536
-- bytes, and what is stored is the value itself.
pub validate_terminal_state_iff :
    (v c : JsValue) → (validate_terminal_state v ≡ ok c) ↔ ((c ≡ v) × IsState v)
unfolding validate_terminal_state
validate_terminal_state_iff (object plain props) c =
    (object_accepted plain props c, λ s. object_stored plain props s.1 ∙ ap ok (sym s.0))
validate_terminal_state_iff null c = ((λ h. cc), λ s. absurd (no_object null c refl s))
validate_terminal_state_iff (boolean b) c =
    ((λ h. cc), λ s. absurd (no_object (boolean b) c refl s))
validate_terminal_state_iff (number f t) c =
    ((λ h. cc), λ s. absurd (no_object (number f t) c refl s))
validate_terminal_state_iff (string t) c = ((λ h. cc), λ s. absurd (no_object (string t) c refl s))
validate_terminal_state_iff other c = ((λ h. cc), λ s. absurd (no_object other c refl s))
validate_terminal_state_iff (array items) c =
    ((λ h. cc), λ s. absurd (no_object (array items) c refl s))
