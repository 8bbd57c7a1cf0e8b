-- ===== src/Terminal/State/Compact.antt =====
-- packages/protocol/src/terminal-policy.ts: the compact JSON text of a value, by its length in bytes,
-- and which values are JSON data.
use loop_platform_zhb.Terminal.State.Direct.{
  Clone, fails, gives, absorb, key_bytes, key_clone, clone, clone_items, clone_props,
}
use loop_platform_zhb.Terminal.State.Walking.{
  resume_element-over, resume_element-fits, resume_property-cases,
}
use loop_platform_zhb.Base.{
  ℕ, suc, ◌+◌, ◌≤◌, ◌≡◌, refl, sym, ap, ◌∙◌, inl, inr, JsString, Bool, true, false, ◌&&◌, List, [],
  ◌∷◌, length, arith, Bool-cases,
}
use loop_platform_zhb.Terminal.{is_pg_representable_text}
use loop_platform_zhb.Terminal.State.{
  JsValue, null, boolean, number, string, other, array, object, Items, nil, cons, hole, Props, end,
  prop, TerminalStateFailure, terminal_state_max_compact_utf8_bytes, string_bytes, boolean_bytes,
  items_onto, props_onto, overflows, comma,
}

unfoldable mutual
  pub bytes : JsValue → ℕ
  bytes null = 4
  bytes (boolean b) = boolean_bytes b
  bytes (number finite text) = length text
  bytes (string s) = string_bytes s
  bytes other = 0
  bytes (array items) = 2 + item_bytes items 0
  bytes (object plain props) = 2 + prop_bytes props 0

  pub item_bytes : Items → ℕ → ℕ
  item_bytes nil index = 0
  item_bytes (cons v rest) index = comma index + bytes v + item_bytes rest (suc index)
  item_bytes (hole rest) index = 0

  pub prop_bytes : Props → ℕ → ℕ
  prop_bytes end index = 0
  prop_bytes (prop key v rest) index = key_bytes key index + bytes v + prop_bytes rest (suc index)

-- JSON data whose texts the database can hold.
unfoldable mutual
  pub is_json : JsValue → Bool
  is_json null = true
  is_json (boolean b) = true
  is_json (number finite text) = finite
  is_json (string s) = is_pg_representable_text s
  is_json other = false
  is_json (array items) = items_json items
  is_json (object plain props) = plain && props_json props

  pub items_json : Items → Bool
  items_json nil = true
  items_json (cons v rest) = is_json v && items_json rest
  items_json (hole rest) = false

  pub props_json : Props → Bool
  props_json end = true
  props_json (prop key v rest) = is_pg_representable_text key && is_json v && props_json rest

-- A given clone.
abbrev pub Faithful : JsValue → JsValue → ℕ → Type 0
Faithful v c b = (c ≡ v) × (b ≡ bytes v) × (is_json v ≡ true)

absorb-inv :
    (cl : Clone) (used : ℕ) (k : JsValue → ℕ → Clone) (c : JsValue) (b : ℕ)
    → absorb cl used k ≡ gives c b
    → (v : JsValue) × (n : ℕ) × (cl ≡ gives v n)
      × (overflows n used ≡ false)
      × (k v (used + n) ≡ gives c b)
absorb-inv (fails f) used k c b h = cc
absorb-inv (gives v n) used k c b h = elim (Bool-cases (overflows n used)) [
  | inl over ↦ absurd (ground arith)
  | inr fits ↦ (v, n, refl, fits, rw fits at h)
]

gives-inj : (c d : JsValue) (b n : ℕ) → gives c b ≡ gives d n → (c ≡ d) × (b ≡ n)
gives-inj c d b n h = (cc, cc)

failed_given : {f : TerminalStateFailure} {c : JsValue} {b : ℕ} → ¬ (fails f ≡ gives c b)
failed_given h = cc

key_admitted :
    (key : JsString) (index used : ℕ) (rest : Clone) (c : JsValue) (b : ℕ)
    → key_clone key index used rest ≡ gives c b
    → (is_pg_representable_text key ≡ true) × (overflows (key_bytes key index) used ≡ false)
key_admitted key index used rest c b h = (ground arith, ground arith)

mutual
  unfolding clone bytes is_json

  pub clone-Faithful : (v c : JsValue) (b : ℕ) → clone v ≡ gives c b → Faithful v c b
  clone-Faithful null c b h = (cc, cc, refl)
  clone-Faithful (boolean x) c b h = (cc, cc, refl)
  clone-Faithful (string s) c b h = ground arith
  clone-Faithful (number true text) c b h = (cc, cc, refl)
  clone-Faithful (number false text) c b h = cc
  clone-Faithful other c b h = cc
  clone-Faithful (array items) c b h =
      let (same, size, json, fits) = items-Faithful items 0 [] 2 c b h in (same, size, json)
  clone-Faithful (object true props) c b h =
      let (same, size, json, fits) = props-Faithful props 0 [] 2 c b h in (same, size, json)
  clone-Faithful (object false props) c b h = cc

  items-Faithful :
      (xs : Items) (index : ℕ) (done : List JsValue) (used : ℕ) (c : JsValue) (b : ℕ)
      → clone_items xs index done used ≡ gives c b
      → (c ≡ array (items_onto done xs))
        × (b ≡ used + item_bytes xs index)
        × (items_json xs ≡ true)
        × (used ≤ terminal_state_max_compact_utf8_bytes → b ≤ terminal_state_max_compact_utf8_bytes)
  items-Faithful nil index done used c b h =
      let (same, size) = gives-inj (array (items_onto done nil)) c used b h in
      (sym same, omega arith, refl, λ u. omega arith)
  items-Faithful (hole rest) index done used c b h = absurd (ground arith)
  items-Faithful (cons v rest) index done used c b h =
      elim (Bool-cases (overflows (comma index) used)) [
        | inl over ↦
            absurd (failed_given (sym (resume_element-over v rest index done used [] over).1 ∙ h))
        | inr fits ↦
            let go : JsValue → ℕ → Clone = λ u n. clone_items rest (suc index) (u ∷ done) n in
            let all = (resume_element-fits v rest index done used [] fits).1 in
            let (u, n, e, room, k) =
              absorb-inv (clone v) (used + comma index) go c b (sym all ∙ h) in
            let (same, size, json) = clone-Faithful v u n e in
            let (whole, total, good, bound) =
              items-Faithful rest (suc index) (u ∷ done) (used + comma index + n) c b k in
            (
              whole ∙ ap (λ x. array (items_onto done (cons x rest))) same,
              omega arith,
              rw (json, good) refl,
              λ h. bound (ground arith),
            )
      ]

  pub props-Faithful :
      (ps : Props) (index : ℕ) (done : List (JsString × JsValue)) (used : ℕ) (c : JsValue) (b : ℕ)
      → clone_props ps index done used ≡ gives c b
      → (c ≡ object true (props_onto done ps))
        × (b ≡ used + prop_bytes ps index)
        × (props_json ps ≡ true)
        × (used ≤ terminal_state_max_compact_utf8_bytes → b ≤ terminal_state_max_compact_utf8_bytes)
  props-Faithful end index done used c b h =
      let (same, size) = gives-inj (object true (props_onto done end)) c used b h in
      (sym same, omega arith, refl, λ u. omega arith)
  props-Faithful (prop key v rest) index done used c b h =
      elim (resume_property-cases key v rest index done used []) [
        | inl (f, both) ↦ absurd (failed_given (sym both.1 ∙ h))
        | inr both ↦
            let go : JsValue → ℕ → Clone =
              λ u n. clone_props rest (suc index) ((key, u) ∷ done) n in
            let (u, n, e, room, k) =
              absorb-inv (clone v) (used + key_bytes key index) go c b (sym both.1 ∙ h) in
            let (same, size, json) = clone-Faithful v u n e in
            let (whole, total, good, bound) =
              props-Faithful rest (suc index) ((key, u) ∷ done) (used + key_bytes key index + n) c b
                k in
            let (fine, admitted) = key_admitted key index used _ c b h in
            (
              whole ∙ ap (λ x. object true (props_onto done (prop key x rest))) same,
              omega arith,
              rw (fine, json, good) refl,
              λ h. bound (ground arith),
            )
      ]
